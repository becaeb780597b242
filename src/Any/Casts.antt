-- ===== src/Any/Casts.antt =====
-- Casts after copies and assignments of base/std/any.h.
use std.HLevel.{hedberg}
use std.Path.{subst_refl}
use yamq.Prelude.{
  ℕ, ◌≡◌, ◌≢◌, ◌⊎◌, inl, inr, refl, sym, ap, subst, ◌∙◌, Option, none, some, ==_false, ==-self,
}
use yamq.Any.{
  no_content, Holder, Holders, store, copy_any, delete_any, assign_any, held_as, any_cast,
}

module _ {T : Type 0} (El : T → Type 0) (same : Discrete T) where
  decided_same :
      (t : T) (v : El t) (d : Dec (t ≡ t))
      → (elim d [ yes q ↦ some (subst El q v) | no q ↦ none ]) ≡ some v
  decided_same t v (yes q) =
      ap some (ap (λ p. subst El p v) (hedberg same t t q refl) ∙ subst_refl El v)
  decided_same t v (no q) = absurd (q refl)

  decided_other :
      (s t : T) (v : El t) (d : Dec (t ≡ s))
      → t ≢ s
      → (elim d [ yes q ↦ some (subst El q v) | no q ↦ none ]) ≡ none
  decided_other s t v (yes q) ne = absurd (ne q)
  decided_other s t v (no q) ne = refl

  -- A cast to the type that is held gives the value, and one to another type nothing.
  any_cast-held :
      (h : Holders El) (p : ℕ) (t : T) (v : El t)
      → p ≢ no_content
      → h p ≡ some (record { type_ = t; held = v })
      → (any_cast El same h t p ≡ some (some v))
        × ((s : T) → t ≢ s → any_cast El same h s p ≡ some none)
  unfolding any_cast held_as
  any_cast-held h p t v ok at = (
    rw (==_false p no_content ok, at, decided_same t v (same t t)) refl,
    λ s ne. rw (==_false p no_content ok, at, decided_other s t v (same t s) ne) refl,
  )

  -- An `Any` that holds the value, and no other type.
  pub record Casts (h : Holders El) (p : ℕ) (t : T) (v : El t) : Type 0 where
    pub to_held : any_cast El same h t p ≡ some (some v)
    pub to_other : (s : T) → t ≢ s → any_cast El same h s p ≡ some none

  casts :
      (h : Holders El) (p : ℕ) (t : T) (v : El t)
      → p ≢ no_content
      → h p ≡ some (record { type_ = t; held = v })
      → Casts h p t v
  casts h p t v ok at =
      let (a, b) = any_cast-held h p t v ok at in record { to_held = a; to_other = b }

  -- After an assignment: a copy of its own at the new content, and nothing at the old one.
  pub record Assigned (run : Option (ℕ × Holders El)) (this rhs : ℕ) (t : T) (v : El t)
      : Type 0 where
    pub content : ℕ
    pub heap : Holders El
    pub result : run ≡ some (content, heap)
    pub apart : content ≢ rhs
    pub copied : Casts heap content t v
    pub kept : Casts heap rhs t v
    pub freed : (this ≡ no_content) ⊎ (heap this ≡ none)

  -- The assignment of an Any that holds a value to another, empty or with a live content, with a
  -- fresh address from new, succeeds: the target has a content of its own, from which a cast to the
  -- type held gives the value and one to any other type a null pointer, the source still gives the
  -- same, and the old content is deleted.
  pub assign_any-Assigned :
      (h : Holders El) (fresh this rhs : ℕ) (t : T) (v : El t)
      → rhs ≢ no_content
      → h rhs ≡ some (record { type_ = t; held = v })
      → ((this ≡ no_content) ⊎ ((x : Holder El) × (this ≢ no_content) × (h this ≡ some x)))
      → this ≢ rhs
      → fresh ≢ no_content
      → h fresh ≡ none
      → Assigned (assign_any El h fresh this rhs) this rhs t v
  unfolding assign_any copy_any delete_any
  assign_any-Assigned h fresh this rhs t v ok at (inl empty) apart new free =
      let other : fresh ≢ rhs = λ q. cc (free, at, ap h q) in
      let held : Holder El = record { type_ = t; held = v } in
      let h' = store El h fresh (some held) in
      record {
        content = fresh;
        heap = h';
        result = rw (==_false rhs no_content ok, at, empty) refl;
        apart = other;
        copied = casts h' fresh t v new (rw (==-self fresh) refl);
        kept = casts h' rhs t v ok (rw (==_false rhs fresh (λ q. other (sym q))) at);
        freed = inl empty;
      }
  assign_any-Assigned h fresh this rhs t v ok at (inr (x, full, old)) apart new free =
      let other : fresh ≢ rhs = λ q. cc (free, at, ap h q) in
      let unlike : fresh ≢ this = λ q. cc (free, old, ap h q) in
      let held : Holder El = record { type_ = t; held = v } in
      let h' = store El (store El h fresh (some held)) this none in
      record {
        content = fresh;
        heap = h';
        result =
            rw
              (
                ==_false rhs no_content ok,
                at,
                ==_false this no_content full,
                ==_false this fresh (λ q. unlike (sym q)),
                old,
              )
              refl;
        apart = other;
        copied = casts h' fresh t v new (rw (==_false fresh this unlike, ==-self fresh) refl);
        kept = casts h' rhs t v ok (
            rw (==_false rhs this (λ q. apart (sym q)), ==_false rhs fresh (λ q. other (sym q)))
              at);
        freed = inr (rw (==-self this) refl);
      }
