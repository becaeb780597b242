-- ===== src/Selector/Runs.antt =====
-- Sequences of calls on a selector, against a finite map from descriptors to what is watched.
use yamq.Prelude.{
  ℕ, ◌≡◌, ◌≢◌, refl, sym, ap, ◌∙◌, inl, inr, Option, none, some, List, [], ◌∷◌, ◌==◌, ==_iff,
  Bool-cases, if◌then◌else◌, ◌>>=◌,
}
use yamq.Selector.{Interest, interest, Ret, ret_0, Selector}

pub data Request : Type 0 where
  adds : ℕ → ℕ → Request
  updates : ℕ → ℕ → Request
  removes : ℕ → Request

abbrev pub Interests : Type 0
Interests = ℕ → Option Interest

abbrev pub write : Interests → ℕ → Option Interest → Interests
write m fd w i = if i == fd then w else m i

abbrev pub map_step : Request → Interests → Interests
map_step (adds fd events) m = write m fd (some (interest events))
map_step (updates fd events) m = write m fd (some (interest events))
map_step (removes fd) m = write m fd none

abbrev pub map_run : List Request → Interests → Interests
map_run [] m = m
map_run (r ∷ rs) m = map_run rs (map_step r m)

-- The requests that the contract is about: a new descriptor is added, a watched one updated or removed.
abbrev pub Meant : Request → Interests → Type 0
Meant (adds fd events) m = m fd ≡ none
Meant (updates fd events) m = m fd ≢ none
Meant (removes fd) m = m fd ≢ none

abbrev pub Meants : List Request → Interests → Type 0
Meants [] m = Unit {0}
Meants (r ∷ rs) m = Meant r m × Meants rs (map_step r m)

module _ {S : Type 0} (sel : Selector S) where
  abbrev pub accepted : Option (Ret × S) → Option S
  accepted (some (ret_0, s)) = some s
  accepted o = none

  pub request : Request → S → Option S
  request (adds fd events) s = accepted (sel.add s fd events)
  request (updates fd events) s = accepted (sel.update s fd events)
  request (removes fd) s = accepted (sel.remove s fd)

  pub run : List Request → S → Option S
  unfolding request
  run [] s = some s
  run (r ∷ rs) s = request r s >>= run rs

  write-watched :
      (s s' : S) (m : Interests) (fd : ℕ) (w : Option Interest)
      → ((i : ℕ) → sel.watched s i ≡ m i)
      → sel.watched s' fd ≡ w
      → ((i : ℕ) → i ≢ fd → sel.watched s' i ≡ sel.watched s i)
      → (i : ℕ) → sel.watched s' i ≡ write m fd w i
  write-watched s s' m fd w same now kept i = elim (Bool-cases (i == fd)) [
    | inl e ↦ rw e (ap (sel.watched s') ((==_iff i fd).0 e) ∙ now)
    | inr e ↦ rw e (kept i (λ d. cc ((==_iff i fd).1 d)) ∙ same i)
  ]

  request-map_step :
      (r : Request) (s : S) (m : Interests)
      → sel.Valid s
      → ((i : ℕ) → sel.watched s i ≡ m i)
      → Meant r m
      → (s' : S) × (request r s ≡ some s')
        × sel.Valid s'
        × ((i : ℕ) → sel.watched s' i ≡ map_step r m i)
  unfolding request
  request-map_step (adds fd events) s m v same h =
      let (s', e, v', now, kept) = sel.add_watched s fd events v (same fd ∙ h) in
      (s', rw e, v', write-watched s s' m fd (some (interest events)) same now kept)
  request-map_step (updates fd events) s m v same h =
      let (s', e, v', now, kept) = sel.update_watched s fd events v (λ d. h (sym (same fd) ∙ d)) in
      (s', rw e, v', write-watched s s' m fd (some (interest events)) same now kept)
  request-map_step (removes fd) s m v same h =
      let (s', e, v', now, kept) = sel.remove_watched s fd v (λ d. h (sym (same fd) ∙ d)) in
      (s', rw e, v', write-watched s s' m fd none same now kept)

  pub run-map_run :
      (rs : List Request) (s : S) (m : Interests)
      → sel.Valid s
      → ((i : ℕ) → sel.watched s i ≡ m i)
      → Meants rs m
      → (s' : S) × (run rs s ≡ some s')
        × sel.Valid s'
        × ((i : ℕ) → sel.watched s' i ≡ map_run rs m i)
  unfolding run
  run-map_run [] s m v same h = (s, refl, v, same)
  run-map_run (r ∷ rs) s m v same (h, hs) =
      let (s1, e1, v1, same1) = request-map_step r s m v same h in
      let (s2, e2, v2, same2) = run-map_run rs s1 (map_step r m) v1 same1 hs in
      (s2, rw (e1, run) e2, v2, same2)
