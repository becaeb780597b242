-- ===== src/Tcp/Ids.antt =====
-- The search for a free number: nextId of rpc/tcp/server.cpp, rpc/tcp/server_multi.cpp and
-- rpc/timer/timer_queue_base.cpp, which differ in where they start and in the width of the number.
use yamq.Prelude.{
  ℤ, pos, negsuc, ℕ, zero, suc, ◌+◌, ◌^◌, ◌≤◌, ◌<◌, ◌≡◌, ◌≢◌, refl, sym, ap, ◌∙◌, ◌⊎◌, inl, inr,
  Option, none, some, arith, length, ltb, lt→ltb, if◌then◌else◌, Map, find, erase, IsUnique,
  find-erase_ne, length-erase, erase-IsUnique, Option-cases,
}

-- A negative number is set back.
abbrev pub set_back : ℕ → ℤ → ℕ
set_back first (pos n) = n
set_back first (negsuc n) = first

module _ {ℓ} {V : Type ℓ} (first limit : ℕ) where
  -- The loop; `none` where the increment overflows or the fuel does not suffice.
  unfoldable pub next_loop : ℕ → Map V → ℤ → Option ℕ
  next_loop zero m id = none
  next_loop (suc fuel) m id =
      let next = set_back first id in
      let rest = next_loop fuel m (pos (next + 1)) in
      elim (find next m) [ some v ↦ if ltb (next + 1) limit then rest else none | none ↦ some next ]

  -- A smaller key makes no difference.
  next_loop-erase :
      (fuel : ℕ) (m : Map V) (i j : ℕ)
      → j < i
      → next_loop fuel (erase j m) (pos i) ≡ next_loop fuel m (pos i)
  unfolding next_loop
  next_loop-erase zero m i j h = refl
  next_loop-erase (suc fuel) m i j h =
      let same = find-erase_ne {i = i} {k = j} m (omega arith) in
      elim (Option-cases (find i m)) [
        | inl e ↦ rw (next_loop, same ∙ e, e)
        | inr (v, e) ↦
            rw (next_loop, same ∙ e, e)
              (ap (λ r. if ltb (i + 1) limit then r else none)
                (next_loop-erase fuel m (i + 1) j (omega arith)))
      ]

  -- The first number from `start` on that no key has.
  pub record FirstFree (m : Map V) (start k : ℕ) : Type ℓ where
    pub free : find k m ≡ none
    pub from : start ≤ k
    pub taken : (j : ℕ) → start ≤ j → j < k → find j m ≢ none

  next_loop-from :
      (fuel : ℕ) (m : Map V) (i : ℕ)
      → IsUnique m
      → length m < fuel
      → i + length m < limit
      → (k : ℕ) × (next_loop fuel m (pos i) ≡ some k) × FirstFree m i k
  unfolding next_loop
  next_loop-from zero m i u h b = absurd (omega arith)
  next_loop-from (suc fuel) m i u h b = elim (Option-cases (find i m)) [
    | inl e ↦ (
      i,
      rw (next_loop, e),
      record { free = e; from = omega arith; taken = λ j p q. absurd (omega arith) },
    )
    | inr (v, e) ↦
        let size = length-erase i v m u e in
        let (k, r, f) =
          next_loop-from fuel (erase i m) (i + 1) (erase-IsUnique i m u) (omega arith)
            (omega arith) in
        (
          k,
          rw (next_loop, e, lt→ltb (i + 1) limit (omega arith))
              (sym (next_loop-erase fuel m (i + 1) i (omega arith)) ∙ r),
          record {
            free = sym (find-erase_ne {i = k} {k = i} m (omega (arith, f.from))) ∙ f.free;
            from = omega (arith, f.from);
            taken = λ j p q w. elim (here_or_later j p) [
              | inl same ↦ cc (ap (λ x. find x m) same)
              | inr later ↦ f.taken j later q (find-erase_ne {i = j} {k = i} m (omega arith) ∙ w)
            ];
          },
        )
  ]
    where
      here_or_later : (j : ℕ) → i ≤ j → (j ≡ i) ⊎ (i + 1 ≤ j)
      here_or_later j p = grind arith

  -- In a table whose keys are distinct, with fuel above their number, and the first candidate plus
  -- that number below the limit of the type, nextId ends and yields the first number from the
  -- candidate on, a negative one being set back, that is no key.
  pub next_loop-FirstFree :
      (fuel : ℕ) (m : Map V) (id : ℤ)
      → IsUnique m
      → length m < fuel
      → set_back first id + length m < limit
      → (k : ℕ) × (next_loop fuel m id ≡ some k) × FirstFree m (set_back first id) k
  unfolding next_loop
  next_loop-FirstFree zero m id u h b = absurd (omega arith)
  next_loop-FirstFree (suc fuel) m id u h b = next_loop-from (suc fuel) m (set_back first id) u h b

-- TimerQueueBase: the number after `_slot`, an int.
unfoldable pub timer_next_id {ℓ} : {V : Type ℓ} → Map V → ℤ → Option ℕ
timer_next_id m (pos slot) = next_loop 0 (2 ^ 31) (suc (length m)) m (pos (slot + 1))
timer_next_id m (negsuc zero) = next_loop 0 (2 ^ 31) (suc (length m)) m (pos 0)
timer_next_id m (negsuc (suc n)) = next_loop 0 (2 ^ 31) (suc (length m)) m (negsuc n)
