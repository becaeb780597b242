-- ===== src/Prelude/Slices.antt =====
-- Slices of a byte array: what copying into it and cutting a window out of it do.
use Prim.Native.Nat.{ℕ, zero, suc, ◌+◌, ◌-◌, ◌≤◌}
use mathlib.Core.Path.{◌≡◌, refl, sym, ap, ◌∙◌, ◌≡⟨◌⟩◌, ◌∎}
use mathlib.Core.List.{List, [], ◌∷◌, ◌++◌}
use native.Mathlib.Omega.{arith}
use yamq.Prelude.Lists.{length, take, drop, get_or, length-append, length-take, length-drop}

module _ {ℓ} {A : Type ℓ} where
  pub take-append : (xs ys : List A) → take (length xs) (xs ++ ys) ≡ xs
  take-append [] ys = refl
  take-append (x ∷ xs) ys = ap (λ r. x ∷ r) (take-append xs ys)

  pub drop-append : (xs ys : List A) → drop (length xs) (xs ++ ys) ≡ ys
  drop-append [] ys = refl
  drop-append (x ∷ xs) ys = drop-append xs ys

  pub take-ge : (n : ℕ) (xs : List A) → length xs ≤ n → take n xs ≡ xs
  take-ge zero [] h = refl
  take-ge zero (x ∷ xs) h = absurd (omega arith)
  take-ge (suc n) [] h = refl
  take-ge (suc n) (x ∷ xs) h = ap (λ r. x ∷ r) (take-ge n xs (omega arith))

  pub drop-ge : (n : ℕ) (xs : List A) → length xs ≤ n → drop n xs ≡ []
  drop-ge zero [] h = refl
  drop-ge zero (x ∷ xs) h = absurd (omega arith)
  drop-ge (suc n) [] h = refl
  drop-ge (suc n) (x ∷ xs) h = drop-ge n xs (omega arith)

  pub take-append_le : (n : ℕ) (xs ys : List A) → n ≤ length xs → take n (xs ++ ys) ≡ take n xs
  take-append_le zero xs ys h = refl
  take-append_le (suc n) [] ys h = absurd (omega arith)
  take-append_le (suc n) (x ∷ xs) ys h = ap (λ r. x ∷ r) (take-append_le n xs ys (omega arith))

  pub take-append_ge :
      (n : ℕ) (xs ys : List A) → length xs ≤ n → take n (xs ++ ys) ≡ xs ++ take (n - length xs) ys
  take-append_ge n [] ys h = ap (λ k. take k ys) (omega arith)
  take-append_ge zero (x ∷ xs) ys h = absurd (omega arith)
  take-append_ge (suc n) (x ∷ xs) ys h =
      ap (λ r. x ∷ r)
        (take-append_ge n xs ys (omega arith)
          ∙ ap (λ k. xs ++ take k ys) {x = n - length xs} {y = suc n - suc (length xs)}
              (omega arith))

  pub drop-append_le :
      (n : ℕ) (xs ys : List A) → n ≤ length xs → drop n (xs ++ ys) ≡ drop n xs ++ ys
  drop-append_le zero xs ys h = refl
  drop-append_le (suc n) [] ys h = absurd (omega arith)
  drop-append_le (suc n) (x ∷ xs) ys h = drop-append_le n xs ys (omega arith)

  pub drop-append_ge :
      (n : ℕ) (xs ys : List A) → length xs ≤ n → drop n (xs ++ ys) ≡ drop (n - length xs) ys
  drop-append_ge n [] ys h = ap (λ k. drop k ys) (omega arith)
  drop-append_ge zero (x ∷ xs) ys h = absurd (omega arith)
  drop-append_ge (suc n) (x ∷ xs) ys h =
      drop-append_ge n xs ys (omega arith)
      ∙ ap (λ k. drop k ys) {x = n - length xs} {y = suc n - suc (length xs)} (omega arith)

  pub drop-drop : (m n : ℕ) (xs : List A) → drop m (drop n xs) ≡ drop (n + m) xs
  drop-drop m zero xs = ap (λ k. drop k xs) (omega arith)
  drop-drop zero (suc n) [] = sym (drop-ge (suc n + 0) [] (omega arith))
  drop-drop (suc m) (suc n) [] = sym (drop-ge (suc n + suc m) [] (omega arith))
  drop-drop m (suc n) (x ∷ xs) =
      drop-drop m n xs ∙ ap (λ k. drop k (x ∷ xs)) {x = suc (n + m)} {y = suc n + m} (omega arith)

  pub drop-take : (m n : ℕ) (xs : List A) → drop m (take n xs) ≡ take (n - m) (drop m xs)
  drop-take zero n xs = ap (λ k. take k xs) (omega arith)
  drop-take (suc m) zero xs =
      ap (λ k. take k (drop (suc m) xs)) {x = 0} {y = 0 - suc m} (omega arith)
  drop-take (suc m) (suc n) [] = sym (take-ge (suc n - suc m) [] (omega arith))
  drop-take (suc m) (suc n) (x ∷ xs) =
      drop-take m n xs ∙ ap (λ k. take k (drop m xs)) {x = n - m} {y = suc n - suc m} (omega arith)

  pub take-take : (m n : ℕ) (xs : List A) → m ≤ n → take m (take n xs) ≡ take m xs
  take-take zero n xs h = refl
  take-take (suc m) zero xs h = absurd (omega arith)
  take-take (suc m) (suc n) [] h = refl
  take-take (suc m) (suc n) (x ∷ xs) h = ap (λ r. x ∷ r) (take-take m n xs (omega arith))

  -- The `n` elements from index `i` on.
  abbrev pub slice : ℕ → ℕ → List A → List A
  slice i n xs = take n (drop i xs)

  -- The array with `ys` copied over it from index `i` on.
  abbrev pub splice : ℕ → List A → List A → List A
  splice i ys xs = take i xs ++ (ys ++ drop (i + length ys) xs)

  pub length-splice :
      (i : ℕ) (ys xs : List A) → i + length ys ≤ length xs → length (splice i ys xs) ≡ length xs
  length-splice i ys xs h = omega (
    arith,
    length-append (take i xs) (ys ++ drop (i + length ys) xs),
    length-append ys (drop (i + length ys) xs),
    length-take i xs,
    length-drop (i + length ys) xs,
  )

  pub length-slice : (i n : ℕ) (xs : List A) → i + n ≤ length xs → length (slice i n xs) ≡ n
  length-slice i n xs h = omega (arith, length-take n (drop i xs), length-drop i xs)

  -- A window that ends where the copy begins grows by the copy.
  pub slice-splice_end :
      (i n : ℕ) (ys xs : List A)
      → i + n + length ys ≤ length xs
      → slice i (n + length ys) (splice (i + n) ys xs) ≡ slice i n xs ++ ys
  slice-splice_end i n ys xs h =
      slice i (n + length ys) (splice (i + n) ys xs)
      ≡⟨ ap (take (n + length ys))
          (drop-append_le i (take (i + n) xs) (ys ++ rest) (omega (arith, taken))) ⟩
        take (n + length ys) (drop i (take (i + n) xs) ++ (ys ++ rest))
      ≡⟨ ap (λ l. take (n + length ys) (l ++ (ys ++ rest))) front ⟩
        take (n + length ys) (slice i n xs ++ (ys ++ rest))
      ≡⟨ take-append_ge (n + length ys) (slice i n xs) (ys ++ rest) (omega (arith, len)) ⟩
        slice i n xs ++ take (n + length ys - length (slice i n xs)) (ys ++ rest)
      ≡⟨ ap (λ k. slice i n xs ++ take k (ys ++ rest)) {y = length ys} (omega (arith, len)) ⟩
        slice i n xs ++ take (length ys) (ys ++ rest)
      ≡⟨ ap (λ l. slice i n xs ++ l) (take-append ys rest) ⟩ slice i n xs ++ ys ∎
    where
      rest : List A
      rest = drop (i + n + length ys) xs

      taken : length (take (i + n) xs) ≡ i + n
      taken = omega (arith, length-take (i + n) xs)

      len : length (slice i n xs) ≡ n
      len = length-slice i n xs (omega arith)

      front : drop i (take (i + n) xs) ≡ slice i n xs
      front = drop-take i (i + n) xs ∙ ap (λ k. take k (drop i xs)) {y = n} (omega arith)

  pub slice-splice_self :
      (i : ℕ) (ys xs : List A) → i ≤ length xs → slice i (length ys) (splice i ys xs) ≡ ys
  slice-splice_self i ys xs h =
      ap (take (length ys)) (
        ap (λ k. drop k (splice i ys xs)) {y = length (take i xs)} (omega (arith, length-take i xs))
        ∙ drop-append (take i xs) (ys ++ drop (i + length ys) xs))
      ∙ take-append ys (drop (i + length ys) xs)

  -- What stands before index `w` survives a copy of the front, whatever follows.
  pub slice-take_append :
      (i n w : ℕ) (xs ys : List A)
      → i + n ≤ w
      → i + n ≤ length xs
      → slice i n (take w xs ++ ys) ≡ slice i n xs
  slice-take_append i n w xs ys h k =
      slice i n (take w xs ++ ys)
      ≡⟨ ap (take n) (drop-append_le i (take w xs) ys (omega (arith, length-take w xs))) ⟩
        take n (drop i (take w xs) ++ ys)
      ≡⟨ take-append_le n (drop i (take w xs)) ys
          (omega (arith, length-drop i (take w xs), length-take w xs)) ⟩
        take n (drop i (take w xs))
      ≡⟨ ap (take n) (drop-take i w xs) ⟩ take n (take (w - i) (drop i xs))
      ≡⟨ take-take n (w - i) (drop i xs) (omega arith) ⟩ slice i n xs ∎

  -- A copy just before a window extends it to the front.
  pub slice-splice_front :
      (i n : ℕ) (ys xs : List A)
      → i ≤ length xs
      → slice i (length ys + n) (splice i ys xs) ≡ ys ++ slice (i + length ys) n xs
  slice-splice_front i n ys xs h =
      slice i (length ys + n) (splice i ys xs)
      ≡⟨ ap (λ k. take (length ys + n) (drop k (splice i ys xs))) {y = length (take i xs)}
          (omega (arith, length-take i xs)) ⟩
        take (length ys + n) (drop (length (take i xs)) (splice i ys xs))
      ≡⟨ ap (take (length ys + n)) (drop-append (take i xs) (ys ++ drop (i + length ys) xs)) ⟩
        take (length ys + n) (ys ++ drop (i + length ys) xs)
      ≡⟨ take-append_ge (length ys + n) ys (drop (i + length ys) xs) (omega arith) ⟩
        ys ++ take (length ys + n - length ys) (drop (i + length ys) xs)
      ≡⟨ ap (λ k. ys ++ take k (drop (i + length ys) xs)) {y = n} (omega arith) ⟩
        ys ++ slice (i + length ys) n xs ∎

  pub take-get_or :
      (n : ℕ) (xs : List A) (d : A) → length xs ≡ suc n → xs ≡ take n xs ++ get_or xs n d ∷ []
  take-get_or zero [] d h = absurd (omega arith)
  take-get_or zero (x ∷ []) d h = refl
  take-get_or zero (x ∷ y ∷ xs) d h = absurd (omega arith)
  take-get_or (suc n) [] d h = absurd (omega arith)
  take-get_or (suc n) (x ∷ xs) d h = ap (λ l. x ∷ l) (take-get_or n xs d (omega arith))
