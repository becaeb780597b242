-- ===== src/Log/Convert/Decimal.antt =====
-- What `convert` prints is the decimal numeral.
use yamq.Prelude.{
  ℤ, pos, negsuc, neg, ℕ, zero, suc, ◌+◌, ◌/◌, ◌%◌, ◌^◌, ◌≤◌, ◌<◌, ◌≡◌, refl, sym, ap, ◌∙◌, inl,
  inr, true, false, some, List, [], ◌∷◌, reverse, reverse-append, reverse-reverse, arith, length,
  ◌==◌, ltb, Bool-cases, decimal, decimal_from, length-decimal,
}
use yamq.Log.Convert.{tdiv10, tmod10, is_zero, zero_at, convert_loop, convert}

-- The numeral, and the magnitude that is enough fuel for it.
abbrev pub numeral : ℤ → List ℕ
numeral (pos n) = decimal n
numeral (negsuc n) = 45 ∷ decimal (suc n)

abbrev pub magnitude : ℤ → ℕ
magnitude (pos n) = n
magnitude (negsuc n) = suc n

digit_pos : (k : ℕ) → k < 10 → zero_at (pos k) ≡ 48 + k
digit_pos zero h = refl
digit_pos (suc zero) h = refl
digit_pos (suc (suc zero)) h = refl
digit_pos (suc (suc (suc zero))) h = refl
digit_pos (suc (suc (suc (suc zero)))) h = refl
digit_pos (suc (suc (suc (suc (suc zero))))) h = refl
digit_pos (suc (suc (suc (suc (suc (suc zero)))))) h = refl
digit_pos (suc (suc (suc (suc (suc (suc (suc zero))))))) h = refl
digit_pos (suc (suc (suc (suc (suc (suc (suc (suc zero)))))))) h = refl
digit_pos (suc (suc (suc (suc (suc (suc (suc (suc (suc zero))))))))) h = refl
digit_pos (suc (suc (suc (suc (suc (suc (suc (suc (suc (suc k)))))))))) h = absurd (omega arith)

digit_neg : (k : ℕ) → k < 10 → zero_at (neg k) ≡ 48 + k
digit_neg zero h = refl
digit_neg (suc zero) h = refl
digit_neg (suc (suc zero)) h = refl
digit_neg (suc (suc (suc zero))) h = refl
digit_neg (suc (suc (suc (suc zero)))) h = refl
digit_neg (suc (suc (suc (suc (suc zero))))) h = refl
digit_neg (suc (suc (suc (suc (suc (suc zero)))))) h = refl
digit_neg (suc (suc (suc (suc (suc (suc (suc zero))))))) h = refl
digit_neg (suc (suc (suc (suc (suc (suc (suc (suc zero)))))))) h = refl
digit_neg (suc (suc (suc (suc (suc (suc (suc (suc (suc zero))))))))) h = refl
digit_neg (suc (suc (suc (suc (suc (suc (suc (suc (suc (suc k)))))))))) h = absurd (omega arith)

-- The loop on numbers of one sign, `s` giving the sign.
module _ (s : ℕ → ℤ) (div : (m : ℕ) → tdiv10 (s m) ≡ s (m / 10))
    (digit : (m : ℕ) → zero_at (tmod10 (s m)) ≡ 48 + m % 10)
    (none_left : (m : ℕ) → is_zero (s m) ≡ (m == 0)) where
  last_digit : (fuel m : ℕ) → m < 10 → convert_loop (suc fuel) (s m) ≡ some ((48 + m % 10) ∷ [])
  unfolding convert_loop
  last_digit fuel m h = rw (div m, none_left (m / 10), digit m, division m h)
    where
      division : (m : ℕ) → m < 10 → (m / 10 == 0) ≡ true
      division m h = ground arith

  next_digit :
      (fuel m : ℕ) (ds : List ℕ)
      → 10 ≤ m
      → convert_loop (suc fuel) (s (m / 10)) ≡ some ds
      → convert_loop (suc (suc fuel)) (s m) ≡ some ((48 + m % 10) ∷ ds)
  unfolding convert_loop
  next_digit fuel m ds big e = rw (div m, none_left (m / 10), digit m, division m big, e)
    where
      division : (m : ℕ) → 10 ≤ m → (m / 10 == 0) ≡ false
      division m big = ground arith

  convert_loop-decimal_from :
      (fuel m : ℕ) → m ≤ fuel → convert_loop (suc fuel) (s m) ≡ some (reverse (decimal_from fuel m))
  unfolding decimal_from
  convert_loop-decimal_from zero m h = last_digit 0 m (omega arith)
  convert_loop-decimal_from (suc fuel) m h = elim (Bool-cases (ltb m 10)) [
    | inl small ↦ rw small (
        last_digit (suc fuel) m (ground arith)
        ∙ ap (λ d. some ((48 + d) ∷ [])) {x = m % 10} {y = m} (ground arith))
    | inr large ↦ rw large (
        next_digit fuel m _ (ground arith) (convert_loop-decimal_from fuel (m / 10) (ground arith))
        ∙ ap some (sym (reverse-append (decimal_from fuel (m / 10)) ((48 + m % 10) ∷ []))))
  ]

  convert_loop-decimal : (m : ℕ) → convert_loop (suc m) (s m) ≡ some (reverse (decimal m))
  unfolding decimal
  convert_loop-decimal m = convert_loop-decimal_from m m (omega arith)

div_neg : (m : ℕ) → tdiv10 (neg m) ≡ neg (m / 10)
div_neg zero = refl
div_neg (suc m) = refl

mod_neg : (m : ℕ) → tmod10 (neg m) ≡ neg (m % 10)
mod_neg zero = refl
mod_neg (suc m) = refl

zero_neg : (m : ℕ) → is_zero (neg m) ≡ (m == 0)
zero_neg zero = refl
zero_neg (suc m) = ground arith

-- With fuel above the magnitude of an integer, convert ends and yields its decimal numeral, with a
-- minus sign where it is negative.
pub convert-numeral : (v : ℤ) → convert (suc (magnitude v)) v ≡ some (numeral v)
unfolding convert
convert-numeral (pos n) = rw (
  convert_loop-decimal pos (λ m. refl) (λ m. digit_pos (m % 10) (omega arith)) (λ m. refl) n,
  reverse-reverse (decimal n),
)
convert-numeral (negsuc n) =
    rw
      (convert_loop-decimal neg div_neg
        (λ m. ap zero_at (mod_neg m) ∙ digit_neg (m % 10) (omega arith)) zero_neg (suc n))
      (ap some (
        reverse-append (reverse (decimal (suc n))) (45 ∷ [])
        ∙ ap (λ l. 45 ∷ l) (reverse-reverse (decimal (suc n)))))

-- A numeral of a 64-bit integer and the zero byte fit in `maxNumericSize` bytes.
pub length-numeral : (v : ℤ) → magnitude v < 2 ^ 64 → length (numeral v) ≤ 21
length-numeral (pos n) h = omega (arith, length-decimal 19 n (omega arith))
length-numeral (negsuc n) h = omega (arith, length-decimal 19 (suc n) (omega arith))
