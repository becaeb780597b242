-- ===== src/Log/Convert/Hex.antt =====
-- What `convertHex` prints spells the number in hexadecimal digits.
use yamq.Prelude.{
  ℕ, zero, suc, ◌+◌, ◌-◌, ◌*◌, ◌/◌, ◌%◌, ◌^◌, ◌≤◌, ◌<◌, ◌≡◌, refl, ap, ◌∙◌, inl, inr, true, false,
  some, List, [], ◌∷◌, ◌++◌, reverse, reverse-cons, length-reverse, arith, length, get_or, ◌==◌,
  ltb, Bool-cases, if◌then◌else◌,
}
use native.Mathlib.Nat.{pow-suc}
use yamq.Log.Convert.{digits_hex, convert_hex_loop, convert_hex}

-- The value of a digit, and of a text, the most significant digit first.
abbrev pub hex_digit : ℕ → ℕ
hex_digit c = c - 48 - (if ltb c 65 then 0 else 7)

abbrev pub hex_value : ℕ → List ℕ → ℕ
hex_value acc [] = acc
hex_value acc (c ∷ cs) = hex_value (acc * 16 + hex_digit c) cs

hex_value-append :
    (acc : ℕ) (xs ys : List ℕ) → hex_value acc (xs ++ ys) ≡ hex_value (hex_value acc xs) ys
hex_value-append acc [] ys = refl
hex_value-append acc (x ∷ xs) ys = hex_value-append (acc * 16 + hex_digit x) xs ys

digit_hex : (k : ℕ) → k < 16 → hex_digit (get_or digits_hex k 0) ≡ k
digit_hex zero h = refl
digit_hex (suc zero) h = refl
digit_hex (suc (suc zero)) h = refl
digit_hex (suc (suc (suc zero))) h = refl
digit_hex (suc (suc (suc (suc zero)))) h = refl
digit_hex (suc (suc (suc (suc (suc zero))))) h = refl
digit_hex (suc (suc (suc (suc (suc (suc zero)))))) h = refl
digit_hex (suc (suc (suc (suc (suc (suc (suc zero))))))) h = refl
digit_hex (suc (suc (suc (suc (suc (suc (suc (suc zero)))))))) h = refl
digit_hex (suc (suc (suc (suc (suc (suc (suc (suc (suc zero))))))))) h = refl
digit_hex (suc (suc (suc (suc (suc (suc (suc (suc (suc (suc zero)))))))))) h = refl
digit_hex (suc (suc (suc (suc (suc (suc (suc (suc (suc (suc (suc zero))))))))))) h = refl
digit_hex (suc (suc (suc (suc (suc (suc (suc (suc (suc (suc (suc (suc zero)))))))))))) h = refl
digit_hex (suc (suc (suc (suc (suc (suc (suc (suc (suc (suc (suc (suc (suc zero))))))))))))) h =
    refl
digit_hex (suc (suc (suc (suc (suc (suc (suc (suc (suc (suc (suc (suc (suc (suc zero))))))))))))))
      h =
    refl
digit_hex
      (suc (suc (suc (suc (suc (suc (suc (suc (suc (suc (suc (suc (suc (suc (suc zero)))))))))))))))
      h =
    refl
digit_hex
      (suc
        (suc (suc (suc (suc (suc (suc (suc (suc (suc (suc (suc (suc (suc (suc (suc k))))))))))))))))
      h =
    absurd (omega arith)

-- The loop yields the digits of the number, at most `suc k` of them.
abbrev Printed : ℕ → ℕ → ℕ → Type 0
Printed k fuel n =
    (p : List ℕ) × (convert_hex_loop (suc fuel) n ≡ some p)
    × (hex_value 0 (reverse p) ≡ n)
    × (length p ≤ suc k)

last_digit : (k fuel n : ℕ) → n < 16 → Printed k fuel n
unfolding convert_hex_loop
last_digit k fuel n h = (
  get_or digits_hex (n % 16) 0 ∷ [],
  rw (last n h),
  omega (arith, digit_hex (n % 16) (omega arith)),
  omega arith,
)
  where
    last : (n : ℕ) → n < 16 → (n / 16 == 0) ≡ true
    last n h = ground arith

next_digit : (k fuel n : ℕ) → 16 ≤ n → Printed k fuel (n / 16) → Printed (suc k) (suc fuel) n
unfolding convert_hex_loop
next_digit k fuel n h (p, e, value, short) = (
  d ∷ p,
  rw (more n h, e),
  ap (hex_value 0) (reverse-cons d p)
      ∙ hex_value-append 0 (reverse p) (d ∷ [])
      ∙ omega (arith, value, digit_hex (n % 16) (omega arith)),
  omega arith,
)
  where
    d : ℕ
    d = get_or digits_hex (n % 16) 0

    more : (n : ℕ) → 16 ≤ n → (n / 16 == 0) ≡ false
    more n h = ground arith

convert_hex_loop-Printed : (k fuel n : ℕ) → n ≤ fuel → n < 16 ^ suc k → Printed k fuel n
convert_hex_loop-Printed k zero n h s = last_digit k 0 n (omega arith)
convert_hex_loop-Printed zero (suc fuel) n h s = last_digit 0 (suc fuel) n (omega arith)
convert_hex_loop-Printed (suc k) (suc fuel) n h s = elim (Bool-cases (ltb n 16)) [
  | inl small ↦ last_digit (suc k) (suc fuel) n (ground arith)
  | inr large ↦
      next_digit k fuel n (ground arith) (
        convert_hex_loop-Printed k fuel (n / 16) (ground arith)
          (ground (arith, pow-suc 16 (suc k))))
]

pub convert_hex-value :
    (n : ℕ)
    → n < 2 ^ 64
    → (text : List ℕ) × (convert_hex (suc n) n ≡ some text)
      × (hex_value 0 text ≡ n)
      × (length text ≤ 16)
unfolding convert_hex
convert_hex-value n h =
    let (p, e, value, short) = convert_hex_loop-Printed 15 n n (omega arith) (omega arith) in
    (reverse p, rw e, value, omega (arith, length-reverse p, short))
