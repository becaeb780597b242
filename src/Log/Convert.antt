-- ===== src/Log/Convert.antt =====
-- log/logstream.cpp: convert and convertHex, the numbers as text.
pub mod Decimal
pub mod Hex
use yamq.Prelude.{
  ℤ, pos, negsuc, neg, ℕ, zero, suc, ◌+◌, ◌-◌, ◌*◌, ◌/◌, ◌%◌, ◌≡◌, Bool, true, false, Option, none,
  some, List, [], ◌∷◌, ◌++◌, reverse, codes, get_or, ◌==◌, if◌then◌else◌, ◌>>=◌,
}

-- `/` and `%` of C++, which round towards zero.
abbrev pub tdiv10 : ℤ → ℤ
tdiv10 (pos n) = pos (n / 10)
tdiv10 (negsuc n) = neg (suc n / 10)

abbrev pub tmod10 : ℤ → ℤ
tmod10 (pos n) = pos (n % 10)
tmod10 (negsuc n) = neg (suc n % 10)

abbrev pub is_zero : ℤ → Bool
is_zero (pos n) = n == 0
is_zero (negsuc n) = false

abbrev pub is_negative : ℤ → Bool
is_negative (pos n) = false
is_negative (negsuc n) = true

abbrev pub digits : List ℕ
digits = codes "9876543210123456789"

-- `zero[lsd]`, where `zero` points to the tenth of the digits.
abbrev pub zero_at : ℤ → ℕ
zero_at (pos n) = get_or digits (9 + n) 0
zero_at (negsuc n) = get_or digits (9 - suc n) 0

-- The do loop, least digit first; `none` where the fuel does not suffice.
pub convert_loop : ℕ → ℤ → Option (List ℕ)
convert_loop zero i = none
convert_loop (suc fuel) i =
    let rest = convert_loop fuel (tdiv10 i) in
    if is_zero (tdiv10 i)
    then some (zero_at (tmod10 i) ∷ [])
    else rest >>= λ more. some (zero_at (tmod10 i) ∷ more)

-- The text without the zero byte behind it.
pub convert : ℕ → ℤ → Option (List ℕ)
convert fuel value = do
  p ← convert_loop fuel value
  some (reverse (if is_negative value then p ++ 45 ∷ [] else p))

abbrev pub digits_hex : List ℕ
digits_hex = codes "0123456789ABCDEF"

pub convert_hex_loop : ℕ → ℕ → Option (List ℕ)
convert_hex_loop zero i = none
convert_hex_loop (suc fuel) i =
    let rest = convert_hex_loop fuel (i / 16) in
    if i / 16 == 0
    then some (get_or digits_hex (i % 16) 0 ∷ [])
    else rest >>= λ more. some (get_or digits_hex (i % 16) 0 ∷ more)

pub convert_hex : ℕ → ℕ → Option (List ℕ)
convert_hex fuel value = convert_hex_loop fuel value >>= λ p. some (reverse p)
