-- ===== src/Prelude/Decimal.antt =====
-- The decimal numeral of a number, as `%d` prints it.
use Prim.Native.Nat.{ℕ, zero, suc, ◌+◌, ◌-◌, ◌*◌, ◌/◌, ◌%◌, ◌^◌, ◌≤◌, ◌<◌}
use mathlib.Core.Path.{◌≡◌, refl}
use mathlib.Core.Logic.{inl, inr}
use mathlib.Core.List.{List, [], ◌∷◌, ◌++◌}
use native.Mathlib.Omega.{arith}
use native.Mathlib.Nat.{pow-suc}
use yamq.Prelude.Lists.{length, length-append}
use yamq.Prelude.Tests.{Bool-cases, ltb, if◌then◌else◌}

-- The fuel `n` is enough for the number `n`: a division by ten makes it smaller.
unfoldable pub decimal_from : ℕ → ℕ → List ℕ
decimal_from zero n = (48 + n % 10) ∷ []
decimal_from (suc fuel) n =
    let front = decimal_from fuel (n / 10) in
    if ltb n 10 then (48 + n) ∷ [] else front ++ (48 + n % 10) ∷ []

unfoldable pub decimal : ℕ → List ℕ
unfolding decimal_from
decimal n = decimal_from n n

-- The number that a list of digits spells, most significant first.
abbrev pub digits_value : ℕ → List ℕ → ℕ
digits_value acc [] = acc
digits_value acc (c ∷ cs) = digits_value (acc * 10 + (c - 48)) cs

pub digits_value-append :
    (acc : ℕ) (xs ys : List ℕ) → digits_value acc (xs ++ ys) ≡ digits_value (digits_value acc xs) ys
digits_value-append acc [] ys = refl
digits_value-append acc (x ∷ xs) ys = digits_value-append (acc * 10 + (x - 48)) xs ys

digits_value-decimal_from : (fuel n : ℕ) → n ≤ fuel → digits_value 0 (decimal_from fuel n) ≡ n
unfolding decimal_from
digits_value-decimal_from zero n h = omega arith
digits_value-decimal_from (suc fuel) n h = elim (Bool-cases (ltb n 10)) [
  | inl small ↦ rw small (omega arith)
  | inr large ↦
      rw
        (
          large,
          digits_value-append 0 (decimal_from fuel (n / 10)) ((48 + n % 10) ∷ []),
          digits_value-decimal_from fuel (n / 10) (ground arith),
        )
        (omega arith)
]

pub digits_value-decimal : (n : ℕ) → digits_value 0 (decimal n) ≡ n
unfolding decimal
digits_value-decimal n = digits_value-decimal_from n n (omega arith)

length-decimal_from :
    (k fuel n : ℕ) → n ≤ fuel → n < 10 ^ suc k → length (decimal_from fuel n) ≤ suc k
unfolding decimal_from
length-decimal_from k zero n h s = omega arith
length-decimal_from zero (suc fuel) n h s = ground arith
length-decimal_from (suc k) (suc fuel) n h s = ground (
  arith,
  pow-suc 10 (suc k),
  length-decimal_from k fuel (n / 10),
  length-append (decimal_from fuel (n / 10)) ((48 + n % 10) ∷ []),
)

pub length-decimal : (k n : ℕ) → n < 10 ^ suc k → length (decimal n) ≤ suc k
unfolding decimal
length-decimal k n s = length-decimal_from k n n (omega arith) s
