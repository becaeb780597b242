-- ===== src/Prelude/Find.antt =====
-- `std::find` over a range of bytes, as the index of what it points to.
use Prim.Native.Nat.{ℕ, suc, ◌+◌, ◌≤◌}
use mathlib.Core.Path.{◌≡◌, refl, ap, ◌∙◌}
use mathlib.Core.Logic.{◌≢◌, inl, inr}
use mathlib.Core.List.{List, [], ◌∷◌, ◌++◌}
use native.Mathlib.Omega.{arith}
use yamq.Prelude.Lists.{length, take, drop}
use yamq.Prelude.Tests.{Bool-cases, ◌==◌, if◌then◌else◌}

-- The length, which stands for the end of the range, where the byte does not occur.
unfoldable pub index_of : ℕ → List ℕ → ℕ
index_of c [] = 0
index_of c (x ∷ xs) = if x == c then 0 else suc (index_of c xs)

-- The byte does not occur.
abbrev pub Lacks : ℕ → List ℕ → Type 0
Lacks c [] = Unit {0}
Lacks c (x ∷ xs) = (x ≢ c) × Lacks c xs

pub Lacks-append : (c : ℕ) (xs ys : List ℕ) → Lacks c xs → Lacks c ys → Lacks c (xs ++ ys)
Lacks-append c [] ys h k = k
Lacks-append c (x ∷ xs) ys h k = (h.0, Lacks-append c xs ys h.1 k)

pub index_of-append : (c : ℕ) (xs ys : List ℕ) → Lacks c xs → index_of c (xs ++ c ∷ ys) ≡ length xs
unfolding index_of
index_of-append c [] ys h = ground arith
index_of-append c (x ∷ xs) ys h = ground (arith, index_of-append c xs ys h.1)

pub index_of-Lacks : (c : ℕ) (xs : List ℕ) → Lacks c xs → index_of c xs ≡ length xs
unfolding index_of
index_of-Lacks c [] h = refl
index_of-Lacks c (x ∷ xs) h = ground (arith, index_of-Lacks c xs h.1)

pub index_of-le : (c : ℕ) (xs : List ℕ) → index_of c xs ≤ length xs
unfolding index_of
index_of-le c [] = omega arith
index_of-le c (x ∷ xs) = ground (arith, index_of-le c xs)

-- Where the byte occurs, it splits the range.
pub index_of-split :
    (c : ℕ) (xs : List ℕ)
    → index_of c xs ≢ length xs
    → xs ≡ take (index_of c xs) xs ++ c ∷ drop (index_of c xs + 1) xs
unfolding index_of
index_of-split c [] h = absurd (h refl)
index_of-split c (x ∷ xs) h = elim (Bool-cases (x == c)) [
  | inl hit ↦ rw hit (ap (λ y. y ∷ xs) (ground arith))
  | inr miss ↦ rw miss (
      ap (λ l. x ∷ l)
        (index_of-split c xs (λ e. h (rw miss (ap suc e)))
          ∙ ap (λ n. take (index_of c xs) xs ++ c ∷ drop n (x ∷ xs)) {x = suc (index_of c xs + 1)}
              {y = suc (index_of c xs) + 1} (omega arith)))
]

pub index_of-take : (c : ℕ) (xs : List ℕ) → Lacks c (take (index_of c xs) xs)
unfolding index_of
index_of-take c [] = tt
index_of-take c (x ∷ xs) = ground (arith, index_of-take c xs)

-- Where the byte does not occur, the end is returned.
pub Lacks-of_end : (c : ℕ) (xs : List ℕ) → index_of c xs ≡ length xs → Lacks c xs
unfolding index_of
Lacks-of_end c [] h = tt
Lacks-of_end c (x ∷ xs) h = ground (arith, Lacks-of_end c xs)

-- Empty, or a text that begins with the byte.
abbrev pub Begins : ℕ → List ℕ → Type 0
Begins c [] = Unit {0}
Begins c (x ∷ xs) = x ≡ c

pub index_of-Begins : (c : ℕ) (xs : List ℕ) → Begins c (drop (index_of c xs) xs)
unfolding index_of
index_of-Begins c [] = tt
index_of-Begins c (x ∷ xs) = ground (arith, index_of-Begins c xs)
