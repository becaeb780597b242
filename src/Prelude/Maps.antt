-- ===== src/Prelude/Maps.antt =====
-- `std::unordered_map` with integer keys as an association list.
use Prim.Native.Nat.{ℕ, suc}
use mathlib.Core.Path.{◌≡◌, refl, sym, ap, ◌∙◌}
use mathlib.Core.Logic.{◌≢◌, inl, inr}
use mathlib.Core.List.{List, [], ◌∷◌}
use mathlib.Core.Option.{Option, none, some}
use yamq.Prelude.Lists.{length}
use yamq.Prelude.Tests.{Bool-cases, ◌==◌, ==-self, ==_false, ==_iff, if◌then◌else◌}

abbrev pub Map {ℓ} : Type ℓ → Type ℓ
Map V = List (ℕ × V)

module _ {ℓ} {V : Type ℓ} where
  unfoldable pub find : ℕ → Map V → Option V
  find k [] = none
  find k ((j, v) ∷ m) = let rest = find k m in if j == k then some v else rest

  -- `m[k] = v`: in place where the key is there.
  unfoldable pub put_key : ℕ → V → Map V → Map V
  put_key k v [] = (k, v) ∷ []
  put_key k v ((j, w) ∷ m) =
      let rest = put_key k v m in if j == k then (k, v) ∷ m else (j, w) ∷ rest

  unfoldable pub erase : ℕ → Map V → Map V
  erase k [] = []
  erase k ((j, w) ∷ m) = let rest = erase k m in if j == k then rest else (j, w) ∷ rest

  -- No key occurs twice.
  unfoldable pub IsUnique : Map V → Type ℓ
  unfolding find
  IsUnique [] = Unit
  IsUnique ((k, v) ∷ m) = (find k m ≡ none) × IsUnique m

  pub find-put_key : (k : ℕ) (v : V) (m : Map V) → find k (put_key k v m) ≡ some v
  unfolding find put_key
  find-put_key k v [] = rw (==-self k)
  find-put_key k v ((j, w) ∷ m) = elim (Bool-cases (j == k)) [
    | inl e ↦ rw (e, ==-self k)
    | inr e ↦ rw (e, e, find-put_key k v m)
  ]

  pub find-put_key_ne : {i k : ℕ} (v : V) (m : Map V) → i ≢ k → find i (put_key k v m) ≡ find i m
  unfolding find put_key
  find-put_key_ne {i} {k} v [] h = rw (==_false k i (λ e. h (sym e)))
  find-put_key_ne {i} {k} v ((j, w) ∷ m) h = elim (Bool-cases (j == k)) [
    | inl e ↦
        rw (e, ==_false k i (λ e. h (sym e)), ==_false j i (λ d. h (sym d ∙ (==_iff j k).0 e)))
    | inr e ↦ rw (e, find-put_key_ne v m h)
  ]

  pub find-erase : (k : ℕ) (m : Map V) → find k (erase k m) ≡ none
  unfolding find erase
  find-erase k [] = refl
  find-erase k ((j, w) ∷ m) = elim (Bool-cases (j == k)) [
    | inl e ↦ rw (e, find-erase k m)
    | inr e ↦ rw (e, e, find-erase k m)
  ]

  pub find-erase_ne : {i k : ℕ} (m : Map V) → i ≢ k → find i (erase k m) ≡ find i m
  unfolding find erase
  find-erase_ne {i} {k} [] h = refl
  find-erase_ne {i} {k} ((j, w) ∷ m) h = elim (Bool-cases (j == k)) [
    | inl e ↦ rw (e, ==_false j i (λ d. h (sym d ∙ (==_iff j k).0 e)), find-erase_ne m h)
    | inr e ↦ rw (e, find-erase_ne m h)
  ]

  pub length-put_key_new :
      (k : ℕ) (v : V) (m : Map V) → find k m ≡ none → length (put_key k v m) ≡ suc (length m)
  unfolding find put_key
  length-put_key_new k v [] h = refl
  length-put_key_new k v ((j, w) ∷ m) h = elim (Bool-cases (j == k)) [
    | inl e ↦ cc
    | inr e ↦ rw e (ap suc (length-put_key_new k v m (cc)))
  ]

  pub length-put_key_old :
      (k : ℕ) (v w : V) (m : Map V) → find k m ≡ some w → length (put_key k v m) ≡ length m
  unfolding find put_key
  length-put_key_old k v w [] h = cc
  length-put_key_old k v w ((j, u) ∷ m) h = elim (Bool-cases (j == k)) [
    | inl e ↦ rw e
    | inr e ↦ rw e (ap suc (length-put_key_old k v w m (cc)))
  ]

  pub erase-absent : (k : ℕ) (m : Map V) → find k m ≡ none → erase k m ≡ m
  unfolding find erase
  erase-absent k [] h = refl
  erase-absent k ((j, w) ∷ m) h = elim (Bool-cases (j == k)) [
    | inl e ↦ cc
    | inr e ↦ rw e (ap (λ r. (j, w) ∷ r) (erase-absent k m (cc)))
  ]

  pub length-erase :
      (k : ℕ) (v : V) (m : Map V)
      → IsUnique m
      → find k m ≡ some v
      → suc (length (erase k m)) ≡ length m
  unfolding find erase IsUnique
  length-erase k v [] u h = cc
  length-erase k v ((j, w) ∷ m) u h = elim (Bool-cases (j == k)) [
    | inl e ↦ rw (e, erase-absent k m (ap (λ i. find i m) (sym ((==_iff j k).0 e)) ∙ u.0))
    | inr e ↦ rw e (ap suc (length-erase k v m u.1 (cc)))
  ]

  pub put_key-IsUnique : (k : ℕ) (v : V) (m : Map V) → IsUnique m → IsUnique (put_key k v m)
  unfolding find put_key IsUnique
  put_key-IsUnique k v [] u = (refl, tt)
  put_key-IsUnique k v ((j, w) ∷ m) u = elim (Bool-cases (j == k)) [
    | inl e ↦ rw e (ap (λ i. find i m) (sym ((==_iff j k).0 e)) ∙ u.0, u.1)
    | inr e ↦
        rw e (find-put_key_ne v m (λ d. cc ((==_iff j k).1 d)) ∙ u.0, put_key-IsUnique k v m u.1)
  ]

  find-erase_absent : (i k : ℕ) (m : Map V) → find i m ≡ none → find i (erase k m) ≡ none
  unfolding find
  find-erase_absent i k m h = elim (Bool-cases (i == k)) [
    | inl e ↦ ap (λ j. find j (erase k m)) ((==_iff i k).0 e) ∙ find-erase k m
    | inr e ↦ find-erase_ne m (λ d. cc ((==_iff i k).1 d)) ∙ h
  ]

  pub erase-IsUnique : (k : ℕ) (m : Map V) → IsUnique m → IsUnique (erase k m)
  unfolding erase IsUnique
  erase-IsUnique k [] u = tt
  erase-IsUnique k ((j, w) ∷ m) u = elim (Bool-cases (j == k)) [
    | inl e ↦ rw e (erase-IsUnique k m u.1)
    | inr e ↦ rw e (find-erase_absent j k m u.0, erase-IsUnique k m u.1)
  ]
