-- ===== src/Http/HeaderMap.antt =====
-- `std::map<string, string>` of rpc/http/http_request.h and http_response.h: pairs in the order of
-- their keys, no key twice.
use yamq.Prelude.{
  ℕ, ◌≡◌, refl, true, none, some, Option, List, [], ◌∷◌, arith, if◌then◌else◌, str_eq, str_lt,
  str_eq-eq, inl, inr, Bool-cases, str_lt_total, str_lt_trans,
}

abbrev pub HeaderMap : Type 0
HeaderMap = List (List ℕ × List ℕ)

-- `headers_[key] = value`
pub set_header : List ℕ → List ℕ → HeaderMap → HeaderMap
set_header key value [] = (key, value) ∷ []
set_header key value ((k, v) ∷ m) =
    if str_eq k key
    then (k, value) ∷ m
    else if str_lt key k
    then (key, value) ∷ ((k, v) ∷ m)
    else (k, v) ∷ set_header key value m

-- `headers_.find(key)`
pub find_header : List ℕ → HeaderMap → Option (List ℕ)
find_header key [] = none
find_header key ((k, v) ∷ m) = if str_eq k key then some v else find_header key m

-- Finding a key after a write: the new value at the key written, the old one at any other.
pub find_header-set_header :
    (j key value : List ℕ) (m : HeaderMap)
    → find_header j (set_header key value m)
      ≡ (if str_eq key j then some value else find_header j m)
unfolding find_header set_header
find_header-set_header j key value [] = refl
find_header-set_header j key value ((k, v) ∷ m) =
    ground (arith, find_header-set_header j key value m, str_eq-eq k key, str_eq-eq key j)

abbrev Above : List ℕ → HeaderMap → Type 0
Above key [] = Unit {0}
Above key ((k, v) ∷ m) = str_lt key k ≡ true

-- The keys rise strictly.
abbrev pub IsOrdered : HeaderMap → Type 0
IsOrdered [] = Unit {0}
IsOrdered ((k, v) ∷ m) = Above k m × IsOrdered m

Above-trans : (key k : List ℕ) (m : HeaderMap) → str_lt key k ≡ true → Above k m → Above key m
Above-trans key k [] h a = tt
Above-trans key k ((j, w) ∷ m) h a = str_lt_trans key k j h a

set_header-Above :
    (j key value : List ℕ) (m : HeaderMap)
    → str_lt j key ≡ true
    → Above j m
    → Above j (set_header key value m)
unfolding set_header
set_header-Above j key value [] h a = h
set_header-Above j key value ((k, v) ∷ m) h a = ground arith

-- A write keeps the keys in order, each once.
pub set_header-IsOrdered :
    (key value : List ℕ) (m : HeaderMap) → IsOrdered m → IsOrdered (set_header key value m)
unfolding set_header
set_header-IsOrdered key value [] h = (tt, tt)
set_header-IsOrdered key value ((k, v) ∷ m) h = elim (Bool-cases (str_eq k key)) [
  | inl same ↦ rw same h
  | inr other ↦ elim (Bool-cases (str_lt key k)) [
    | inl before ↦ rw (other, before) (before, h)
    | inr behind ↦
        rw (other, behind)
          (
            set_header-Above k key value m (str_lt_total key k behind other) h.0,
            set_header-IsOrdered key value m h.1,
          )
  ]
]
