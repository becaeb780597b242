-- ===== src/RbTree/Order.antt =====
-- Entries in the order of their keys, and the insertion of one: what base/rbtree/rbtree.cpp is to do.
use yamq.Prelude.{ℕ, ◌≤◌, ◌<◌, ◌≡◌, refl, List, [], ◌∷◌, ◌++◌, ltb, if◌then◌else◌, arith}
use yamq.RbTree.Shape.{Entry}

abbrev pub Below : ℕ → List Entry → Type 0
Below k [] = Unit
Below k (x ∷ xs) = (x.key < k) × Below k xs

abbrev pub Above : ℕ → List Entry → Type 0
Above k [] = Unit
Above k (x ∷ xs) = (k < x.key) × Above k xs

abbrev pub IsAscending : List Entry → Type 0
IsAscending [] = Unit
IsAscending (x ∷ xs) = Above x.key xs × IsAscending xs

-- In front of the first larger key; a key that is there stays with its entry.
unfoldable pub insert_entry : Entry → List Entry → List Entry
insert_entry e [] = e ∷ []
insert_entry e (x ∷ xs) =
    let rest = x ∷ insert_entry e xs in
    if ltb e.key x.key then e ∷ (x ∷ xs) else if ltb x.key e.key then rest else x ∷ xs

pub Below-append : (k : ℕ) (xs ys : List Entry) → Below k xs → Below k ys → Below k (xs ++ ys)
Below-append k [] ys a b = b
Below-append k (x ∷ xs) ys a b = (a.0, Below-append k xs ys a.1 b)

pub Above-append : (k : ℕ) (xs ys : List Entry) → Above k xs → Above k ys → Above k (xs ++ ys)
Above-append k [] ys a b = b
Above-append k (x ∷ xs) ys a b = (a.0, Above-append k xs ys a.1 b)

pub Above-parts : (k : ℕ) (xs ys : List Entry) → Above k (xs ++ ys) → Above k xs × Above k ys
Above-parts k [] ys a = (tt, a)
Above-parts k (x ∷ xs) ys a = let (p, q) = Above-parts k xs ys a.1 in ((a.0, p), q)

pub Above-lower : (j k : ℕ) (xs : List Entry) → j ≤ k → Above k xs → Above j xs
Above-lower j k [] h a = tt
Above-lower j k (x ∷ xs) h a = (omega arith, Above-lower j k xs h a.1)

pub Below-raise : (j k : ℕ) (xs : List Entry) → j ≤ k → Below j xs → Below k xs
Below-raise j k [] h a = tt
Below-raise j k (x ∷ xs) h a = (omega arith, Below-raise j k xs h a.1)

pub record Split (xs : List Entry) (e : Entry) (ys : List Entry) : Type 0 where
  pub left : IsAscending xs
  pub below : Below e.key xs
  pub above : Above e.key ys
  pub right : IsAscending ys

pub split :
    (xs : List Entry) (e : Entry) (ys : List Entry) → IsAscending (xs ++ (e ∷ ys)) → Split xs e ys
split [] e ys a = record { left = tt; below = tt; above = a.0; right = a.1 }
split (x ∷ xs) e ys a =
    let rest = split xs e ys a.1 in
    let parts = Above-parts x.key xs (e ∷ ys) a.0 in
    record {
      left = (parts.0, rest.left);
      below = (parts.1.0, rest.below);
      above = rest.above;
      right = rest.right;
    }

pub insert_entry-Below :
    (e : Entry) (xs ys : List Entry)
    → Below e.key xs
    → insert_entry e (xs ++ ys) ≡ xs ++ insert_entry e ys
unfolding insert_entry
insert_entry-Below e [] ys b = refl
insert_entry-Below e (x ∷ xs) ys b = ground (arith, insert_entry-Below e xs ys b.1)

pub insert_entry-Above : (e : Entry) (ys : List Entry) → Above e.key ys → insert_entry e ys ≡ e ∷ ys
unfolding insert_entry
insert_entry-Above e [] a = refl
insert_entry-Above e (y ∷ ys) a = ground arith

pub insert_entry-there :
    (e x : Entry) (ys : List Entry) → e.key ≡ x.key → insert_entry e (x ∷ ys) ≡ x ∷ ys
unfolding insert_entry
insert_entry-there e x ys q = ground arith

Above-insert_entry :
    (k : ℕ) (e : Entry) (xs : List Entry) → k < e.key → Above k xs → Above k (insert_entry e xs)
unfolding insert_entry
Above-insert_entry k e [] h a = (h, tt)
Above-insert_entry k e (x ∷ xs) h a = ground (arith, Above-insert_entry k e xs h a.1)

pub insert_entry-IsAscending :
    (e : Entry) (xs : List Entry) → IsAscending xs → IsAscending (insert_entry e xs)
unfolding insert_entry
insert_entry-IsAscending e [] a = (tt, tt)
insert_entry-IsAscending e (x ∷ xs) a = ground (
  arith,
  insert_entry-IsAscending e xs a.1,
  λ (h : e.key < x.key). Above-lower e.key x.key xs (omega arith) a.0,
  λ (h : x.key < e.key). Above-insert_entry x.key e xs h a.0,
)
