-- ===== src/RbTree.antt =====
-- base/rbtree/rbtree.h and rbtree.cpp: a red-black tree of nodes with parent pointers and a sentinel.
-- A node lives at an address of the heap; a key is the `long long` less LLONG_MIN, so that it keeps
-- its order. Loops run on fuel.
pub mod Shape
pub mod Order
pub mod Balance
pub mod Moves
pub mod Links
pub mod Moved
pub mod Rotate
pub mod Ends
pub mod Insert
pub mod Descent
pub mod Linking
pub mod Fixup
pub mod IsTree
pub mod Settle
pub mod Bounds
pub mod Insertion
pub mod Extremes
pub mod Successor
mod Tests
pub mod Delete
pub mod Removal
use yamq.Prelude.{
  ℕ, zero, suc, ◌≡◌, Bool, true, false, ◌&&◌, ◌||◌, Option, none, some, ◌==◌, ltb, if◌then◌else◌,
  not,
}

pub data Color : Type 0 where
  red black : Color

pub record Node : Type 0 where
  pub left : ℕ
  pub right : ℕ
  pub parent : ℕ
  pub col : Color
  pub key : ℕ
  pub val : ℕ

abbrev pub is_red : Color → Bool
is_red red = true
is_red black = false

abbrev pub is_black : Color → Bool
is_black red = false
is_black black = true

-- The heap, and the two fields of `rbtree_t`. No node lives at an address that holds `none`.
pub record Tree : Type 0 where
  pub heap : ℕ → Option Node
  pub root : ℕ
  pub nil : ℕ

abbrev pub null : ℕ
null = 0

-- `none` is the access of an address where no node lives.
abbrev pub M : Type 0 → Type 0
M A = Tree → Option (A × Tree)

abbrev pub pure : {A : Type 0} → A → M A
pure a t = some (a, t)

infixl 5 ◌>>=◌ ◌>>◌
unfoldable pub ◌>>=◌ : {A B : Type 0} → M A → (A → M B) → M B
◌>>=◌ m f t = elim (m t) [ none ↦ none | some (a, t') ↦ f a t' ]

abbrev pub ◌>>◌ : {B : Type 0} → M (Unit {0}) → M B → M B
m >> k = m >>= λ _. k

abbrev pub fault : {A : Type 0} → M A
fault t = none

abbrev pub get_root : M ℕ
get_root t = some (t.root, t)

abbrev pub get_nil : M ℕ
get_nil t = some (t.nil, t)

abbrev pub set_root : ℕ → M (Unit {0})
set_root p t = some (tt, record t { root = p })

unfoldable pub write : Tree → ℕ → Option Node → Tree
write t p c = record t { heap = λ a. if a == p then c else t.heap a }

unfoldable pub load : ℕ → M Node
load p t = elim (t.heap p) [ none ↦ none | some n ↦ some (n, t) ]

-- An assignment through a pointer.
unfoldable pub modify : ℕ → (Node → Node) → M (Unit {0})
unfolding write
modify p f t = elim (t.heap p) [ none ↦ none | some n ↦ some (tt, write t p (some (f n))) ]

abbrev pub set_left : ℕ → ℕ → M (Unit {0})
set_left p q = modify p (λ n. record n { left = q })

abbrev pub set_right : ℕ → ℕ → M (Unit {0})
set_right p q = modify p (λ n. record n { right = q })

abbrev pub set_parent : ℕ → ℕ → M (Unit {0})
set_parent p q = modify p (λ n. record n { parent = q })

abbrev pub set_col : ℕ → Color → M (Unit {0})
set_col p c = modify p (λ n. record n { col = c })

unfoldable pub parent_of : ℕ → M ℕ
parent_of p = do n ← load p; pure n.parent

unfoldable pub color_of : ℕ → M Color
color_of p = do n ← load p; pure n.col

-- `if (c != tree->nil) c->parent = p`.
unfoldable pub adopt : ℕ → ℕ → M (Unit {0})
adopt c p = do nil ← get_nil; if c == nil then pure tt else set_parent c p

-- The link from above: `new` takes the place of `old` under `p`, the parent of `old`.
unfoldable pub relink : ℕ → ℕ → ℕ → M (Unit {0})
relink p old new = do
  nil ← get_nil
  if p == nil
      then set_root new
      else do n ← load p; if old == n.left then set_left p new else set_right p new

unfoldable pub left_rotate : ℕ → M (Unit {0})
left_rotate x = do
  nil ← get_nil
  n ← load x
  if n.right == nil then pure tt else do
    let y = n.right
    m ← load y
    set_right x m.left
    adopt m.left x
    p ← parent_of x
    set_parent y p
    relink p x y
    set_parent x y
    set_left y x

unfoldable pub right_rotate : ℕ → M (Unit {0})
right_rotate x = do
  nil ← get_nil
  n ← load x
  if n.left == nil then pure tt else do
    let y = n.left
    m ← load y
    set_left x m.right
    adopt m.right x
    p ← parent_of x
    set_parent y p
    relink p x y
    set_parent x y
    set_right y x
