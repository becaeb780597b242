-- ===== src/RbTree/Delete.antt =====
-- rbtree_delete of base/rbtree/rbtree.cpp.
use yamq.Prelude.{ℕ, zero, suc, ◌&&◌, ◌||◌, none, some, ◌==◌, if◌then◌else◌}
use yamq.RbTree.{
  Color, red, black, is_red, is_black, M, pure, ◌>>=◌, ◌>>◌, fault, get_root, get_nil, write, load,
  modify, set_parent, set_col, parent_of, color_of, relink, left_rotate, right_rotate,
}

abbrev pub left_of : ℕ → M ℕ
left_of p = do n ← load p; pure n.left

abbrev pub right_of : ℕ → M ℕ
right_of p = do n ← load p; pure n.right

-- The branch of the loop for a left child: a red sibling `w` makes room for a black one.
unfoldable pub case1_left : ℕ → ℕ → ℕ → M ℕ
case1_left x p w = do
  c ← color_of w
  if is_red c
      then (do set_col w black; set_col p red; left_rotate p; p' ← parent_of x; right_of p')
      else pure w

-- `near` is the child of `w` on the side of `x`, `far` the color of the other.
unfoldable pub case3_left : ℕ → ℕ → ℕ → Color → M ℕ
case3_left x w near far =
    if is_black far
    then (do set_col near black; set_col w red; right_rotate w; p ← parent_of x; right_of p)
    else pure w

unfoldable pub case4_left : ℕ → ℕ → M ℕ
case4_left x w = do
  p ← parent_of x
  c ← color_of p
  set_col w c
  set_col p black
  far ← right_of w
  set_col far black
  left_rotate p
  get_root

-- With the black sibling `w`; it returns the next `x`.
unfoldable pub rest_left : ℕ → ℕ → M ℕ
unfolding case3_left case4_left
rest_left x w = do
  wn ← load w
  cl ← color_of wn.left
  cr ← color_of wn.right
  if is_black cl && is_black cr
      then (do set_col w red; parent_of x)
      else do w' ← case3_left x w wn.left cr; case4_left x w'

unfoldable pub del_left : ℕ → M ℕ
unfolding case1_left rest_left
del_left x = do p ← parent_of x; sibling ← right_of p; w ← case1_left x p sibling; rest_left x w

-- The branch for a right child: a red sibling `w` makes room for a black one.
unfoldable pub case1_right : ℕ → ℕ → ℕ → M ℕ
case1_right x p w = do
  c ← color_of w
  if is_red c
      then (do set_col w black; set_col p red; right_rotate p; p' ← parent_of x; left_of p')
      else pure w

-- `near` is the child of `w` on the side of `x`, `far` the color of the other.
unfoldable pub case3_right : ℕ → ℕ → ℕ → Color → M ℕ
case3_right x w near far =
    if is_black far
    then (do set_col near black; set_col w red; left_rotate w; p ← parent_of x; left_of p)
    else pure w

-- The child of `w` that is made black is the right one, as in the source.
unfoldable pub case4_right : ℕ → ℕ → M ℕ
case4_right x w = do
  p ← parent_of x
  c ← color_of p
  set_col w c
  set_col p black
  far ← right_of w
  set_col far black
  right_rotate p
  get_root

-- With the black sibling `w`; it returns the next `x`.
unfoldable pub rest_right : ℕ → ℕ → M ℕ
unfolding case3_right case4_right
rest_right x w = do
  wn ← load w
  cl ← color_of wn.left
  cr ← color_of wn.right
  if is_black cl && is_black cr
      then (do set_col w red; parent_of x)
      else do w' ← case3_right x w wn.right cl; case4_right x w'

unfoldable pub del_right : ℕ → M ℕ
unfolding case1_right rest_right
del_right x = do p ← parent_of x; sibling ← left_of p; w ← case1_right x p sibling; rest_right x w

-- The loop and the assignment behind it.
unfoldable pub del_fixup : ℕ → ℕ → M (Unit {0})
unfolding del_left del_right
del_fixup zero x = fault
del_fixup (suc fuel) x = do
  root ← get_root
  n ← load x
  let onward = (do
    p ← load n.parent
    x' ← if x == p.left then del_left x else del_right x
    del_fixup fuel x')
  if (x == root) || is_red n.col then set_col x black else onward

-- The least node of the right subtree.
unfoldable pub leftmost : ℕ → ℕ → M ℕ
leftmost zero y = fault
leftmost (suc fuel) y = do
  nil ← get_nil
  n ← load y
  let down = leftmost fuel n.left
  if n.left == nil then pure y else down

-- The node that is taken out: `z`, or its successor, whose key and value `z` takes over.
unfoldable pub victim : ℕ → ℕ → M ℕ
unfolding leftmost
victim fuel z = do
  nil ← get_nil
  n ← load z
  if (n.left == nil) || (n.right == nil) then pure z else do
    y ← leftmost fuel n.right
    m ← load y
    modify z (λ zn. record zn { val = m.val })
    modify z (λ zn. record zn { key = m.key })
    pure y

-- `x` takes the place of `y`.
unfoldable pub splice : ℕ → M ℕ
splice y = do
  nil ← get_nil
  n ← load y
  let x = if n.left == nil then n.right else n.left
  set_parent x n.parent
  relink n.parent y x
  pure x

unfoldable pub free : ℕ → M (Unit {0})
unfolding write
free p t = elim (t.heap p) [ none ↦ none | some n ↦ some (tt, write t p none) ]

unfoldable pub rbtree_delete : ℕ → ℕ → M (Unit {0})
unfolding victim splice del_fixup free
rbtree_delete fuel z = do
  y ← victim fuel z
  c ← color_of y
  x ← splice y
  if is_black c then del_fixup fuel x else pure tt
  free y
