-- ===== src/RbTree/Insert.antt =====
-- rbtree_create, rbtree_insert, rbtree_min, rbtree_max and rbtree_successor of base/rbtree/rbtree.cpp.
use yamq.Prelude.{ℕ, zero, suc, Option, none, some, ◌==◌, ltb, if◌then◌else◌}
use yamq.RbTree.{
  red, black, Node, is_red, Tree, null, M, pure, ◌>>=◌, ◌>>◌, fault, get_root, get_nil, set_root,
  write, load, modify, set_left, set_right, set_parent, set_col, parent_of, color_of, left_rotate,
  right_rotate,
}

-- malloc: `p` is the address that it returns, `raw` what the memory holds.
unfoldable pub malloc : ℕ → Node → M ℕ
unfolding write
malloc p raw t = some (p, if p == null then t else write t p (some raw))

-- The parent black, the grandparent red, and a rotation at it.
unfoldable pub raise_right : ℕ → M ℕ
raise_right n = do
  p ← parent_of n
  set_col p black
  g ← parent_of p
  set_col g red
  right_rotate g
  pure n

unfoldable pub raise_left : ℕ → M ℕ
raise_left n = do
  p ← parent_of n
  set_col p black
  g ← parent_of p
  set_col g red
  left_rotate g
  pure n

-- The case of a red uncle.
unfoldable pub recolor : ℕ → ℕ → ℕ → M ℕ
recolor p uncle g = do set_col p black; set_col uncle black; set_col g red; pure g

-- The branch of the loop for a parent that is a left child; it returns the next `n`.
unfoldable pub fixup_left : ℕ → ℕ → ℕ → ℕ → M ℕ
unfolding raise_right recolor
fixup_left n p g uncle = do
  c ← color_of uncle
  if is_red c then recolor p uncle g else do
    pn ← load p
    n' ← if n == pn.right then (do left_rotate p; pure p) else pure n
    raise_right n'

-- The branch for a right child.
unfoldable pub fixup_right : ℕ → ℕ → ℕ → ℕ → M ℕ
unfolding raise_left recolor
fixup_right n p g uncle = do
  c ← color_of uncle
  if is_red c then recolor p uncle g else do
    pn ← load p
    n' ← if n == pn.left then (do right_rotate p; pure p) else pure n
    raise_left n'

unfoldable pub fixup_body : ℕ → ℕ → Node → M ℕ
unfolding fixup_left fixup_right
fixup_body n p pn = do
  g ← load pn.parent
  if p == g.left then fixup_left n p pn.parent g.right else fixup_right n p pn.parent g.left

unfoldable pub fixup_loop : ℕ → ℕ → M (Unit {0})
unfolding fixup_body
fixup_loop zero n = fault
fixup_loop (suc fuel) n = do
  p ← parent_of n
  pn ← load p
  let rest = (do n' ← fixup_body n p pn; fixup_loop fuel n')
  if is_red pn.col then rest else pure tt

unfoldable pub insert_fixup : ℕ → ℕ → M (Unit {0})
unfolding fixup_loop
insert_fixup fuel n = do fixup_loop fuel n; r ← get_root; set_col r black

-- The search for the place of a key: the parent to be, and `none` where the key is there.
unfoldable pub descend : ℕ → ℕ → ℕ → ℕ → M (Option ℕ)
descend zero key x p = fault
descend (suc fuel) key x p = do
  nil ← get_nil
  let further = (do
    n ← load x
    let lower = descend fuel key n.left x
    let higher = descend fuel key n.right x
    if ltb key n.key then lower else if ltb n.key key then higher else pure none)
  if x == nil then pure (some p) else further

-- `p->left = n` or `p->right = n`, or the root in an empty tree.
unfoldable pub link : ℕ → ℕ → ℕ → M (Unit {0})
link p key n = do
  nil ← get_nil
  if p == nil
      then set_root n
      else do pn ← load p; if ltb key pn.key then set_left p n else set_right p n

unfoldable pub place_node : ℕ → ℕ → ℕ → ℕ → M (Unit {0})
unfolding link insert_fixup
place_node fuel n key p = do
  set_parent n p
  link p key n
  nil ← get_nil
  set_right n nil
  set_left n nil
  set_col n red
  insert_fixup fuel n

unfoldable pub insert_node : ℕ → ℕ → M (Unit {0})
unfolding descend place_node
insert_node fuel n = do
  nn ← load n
  r ← get_root
  found ← descend fuel nn.key r r
  elim found [ none ↦ pure tt | some p ↦ place_node fuel n nn.key p ]

unfoldable pub rbtree_insert : ℕ → ℕ → Node → ℕ → ℕ → M ℕ
unfolding malloc insert_node
rbtree_insert fuel fresh raw key val = do
  n ← malloc fresh raw
  modify n (λ m. record m { key = key })
  modify n (λ m. record m { val = val })
  insert_node fuel n
  pure n

-- The memory before, and the address of the sentinel.
unfoldable pub rbtree_create : (ℕ → Option Node) → ℕ → Node → Option Tree
unfolding malloc
rbtree_create heap fresh raw =
    elim ((do
      n ← malloc fresh raw
      modify n (λ m. record m { left = null; right = null; parent = null; col = black }))
      (record { heap = heap; root = fresh; nil = fresh })) [ none ↦ none | some (u, t) ↦ some t ]

unfoldable pub min_loop : ℕ → ℕ → ℕ → M ℕ
min_loop zero x low = fault
min_loop (suc fuel) x low = do
  nil ← get_nil
  let further = (do n ← load x; min_loop fuel n.left x)
  if x == nil then pure low else further

unfoldable pub rbtree_min : ℕ → M ℕ
unfolding min_loop
rbtree_min fuel = do r ← get_root; min_loop fuel r r

unfoldable pub max_loop : ℕ → ℕ → ℕ → M ℕ
max_loop zero x high = fault
max_loop (suc fuel) x high = do
  nil ← get_nil
  let further = (do n ← load x; max_loop fuel n.right x)
  if x == nil then pure high else further

unfoldable pub rbtree_max : ℕ → M ℕ
unfolding max_loop
rbtree_max fuel = do r ← get_root; max_loop fuel r r

-- The first ancestor that is not reached from its right child, or the root.
unfoldable pub climb : ℕ → ℕ → ℕ → M ℕ
climb zero p x = fault
climb (suc fuel) p x = do
  root ← get_root
  let further = (do n ← load p; let up = climb fuel n.parent p; if n.right == x then up else pure p)
  if p == root then pure p else further

unfoldable pub rbtree_successor : ℕ → ℕ → M ℕ
unfolding min_loop climb
rbtree_successor fuel n = do
  nil ← get_nil
  if n == nil then pure null else do
    m ← load n
    if m.right == nil then climb fuel m.parent n else min_loop fuel m.right m.right
