-- ===== src/RbTree/Shape.antt =====
-- What a heap of base/rbtree/rbtree.cpp holds: trees of nodes at addresses, and contexts, which are
-- trees with a hole.
use yamq.Prelude.{ℕ, ◌+◌, ◌≤◌, ◌<◌, ◌≡◌, ◌∙◌, Option, some, ◌==◌, if◌then◌else◌, arith}
use yamq.RbTree.{Color, black, Node, Tree}

-- Key, address and value of a node.
pub record Entry : Type 0 where
  pub key : ℕ
  pub addr : ℕ
  pub val : ℕ

pub data Nodes : Type 0 where
  leaf : Nodes
  node : Nodes → Color → Entry → Nodes → Nodes

pub data Ctx : Type 0 where
  top : Ctx
  in_left : Ctx → Color → Entry → Nodes → Ctx
  in_right : Nodes → Color → Entry → Ctx → Ctx

unfoldable pub plug : Ctx → Nodes → Nodes
plug top s = s
plug (in_left up c e r) s = plug up (node s c e r)
plug (in_right l c e up) s = plug up (node l c e s)

-- How often an address occurs.
abbrev pub here : ℕ → ℕ → ℕ
here a b = if a == b then 1 else 0

abbrev pub occ : ℕ → Nodes → ℕ
occ a leaf = 0
occ a (node l c e r) = here a e.addr + occ a l + occ a r

abbrev pub occ_ctx : ℕ → Ctx → ℕ
occ_ctx a top = 0
occ_ctx a (in_left up c e r) = here a e.addr + occ a r + occ_ctx a up
occ_ctx a (in_right l c e up) = here a e.addr + occ a l + occ_ctx a up

-- The pointer to a tree, and the parent of the hole.
abbrev pub ptr : ℕ → Nodes → ℕ
ptr nil leaf = nil
ptr nil (node l c e r) = e.addr

abbrev pub par : ℕ → Ctx → ℕ
par nil top = nil
par nil (in_left up c e r) = e.addr
par nil (in_right l c e up) = e.addr

abbrev pub cell : ℕ → ℕ → ℕ → Color → Entry → Node
cell l r p c e = record { left = l; right = r; parent = p; col = c; key = e.key; val = e.val }

abbrev pub Heap : Type 0
Heap = ℕ → Option Node

abbrev pub tree : ℕ → Heap → ℕ → Tree
tree nil h root = record { heap = h; root = root; nil = nil }

abbrev pub upd : Heap → ℕ → Node → Heap
upd h p n a = if a == p then some n else h a

-- The nodes of a tree below `p`.
abbrev pub Holds : ℕ → Heap → ℕ → Nodes → Type 0
Holds nil h p leaf = Unit
Holds nil h p (node l c e r) =
    (h e.addr ≡ some (cell (ptr nil l) (ptr nil r) p c e))
    × Holds nil h e.addr l
    × Holds nil h e.addr r

-- The nodes around a hole that is filled by the pointer `x`.
abbrev pub Around : ℕ → Heap → ℕ → ℕ → Ctx → Type 0
Around nil h root x top = root ≡ x
Around nil h root x (in_left up c e r) =
    (h e.addr ≡ some (cell x (ptr nil r) (par nil up) c e))
    × Holds nil h e.addr r
    × Around nil h root e.addr up
Around nil h root x (in_right l c e up) =
    (h e.addr ≡ some (cell (ptr nil l) x (par nil up) c e))
    × Holds nil h e.addr l
    × Around nil h root e.addr up

-- The sentinel is a black node of its own.
pub record Sentinel (nil : ℕ) (h : Heap) : Type 0 where
  pub node : Node
  pub at : h nil ≡ some node
  pub is_black : node.col ≡ black

-- The tree `s` in the context `c`, at distinct addresses other than the sentinel's.
pub record Focus (nil : ℕ) (h : Heap) (root : ℕ) (s : Nodes) (c : Ctx) : Type 0 where
  pub sentinel : Sentinel nil h
  pub inside : Holds nil h (par nil c) s
  pub outside : Around nil h root (ptr nil s) c
  pub distinct : (a : ℕ) → occ a s + occ_ctx a c ≤ 1
  pub apart : occ nil s + occ_ctx nil c ≡ 0

-- A tree keeps its nodes where the heap changes at other addresses.
pub Holds-frame :
    (nil : ℕ) (h k : Heap) (p : ℕ) (s : Nodes)
    → ((a : ℕ) → 0 < occ a s → k a ≡ h a)
    → Holds nil h p s
    → Holds nil k p s
Holds-frame nil h k p leaf same w = tt
Holds-frame nil h k p (node l c e r) same w = (
  same e.addr (ground arith) ∙ w.0,
  Holds-frame nil h k e.addr l (λ a i. same a (omega arith)) w.1,
  Holds-frame nil h k e.addr r (λ a i. same a (omega arith)) w.2,
)

pub Around-frame :
    (nil : ℕ) (h k : Heap) (root x : ℕ) (c : Ctx)
    → ((a : ℕ) → 0 < occ_ctx a c → k a ≡ h a)
    → Around nil h root x c
    → Around nil k root x c
Around-frame nil h k root x top same w = w
Around-frame nil h k root x (in_left up c e r) same w = (
  same e.addr (ground arith) ∙ w.0,
  Holds-frame nil h k e.addr r (λ a i. same a (omega arith)) w.1,
  Around-frame nil h k root e.addr up (λ a i. same a (omega arith)) w.2,
)
Around-frame nil h k root x (in_right l c e up) same w = (
  same e.addr (ground arith) ∙ w.0,
  Holds-frame nil h k e.addr l (λ a i. same a (omega arith)) w.1,
  Around-frame nil h k root e.addr up (λ a i. same a (omega arith)) w.2,
)

-- One write elsewhere.
pub Holds-upd :
    (nil : ℕ) (h : Heap) (p : ℕ) (s : Nodes) (b : ℕ) (n : Node)
    → occ b s ≡ 0
    → Holds nil h p s
    → Holds nil (upd h b n) p s
Holds-upd nil h p s b n o w = Holds-frame nil h (upd h b n) p s (λ a i. ground arith) w

pub Around-upd :
    (nil : ℕ) (h : Heap) (root x : ℕ) (c : Ctx) (b : ℕ) (n : Node)
    → occ_ctx b c ≡ 0
    → Around nil h root x c
    → Around nil (upd h b n) root x c
Around-upd nil h root x c b n o w = Around-frame nil h (upd h b n) root x c (λ a i. ground arith) w

pub occ-plug : (a : ℕ) (c : Ctx) (s : Nodes) → occ a (plug c s) ≡ occ a s + occ_ctx a c
unfolding plug
occ-plug a top s = omega arith
occ-plug a (in_left up c e r) s = omega (arith, occ-plug a up (node s c e r))
occ-plug a (in_right l c e up) s = omega (arith, occ-plug a up (node l c e s))
