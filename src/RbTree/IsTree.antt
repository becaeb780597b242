-- ===== src/RbTree/IsTree.antt =====
-- What rbtree_insert and rbtree_delete of base/rbtree/rbtree.cpp keep.
use yamq.Prelude.{ℕ, ◌≡◌, some, List}
use yamq.RbTree.{black, Tree, M}
use yamq.RbTree.Shape.{Entry, Nodes, top, Focus}
use yamq.RbTree.Order.{IsAscending}
use yamq.RbTree.Balance.{entries, root_color, IsRb}

-- The heap holds the search tree `s`, which obeys the red-black rules.
pub record IsTree (t : Tree) (s : Nodes) : Type 0 where
  pub focus : Focus t.nil t.heap t.root s top
  pub blacks : ℕ
  pub rules : IsRb blacks s
  pub dark : root_color s ≡ black
  pub ascending : IsAscending (entries s)

-- The tree after a command, with the entries `es`.
pub record Holding (m : M ℕ) (t : Tree) (result : ℕ) (es : List Entry) : Type 0 where
  pub tree' : Tree
  pub whole : Nodes
  pub run : m t ≡ some (result, tree')
  pub is_tree : IsTree tree' whole
  pub same : entries whole ≡ es
