-- ===== src/RbTree/Tests.antt =====
-- The tree of base/rbtree/rbtree.cpp on concrete inputs.
use yamq.Prelude.{
  ℕ, ◌+◌, ◌^◌, ◌≤◌, ◌≡◌, refl, Bool, true, false, Option, none, some, [], ◌∷◌, ◌==◌, if◌then◌else◌,
  arith, length,
}
use yamq.RbTree.{Color, red, black, Node, Tree, M, pure, ◌>>=◌, ◌>>◌}
use yamq.RbTree
use yamq.RbTree.Shape.{Heap, Nodes, leaf, node, top, in_left, cell, tree, plug, occ}
use yamq.RbTree.Order.{insert_entry}
use yamq.RbTree.Balance.{entries, after}
use yamq.RbTree.IsTree.{IsTree, Holding}
use yamq.RbTree.Insert.{rbtree_create, rbtree_insert, rbtree_min, rbtree_max, rbtree_successor}
use yamq.RbTree.Delete.{rbtree_delete}
use yamq.RbTree.Insertion.{entry, rbtree_insert-Holding, rbtree_insert-bounded}
use yamq.RbTree.Extremes.{rbtree_ends}
use yamq.RbTree.Successor.{rbtree_successor-next}
use yamq.RbTree.Removal.Least.{Deleted, rbtree_delete-least}

abbrev raw : Node
raw = record { left = 0; right = 0; parent = 0; col = red; key = 0; val = 0 }

-- The key 20 above 10 and 30; the sentinel is at 9.
abbrev sentinel : Node
sentinel = record { left = 0; right = 0; parent = 0; col = black; key = 0; val = 0 }

abbrev three : Heap
three a =
    if a == 1
    then some (cell 9 9 2 red (entry 10 1 100))
    else if a == 2
    then some (cell 1 3 9 black (entry 20 2 200))
    else if a == 3
    then some (cell 9 9 2 red (entry 30 3 300))
    else if a == 9
    then some sentinel
    else none

abbrev three_nodes : Nodes
three_nodes =
    node (node leaf red (entry 10 1 100) leaf) black (entry 20 2 200)
      (node leaf red (entry 30 3 300) leaf)

three_distinct : (a : ℕ) → occ a three_nodes + 0 ≤ 1
three_distinct a = ground arith

three_is_tree : IsTree (tree 9 three 2) three_nodes
unfolding entries
three_is_tree = record {
  focus = record {
    sentinel = record { node = sentinel; at = refl; is_black = refl };
    inside = (refl, (refl, tt, tt), (refl, tt, tt));
    outside = refl;
    distinct = three_distinct;
    apart = refl;
  };
  blacks = 1;
  rules = ((refl, refl, refl, refl), (refl, refl, refl, refl));
  dark = refl;
  ascending = omega arith;
}

rbtree_insert-Holding_example :
    Holding
      (rbtree_insert 5 4 raw 25 250)
      (tree 9 three 2)
      4
      (insert_entry (entry 25 4 250) (entries three_nodes))
rbtree_insert-Holding_example =
    rbtree_insert-Holding (tree 9 three 2) three_nodes 5 4 raw 25 250 three_is_tree (omega arith)
      refl (omega arith)

rbtree_insert-bounded_example :
    (2 ^ 1 ≤ length (entries three_nodes) + 1)
    × Holding
        (rbtree_insert 3 4 raw 25 250)
        (tree 9 three 2)
        4
        (insert_entry (entry 25 4 250) (entries three_nodes))
unfolding three_is_tree
rbtree_insert-bounded_example =
    rbtree_insert-bounded (tree 9 three 2) three_nodes 4 raw 25 250 three_is_tree refl (omega arith)

rbtree_ends_example :
    (rbtree_min 5 (tree 9 three 2) ≡ some (1, tree 9 three 2))
    × (rbtree_max 5 (tree 9 three 2) ≡ some (3, tree 9 three 2))
unfolding entries
rbtree_ends_example = rbtree_ends (tree 9 three 2) three_nodes 5 three_is_tree (omega arith)

rbtree_successor-next_example : rbtree_successor 5 1 (tree 9 three 2) ≡ some (2, tree 9 three 2)
unfolding plug entries after
rbtree_successor-next_example =
    rbtree_successor-next (tree 9 three 2)
      (in_left top black (entry 20 2 200) (node leaf red (entry 30 3 300) leaf)) leaf red
      (entry 10 1 100) leaf (entry 20 2 200) (entry 30 3 300 ∷ []) 5 three_is_tree (omega arith)
      refl

rbtree_delete-least_example : Deleted 5 (tree 9 three 2) 1 (entry 20 2 200 ∷ entry 30 3 300 ∷ [])
unfolding entries
rbtree_delete-least_example =
    rbtree_delete-least (tree 9 three 2) three_nodes 5 (entry 10 1 100)
      (entry 20 2 200 ∷ entry 30 3 300 ∷ []) three_is_tree (omega arith) refl

-- Four insertions, at the addresses 2, 1, 3 and 4.
abbrev fill : M ℕ
fill = do
  a ← rbtree_insert 9 2 raw 20 0
  b ← rbtree_insert 9 1 raw 10 0
  c ← rbtree_insert 9 3 raw 30 0
  rbtree_insert 9 4 raw 5 0

abbrev outcome : {A : Type 0} → M A → Option (A × Tree)
outcome m = elim (rbtree_create (λ a. none) 9 raw) [ none ↦ none | some t ↦ m t ]

abbrev is_some : {A : Type 0} → Option A → Bool
is_some none = false
is_some (some a) = true

filled : is_some (outcome fill) ≡ true
unfolding rbtree_create rbtree_insert RbTree.◌>>=◌ RbTree.load RbTree.modify RbTree.write
    RbTree.parent_of RbTree.color_of RbTree.adopt RbTree.relink RbTree.left_rotate
    RbTree.right_rotate
filled = refl

-- The deletion of the right child leaves a red node where a black one is due, and the next one follows
-- a null pointer.
first_deletion : is_some (outcome (fill >>= λ a. rbtree_delete 9 3)) ≡ true
unfolding rbtree_create rbtree_insert rbtree_delete RbTree.◌>>=◌ RbTree.load RbTree.modify
    RbTree.write RbTree.parent_of RbTree.color_of RbTree.adopt RbTree.relink RbTree.left_rotate
    RbTree.right_rotate
first_deletion = refl

second_deletion : outcome (fill >>= λ a. rbtree_delete 9 3 >>= λ b. rbtree_delete 9 2) ≡ none
unfolding rbtree_create rbtree_insert rbtree_delete RbTree.◌>>=◌ RbTree.load RbTree.modify
    RbTree.write RbTree.parent_of RbTree.color_of RbTree.adopt RbTree.relink RbTree.left_rotate
    RbTree.right_rotate
second_deletion = refl

abbrev key_at : ℕ → Option (Unit {0} × Tree) → Option ℕ
key_at a none = none
key_at a (some (u, t)) = elim (t.heap a) [ none ↦ none | some n ↦ some n.key ]

-- The deletion of a node with two children frees the node of its successor instead.
successor_freed :
    (key_at 3 (rbtree_delete 9 2 (tree 9 three 2)) ≡ none)
    × (key_at 2 (rbtree_delete 9 2 (tree 9 three 2)) ≡ some 30)
unfolding rbtree_delete RbTree.◌>>=◌ RbTree.load RbTree.modify RbTree.write RbTree.parent_of
    RbTree.color_of RbTree.adopt RbTree.relink RbTree.left_rotate RbTree.right_rotate
successor_freed = (refl, refl)
