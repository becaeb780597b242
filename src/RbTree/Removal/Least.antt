-- ===== src/RbTree/Removal/Least.antt =====
-- rbtree_delete of base/rbtree/rbtree.cpp at the node of the least key.
use yamq.Prelude.{ℕ, ◌<◌, ◌≡◌, sym, ap, subst, ◌∙◌, none, some, List, ◌∷◌, ◌++◌, arith}
use yamq.RbTree.{Tree}
use yamq.RbTree.Shape.{Entry, Nodes, leaf, node, top, plug, Focus}
use yamq.RbTree.Balance.{entries, after, entries-plug, root_color, IsRb, plug-Parts}
use yamq.RbTree.Order.{IsAscending}
use yamq.RbTree.Moves.{from_top}
use yamq.RbTree.Descent.{height, depth-le-height}
use yamq.RbTree.IsTree.{IsTree}
use yamq.RbTree.Delete.{rbtree_delete}
use yamq.RbTree.Removal.TakenOut.{Least, least, before-LeftEdge, plug-Dark, remove}

-- The tree after the deletion of the node at `y`, with the entries `es`.
pub record Deleted (fuel : ℕ) (t : Tree) (y : ℕ) (es : List Entry) : Type 0 where
  pub tree' : Tree
  pub whole : Nodes
  pub run : rbtree_delete fuel y t ≡ some (tt, tree')
  pub is_tree : IsTree tree' whole
  pub same : entries whole ≡ es
  pub freed : tree'.heap y ≡ none

delete_at :
    (t : Tree) (s : Nodes) (fuel : ℕ) (e : Entry) (es : List Entry) (g : Least s)
    → IsTree t s
    → height s < fuel
    → entries s ≡ e ∷ es
    → Deleted fuel t e.addr es
unfolding entries
delete_at t s fuel e es g w k q =
    let flat : e ∷ es ≡ g.entry ∷ (entries g.right ++ after g.up) =
      sym q
      ∙ ap entries (sym g.whole)
      ∙ entries-plug g.up (node leaf g.col g.entry g.right)
      ∙ ap (λ xs. xs ++ (g.entry ∷ (entries g.right ++ after g.up)))
          (before-LeftEdge g.up g.edge) in
    let same : g.entry ≡ e = cc in
    let rest : entries (plug g.up g.right) ≡ es =
      entries-plug g.up g.right
      ∙ ap (λ xs. xs ++ (entries g.right ++ after g.up)) (before-LeftEdge g.up g.edge)
      ∙ cc in
    let black_root = ap root_color g.whole ∙ w.dark in
    let (u, s', run, focus, es', (n, rules), dark, freed) =
      remove t.nil t.heap t.root fuel g.entry g.right g.up g.edge
        (omega (arith, depth-le-height g.up (node leaf g.col g.entry g.right), ap height g.whole))
        (plug-Dark g.up (node leaf g.col g.entry g.right) g.edge black_root) g.col
        (from_top t.nil t.heap t.root g.up (node leaf g.col g.entry g.right)
          (subst (λ z. Focus t.nil t.heap t.root z top) (sym g.whole) w.focus))
        (plug-Parts w.blacks g.up (node leaf g.col g.entry g.right)
          (subst (IsRb w.blacks) (sym g.whole) w.rules) black_root) in
    record {
      tree' = u;
      whole = s';
      run = ap (λ x. rbtree_delete fuel x.addr t) (sym same) ∙ run;
      is_tree = record {
        focus = focus;
        blacks = n;
        rules = rules;
        dark = dark;
        ascending =
            let tail = subst IsAscending q w.ascending in
            subst IsAscending (sym (es' ∙ rest)) tail.1;
      };
      same = es' ∙ rest;
      freed = ap (λ x. u.heap x.addr) (sym same) ∙ freed;
    }

-- On a heap that holds a red-black search tree, with fuel above its height, rbtree_delete of the
-- node of the first entry leaves a red-black search tree with the other entries at their addresses,
-- and frees the node.
pub rbtree_delete-least :
    (t : Tree) (s : Nodes) (fuel : ℕ) (e : Entry) (es : List Entry)
    → IsTree t s
    → height s < fuel
    → entries s ≡ e ∷ es
    → Deleted fuel t e.addr es
unfolding entries plug
rbtree_delete-least t leaf fuel e es w k q = cc
rbtree_delete-least t (node l c x r) fuel e es w k q =
    delete_at t (node l c x r) fuel e es (least l c x r top tt) w k q
