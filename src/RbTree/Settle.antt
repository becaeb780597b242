-- ===== src/RbTree/Settle.antt =====
-- The end of rbtree_insert_fixup in base/rbtree/rbtree.cpp, and a tree beside a new node.
use yamq.Prelude.{
  ℕ, suc, ◌≡◌, ◌≢◌, refl, sym, ap, subst, ◌∙◌, none, some, List, [], ◌∷◌, ◌++◌, length,
  length-append, arith,
}
use yamq.RbTree.{Color, red, black, Tree, set_col}
use yamq.RbTree.Shape.{
  Heap, Entry, Nodes, leaf, node, Ctx, top, ptr, par, tree, Focus, Holds-frame, Around-frame,
}
use yamq.RbTree.Links.{and_then, ne_of_occ, ne_of_occ_ctx}
use yamq.RbTree.Order.{IsAscending}
use yamq.RbTree.Balance.{entries, IsRb}
use yamq.RbTree.Moves.{painted, set_col-run, painted-Focus}
use yamq.RbTree.Insert.{insert_fixup}
use yamq.RbTree.Linking.{occ-fresh, occ_ctx-fresh}
use yamq.RbTree.Fixup.Loop.{Fixed}
use yamq.RbTree.IsTree.{IsTree}

pub entry_ne : (es xs ys : List Entry) (e : Entry) → es ≡ xs ++ (e ∷ ys) → es ≢ []
entry_ne es xs ys e q z = omega (arith, ap length q, ap length z, length-append xs (e ∷ ys))

-- The assignment behind the loop.
blacken-run :
    (nil : ℕ) (h : Heap) (root fuel x : ℕ) (es : List Entry) (f : Fixed nil h root fuel x es)
    (l : Nodes) (c : Color) (e : Entry) (r : Nodes) (g : Focus nil f.heap f.new (node l c e r) top)
    → insert_fixup fuel x (tree nil h root)
      ≡ some (tt, tree nil (painted nil f.heap f.new l c e r top g black) f.new)
unfolding insert_fixup
blacken-run nil h root fuel x es f l c e r g =
    and_then _ _ _ _ _ f.run
    ∙ and_then _ _ _ _ _ refl
    ∙ ap (λ z. set_col z black (tree nil f.heap f.new)) g.outside
    ∙ set_col-run nil f.heap f.new l c e r top g black

blackened :
    (n : ℕ) (l : Nodes) (c : Color) (e : Entry) (r : Nodes)
    → IsRb n (node l c e r)
    → (m : ℕ) × IsRb m (node l black e r)
blackened n l red e r b = (suc n, (b.2, b.3))
blackened n l black e r b = (n, b)

-- The loop and the assignment, on the tree that the loop leaves.
pub record Settled (nil : ℕ) (h : Heap) (root fuel x : ℕ) (es : List Entry) : Type 0 where
  pub after : Tree
  pub whole : Nodes
  pub run : insert_fixup fuel x (tree nil h root) ≡ some (tt, after)
  pub is_tree : IsTree after whole
  pub same : entries whole ≡ es

pub settle :
    (nil : ℕ) (h : Heap) (root fuel x : ℕ) (es : List Entry) (f : Fixed nil h root fuel x es)
    (s : Nodes) (n : ℕ)
    → Focus nil f.heap f.new s top
    → IsRb n s
    → entries s ≡ es
    → es ≢ []
    → IsAscending es
    → Settled nil h root fuel x es
unfolding entries
settle nil h root fuel x es f leaf n g b q ne asc = absurd (ne (sym q))
settle nil h root fuel x es f (node l c e r) n g b q ne asc =
    let (m, rules) = blackened n l c e r b in
    record {
      after = tree nil (painted nil f.heap f.new l c e r top g black) f.new;
      whole = node l black e r;
      run = blacken-run nil h root fuel x es f l c e r g;
      is_tree = record {
        focus = painted-Focus nil f.heap f.new l c e r top g black;
        blacks = m;
        rules = rules;
        dark = refl;
        ascending = subst IsAscending (sym q) asc;
      };
      same = q;
    }

-- A tree stays where a node is made at an address that held none.
pub Focus-fresh :
    (nil : ℕ) (h k : Heap) (root n : ℕ) (s : Nodes) (c : Ctx)
    → h n ≡ none
    → ((a : ℕ) → a ≢ n → k a ≡ h a)
    → Focus nil h root s c
    → Focus nil k root s c
Focus-fresh nil h k root n s c free same f = record {
  sentinel = record {
    node = f.sentinel.node;
    at = same nil (λ q. cc (ap h q, f.sentinel.at)) ∙ f.sentinel.at;
    is_black = f.sentinel.is_black;
  };
  inside =
      Holds-frame nil h k (par nil c) s
        (λ a i. same a (ne_of_occ a n s i (occ-fresh nil h (par nil c) s n free f.inside)))
        f.inside;
  outside =
      Around-frame nil h k root (ptr nil s) c
        (λ a i.
          same a (ne_of_occ_ctx a n c i (occ_ctx-fresh nil h root (ptr nil s) c n free f.outside)))
        f.outside;
  distinct = f.distinct;
  apart = f.apart;
}
