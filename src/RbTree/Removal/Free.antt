-- ===== src/RbTree/Removal/Free.antt =====
-- The end of rbtree_delete in base/rbtree/rbtree.cpp: the node is freed.
use yamq.Prelude.{
  ℕ, ◌+◌, ◌≡◌, ◌≢◌, refl, sym, ◌∙◌, none, some, List, [], ◌∷◌, ◌++◌, ◌==◌, ==_false, ==-self,
  if◌then◌else◌, arith,
}
use yamq.RbTree.{Color, write}
use yamq.RbTree.Shape.{
  Heap, Entry, Nodes, leaf, node, Ctx, top, here, occ, tree, Focus, Holds-frame,
}
use yamq.RbTree.Links.{and_then, load-run, ne_of_occ}
use yamq.RbTree.Balance.{entries}
use yamq.RbTree.Delete.{victim, free}
use yamq.RbTree.Removal.Keeps.{Alive}

-- How often an address occurs, read off the entries.
unfoldable pub occ_list : ℕ → List Entry → ℕ
occ_list a [] = 0
occ_list a (e ∷ es) = here a e.addr + occ_list a es

occ_list-append :
    (a : ℕ) (xs ys : List Entry) → occ_list a (xs ++ ys) ≡ occ_list a xs + occ_list a ys
unfolding occ_list
occ_list-append a [] ys = omega arith
occ_list-append a (x ∷ xs) ys = omega (arith, occ_list-append a xs ys)

pub occ-entries : (a : ℕ) (s : Nodes) → occ a s ≡ occ_list a (entries s)
unfolding occ_list entries
occ-entries a leaf = refl
occ-entries a (node l c e r) =
    omega (arith, occ_list-append a (entries l) (e ∷ entries r), occ-entries a l, occ-entries a r)

abbrev pub without : Heap → ℕ → Heap
without h p a = if a == p then none else h a

-- A tree stays where a node elsewhere is freed.
pub Focus-free :
    (nil : ℕ) (h : Heap) (root : ℕ) (s : Nodes) (y : ℕ)
    → occ y s ≡ 0
    → y ≢ nil
    → Focus nil h root s top
    → Focus nil (without h y) root s top
Focus-free nil h root s y o ne f = record {
  sentinel = record {
    node = f.sentinel.node;
    at = rw (==_false nil y (λ q. ne (sym q))) f.sentinel.at;
    is_black = f.sentinel.is_black;
  };
  inside =
      Holds-frame nil h (without h y) nil s (λ a i. rw (==_false a y (ne_of_occ a y s i o)))
        f.inside;
  outside = f.outside;
  distinct = f.distinct;
  apart = f.apart;
}

pub free-run :
    (nil : ℕ) (h : Heap) (root y : ℕ)
    → Alive (tree nil h root) y
    → free y (tree nil h root) ≡ some (tt, tree nil (without h y) root)
unfolding free write
free-run nil h root y (n, at) = rw at

pub victim-run :
    (nil : ℕ) (h : Heap) (root fuel : ℕ) (c : Color) (y : Entry) (r : Nodes) (up : Ctx)
    → Focus nil h root (node leaf c y r) up
    → victim fuel y.addr (tree nil h root) ≡ some (y.addr, tree nil h root)
unfolding victim
victim-run nil h root fuel c y r up f =
    and_then _ _ _ _ _ refl
    ∙ and_then _ _ _ _ _ (load-run nil h root y.addr _ f.inside.0)
    ∙ rw (==-self nil)
