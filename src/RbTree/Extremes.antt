-- ===== src/RbTree/Extremes.antt =====
-- rbtree_min and rbtree_max of base/rbtree/rbtree.cpp against the entries in order.
use yamq.Prelude.{
  ℕ, zero, suc, ◌<◌, ◌≡◌, ◌≢◌, refl, sym, ap, ◌∙◌, some, List, [], ◌∷◌, ◌++◌, ==_false, ==-self,
  arith,
}
use yamq.RbTree.{Color, Tree}
use yamq.RbTree.Shape.{
  Heap, Entry, Nodes, leaf, node, Ctx, top, in_left, in_right, ptr, tree, Focus,
}
use yamq.RbTree.Links.{and_then, load-run, ne_of_here}
use yamq.RbTree.Balance.{entries}
use yamq.RbTree.Moves.{down_left, down_right}
use yamq.RbTree.Insert.{min_loop, rbtree_min, max_loop, rbtree_max}
use yamq.RbTree.Descent.{height}
use yamq.RbTree.IsTree.{IsTree}

abbrev pub first_addr : ℕ → List Entry → ℕ
first_addr d [] = d
first_addr d (e ∷ es) = e.addr

abbrev pub last_addr : ℕ → List Entry → ℕ
last_addr d [] = d
last_addr d (e ∷ es) = last_addr e.addr es

first_addr-append :
    (d : ℕ) (xs : List Entry) (e : Entry) (ys : List Entry)
    → first_addr d (xs ++ (e ∷ ys)) ≡ first_addr e.addr xs
first_addr-append d [] e ys = refl
first_addr-append d (x ∷ xs) e ys = refl

last_addr-append :
    (d : ℕ) (xs : List Entry) (e : Entry) (ys : List Entry)
    → last_addr d (xs ++ (e ∷ ys)) ≡ last_addr e.addr ys
last_addr-append d [] e ys = refl
last_addr-append d (x ∷ xs) e ys = last_addr-append x.addr xs e ys

module _ (nil : ℕ) (h : Heap) (root : ℕ) where
  pub addr-ne-nil :
      (l : Nodes) (c : Color) (e : Entry) (r : Nodes) (up : Ctx)
      → Focus nil h root (node l c e r) up
      → e.addr ≢ nil
  addr-ne-nil l c e r up f q = ne_of_here nil e.addr (omega (arith, f.apart)) (sym q)

  pub min_loop-run :
      (fuel low : ℕ) (s : Nodes) (up : Ctx)
      → height s < fuel
      → Focus nil h root s up
      → min_loop fuel (ptr nil s) low (tree nil h root)
        ≡ some (first_addr low (entries s), tree nil h root)
  unfolding min_loop entries
  min_loop-run zero low s up k f = absurd (omega arith)
  min_loop-run (suc fuel) low leaf up k f = and_then _ _ _ _ _ refl ∙ rw (==-self nil)
  min_loop-run (suc fuel) low (node l c e r) up k f =
      and_then _ _ _ _ _ refl
      ∙ rw (==_false e.addr nil (addr-ne-nil l c e r up f)) (
          and_then _ _ _ _ _ (load-run nil h root e.addr _ f.inside.0)
          ∙ min_loop-run fuel e.addr l (in_left up c e r) (omega arith)
              (down_left nil h root l up c e r f)
          ∙ rw (first_addr-append low (entries l) e (entries r)))

  max_loop-run :
      (fuel high : ℕ) (s : Nodes) (up : Ctx)
      → height s < fuel
      → Focus nil h root s up
      → max_loop fuel (ptr nil s) high (tree nil h root)
        ≡ some (last_addr high (entries s), tree nil h root)
  unfolding max_loop entries
  max_loop-run zero high s up k f = absurd (omega arith)
  max_loop-run (suc fuel) high leaf up k f = and_then _ _ _ _ _ refl ∙ rw (==-self nil)
  max_loop-run (suc fuel) high (node l c e r) up k f =
      and_then _ _ _ _ _ refl
      ∙ rw (==_false e.addr nil (addr-ne-nil l c e r up f)) (
          and_then _ _ _ _ _ (load-run nil h root e.addr _ f.inside.0)
          ∙ max_loop-run fuel e.addr r (in_right l c e up) (omega arith)
              (down_right nil h root r l c e up f)
          ∙ rw (last_addr-append high (entries l) e (entries r)))

first_addr-ptr :
    (nil : ℕ) (s : Nodes) → first_addr (ptr nil s) (entries s) ≡ first_addr nil (entries s)
unfolding entries
first_addr-ptr nil leaf = refl
first_addr-ptr nil (node l c e r) =
    first_addr-append e.addr (entries l) e (entries r)
    ∙ sym (first_addr-append nil (entries l) e (entries r))

last_addr-ptr :
    (nil : ℕ) (s : Nodes) → last_addr (ptr nil s) (entries s) ≡ last_addr nil (entries s)
unfolding entries
last_addr-ptr nil leaf = refl
last_addr-ptr nil (node l c e r) =
    last_addr-append e.addr (entries l) e (entries r)
    ∙ sym (last_addr-append nil (entries l) e (entries r))

pub rbtree_min-first :
    (t : Tree) (s : Nodes) (fuel : ℕ)
    → IsTree t s
    → height s < fuel
    → rbtree_min fuel t ≡ some (first_addr t.nil (entries s), t)
unfolding rbtree_min
rbtree_min-first t s fuel w k =
    and_then _ _ _ _ _ refl
    ∙ ap (λ x. min_loop fuel x x t) w.focus.outside
    ∙ min_loop-run t.nil t.heap t.root fuel (ptr t.nil s) s top k w.focus
    ∙ ap (λ a. some (a, t)) (first_addr-ptr t.nil s)

pub rbtree_max-last :
    (t : Tree) (s : Nodes) (fuel : ℕ)
    → IsTree t s
    → height s < fuel
    → rbtree_max fuel t ≡ some (last_addr t.nil (entries s), t)
unfolding rbtree_max
rbtree_max-last t s fuel w k =
    and_then _ _ _ _ _ refl
    ∙ ap (λ x. max_loop fuel x x t) w.focus.outside
    ∙ max_loop-run t.nil t.heap t.root fuel (ptr t.nil s) s top k w.focus
    ∙ ap (λ a. some (a, t)) (last_addr-ptr t.nil s)

-- In a heap that holds a red-black search tree, with fuel above its height, rbtree_min and
-- rbtree_max return the addresses of the first and of the last entry, or the sentinel of an empty
-- tree, and change nothing.
pub rbtree_ends :
    (t : Tree) (s : Nodes) (fuel : ℕ)
    → IsTree t s
    → height s < fuel
    → (rbtree_min fuel t ≡ some (first_addr t.nil (entries s), t))
      × (rbtree_max fuel t ≡ some (last_addr t.nil (entries s), t))
rbtree_ends t s fuel w k = (rbtree_min-first t s fuel w k, rbtree_max-last t s fuel w k)
