-- ===== src/RbTree/Removal/Splice.antt =====
-- The node that rbtree_delete of base/rbtree/rbtree.cpp takes out of the tree.
use yamq.Prelude.{ℕ, ◌≤◌, ◌≡◌, ◌≢◌, refl, sym, ◌∙◌, some, ==_false, ==-self, arith}
use yamq.RbTree.{Color, black, Node, set_parent}
use yamq.RbTree.Shape.{
  Heap, Entry, Nodes, leaf, node, Ctx, occ, occ_ctx, ptr, par, tree, upd, Holds, Around, Focus,
  Holds-frame, Around-frame,
}
use yamq.RbTree.Links.{
  and_then, load-run, modify-run, here_self, ne_of_here, ne_of_occ_ctx, adopted, adopted-Holds,
  adopted-same, relinked, new_root, relink-run, relinked-Around, relinked-same,
}
use yamq.RbTree.Removal.Quits.{Marked}
use yamq.RbTree.Delete.{splice}

-- A node `y` without a left child, whose right child `r` takes its place.
module _ (nil : ℕ) (h : Heap) (root : ℕ) (c : Color) (y : Entry) (r : Nodes) (up : Ctx)
    (f : Focus nil h root (node leaf c y r) up) where
  y-nil : y.addr ≢ nil
  y-nil q = ne_of_here nil y.addr (omega (arith, f.apart)) (sym q)

  y-out : occ_ctx y.addr up ≡ 0
  y-out = omega (arith, f.distinct y.addr, here_self y.addr)

  -- The parent pointer of `r`, or of the sentinel.
  abbrev reparented : Nodes → Heap
  reparented leaf = upd h nil (record f.sentinel.node { parent = par nil up })
  reparented (node l d e s) = adopted nil h (node l d e s) (par nil up)

  abbrev pub spliced : Heap
  spliced = relinked nil (reparented r) up (ptr nil r)

  abbrev pub spliced_root : ℕ
  spliced_root = new_root root up (ptr nil r)

  set_parent-run :
      (s : Nodes)
      → Holds nil h y.addr s
      → set_parent (ptr nil s) (par nil up) (tree nil h root)
        ≡ some (tt, tree nil (reparented s) root)
  set_parent-run leaf w = modify-run nil h root nil _ f.sentinel.node f.sentinel.at
  set_parent-run (node l d e s) w = modify-run nil h root e.addr _ _ w.0

  reparented-same : (s : Nodes) (a : ℕ) → a ≢ nil → occ a s ≡ 0 → reparented s a ≡ h a
  reparented-same leaf a q o = rw (==_false a nil q)
  reparented-same (node l d e s) a q o = adopted-same nil h (node l d e s) (par nil up) a o

  around : Around nil (reparented r) root y.addr up
  around =
      Around-frame nil h (reparented r) root y.addr up
        (λ a i.
          let once = f.distinct a in
          reparented-same r a (ne_of_occ_ctx a nil up i (omega (arith, f.apart))) (omega arith))
        f.outside

  pub splice-run : splice y.addr (tree nil h root) ≡ some (ptr nil r, tree nil spliced spliced_root)
  unfolding splice
  splice-run =
      and_then _ _ _ _ _ refl
      ∙ and_then _ _ _ _ _ (load-run nil h root y.addr _ f.inside.0)
      ∙ rw (==-self nil) (
          and_then _ _ _ _ _ (set_parent-run r f.inside.2)
          ∙ and_then _ _ _ _ _ (
              relink-run nil (reparented r) root y.addr (ptr nil r) up around y-nil y-out
                (omega (arith, f.apart))))

  reparented-Holds :
      (s : Nodes)
      → Holds nil h y.addr s
      → ((a : ℕ) → occ a s ≤ 1)
      → Holds nil (reparented s) (par nil up) s
  reparented-Holds leaf w once = tt
  reparented-Holds (node l d e s) w once =
      adopted-Holds nil h y.addr (node l d e s) (par nil up) w once

  reparented-nil :
      (s : Nodes) → occ nil s ≡ 0 → (n : Node) × (reparented s nil ≡ some n) × (n.col ≡ black)
  reparented-nil leaf o =
      (record f.sentinel.node { parent = par nil up }, rw (==-self nil), f.sentinel.is_black)
  reparented-nil (node l d e s) o = (
    f.sentinel.node,
    adopted-same nil h (node l d e s) (par nil up) nil o ∙ f.sentinel.at,
    f.sentinel.is_black,
  )

  spliced-nil : spliced nil ≡ reparented r nil
  spliced-nil = relinked-same nil (reparented r) up (ptr nil r) nil (omega (arith, f.apart))

  spliced-Holds : Holds nil spliced (par nil up) r
  spliced-Holds =
      Holds-frame nil (reparented r) spliced (par nil up) r
        (λ a i. relinked-same nil (reparented r) up (ptr nil r) a (omega (arith, f.distinct a)))
        (reparented-Holds r f.inside.2 (λ a. omega (arith, f.distinct a)))

  pub spliced-Focus : Focus nil spliced spliced_root r up
  spliced-Focus =
      let (sn, at, dark) = reparented-nil r (omega (arith, f.apart)) in
      record {
        sentinel = record { node = sn; at = spliced-nil ∙ at; is_black = dark };
        inside = spliced-Holds;
        outside =
            relinked-Around nil (reparented r) root y.addr (ptr nil r) up around
              (λ a. omega (arith, f.distinct a));
        distinct = λ a. omega (arith, f.distinct a);
        apart = omega (arith, f.apart);
      }

  pub spliced-Marked : Marked nil spliced r up
  spliced-Marked = mark r spliced-nil spliced-Holds
    where
      mark :
          (s : Nodes)
          → spliced nil ≡ reparented s nil
          → Holds nil spliced (par nil up) s
          → Marked nil spliced s up
      mark leaf q w = record {
        cell = record f.sentinel.node { parent = par nil up };
        at = q ∙ rw (==-self nil);
        parent = refl;
      }
      mark (node l d e s) q w = record { cell = _; at = w.0; parent = refl }

  -- The node itself stays as it was, for `free`.
  pub spliced-y : spliced y.addr ≡ h y.addr
  spliced-y =
      relinked-same nil (reparented r) up (ptr nil r) y.addr y-out
      ∙ reparented-same r y.addr y-nil (omega (arith, f.distinct y.addr, here_self y.addr))
