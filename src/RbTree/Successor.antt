-- ===== src/RbTree/Successor.antt =====
-- rbtree_successor of base/rbtree/rbtree.cpp against the entries in order.
use yamq.Prelude.{
  ℕ, zero, suc, ◌<◌, ◌≡◌, ◌≢◌, refl, sym, ap, ◌∙◌, ◌⊎◌, inl, inr, some, List, [], ◌∷◌, ◌++◌,
  Bool-cases, ◌==◌, ==_false, ==-self, arith,
}
use native.Mathlib.Nat.{le-max_right}
use yamq.RbTree.{Color, Tree}
use yamq.RbTree.Shape.{
  Heap, Entry, Nodes, leaf, node, Ctx, top, in_left, in_right, plug, occ_ctx, ptr, par, tree,
  Around, Focus,
}
use yamq.RbTree.Links.{and_then, load-run, here_self, ptr-ne}
use yamq.RbTree.Balance.{entries, after}
use yamq.RbTree.Moves.{up_right, down_right, from_top}
use yamq.RbTree.Insert.{climb, rbtree_successor}
use yamq.RbTree.Descent.{height, depth-le-height}
use yamq.RbTree.Fixup.Loop.{depth}
use yamq.RbTree.IsTree.{IsTree}
use yamq.RbTree.Extremes.{first_addr, addr-ne-nil, min_loop-run}

first_addr-head :
    (d : ℕ) (xs : List Entry) (e : Entry) (ys zs : List Entry) (y : Entry) (ws : List Entry)
    → (xs ++ (e ∷ ys)) ++ zs ≡ y ∷ ws
    → first_addr d (xs ++ (e ∷ ys)) ≡ y.addr
first_addr-head d [] e ys zs y ws q = cc
first_addr-head d (x ∷ xs) e ys zs y ws q = cc

after-top : (up : Ctx) (y : Entry) (ys : List Entry) → up ≡ top → after up ≢ y ∷ ys
unfolding after
after-top top y ys t q = cc
after-top (in_left up c e r) y ys t q = cc
after-top (in_right l c e up) y ys t q = cc

module _ (nil : ℕ) (h : Heap) (root : ℕ) where
  pub root-top : (x : ℕ) (up : Ctx) → Around nil h root x up → up ≡ top → root ≡ x
  root-top x top w q = w
  root-top x (in_left up c e r) w q = cc
  root-top x (in_right l c e up) w q = cc

  -- The root stands in every context but the empty one.
  pub root-in : (x : ℕ) (up : Ctx) → Around nil h root x up → (up ≡ top) ⊎ (0 < occ_ctx root up)
  root-in x top w = inl refl
  root-in x (in_left up c e r) w = inr (elim (root-in e.addr up w.2) [
    | inl q ↦ rw (root-top e.addr up w.2 q, here_self e.addr) (omega arith)
    | inr i ↦ omega arith
  ])
  root-in x (in_right l c e up) w = inr (elim (root-in e.addr up w.2) [
    | inl q ↦ rw (root-top e.addr up w.2 q, here_self e.addr) (omega arith)
    | inr i ↦ omega arith
  ])

  -- From a hole on, the next entry on the right is the parent of the first left turn.
  climb-run :
      (fuel : ℕ) (up : Ctx) (l : Nodes) (c : Color) (e : Entry) (r : Nodes) (y : Entry)
      (ys : List Entry)
      → depth up < fuel
      → Focus nil h root (node l c e r) up
      → after up ≡ y ∷ ys
      → climb fuel (par nil up) e.addr (tree nil h root) ≡ some (y.addr, tree nil h root)
  unfolding climb after
  climb-run zero up l c e r y ys k f q = absurd (omega arith)
  climb-run (suc fuel) top l c e r y ys k f q = cc
  climb-run (suc fuel) (in_left up d g s) l c e r y ys k f q =
      let once = f.distinct e.addr in
      let self = here_self e.addr in
      let ne = ptr-ne nil e.addr s (addr-ne-nil nil h root l c e r _ f) (omega arith) in
      let same : g.addr ≡ y.addr = cc in
      and_then _ _ _ _ _ refl ∙ elim (Bool-cases (g.addr == root)) [
        | inl t ↦ rw (t, same)
        | inr t ↦ rw t (
            and_then _ _ _ _ _ (load-run nil h root g.addr _ f.outside.0)
            ∙ rw (==_false (ptr nil s) e.addr (λ z. ne (sym z)), same))
      ]
  climb-run (suc fuel) (in_right s d g up) l c e r y ys k f q =
      let upper = up_right nil h root _ s d g up f in
      let once = upper.distinct g.addr in
      let self = here_self g.addr in
      and_then _ _ _ _ _ refl ∙ elim (root-in g.addr up f.outside.2) [
        | inl t ↦ absurd (after-top up y ys t q)
        | inr i ↦ rw (==_false g.addr root (λ z. omega (arith, ap (λ v. occ_ctx v up) z))) (
            and_then _ _ _ _ _ (load-run nil h root g.addr _ f.outside.0)
            ∙ rw (==-self e.addr)
                (climb-run fuel up s d g (node l c e r) y ys (omega arith) upper q))
      ]

  successor-run :
      (fuel : ℕ) (up : Ctx) (l : Nodes) (c : Color) (e : Entry) (r : Nodes) (y : Entry)
      (ys : List Entry)
      → depth up < fuel
      → height r < fuel
      → Focus nil h root (node l c e r) up
      → entries r ++ after up ≡ y ∷ ys
      → rbtree_successor fuel e.addr (tree nil h root) ≡ some (y.addr, tree nil h root)
  unfolding rbtree_successor entries
  successor-run fuel up l c e leaf y ys k m f q =
      and_then _ _ _ _ _ refl
      ∙ rw (==_false e.addr nil (addr-ne-nil nil h root l c e leaf up f)) (
          and_then _ _ _ _ _ (load-run nil h root e.addr _ f.inside.0)
          ∙ rw (==-self nil) (climb-run fuel up l c e leaf y ys k f q))
  successor-run fuel up l c e (node rl d g rr) y ys k m f q =
      let below = down_right nil h root (node rl d g rr) l c e up f in
      and_then _ _ _ _ _ refl
      ∙ rw (==_false e.addr nil (addr-ne-nil nil h root l c e _ up f)) (
          and_then _ _ _ _ _ (load-run nil h root e.addr _ f.inside.0)
          ∙ rw (==_false g.addr nil (addr-ne-nil nil h root rl d g rr _ below)) (
              min_loop-run nil h root fuel g.addr (node rl d g rr) _ m below
              ∙ ap (λ a. some (a, tree nil h root))
                  (first_addr-head g.addr (entries rl) g (entries rr) (after up) y ys q)))

-- In a heap that holds a red-black search tree, with fuel above its height, rbtree_successor of a
-- node that has an entry behind it returns the address of the next entry, and changes nothing.
pub rbtree_successor-next :
    (t : Tree) (up : Ctx) (l : Nodes) (c : Color) (e : Entry) (r : Nodes) (y : Entry)
    (ys : List Entry) (fuel : ℕ)
    → IsTree t (plug up (node l c e r))
    → height (plug up (node l c e r)) < fuel
    → entries r ++ after up ≡ y ∷ ys
    → rbtree_successor fuel e.addr t ≡ some (y.addr, t)
rbtree_successor-next t up l c e r y ys fuel w k q =
    let deep = depth-le-height up (node l c e r) in
    let high = le-max_right (height l) (height r) in
    successor-run t.nil t.heap t.root fuel up l c e r y ys (omega arith) (omega arith)
      (from_top t.nil t.heap t.root up (node l c e r) w.focus) q
