-- ===== src/RbTree/Rotate/Left.antt =====
-- left_rotate of base/rbtree/rbtree.cpp on the trees that the heap holds.
use yamq.Prelude.{ℕ, ◌+◌, ◌≤◌, ◌≡◌, ◌≢◌, refl, ◌∙◌, some, ==_false, arith}
use yamq.RbTree.{Color, Node, left_rotate}
use yamq.RbTree.Shape.{
  Heap, Entry, Nodes, node, Ctx, here, occ, occ_ctx, ptr, par, cell, tree, upd, Holds, Focus,
  Holds-frame, Holds-upd,
}
use yamq.RbTree.Links.{
  here_self, ne_of_here, and_then, parent_of-run, modify-run, load-run, adopt-run, new_root,
  relink-run,
}
use yamq.RbTree.Moved

-- `left_rotate` at a node with a right child.
module _ (nil : ℕ) (h : Heap) (root : ℕ) (l m r : Nodes) (c d : Color) (x y : Entry) (up : Ctx)
    (focus : Focus nil h root (node l c x (node m d y r)) up) where
  abbrev pub x₁ : Node
  x₁ = cell (ptr nil l) (ptr nil m) (par nil up) c x

  abbrev pub x₂ : Node
  x₂ = cell (ptr nil l) (ptr nil m) y.addr c x

  abbrev pub y₁ : Node
  y₁ = cell (ptr nil m) (ptr nil r) (par nil up) d y

  abbrev pub y₂ : Node
  y₂ = cell x.addr (ptr nil r) (par nil up) d y

  abbrev pub heap : Heap
  heap = Moved.moved nil h root m x.addr y.addr up x₁ x₂ y₁ y₂

  apart : Moved.Apart nil h root m x.addr y.addr up x₁ x₂ y₁ y₂
  apart =
      let px = focus.distinct x.addr in
      let py = focus.distinct y.addr in
      let hx = here_self x.addr in
      let hy = here_self y.addr in
      record {
        x-y = ne_of_here x.addr y.addr (omega arith);
        x-m = omega arith;
        y-m = omega arith;
        x-up = omega arith;
        y-up = omega arith;
        m-up = λ a. omega (arith, focus.distinct a);
      }

  pub left_rotate-run :
      left_rotate x.addr (tree nil h root) ≡ some (tt, tree nil (heap) (new_root root up y.addr))
  unfolding left_rotate
  left_rotate-run =
      let w = focus.inside in
      let pn = focus.apart in
      and_then _ _ _ _ _ refl
      ∙ and_then _ _ _ _ _ (load-run nil h root x.addr _ w.0)
      ∙ rw (==_false y.addr nil (ground arith)) (
          and_then _ _ _ _ _ (load-run nil h root y.addr _ w.2.0)
          ∙ and_then _ _ _ _ _ (modify-run nil h root x.addr _ _ w.0)
          ∙ and_then _ _ _ _ _ (
              adopt-run nil (upd h x.addr x₁) root y.addr m x.addr
                (Holds-upd nil h y.addr m x.addr _ apart.x-m w.2.1) (ground arith))
          ∙ and_then _ _ _ _ _ (
              parent_of-run nil _ root x.addr x₁
                (Moved.moved₂-x nil h root m x.addr y.addr up x₁ x₂ y₁ y₂ apart))
          ∙ and_then _ _ _ _ _ (
              modify-run nil _ root y.addr _ _
                (Moved.moved₂-y nil h root m x.addr y.addr up x₁ x₂ y₁ y₂ apart ∙ w.2.0))
          ∙ and_then _ _ _ _ _ (
              relink-run nil _ root x.addr y.addr up
                (Moved.moved₃-Around nil h root m x.addr y.addr up x₁ x₂ y₁ y₂ apart focus.outside)
                (ground arith) apart.x-up (ground arith))
          ∙ and_then _ _ _ _ _ (
              modify-run nil _ _ x.addr _ _
                (Moved.moved₄-x nil h root m x.addr y.addr up x₁ x₂ y₁ y₂ apart))
          ∙ modify-run nil _ _ y.addr _ _
              (Moved.moved₅-y nil h root m x.addr y.addr up x₁ x₂ y₁ y₂ apart))

  same : (a : ℕ) → a ≢ x.addr → a ≢ y.addr → occ a m ≡ 0 → occ_ctx a up ≡ 0 → heap a ≡ h a
  same = Moved.moved-same nil h root m x.addr y.addr up x₁ x₂ y₁ y₂ apart

  -- A subtree that stays.
  kept :
      (p : ℕ) (s : Nodes)
      → ((a : ℕ) → here a x.addr + here a y.addr + occ a s + occ a m + occ_ctx a up ≤ 1)
      → Holds nil h p s
      → Holds nil heap p s
  kept p s once w =
      Holds-frame nil h heap p s
        (λ a i.
          let o = once a in
          same a (ne_of_here a x.addr (omega arith)) (ne_of_here a y.addr (omega arith))
            (omega arith) (omega arith))
        w

  pub same-nil : heap nil ≡ h nil
  same-nil =
      let z = focus.apart in
      same nil (ne_of_here nil x.addr (omega arith)) (ne_of_here nil y.addr (omega arith))
        (omega arith) (omega arith)

  -- The tree is rotated in its place.
  pub rotated : Focus nil heap (new_root root up y.addr) (node (node l c x m) d y r) up
  rotated =
      let w = focus.inside in
      let z = focus.apart in
      record {
        sentinel = record {
          node = focus.sentinel.node;
          at = same-nil ∙ focus.sentinel.at;
          is_black = focus.sentinel.is_black;
        };
        inside = (
          Moved.moved-y nil h root m x.addr y.addr up x₁ x₂ y₁ y₂ apart,
          (
            Moved.moved-x nil h root m x.addr y.addr up x₁ x₂ y₁ y₂ apart,
            kept x.addr l (λ a. omega (arith, focus.distinct a)) w.1,
            Moved.moved-Holds nil h root m x.addr y.addr up x₁ x₂ y₁ y₂ apart y.addr w.2.1,
          ),
          kept y.addr r (λ a. omega (arith, focus.distinct a)) w.2.2,
        );
        outside = Moved.moved-Around nil h root m x.addr y.addr up x₁ x₂ y₁ y₂ apart focus.outside;
        distinct = λ a. omega (arith, focus.distinct a);
        apart = omega arith;
      }
