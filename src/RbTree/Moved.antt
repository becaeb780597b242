-- ===== src/RbTree/Moved.antt =====
-- The heap of base/rbtree/rbtree.cpp along a rotation.
use yamq.Prelude.{ℕ, ◌+◌, ◌≤◌, ◌<◌, ◌≡◌, ◌≢◌, sym, ◌∙◌, some, ==_false, ==-self, arith}
use yamq.RbTree.{Node}
use yamq.RbTree.Shape.{
  Heap, Nodes, Ctx, occ, occ_ctx, upd, Holds, Around, Holds-frame, Around-frame, Holds-upd,
}
use yamq.RbTree.Links.{
  ne_of_occ, ne_of_occ_ctx, adopted, adopted-Holds, adopted-same, relinked, new_root,
  relinked-Around, relinked-same,
}

-- What both rotations need of the heaps on their way: `x` above `y`, and `m` the tree that moves from
-- `y` to `x`. `x₁`, `x₂`, `y₁` and `y₂` are what is written to the two nodes.
module _ (nil : ℕ) (h : Heap) (root : ℕ) (m : Nodes) (x y : ℕ) (up : Ctx) (x₁ x₂ y₁ y₂ : Node) where
  abbrev pub moved₁ : Heap
  moved₁ = upd h x x₁

  abbrev pub moved₂ : Heap
  moved₂ = adopted nil moved₁ m x

  abbrev pub moved₃ : Heap
  moved₃ = upd moved₂ y y₁

  abbrev pub moved₄ : Heap
  moved₄ = relinked nil moved₃ up y

  abbrev pub moved₅ : Heap
  moved₅ = upd moved₄ x x₂

  abbrev pub moved : Heap
  moved = upd moved₅ y y₂

  pub record Apart : Type 0 where
    pub x-y : x ≢ y
    pub x-m : occ x m ≡ 0
    pub y-m : occ y m ≡ 0
    pub x-up : occ_ctx x up ≡ 0
    pub y-up : occ_ctx y up ≡ 0
    pub m-up : (a : ℕ) → occ a m + occ_ctx a up ≤ 1

  module _ (apart : Apart) where
    pub moved₂-x : moved₂ x ≡ some x₁
    moved₂-x = adopted-same nil moved₁ m x x apart.x-m ∙ rw (==-self x)

    pub moved₂-y : moved₂ y ≡ h y
    moved₂-y = adopted-same nil moved₁ m x y apart.y-m ∙ rw (==_false y x (λ e. apart.x-y (sym e)))

    pub moved₃-Around : Around nil h root x up → Around nil moved₃ root x up
    moved₃-Around w = Around-frame nil h moved₃ root x up same w
      where
        same : (a : ℕ) → 0 < occ_ctx a up → moved₃ a ≡ h a
        same a i =
            let once = apart.m-up a in
            rw (==_false a y (ne_of_occ_ctx a y up i apart.y-up)) (
              adopted-same nil moved₁ m x a (omega arith)
              ∙ rw (==_false a x (ne_of_occ_ctx a x up i apart.x-up)))

    pub moved₄-x : moved₄ x ≡ some x₁
    moved₄-x = relinked-same nil moved₃ up y x apart.x-up ∙ rw (==_false x y apart.x-y) moved₂-x

    pub moved₅-y : moved₅ y ≡ some y₁
    moved₅-y =
        rw (==_false y x (λ e. apart.x-y (sym e)))
          (relinked-same nil moved₃ up y y apart.y-up ∙ rw (==-self y))

    pub moved-x : moved x ≡ some x₂
    moved-x = rw (==_false x y apart.x-y, ==-self x)

    pub moved-y : moved y ≡ some y₂
    moved-y = rw (==-self y)

    -- Elsewhere but at the root of `m` and the parent nothing changes.
    pub moved-same : (a : ℕ) → a ≢ x → a ≢ y → occ a m ≡ 0 → occ_ctx a up ≡ 0 → moved a ≡ h a
    moved-same a p q o w =
        rw (==_false a y q, ==_false a x p)
          (relinked-same nil moved₃ up y a w
            ∙ rw (==_false a y q) (adopted-same nil moved₁ m x a o ∙ rw (==_false a x p)))

    pub moved-Holds : (p : ℕ) → Holds nil h p m → Holds nil moved x m
    moved-Holds p w = Holds-frame nil moved₂ moved x m same (
        adopted-Holds nil moved₁ p m x (Holds-upd nil h p m x x₁ apart.x-m w)
          (λ a. omega (arith, apart.m-up a)))
      where
        same : (a : ℕ) → 0 < occ a m → moved a ≡ moved₂ a
        same a i =
            let once = apart.m-up a in
            rw
              (
                ==_false a y (ne_of_occ a y m i apart.y-m),
                ==_false a x (ne_of_occ a x m i apart.x-m),
              )
              (relinked-same nil moved₃ up y a (omega arith)
                ∙ rw (==_false a y (ne_of_occ a y m i apart.y-m)))

    pub moved-Around : Around nil h root x up → Around nil moved (new_root root up y) y up
    moved-Around w = Around-frame nil moved₄ moved (new_root root up y) y up same (
        relinked-Around nil moved₃ root x y up (moved₃-Around w) (λ a. omega (arith, apart.m-up a)))
      where
        same : (a : ℕ) → 0 < occ_ctx a up → moved a ≡ moved₄ a
        same a i = rw (
          ==_false a y (ne_of_occ_ctx a y up i apart.y-up),
          ==_false a x (ne_of_occ_ctx a x up i apart.x-up),
        )
