-- ===== src/RbTree/Bounds.antt =====
-- How high a tree of base/rbtree/rbtree.cpp can be.
use yamq.Prelude.{ℕ, zero, suc, ◌+◌, ◌*◌, ◌^◌, ◌≤◌, ◌≡◌, refl, ◌∷◌, length, length-append, arith}
use native.Mathlib.Numerals.{towards_suc}
use yamq.RbTree.{Color, red, black}
use yamq.RbTree.Shape.{Nodes, leaf, node}
use yamq.RbTree.Balance.{entries, root_color, IsRb}
use yamq.RbTree.Descent.{height}

abbrev slack : Color → ℕ
slack red = 1
slack black = 0

slack-black : (c : Color) → c ≡ black → slack c ≡ 0
slack-black red q = cc
slack-black black q = refl

slack-le : (c : Color) → slack c ≤ 1
slack-le red = omega arith
slack-le black = omega arith

height-slack : (n : ℕ) (s : Nodes) → IsRb n s → height s ≤ 2 * n + slack (root_color s)
height-slack n leaf b = omega arith
height-slack n (node l red e r) b =
    let p = height-slack n l b.2 in
    let q = height-slack n r b.3 in
    let u = slack-black (root_color l) b.0 in let v = slack-black (root_color r) b.1 in omega arith
height-slack zero (node l black e r) b = absurd b
height-slack (suc n) (node l black e r) b =
    let p = height-slack n l b.0 in
    let q = height-slack n r b.1 in
    let u = slack-le (root_color l) in let v = slack-le (root_color r) in omega arith

pow-le-length : (n : ℕ) (s : Nodes) → IsRb n s → 2 ^ n ≤ length (entries s) + 1
unfolding entries
pow-le-length n leaf b = rw b (omega arith)
pow-le-length n (node l red e r) b =
    omega (arith, length-append (entries l) (e ∷ entries r), pow-le-length n l b.2)
pow-le-length zero (node l black e r) b = absurd b
pow-le-length (suc n) (node l black e r) b =
    let p = pow-le-length n l b.0 in
    let q = pow-le-length n r b.1 in
    let len = length-append (entries l) (e ∷ entries r) in simp towards_suc (omega arith)

-- A tree with a black root that obeys the red-black rules has at most twice as many nodes on its
-- longest path as black nodes on each, and at least two to their power, less one, nodes.
pub height_bounds :
    (n : ℕ) (s : Nodes)
    → IsRb n s
    → root_color s ≡ black
    → (height s ≤ 2 * n) × (2 ^ n ≤ length (entries s) + 1)
height_bounds n s b d =
    let p = height-slack n s b in
    let q = slack-black (root_color s) d in (omega arith, pow-le-length n s b)
