-- ===== src/RbTree/Removal/KeepsFixup.antt =====
-- rbtree_del_fixup in base/rbtree/rbtree.cpp frees no node.
use yamq.Prelude.{ℕ, zero, suc, ◌==◌, ◌&&◌, ◌||◌}
use yamq.RbTree.{Color, is_red, is_black}
use yamq.RbTree.Delete.{
  case1_left, case3_left, case4_left, rest_left, del_left, case1_right, case3_right, case4_right,
  rest_right, del_right, del_fixup,
}
use yamq.RbTree.Removal.Keeps.{
  Keeps, bind, Keeps-pure, Keeps-fault, Keeps-if, Keeps-get_root, Keeps-load, Keeps-modify,
  Keeps-parent_of, Keeps-color_of, Keeps-left_of, Keeps-right_of, Keeps-left_rotate,
  Keeps-right_rotate,
}

Keeps-case1_left : (x p w : ℕ) → Keeps (case1_left x p w)
unfolding case1_left
Keeps-case1_left x p w = bind _ _ (Keeps-color_of w) λ c.
    Keeps-if (is_red c) _ _
      (bind _ _ (Keeps-modify w _) λ _. bind _ _ (Keeps-modify p _) λ _.
        bind _ _ (Keeps-left_rotate p) λ _. bind _ _ (Keeps-parent_of x) λ p'. Keeps-right_of p')
      (Keeps-pure w)

Keeps-case3_left : (x w near : ℕ) (far : Color) → Keeps (case3_left x w near far)
unfolding case3_left
Keeps-case3_left x w near far =
    Keeps-if (is_black far) _ _
      (bind _ _ (Keeps-modify near _) λ _. bind _ _ (Keeps-modify w _) λ _.
        bind _ _ (Keeps-right_rotate w) λ _. bind _ _ (Keeps-parent_of x) λ p. Keeps-right_of p)
      (Keeps-pure w)

Keeps-case4_left : (x w : ℕ) → Keeps (case4_left x w)
unfolding case4_left
Keeps-case4_left x w = bind _ _ (Keeps-parent_of x) λ p. bind _ _ (Keeps-color_of p) λ c.
    bind _ _ (Keeps-modify w _) λ _. bind _ _ (Keeps-modify p _) λ _.
      bind _ _ (Keeps-right_of w)
        λ far. bind _ _ (Keeps-modify far _) λ _. bind _ _ (Keeps-left_rotate p) λ _. Keeps-get_root

Keeps-rest_left : (x w : ℕ) → Keeps (rest_left x w)
unfolding rest_left
Keeps-rest_left x w = bind _ _ (Keeps-load w) λ wn. bind _ _ (Keeps-color_of wn.left) λ cl.
    bind _ _ (Keeps-color_of wn.right) λ cr.
      Keeps-if (is_black cl && is_black cr) _ _ (bind _ _ (Keeps-modify w _) λ _. Keeps-parent_of x)
        (bind _ _ (Keeps-case3_left x w wn.left cr) λ w'. Keeps-case4_left x w')

pub Keeps-del_left : (x : ℕ) → Keeps (del_left x)
unfolding del_left
Keeps-del_left x = bind _ _ (Keeps-parent_of x) λ p.
    bind _ _ (Keeps-right_of p)
      λ sibling. bind _ _ (Keeps-case1_left x p sibling) λ w. Keeps-rest_left x w

Keeps-case1_right : (x p w : ℕ) → Keeps (case1_right x p w)
unfolding case1_right
Keeps-case1_right x p w = bind _ _ (Keeps-color_of w) λ c.
    Keeps-if (is_red c) _ _
      (bind _ _ (Keeps-modify w _) λ _. bind _ _ (Keeps-modify p _) λ _.
        bind _ _ (Keeps-right_rotate p) λ _. bind _ _ (Keeps-parent_of x) λ p'. Keeps-left_of p')
      (Keeps-pure w)

Keeps-case3_right : (x w near : ℕ) (far : Color) → Keeps (case3_right x w near far)
unfolding case3_right
Keeps-case3_right x w near far =
    Keeps-if (is_black far) _ _
      (bind _ _ (Keeps-modify near _) λ _.
        bind _ _ (Keeps-modify w _) λ _.
          bind _ _ (Keeps-left_rotate w) λ _. bind _ _ (Keeps-parent_of x) λ p. Keeps-left_of p)
      (Keeps-pure w)

Keeps-case4_right : (x w : ℕ) → Keeps (case4_right x w)
unfolding case4_right
Keeps-case4_right x w = bind _ _ (Keeps-parent_of x) λ p. bind _ _ (Keeps-color_of p) λ c.
    bind _ _ (Keeps-modify w _) λ _. bind _ _ (Keeps-modify p _) λ _.
      bind _ _ (Keeps-right_of w) λ far.
        bind _ _ (Keeps-modify far _) λ _. bind _ _ (Keeps-right_rotate p) λ _. Keeps-get_root

Keeps-rest_right : (x w : ℕ) → Keeps (rest_right x w)
unfolding rest_right
Keeps-rest_right x w = bind _ _ (Keeps-load w) λ wn. bind _ _ (Keeps-color_of wn.left) λ cl.
    bind _ _ (Keeps-color_of wn.right) λ cr.
      Keeps-if (is_black cl && is_black cr) _ _ (bind _ _ (Keeps-modify w _) λ _. Keeps-parent_of x)
        (bind _ _ (Keeps-case3_right x w wn.right cl) λ w'. Keeps-case4_right x w')

pub Keeps-del_right : (x : ℕ) → Keeps (del_right x)
unfolding del_right
Keeps-del_right x = bind _ _ (Keeps-parent_of x) λ p.
    bind _ _ (Keeps-left_of p)
      λ sibling. bind _ _ (Keeps-case1_right x p sibling) λ w. Keeps-rest_right x w

pub Keeps-del_fixup : (fuel x : ℕ) → Keeps (del_fixup fuel x)
unfolding del_fixup
Keeps-del_fixup zero x = Keeps-fault
Keeps-del_fixup (suc fuel) x = bind _ _ Keeps-get_root λ root. bind _ _ (Keeps-load x) λ n.
    Keeps-if ((x == root) || is_red n.col) _ _ (Keeps-modify x _) (
      bind _ _ (Keeps-load n.parent) λ p.
        bind _ _ (Keeps-if (x == p.left) _ _ (Keeps-del_left x) (Keeps-del_right x))
          λ x'. Keeps-del_fixup fuel x')
