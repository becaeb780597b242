-- ===== src/RbTree/Ends.antt =====
-- What a command of base/rbtree/rbtree.cpp makes of the tree in focus, and rules for sequences.
use yamq.Prelude.{ℕ, ◌≡◌, ◌∙◌, refl, some, ==_false, arith}
use yamq.RbTree.{Color, M, pure, ◌>>=◌, set_col, left_rotate, right_rotate}
use yamq.RbTree.Shape.{Heap, Entry, Nodes, node, Ctx, in_left, in_right, tree, Focus}
use yamq.RbTree.Links.{and_then, new_root, ne_of_here}
use yamq.RbTree.Moves.{
  up_left, up_right, down_left, down_right, painted, set_col-run, painted-Focus,
}
use yamq.RbTree.Rotate.Left
use yamq.RbTree.Rotate.Right

-- The command succeeds with `a`, and leaves the tree `s` in the context `up` and the sentinel alone.
pub record Ends {A : Type 0} (nil : ℕ) (h : Heap) (root : ℕ) (m : M A) (a : A) (s : Nodes)
    (up : Ctx) : Type 0 where
  pub heap : Heap
  pub new : ℕ
  pub run : m (tree nil h root) ≡ some (a, tree nil heap new)
  pub focus : Focus nil heap new s up
  pub kept : heap nil ≡ h nil

module _ {A B : Type 0} (nil : ℕ) (h : Heap) (root : ℕ) where
  pub seq :
      (m : M A) (f : A → M B) (a : A) (b : B) (s s' : Nodes) (up up' : Ctx)
      → Ends nil h root m a s up
      → ((k : Heap) (new : ℕ) → Focus nil k new s up → Ends nil k new (f a) b s' up')
      → Ends nil h root (m >>= f) b s' up'
  seq m f a b s s' up up' e next =
      let rest = next e.heap e.new e.focus in
      record {
        heap = rest.heap;
        new = rest.new;
        run = and_then m f (tree nil h root) (tree nil e.heap e.new) a e.run ∙ rest.run;
        focus = rest.focus;
        kept = rest.kept ∙ e.kept;
      }

  -- A command that only reads.
  pub read :
      (m : M A) (f : A → M B) (a : A) (b : B) (s' : Nodes) (up' : Ctx)
      → m (tree nil h root) ≡ some (a, tree nil h root)
      → Ends nil h root (f a) b s' up'
      → Ends nil h root (m >>= f) b s' up'
  read m f a b s' up' e rest = record {
    heap = rest.heap;
    new = rest.new;
    run = and_then m f (tree nil h root) (tree nil h root) a e ∙ rest.run;
    focus = rest.focus;
    kept = rest.kept;
  }

module _ {A : Type 0} (nil : ℕ) (h : Heap) (root : ℕ) where
  pub done :
      (a : A) (s : Nodes) (up : Ctx) → Focus nil h root s up → Ends nil h root (pure a) a s up
  done a s up f = record { heap = h; new = root; run = refl; focus = f; kept = refl }

  pub refocus :
      (m : M A) (a : A) (s s' : Nodes) (up up' : Ctx)
      → ((k : Heap) (new : ℕ) → Focus nil k new s up → Focus nil k new s' up')
      → Ends nil h root m a s up
      → Ends nil h root m a s' up'
  refocus m a s s' up up' move e = record {
    heap = e.heap;
    new = e.new;
    run = e.run;
    focus = move e.heap e.new e.focus;
    kept = e.kept;
  }

module _ (nil : ℕ) (h : Heap) (root : ℕ) (d : Color) where
  pub paint :
      (l : Nodes) (c : Color) (e : Entry) (r : Nodes) (up : Ctx)
      → Focus nil h root (node l c e r) up
      → Ends nil h root (set_col e.addr d) tt (node l d e r) up
  paint l c e r up f = record {
    heap = painted nil h root l c e r up f d;
    new = root;
    run = set_col-run nil h root l c e r up f d;
    focus = painted-Focus nil h root l c e r up f d;
    kept = rw (==_false nil e.addr (ne_of_here nil e.addr (omega (arith, f.apart))));
  }

  -- The children of the root of the focus.
  pub paint_left :
      (l : Nodes) (c : Color) (e : Entry) (r : Nodes) (b : Color) (g : Entry) (u : Nodes) (up : Ctx)
      → Focus nil h root (node (node l c e r) b g u) up
      → Ends nil h root (set_col e.addr d) tt (node (node l d e r) b g u) up
  paint_left l c e r b g u up f =
      refocus nil h root _ tt (node l d e r) _ (in_left up b g u) up
        (λ k new. up_left nil k new (node l d e r) up b g u)
        (paint l c e r (in_left up b g u) (down_left nil h root (node l c e r) up b g u f))

  pub paint_right :
      (u : Nodes) (b : Color) (g : Entry) (l : Nodes) (c : Color) (e : Entry) (r : Nodes) (up : Ctx)
      → Focus nil h root (node u b g (node l c e r)) up
      → Ends nil h root (set_col e.addr d) tt (node u b g (node l d e r)) up
  paint_right u b g l c e r up f =
      refocus nil h root _ tt (node l d e r) _ (in_right u b g up) up
        (λ k new. up_right nil k new (node l d e r) u b g up)
        (paint l c e r (in_right u b g up) (down_right nil h root (node l c e r) u b g up f))

module _ (nil : ℕ) (h : Heap) (root : ℕ) where
  pub rotate_left :
      (l m r : Nodes) (c d : Color) (x y : Entry) (up : Ctx)
      → Focus nil h root (node l c x (node m d y r)) up
      → Ends nil h root (left_rotate x.addr) tt (node (node l c x m) d y r) up
  rotate_left l m r c d x y up f = record {
    heap = Left.heap nil h root l m r c d x y up f;
    new = new_root root up y.addr;
    run = Left.left_rotate-run nil h root l m r c d x y up f;
    focus = Left.rotated nil h root l m r c d x y up f;
    kept = Left.same-nil nil h root l m r c d x y up f;
  }

  pub rotate_right :
      (l m r : Nodes) (c d : Color) (x y : Entry) (up : Ctx)
      → Focus nil h root (node (node l d y m) c x r) up
      → Ends nil h root (right_rotate x.addr) tt (node l d y (node m c x r)) up
  rotate_right l m r c d x y up f = record {
    heap = Right.heap nil h root l m r c d x y up f;
    new = new_root root up y.addr;
    run = Right.right_rotate-run nil h root l m r c d x y up f;
    focus = Right.rotated nil h root l m r c d x y up f;
    kept = Right.same-nil nil h root l m r c d x y up f;
  }
