-- ===== src/RbTree/Moves.antt =====
-- Moving the focus along the tree, and changing the color of its root.
use yamq.Prelude.{ℕ, ◌≡◌, refl, ◌∙◌, some, ==_false, ==-self, arith}
use yamq.RbTree.{Color, Node, set_col, color_of, load, ◌>>=◌}
use yamq.RbTree.Shape.{
  Heap, Entry, Nodes, leaf, node, Ctx, top, in_left, in_right, plug, ptr, par, cell, tree, upd,
  Focus, Holds-upd, Around-upd,
}
use yamq.RbTree.Links.{here_self, ne_of_here, modify-run}
use yamq.RbTree.Balance.{root_color, par_color}

module _ (nil : ℕ) (h : Heap) (root : ℕ) where
  pub up_left :
      (s : Nodes) (up : Ctx) (c : Color) (e : Entry) (r : Nodes)
      → Focus nil h root s (in_left up c e r)
      → Focus nil h root (node s c e r) up
  up_left s up c e r f = record {
    sentinel = f.sentinel;
    inside = (f.outside.0, f.inside, f.outside.1);
    outside = f.outside.2;
    distinct = λ a. omega (arith, f.distinct a);
    apart = omega (arith, f.apart);
  }

  pub up_right :
      (s l : Nodes) (c : Color) (e : Entry) (up : Ctx)
      → Focus nil h root s (in_right l c e up)
      → Focus nil h root (node l c e s) up
  up_right s l c e up f = record {
    sentinel = f.sentinel;
    inside = (f.outside.0, f.outside.1, f.inside);
    outside = f.outside.2;
    distinct = λ a. omega (arith, f.distinct a);
    apart = omega (arith, f.apart);
  }

  pub down_left :
      (s : Nodes) (up : Ctx) (c : Color) (e : Entry) (r : Nodes)
      → Focus nil h root (node s c e r) up
      → Focus nil h root s (in_left up c e r)
  down_left s up c e r f = record {
    sentinel = f.sentinel;
    inside = f.inside.1;
    outside = (f.inside.0, f.inside.2, f.outside);
    distinct = λ a. omega (arith, f.distinct a);
    apart = omega (arith, f.apart);
  }

  pub down_right :
      (s l : Nodes) (c : Color) (e : Entry) (up : Ctx)
      → Focus nil h root (node l c e s) up
      → Focus nil h root s (in_right l c e up)
  down_right s l c e up f = record {
    sentinel = f.sentinel;
    inside = f.inside.2;
    outside = (f.inside.0, f.inside.1, f.outside);
    distinct = λ a. omega (arith, f.distinct a);
    apart = omega (arith, f.apart);
  }

  pub to_top : (c : Ctx) (s : Nodes) → Focus nil h root s c → Focus nil h root (plug c s) top
  unfolding plug
  to_top top s f = f
  to_top (in_left up c e r) s f = to_top up (node s c e r) (up_left s up c e r f)
  to_top (in_right l c e up) s f = to_top up (node l c e s) (up_right s l c e up f)

  pub from_top : (c : Ctx) (s : Nodes) → Focus nil h root (plug c s) top → Focus nil h root s c
  unfolding plug
  from_top top s f = f
  from_top (in_left up c e r) s f = down_left s up c e r (from_top up (node s c e r) f)
  from_top (in_right l c e up) s f = down_right s l c e up (from_top up (node l c e s) f)

  pub color_of-run :
      (p : ℕ) (n : Node)
      → h p ≡ some n
      → color_of p (tree nil h root) ≡ some (n.col, tree nil h root)
  unfolding load color_of ◌>>=◌
  color_of-run p n e = rw e

  pub color_of-focus :
      (s : Nodes) (up : Ctx)
      → Focus nil h root s up
      → color_of (ptr nil s) (tree nil h root) ≡ some (root_color s, tree nil h root)
  color_of-focus leaf up f = color_of-run nil f.sentinel.node f.sentinel.at ∙ rw f.sentinel.is_black
  color_of-focus (node l c e r) up f = color_of-run e.addr _ f.inside.0

  -- The node that the parent pointer of the hole leads to.
  pub parent-node :
      (s : Nodes) (up : Ctx)
      → Focus nil h root s up
      → (n : Node) × (h (par nil up) ≡ some n) × (n.col ≡ par_color up)
  parent-node s top f = (f.sentinel.node, f.sentinel.at, f.sentinel.is_black)
  parent-node s (in_left up c e r) f = (_, f.outside.0, refl)
  parent-node s (in_right l c e up) f = (_, f.outside.0, refl)

-- An assignment to the color of the root of the focus.
module _ (nil : ℕ) (h : Heap) (root : ℕ) (l : Nodes) (c : Color) (e : Entry) (r : Nodes) (up : Ctx)
    (f : Focus nil h root (node l c e r) up) (d : Color) where
  abbrev pub painted : Heap
  painted = upd h e.addr (cell (ptr nil l) (ptr nil r) (par nil up) d e)

  pub set_col-run : set_col e.addr d (tree nil h root) ≡ some (tt, tree nil painted root)
  set_col-run = modify-run nil h root e.addr _ _ f.inside.0

  pub painted-Focus : Focus nil painted root (node l d e r) up
  painted-Focus =
      let w = f.inside in
      let once = f.distinct e.addr in
      let self = here_self e.addr in
      let z = f.apart in
      record {
        sentinel = record {
          node = f.sentinel.node;
          at = rw (==_false nil e.addr (ne_of_here nil e.addr (omega arith))) f.sentinel.at;
          is_black = f.sentinel.is_black;
        };
        inside = (
          rw (==-self e.addr),
          Holds-upd nil h e.addr l e.addr _ (omega arith) w.1,
          Holds-upd nil h e.addr r e.addr _ (omega arith) w.2,
        );
        outside = Around-upd nil h root e.addr up e.addr _ (omega arith) f.outside;
        distinct = λ a. omega (arith, f.distinct a);
        apart = omega arith;
      }
