-- ===== src/RbTree/Removal/TakenOut.antt =====
-- rbtree_delete of base/rbtree/rbtree.cpp takes the node at the left edge out of the tree.
use yamq.Prelude.{
  ℕ, zero, suc, ◌<◌, ◌≡◌, refl, sym, ap, subst, ◌∙◌, inl, none, some, List, [], ==-self,
  if◌then◌else◌, arith,
}
use yamq.RbTree.{Color, red, black, Tree, M, pure, is_black}
use yamq.RbTree.Shape.{
  Heap, Entry, Nodes, leaf, node, Ctx, top, in_left, in_right, plug, occ, ptr, tree, Focus,
  occ-plug,
}
use yamq.RbTree.Links.{and_then, here_self, ne_of_here}
use yamq.RbTree.Balance.{entries, before, root_color, IsRb, IsRbCtx, plug-IsRb, Parts}
use yamq.RbTree.Moves.{to_top, color_of-run}
use yamq.RbTree.Fixup.Loop.{depth}
use yamq.RbTree.Delete.{rbtree_delete, del_fixup}
use yamq.RbTree.Removal.Stops.{Dark, Dark-plug, IsRb-Debt}
use yamq.RbTree.Removal.Whole.{LeftEdge, del_fixup-Works}
use yamq.RbTree.Removal.Keeps.{Alive, AliveAfter}
use yamq.RbTree.Removal.KeepsFixup.{Keeps-del_fixup}
use yamq.RbTree.Removal.Splice
use yamq.RbTree.Removal.Free.{occ_list, occ-entries, without, Focus-free, free-run, victim-run}

-- The least node of a tree, in its context.
pub record Least (all : Nodes) : Type 0 where
  pub up : Ctx
  pub col : Color
  pub entry : Entry
  pub right : Nodes
  pub whole : plug up (node leaf col entry right) ≡ all
  pub edge : LeftEdge up

pub least :
    (l : Nodes) (c : Color) (e : Entry) (r : Nodes) (up : Ctx)
    → LeftEdge up
    → Least (plug up (node l c e r))
unfolding plug
least leaf c e r up w = record { up = up; col = c; entry = e; right = r; whole = refl; edge = w }
least (node l d x s) c e r up w = least l d x s (in_left up c e r) w

pub before-LeftEdge : (up : Ctx) → LeftEdge up → before up ≡ []
unfolding before
before-LeftEdge top w = refl
before-LeftEdge (in_left up c e r) w = before-LeftEdge up w
before-LeftEdge (in_right l c e up) w = absurd w

pub plug-Dark : (up : Ctx) (s : Nodes) → LeftEdge up → root_color (plug up s) ≡ black → Dark up
unfolding plug
plug-Dark top s w q = tt
plug-Dark (in_left top c e r) s w q = q
plug-Dark (in_left (in_left up d g t) c e r) s w q = plug-Dark (in_left up d g t) (node s c e r) w q
plug-Dark (in_left (in_right t d g up) c e r) s w q = absurd w
plug-Dark (in_right l c e up) s w q = absurd w

-- The tree after the node is taken out and before it is freed.
record TakenOut (nil : ℕ) (h : Heap) (root : ℕ) (m : M (Unit {0})) (es : List Entry) : Type 0 where
  heap : Heap
  new : ℕ
  whole : Nodes
  blacks : ℕ
  run : m (tree nil h root) ≡ some (tt, tree nil heap new)
  focus : Focus nil heap new whole top
  same : entries whole ≡ es
  rules : IsRb blacks whole
  dark : root_color whole ≡ black

module _ (nil : ℕ) (h : Heap) (root fuel : ℕ) (y : Entry) (r : Nodes) (up : Ctx)
    (edge : LeftEdge up) (enough : depth up < fuel) (dark : Dark up) where
  fix_black :
      (n : ℕ) (f : Focus nil h root (node leaf black y r) up)
      → IsRb n (node leaf black y r)
      → IsRbCtx n up
      → TakenOut nil
          (Splice.spliced nil h root black y r up f)
          (Splice.spliced_root nil h root black y r up f)
          (del_fixup fuel (ptr nil r))
          (entries (plug up r))
  fix_black zero f b x = absurd b
  fix_black (suc n) f b x =
      let w =
        del_fixup-Works nil fuel (Splice.spliced nil h root black y r up f)
          (Splice.spliced_root nil h root black y r up f) n r up enough edge dark
          (IsRb-Debt n r b.1) x (Splice.spliced-Marked nil h root black y r up f)
          (Splice.spliced-Focus nil h root black y r up f) in
      record {
        heap = w.heap;
        new = w.new;
        whole = w.whole;
        blacks = w.blacks;
        run = w.run;
        focus = w.focus;
        same = w.same;
        rules = w.rules;
        dark = w.dark;
      }

  fix :
      (c : Color) (f : Focus nil h root (node leaf c y r) up)
      → Parts up (node leaf c y r)
      → TakenOut nil
          (Splice.spliced nil h root c y r up f)
          (Splice.spliced_root nil h root c y r up f)
          (if is_black c then del_fixup fuel (ptr nil r) else pure tt)
          (entries (plug up r))
  fix black f p = fix_black p.blacks f p.inner p.outer
  fix red f p =
      let (m, rules) = plug-IsRb p.blacks up r p.inner.3 p.outer (rw p.inner.1 tt) in
      record {
        heap = Splice.spliced nil h root red y r up f;
        new = Splice.spliced_root nil h root red y r up f;
        whole = plug up r;
        blacks = m;
        run = refl;
        focus =
            to_top nil _ (Splice.spliced_root nil h root red y r up f) up r
              (Splice.spliced-Focus nil h root red y r up f);
        same = refl;
        rules = rules;
        dark = Dark-plug up r dark (inl p.inner.1);
      }

  TakenOut-Alive :
      (k : Heap) (new : ℕ) (c : Color) (es : List Entry)
      (t : TakenOut nil k new (if is_black c then del_fixup fuel (ptr nil r) else pure tt) es)
      → Alive (tree nil k new) y.addr
      → Alive (tree nil t.heap t.new) y.addr
  TakenOut-Alive k new black es t w =
      subst (λ o. AliveAfter y.addr o) t.run
        ((Keeps-del_fixup fuel (ptr nil r)).keeps (tree nil k new) y.addr w)
  TakenOut-Alive k new red es t w = subst (λ o. AliveAfter y.addr o) t.run w

  pub remove :
      (c : Color) (f : Focus nil h root (node leaf c y r) up)
      → Parts up (node leaf c y r)
      → (u : Tree) × (s : Nodes) × (rbtree_delete fuel y.addr (tree nil h root) ≡ some (tt, u))
        × Focus u.nil u.heap u.root s top
        × (entries s ≡ entries (plug up r))
        × ((n : ℕ) × IsRb n s)
        × (root_color s ≡ black)
        × (u.heap y.addr ≡ none)
  unfolding rbtree_delete
  remove c f p =
      let t = fix c f p in
      let alive =
        TakenOut-Alive _ _ c _ t (_, Splice.spliced-y nil h root c y r up f ∙ f.inside.0) in
      let gone : occ y.addr t.whole ≡ 0 =
        occ-entries y.addr t.whole
        ∙ ap (occ_list y.addr) t.same
        ∙ sym (occ-entries y.addr (plug up r))
        ∙ omega (arith, occ-plug y.addr up r, f.distinct y.addr, here_self y.addr) in
      (
        tree nil (without t.heap y.addr) t.new,
        t.whole,
        and_then _ _ _ _ _ (victim-run nil h root fuel c y r up f)
            ∙ and_then _ _ _ _ _ (color_of-run nil h root y.addr _ f.inside.0)
            ∙ and_then _ _ _ _ _ (Splice.splice-run nil h root c y r up f)
            ∙ and_then _ _ _ _ _ t.run
            ∙ free-run nil t.heap t.new y.addr alive,
        Focus-free nil t.heap t.new t.whole y.addr gone
            (λ q. ne_of_here nil y.addr (omega (arith, f.apart)) (sym q)) t.focus,
        t.same,
        (t.blacks, t.rules),
        t.dark,
        rw (==-self y.addr),
      )
