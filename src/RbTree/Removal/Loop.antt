-- ===== src/RbTree/Removal/Loop.antt =====
-- The loop of rbtree_del_fixup in base/rbtree/rbtree.cpp along the left edge of the tree.
use yamq.Prelude.{
  ℕ, suc, ◌-◌, ◌<◌, ◌≡◌, ◌≢◌, inl, inr, refl, sym, ap, subst, ◌∙◌, some, List, ==_false, ==-self,
  arith,
}
use yamq.RbTree.{Color, black, Node, ◌>>=◌, load}
use yamq.RbTree.Shape.{
  Heap, Entry, Nodes, leaf, node, Ctx, in_left, plug, occ_ctx, ptr, tree, Focus,
}
use yamq.RbTree.Links.{and_then, load-run, here_self}
use yamq.RbTree.Balance.{entries, root_color, IsRb}
use yamq.RbTree.Moves.{to_top}
use yamq.RbTree.Successor.{root-in}
use yamq.RbTree.Ends.{Ends}
use yamq.RbTree.Removal.Quits.{Marked, Quits}
use yamq.RbTree.Removal.Stops.{Repaired, IsRb-Debt, stop_root}
use yamq.RbTree.Delete.{del_fixup, del_left}

pub retitle :
    (nil : ℕ) (h : Heap) (root fuel x : ℕ) (es es' : List Entry)
    → es ≡ es'
    → Repaired nil h root fuel x es
    → Repaired nil h root fuel x es'
retitle nil h root fuel x es es' q f = record {
  heap = f.heap;
  new = f.new;
  whole = f.whole;
  blacks = f.blacks;
  run = f.run;
  focus = f.focus;
  same = f.same ∙ q;
  rules = f.rules;
  dark = f.dark;
}

head-color :
    (nil : ℕ) (h : Heap) (root : ℕ) (s : Nodes) (up : Ctx) (n : Node)
    → Focus nil h root s up
    → h (ptr nil s) ≡ some n
    → n.col ≡ root_color s
head-color nil h root leaf up n f at = let q = f.sentinel.at in let b = f.sentinel.is_black in cc
head-color nil h root (node l c e r) up n f at = let q = f.inside.0 in cc

module _ (nil : ℕ) (h : Heap) (root : ℕ) (fuel : ℕ) (s : Nodes) (up : Ctx) (c : Color) (p : Entry)
    (w : Nodes) where
  pub not-root : Focus nil h root s (in_left up c p w) → ptr nil s ≢ root
  not-root f = go s f
    where
      go : (s : Nodes) → Focus nil h root s (in_left up c p w) → ptr nil s ≢ root
      go leaf f q = elim (root-in nil h root nil (in_left up c p w) f.outside) [
        | inl t ↦ cc
        | inr i ↦ omega (arith, f.apart, ap (λ a. occ_ctx a (in_left up c p w)) q)
      ]
      go (node l d e r) f q = elim (root-in nil h root e.addr (in_left up c p w) f.outside) [
        | inl t ↦ cc
        | inr i ↦
            omega
              (arith, f.distinct e.addr, here_self e.addr, ap (λ a. occ_ctx a (in_left up c p w)) q)
      ]

  -- A round of the loop for a black left child.
  pub round-run :
      Focus nil h root s (in_left up c p w)
      → Marked nil h s (in_left up c p w)
      → root_color s ≡ black
      → del_fixup (suc fuel) (ptr nil s) (tree nil h root)
        ≡ (del_left (ptr nil s) >>= del_fixup fuel) (tree nil h root)
  unfolding del_fixup
  round-run f m dark =
      and_then _ _ _ _ _ refl
      ∙ and_then _ _ _ _ _ (load-run nil h root (ptr nil s) m.cell m.at)
      ∙ rw (==_false (ptr nil s) root (not-root f), head-color nil h root s _ m.cell f m.at, dark)
          (and_then _ _ _ _ _ (
              ap (λ a. load a (tree nil h root)) m.parent
              ∙ load-run nil h root p.addr _ f.outside.0)
            ∙ rw (==-self (ptr nil s)))

  -- What follows a round that goes on at `x'`, and one that ends at the root.
  pub go_on :
      (x' : ℕ) (out : Nodes) (up' : Ctx) (es : List Entry)
      → Focus nil h root s (in_left up c p w)
      → Marked nil h s (in_left up c p w)
      → root_color s ≡ black
      → Ends nil h root (del_left (ptr nil s)) x' out up'
      → ((k : Heap) (new : ℕ) → Focus nil k new out up' → Repaired nil k new fuel x' es)
      → Repaired nil h root (suc fuel) (ptr nil s) es
  go_on x' out up' es f m dark e next =
      let rest = next e.heap e.new e.focus in
      record {
        heap = rest.heap;
        new = rest.new;
        whole = rest.whole;
        blacks = rest.blacks;
        run = round-run f m dark ∙ and_then _ _ _ _ _ e.run ∙ rest.run;
        focus = rest.focus;
        same = rest.same;
        rules = rest.rules;
        dark = rest.dark;
      }

  pub go_end :
      (out : Nodes) (up' : Ctx) (es : List Entry)
      → Focus nil h root s (in_left up c p w)
      → Marked nil h s (in_left up c p w)
      → root_color s ≡ black
      → 0 < fuel
      → Quits nil h root (del_left (ptr nil s)) out up'
      → (blacks : ℕ) × IsRb blacks (plug up' out)
      → entries (plug up' out) ≡ es
      → Repaired nil h root (suc fuel) (ptr nil s) es
  go_end out up' es f m dark some_fuel e (n, b) q =
      let whole = plug up' out in
      let top_focus = to_top nil e.heap e.new up' out e.focus in
      let fuel_suc : fuel ≡ suc (fuel - 1) = omega arith in
      let rest = retitle nil e.heap e.new fuel e.new _ es q (
        subst (λ x. Repaired nil e.heap e.new fuel x (entries whole)) (sym top_focus.outside)
          (subst (λ k. Repaired nil e.heap e.new k (ptr nil whole) (entries whole)) (sym fuel_suc)
            (stop_root nil e.heap e.new (fuel - 1) n whole (IsRb-Debt n whole b) top_focus))) in
      record {
        heap = rest.heap;
        new = rest.new;
        whole = rest.whole;
        blacks = rest.blacks;
        run = round-run f m dark ∙ and_then _ _ _ _ _ e.run ∙ rest.run;
        focus = rest.focus;
        same = rest.same;
        rules = rest.rules;
        dark = rest.dark;
      }
