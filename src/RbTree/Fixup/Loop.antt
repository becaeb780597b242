-- ===== src/RbTree/Fixup/Loop.antt =====
-- The loop of rbtree_insert_fixup in base/rbtree/rbtree.cpp: what it comes to, and the rules for a round.
use yamq.Prelude.{ℕ, suc, ◌<◌, ◌≡◌, refl, sym, ◌∙◌, some, List}
use yamq.RbTree.{red, black, Node}
use yamq.RbTree.Shape.{Heap, Entry, Nodes, node, Ctx, top, in_left, in_right, plug, tree, Focus}
use yamq.RbTree.Links.{and_then, parent_of-run, load-run}
use yamq.RbTree.Balance.{entries, par_color, IsRb, IsRbCtx, plug-IsRb, entries-plug}
use yamq.RbTree.Moves.{to_top, parent-node}
use yamq.RbTree.Ends.{Ends}
use yamq.RbTree.Insert.{fixup_body, fixup_loop}
use yamq.RbTree.Fixup.Rounds.{}

abbrev pub depth : Ctx → ℕ
depth top = 0
depth (in_left up c e r) = suc (depth up)
depth (in_right l c e up) = suc (depth up)

-- The loop ends with a tree of the entries `es`, at whose root alone a red node may stand.
pub record Fixed (nil : ℕ) (h : Heap) (root fuel x : ℕ) (es : List Entry) : Type 0 where
  pub heap : Heap
  pub new : ℕ
  pub whole : Nodes
  pub height : ℕ
  pub run : fixup_loop fuel x (tree nil h root) ≡ some (tt, tree nil heap new)
  pub focus : Focus nil heap new whole top
  pub same : entries whole ≡ es
  pub rules : IsRb height whole

pub entries-plug_eq :
    (up : Ctx) (s s' : Nodes) → entries s ≡ entries s' → entries (plug up s) ≡ entries (plug up s')
entries-plug_eq up s s' q = entries-plug up s ∙ rw q (sym (entries-plug up s'))

module _ (nil : ℕ) where
  abbrev pub Works : ℕ → Type 0
  Works fuel =
      (h : Heap) (root : ℕ) (l : Nodes) (e : Entry) (r : Nodes) (up : Ctx) (n : ℕ)
      → depth up < fuel
      → Focus nil h root (node l red e r) up
      → IsRb n (node l red e r)
      → IsRbCtx n up
      → Fixed nil h root fuel e.addr (entries (plug up (node l red e r)))

  pub stop :
      (fuel : ℕ) (h : Heap) (root : ℕ) (l : Nodes) (e : Entry) (r : Nodes) (up : Ctx) (n : ℕ)
      → par_color up ≡ black
      → Focus nil h root (node l red e r) up
      → IsRb n (node l red e r)
      → IsRbCtx n up
      → Fixed nil h root (suc fuel) e.addr (entries (plug up (node l red e r)))
  unfolding fixup_loop
  stop fuel h root l e r up n dark f b w =
      let (pn, at, col) = parent-node nil h root (node l red e r) up f in
      let (m, rules) = plug-IsRb n up (node l red e r) b w (rw dark tt) in
      record {
        heap = h;
        new = root;
        whole = plug up (node l red e r);
        height = m;
        run =
            and_then _ _ _ _ _ (parent_of-run nil h root e.addr _ f.inside.0)
            ∙ and_then _ _ _ _ _ (load-run nil h root _ pn at)
            ∙ rw (col, dark);
        focus = to_top nil h root up (node l red e r) f;
        same = refl;
        rules = rules;
      }

  -- One round, and the rest of the loop.
  pub round :
      (fuel : ℕ) (h : Heap) (root x : ℕ) (xn pn : Node) (n' : ℕ) (s : Nodes) (up : Ctx)
      (es : List Entry)
      → h x ≡ some xn
      → h xn.parent ≡ some pn
      → pn.col ≡ red
      → Ends nil h root (fixup_body x xn.parent pn) n' s up
      → ((k : Heap) (new : ℕ) → Focus nil k new s up → Fixed nil k new fuel n' es)
      → Fixed nil h root (suc fuel) x es
  unfolding fixup_loop
  round fuel h root x xn pn n' s up es at above col e next =
      let rest = next e.heap e.new e.focus in
      record {
        heap = rest.heap;
        new = rest.new;
        whole = rest.whole;
        height = rest.height;
        run =
            and_then _ _ _ _ _ (parent_of-run nil h root x xn at)
            ∙ and_then _ _ _ _ _ (load-run nil h root xn.parent pn above)
            ∙ rw col (and_then _ _ _ _ _ e.run ∙ rest.run);
        focus = rest.focus;
        same = rest.same;
        rules = rest.rules;
      }

  pub retitle :
      (h : Heap) (root fuel x : ℕ) (es es' : List Entry)
      → es ≡ es'
      → Fixed nil h root fuel x es
      → Fixed nil h root fuel x es'
  retitle h root fuel x es es' q f = record {
    heap = f.heap;
    new = f.new;
    whole = f.whole;
    height = f.height;
    run = f.run;
    focus = f.focus;
    same = f.same ∙ q;
    rules = f.rules;
  }
