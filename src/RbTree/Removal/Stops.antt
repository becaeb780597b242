-- ===== src/RbTree/Removal/Stops.antt =====
-- The ends of rbtree_del_fixup in base/rbtree/rbtree.cpp: at the root, and at a red node.
use yamq.Prelude.{
  ℕ, suc, ◌≡◌, ◌≢◌, ◌⊎◌, inl, inr, refl, ap, ◌∙◌, Bool, true, false, ◌||◌, some, List, ◌==◌,
  ==-self,
}
use yamq.RbTree.{Color, red, black}
use yamq.RbTree.Shape.{
  Heap, Entry, Nodes, leaf, node, Ctx, top, in_left, in_right, plug, ptr, tree, upd, Focus,
}
use yamq.RbTree.Links.{and_then, load-run, modify-run}
use yamq.RbTree.Balance.{entries, root_color, IsRb, IsRbCtx, plug-IsRb}
use yamq.RbTree.Moves.{painted, set_col-run, painted-Focus, to_top}
use yamq.RbTree.Fixup.Loop.{entries-plug_eq}
use yamq.RbTree.Delete.{del_fixup}

-- What the loop is to come to: a tree of the entries `es` that obeys the rules.
pub record Repaired (nil : ℕ) (h : Heap) (root fuel x : ℕ) (es : List Entry) : Type 0 where
  pub heap : Heap
  pub new : ℕ
  pub whole : Nodes
  pub blacks : ℕ
  pub run : del_fixup fuel x (tree nil h root) ≡ some (tt, tree nil heap new)
  pub focus : Focus nil heap new whole top
  pub same : entries whole ≡ es
  pub rules : IsRb blacks whole
  pub dark : root_color whole ≡ black

-- A tree that lacks one black node on each path, unless its red root is made black.
abbrev pub Debt : ℕ → Nodes → Type 0
Debt n leaf = n ≡ 0
Debt n (node l red e r) = IsRb n l × IsRb n r
Debt n (node l black e r) = IsRb n (node l black e r)

pub IsRb-Debt : (n : ℕ) (s : Nodes) → IsRb n s → Debt n s
IsRb-Debt n leaf b = b
IsRb-Debt n (node l red e r) b = (b.2, b.3)
IsRb-Debt n (node l black e r) b = b

pub Debt-IsRb : (n : ℕ) (s : Nodes) → root_color s ≡ black → Debt n s → IsRb n s
Debt-IsRb n leaf q b = b
Debt-IsRb n (node l red e r) q b = cc
Debt-IsRb n (node l black e r) q b = b

-- The root of a tree is black whatever fills the hole.
abbrev pub Dark : Ctx → Type 0
Dark top = Unit
Dark (in_left top c e r) = c ≡ black
Dark (in_left (in_left up d g s) c e r) = Dark (in_left up d g s)
Dark (in_left (in_right l d g up) c e r) = Dark (in_right l d g up)
Dark (in_right l c e top) = c ≡ black
Dark (in_right l c e (in_left up d g s)) = Dark (in_left up d g s)
Dark (in_right l c e (in_right s d g up)) = Dark (in_right s d g up)

pub Dark-plug :
    (up : Ctx) (s : Nodes)
    → Dark up
    → root_color s ≡ black ⊎ (up ≢ top)
    → root_color (plug up s) ≡ black
unfolding plug
Dark-plug top s d (inl q) = q
Dark-plug top s d (inr q) = absurd (q refl)
Dark-plug (in_left top c e r) s d q = d
Dark-plug (in_left (in_left up c' g t) c e r) s d q =
    Dark-plug (in_left up c' g t) (node s c e r) d (inr (λ z. cc))
Dark-plug (in_left (in_right t c' g up) c e r) s d q =
    Dark-plug (in_right t c' g up) (node s c e r) d (inr (λ z. cc))
Dark-plug (in_right l c e top) s d q = d
Dark-plug (in_right l c e (in_left up c' g t)) s d q =
    Dark-plug (in_left up c' g t) (node l c e s) d (inr (λ z. cc))
Dark-plug (in_right l c e (in_right t c' g up)) s d q =
    Dark-plug (in_right t c' g up) (node l c e s) d (inr (λ z. cc))

debt_rules :
    (n : ℕ) (l : Nodes) (c : Color) (e : Entry) (r : Nodes)
    → Debt n (node l c e r)
    → (m : ℕ) × IsRb m (node l black e r)
debt_rules n l red e r b = (suc n, b)
debt_rules n l black e r b = (n, b)

module _ (nil : ℕ) (h : Heap) (root fuel : ℕ) where
  -- The loop ends where `x` is the root.
  pub stop_root :
      (n : ℕ) (s : Nodes)
      → Debt n s
      → Focus nil h root s top
      → Repaired nil h root (suc fuel) (ptr nil s) (entries s)
  unfolding del_fixup entries
  stop_root n leaf b f =
      let sn = f.sentinel.node in
      let at : h nil ≡ some sn = f.sentinel.at in
      let dark = record sn { col = black } in
      record {
        heap = upd h nil dark;
        new = root;
        whole = leaf;
        blacks = 0;
        run =
            and_then _ _ _ _ _ refl
            ∙ and_then _ _ _ _ _ (load-run nil h root nil sn at)
            ∙ rw (ap (λ y. nil == y) f.outside, ==-self nil) (modify-run nil h root nil _ sn at);
        focus = record {
          sentinel = record { node = dark; at = rw (==-self nil); is_black = refl };
          inside = tt;
          outside = f.outside;
          distinct = f.distinct;
          apart = f.apart;
        };
        same = refl;
        rules = refl;
        dark = refl;
      }
  stop_root n (node l c e r) b f =
      let (m, rules) = debt_rules n l c e r b in
      record {
        heap = painted nil h root l c e r top f black;
        new = root;
        whole = node l black e r;
        blacks = m;
        run =
            and_then _ _ _ _ _ refl
            ∙ and_then _ _ _ _ _ (load-run nil h root e.addr _ f.inside.0)
            ∙ rw (ap (λ y. e.addr == y) f.outside, ==-self e.addr)
                (set_col-run nil h root l c e r top f black);
        focus = painted-Focus nil h root l c e r top f black;
        same = refl;
        rules = rules;
        dark = refl;
      }

  or-true : (b : Bool) → (b || true) ≡ true
  or-true true = refl
  or-true false = refl

  -- The loop ends at a red node.
  pub stop_red :
      (n : ℕ) (l : Nodes) (e : Entry) (r : Nodes) (up : Ctx)
      → Debt n (node l red e r)
      → IsRbCtx (suc n) up
      → Dark up
      → Focus nil h root (node l red e r) up
      → Repaired nil h root (suc fuel) e.addr (entries (plug up (node l red e r)))
  unfolding del_fixup entries
  stop_red n l e r up b w d f =
      let (m, rules) = plug-IsRb (suc n) up (node l black e r) b w tt in
      record {
        heap = painted nil h root l red e r up f black;
        new = root;
        whole = plug up (node l black e r);
        blacks = m;
        run =
            and_then _ _ _ _ _ refl
            ∙ and_then _ _ _ _ _ (load-run nil h root e.addr _ f.inside.0)
            ∙ rw (or-true (e.addr == root)) (set_col-run nil h root l red e r up f black);
        focus =
            to_top nil (painted nil h root l red e r up f black) root up (node l black e r)
              (painted-Focus nil h root l red e r up f black);
        same = entries-plug_eq up (node l black e r) (node l red e r) refl;
        rules = rules;
        dark = Dark-plug up (node l black e r) d (inl refl);
      }
