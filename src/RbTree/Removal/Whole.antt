-- ===== src/RbTree/Removal/Whole.antt =====
-- rbtree_del_fixup in base/rbtree/rbtree.cpp along the left edge, in all its cases.
use yamq.Prelude.{ℕ, zero, suc, ◌<◌, ◌≡◌, refl, arith, append_assoc}
use yamq.RbTree.{Color, red, black}
use yamq.RbTree.Shape.{
  Heap, Entry, Nodes, leaf, node, Ctx, top, in_left, in_right, plug, ptr, Focus,
}
use yamq.RbTree.Balance.{entries, root_color, IsRb, IsRbCtx}
use yamq.RbTree.Moves.{up_left, down_left}
use yamq.RbTree.Fixup.Loop.{depth, entries-plug_eq}
use yamq.RbTree.Ends.{refocus}
use yamq.RbTree.Removal.Quits.{Marked}
use yamq.RbTree.Removal.Steps.{case1_red, case1_black}
use yamq.RbTree.Removal.Stops.{Repaired, Debt, Dark, stop_root, stop_red}
use yamq.RbTree.Removal.Loop.{retitle}
use yamq.RbTree.Removal.Sibling

-- Only left turns lead to the hole.
abbrev pub LeftEdge : Ctx → Type 0
LeftEdge top = Unit
LeftEdge (in_left up c e r) = LeftEdge up
LeftEdge (in_right l c e up) = ⊥

Dark-up : (up : Ctx) (c : Color) (e : Entry) (r : Nodes) → Dark (in_left up c e r) → Dark up
Dark-up top c e r d = tt
Dark-up (in_left up b g s) c e r d = d
Dark-up (in_right s b g up) c e r d = d

Dark-swap :
    (up : Ctx) (c : Color) (e g : Entry) (r s : Nodes)
    → Dark (in_left up c e r)
    → Dark (in_left up c g s)
Dark-swap top c e g r s d = d
Dark-swap (in_left up b k t) c e g r s d = d
Dark-swap (in_right t b k up) c e g r s d = d

module _ (nil : ℕ) where
  abbrev Works : ℕ → Type 0
  Works fuel =
      (h : Heap) (root n : ℕ) (s : Nodes) (up : Ctx)
      → depth up < fuel
      → LeftEdge up
      → Dark up
      → Debt n s
      → IsRbCtx (suc n) up
      → Marked nil h s up
      → Focus nil h root s up
      → Repaired nil h root fuel (ptr nil s) (entries (plug up s))

  module _ (fuel : ℕ) (works : Works (suc fuel)) (h : Heap) (root n : ℕ) (s : Nodes) (up : Ctx)
      (c : Color) (p : Entry) (enough : depth up < suc fuel) (edge : LeftEdge up)
      (dark : root_color s ≡ black) (b : IsRb n s) where
    -- The sibling is black.
    black_sibling :
        (al : Nodes) (a : Entry) (ar : Nodes)
        → Dark (in_left up c p (node al black a ar))
        → IsRb n al
        → IsRb n ar
        → IsRbCtx (suc n) (in_left up c p (node al black a ar))
        → Marked nil h s (in_left up c p (node al black a ar))
        → Focus nil h root s (in_left up c p (node al black a ar))
        → Repaired nil h root
            (suc (suc fuel))
            (ptr nil s)
            (entries (plug up (node s c p (node al black a ar))))
    black_sibling al a ar d bl br x m f =
        Sibling.tail nil h root (suc fuel) s up c p (node al black a ar) f m dark (omega arith) n b
          c a up al ar (case1_black nil h root s p up al c a ar (up_left nil h root s up c p _ f))
          bl br x λ dl dr k new g. further c dl dr k new g x
      where
        further :
            (c : Color)
            → root_color al ≡ black
            → root_color ar ≡ black
            → (k : Heap) (new : ℕ) → Focus nil k new (node s c p (node al red a ar)) up
            → IsRbCtx (suc n) (in_left up c p (node al black a ar))
            → Repaired nil k new
                (suc fuel)
                p.addr
                (entries (plug up (node s c p (node al red a ar))))
        further red dl dr k new g x =
            works k new n (node s red p (node al red a ar)) up enough edge (Dark-up up c p _ d)
              (b, (dl, dr, bl, br)) x.3 (record { cell = _; at = g.inside.0; parent = refl }) g
        further black dl dr k new g x =
            works k new (suc n) (node s black p (node al red a ar)) up enough edge
              (Dark-up up c p _ d) (b, (dl, dr, bl, br)) x.1
              (record { cell = _; at = g.inside.0; parent = refl }) g

    -- The sibling is red.
    red_sibling :
        (al : Nodes) (a : Entry) (ar : Nodes) (w : Entry) (wr : Nodes)
        → Dark (in_left up black p (node (node al black a ar) red w wr))
        → IsRb n al
        → IsRb n ar
        → root_color wr ≡ black
        → IsRb (suc n) wr
        → IsRbCtx (suc (suc n)) up
        → Marked nil h s (in_left up black p (node (node al black a ar) red w wr))
        → Focus nil h root s (in_left up black p (node (node al black a ar) red w wr))
        → Repaired nil h root
            (suc (suc fuel))
            (ptr nil s)
            (entries (plug up (node s black p (node (node al black a ar) red w wr))))
    unfolding plug entries
    red_sibling al a ar w wr d bl br dwr bwr x m f =
        let up' = in_left up black w wr in
        retitle nil h root (suc (suc fuel)) (ptr nil s) _ _
          (entries-plug_eq up (node (node s red p (node al black a ar)) black w wr)
            (node s black p (node (node al black a ar) red w wr)) (simp append_assoc))
          (Sibling.tail nil h root (suc fuel) s up black p (node (node al black a ar) red w wr) f m
            dark (omega arith) n b red a up' al ar
            (refocus nil h root _ a.addr _ _ up up'
              (λ k new. down_left nil k new (node s red p (node al black a ar)) up black w wr)
              (case1_red nil h root s p up (node al black a ar) w wr
                (up_left nil h root s up black p _ f) m))
            bl br (refl, (bl, br), tt, (bwr, x))
            λ dl dr k new g.
              stop_red nil k new fuel n s p (node al red a ar) up' (b, (dl, dr, bl, br)) (bwr, x)
                (Dark-swap up black p w _ wr d) g)

  -- A black left child, by its sibling.
  continue :
      (fuel : ℕ) (works : Works (suc fuel)) (h : Heap) (root n : ℕ) (s : Nodes) (up : Ctx)
      (c : Color) (p : Entry) (w : Nodes)
      → depth up < suc fuel
      → LeftEdge up
      → root_color s ≡ black
      → IsRb n s
      → Dark (in_left up c p w)
      → IsRbCtx (suc n) (in_left up c p w)
      → Marked nil h s (in_left up c p w)
      → Focus nil h root s (in_left up c p w)
      → Repaired nil h root (suc (suc fuel)) (ptr nil s) (entries (plug up (node s c p w)))
  continue fuel works h root n s up red p leaf k edge q b d x m f = absurd (omega (arith, x.1))
  continue fuel works h root n s up black p leaf k edge q b d x m f = absurd (omega (arith, x.0))
  continue fuel works h root n s up red p (node al red a ar) k edge q b d x m f = cc (x.0)
  continue fuel works h root n s up red p (node al black a ar) k edge q b d x m f =
      black_sibling fuel works h root n s up red p k edge q b al a ar d x.1.0 x.1.1 x m f
  continue fuel works h root n s up black p (node al black a ar) k edge q b d x m f =
      black_sibling fuel works h root n s up black p k edge q b al a ar d x.0.0 x.0.1 x m f
  continue fuel works h root n s up black p (node leaf red w wr) k edge q b d x m f =
      absurd (omega (arith, x.0.2))
  continue fuel works h root n s up black p (node (node al red a ar) red w wr) k edge q b d x m f =
      cc (x.0.0)
  continue fuel works h root n s up black p (node (node al black a ar) red w wr) k edge q b d x m
        f =
      red_sibling fuel works h root n s up black p k edge q b al a ar w wr d x.0.2.0 x.0.2.1 x.0.1
        x.0.3 x.1 m f

  Works-suc : (fuel : ℕ) → Works fuel → Works (suc fuel)
  unfolding plug
  Works-suc fuel works h root n (node l red e r) (in_left up c p w) k edge d b x m f =
      stop_red nil h root fuel n l e r (in_left up c p w) b x d f
  Works-suc fuel works h root n s top k edge d b x m f = stop_root nil h root fuel n s b f
  Works-suc zero works h root n s (in_left up c p w) k edge d b x m f = absurd (omega arith)
  Works-suc fuel works h root n s (in_right l c p up) k edge d b x m f = absurd edge
  Works-suc (suc fuel) works h root n leaf (in_left up c p w) k edge d b x m f =
      continue fuel works h root n leaf up c p w (omega arith) edge refl b d x m f
  Works-suc (suc fuel) works h root n (node l black e r) (in_left up c p w) k edge d b x m f =
      continue fuel works h root n (node l black e r) up c p w (omega arith) edge refl b d x m f

  pub del_fixup-Works : (fuel : ℕ) → Works fuel
  del_fixup-Works zero h root n s up k edge d b x m f = absurd (omega arith)
  del_fixup-Works (suc fuel) h root n s up k edge d b x m f =
      Works-suc fuel (del_fixup-Works fuel) h root n s up k edge d b x m f
