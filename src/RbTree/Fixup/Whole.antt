-- ===== src/RbTree/Fixup/Whole.antt =====
-- The loop of rbtree_insert_fixup in base/rbtree/rbtree.cpp, in all its cases.
use yamq.Prelude.{ℕ, zero, suc, refl, arith}
use yamq.RbTree.{red, black}
use yamq.RbTree.Shape.{leaf, node, top, in_left, in_right, plug}
use yamq.RbTree.Balance.{}
use yamq.RbTree.Moves.{up_left, up_right}
use yamq.RbTree.Fixup.Rounds.{}
use yamq.RbTree.Fixup.Turns.{turn_ll, turn_lr, turn_rr, turn_rl}
use yamq.RbTree.Fixup.Red.{red_uncle_right, red_uncle_left}
use yamq.RbTree.Fixup.Loop.{Works, stop}

module _ (nil : ℕ) where
  -- By the place of the parent, of the node, and the color of the uncle.
  Works-suc : (fuel : ℕ) → Works nil fuel → Works nil (suc fuel)
  unfolding plug
  Works-suc fuel works h root l e r top n d f b w = stop nil fuel h root l e r top n refl f b w
  Works-suc fuel works h root l e r (in_left up black p pr) n d f b w =
      stop nil fuel h root l e r (in_left up black p pr) n refl f b w
  Works-suc fuel works h root l e r (in_right pl black p up) n d f b w =
      stop nil fuel h root l e r (in_right pl black p up) n refl f b w
  Works-suc fuel works h root l e r (in_left top red p pr) n d f b w = absurd w.2
  Works-suc fuel works h root l e r (in_right pl red p top) n d f b w = absurd w.2
  Works-suc fuel works h root l e r (in_left (in_left up red g u) red p pr) n d f b w = absurd w.2
  Works-suc fuel works h root l e r (in_left (in_left up black g leaf) red p pr) n d f b w =
      turn_ll nil fuel works h root n e p g up d l r pr leaf refl f b w
  Works-suc fuel works h root l e r (in_left (in_left up black g (node ul black u ur)) red p pr) n d
        f b w =
      turn_ll nil fuel works h root n e p g up d l r pr (node ul black u ur) refl f b w
  Works-suc fuel works h root l e r (in_left (in_left up black g (node ul red u ur)) red p pr) n d f
        b w =
      red_uncle_right nil fuel works h root n p g u up d e _ _ _ _ f.inside.0 f.outside.0
        (node l red e r) pr ul ur
        (up_left nil h root _ up black g _ (up_left nil h root _ _ red p pr f)) (b, w.1)
        (w.3.0.2, w.3.0.3) w.3.1
  Works-suc fuel works h root l e r (in_left (in_right u red g up) red p pr) n d f b w = absurd w.2
  Works-suc fuel works h root l e r (in_left (in_right leaf black g up) red p pr) n d f b w =
      turn_rl nil fuel works h root n e p g up d pr l r leaf refl f b w
  Works-suc fuel works h root l e r (in_left (in_right (node ul black u ur) black g up) red p pr) n
        d f b w =
      turn_rl nil fuel works h root n e p g up d pr l r (node ul black u ur) refl f b w
  Works-suc fuel works h root l e r (in_left (in_right (node ul red u ur) black g up) red p pr) n d
        f b w =
      red_uncle_left nil fuel works h root n p g u up d e _ _ _ _ f.inside.0 f.outside.0
        (node l red e r) pr ul ur
        (up_right nil h root _ _ black g up (up_left nil h root _ _ red p pr f)) (b, w.1)
        (w.3.0.2, w.3.0.3) w.3.1
  Works-suc fuel works h root l e r (in_right pl red p (in_left up red g u)) n d f b w = absurd w.2
  Works-suc fuel works h root l e r (in_right pl red p (in_left up black g leaf)) n d f b w =
      turn_lr nil fuel works h root n e p g up d pl l r leaf refl f b w
  Works-suc fuel works h root l e r (in_right pl red p (in_left up black g (node ul black u ur))) n
        d f b w =
      turn_lr nil fuel works h root n e p g up d pl l r (node ul black u ur) refl f b w
  Works-suc fuel works h root l e r (in_right pl red p (in_left up black g (node ul red u ur))) n d
        f b w =
      red_uncle_right nil fuel works h root n p g u up d e _ _ _ _ f.inside.0 f.outside.0 pl
        (node l red e r) ul ur
        (up_left nil h root _ up black g _ (up_right nil h root _ pl red p _ f)) (w.1, b)
        (w.3.0.2, w.3.0.3) w.3.1
  Works-suc fuel works h root l e r (in_right pl red p (in_right u red g up)) n d f b w = absurd w.2
  Works-suc fuel works h root l e r (in_right pl red p (in_right leaf black g up)) n d f b w =
      turn_rr nil fuel works h root n e p g up d l r pl leaf refl f b w
  Works-suc fuel works h root l e r (in_right pl red p (in_right (node ul black u ur) black g up)) n
        d f b w =
      turn_rr nil fuel works h root n e p g up d l r pl (node ul black u ur) refl f b w
  Works-suc fuel works h root l e r (in_right pl red p (in_right (node ul red u ur) black g up)) n d
        f b w =
      red_uncle_left nil fuel works h root n p g u up d e _ _ _ _ f.inside.0 f.outside.0 pl
        (node l red e r) ul ur
        (up_right nil h root _ _ black g up (up_right nil h root _ pl red p _ f)) (w.1, b)
        (w.3.0.2, w.3.0.3) w.3.1

  pub fixup_loop-Works : (fuel : ℕ) → Works nil fuel
  fixup_loop-Works zero h root l e r up n d f b w = absurd (omega arith)
  fixup_loop-Works (suc fuel) h root l e r up n d f b w =
      Works-suc fuel (fixup_loop-Works fuel) h root l e r up n d f b w
