-- ===== src/RbTree/Fixup/Turns.antt =====
-- rbtree_insert_fixup in base/rbtree/rbtree.cpp where the uncle is black.
use yamq.Prelude.{ℕ, suc, ◌<◌, ◌≡◌, refl, append_assoc, arith}
use yamq.RbTree.{red, black}
use yamq.RbTree.Shape.{Heap, Entry, Nodes, node, Ctx, in_left, in_right, plug, Focus}
use yamq.RbTree.Balance.{entries, root_color, IsRb, IsRbCtx}
use yamq.RbTree.Moves.{up_left, up_right, down_left, down_right}
use yamq.RbTree.Fixup.Rounds.{left_left, left_right, right_left, right_right}
use yamq.RbTree.Fixup.Loop.{depth, Fixed, entries-plug_eq, Works, round, retitle}

module _ (nil : ℕ) where
  module _ (fuel : ℕ) (works : Works nil fuel) (h : Heap) (root n : ℕ) (e p g : Entry) (up : Ctx)
      (enough : suc (suc (depth up)) < suc fuel) where
    -- The uncle is black, and the node a left child of a left child.
    pub turn_ll :
        (nl nr pr u : Nodes)
        → root_color u ≡ black
        → Focus nil h root (node nl red e nr) (in_left (in_left up black g u) red p pr)
        → IsRb n (node nl red e nr)
        → IsRbCtx n (in_left (in_left up black g u) red p pr)
        → Fixed nil h root
            (suc fuel)
            e.addr
            (entries (plug (in_left (in_left up black g u) red p pr) (node nl red e nr)))
    unfolding plug entries
    turn_ll nl nr pr u dark f b w =
        round nil fuel h root e.addr _ _ e.addr (node (node nl red e nr) black p (node pr red g u))
          up _ f.inside.0 f.outside.0 refl
          (left_left nil h root up _ _ nl nr pr u red e p g dark
            (up_left nil h root _ up black g u (up_left nil h root _ _ red p pr f)))
          λ k new f'.
            retitle nil k new fuel e.addr _ _
              (entries-plug_eq up (node (node nl red e nr) black p (node pr red g u))
                (node (node (node nl red e nr) red p pr) black g u) (simp append_assoc))
              (works k new nl e nr (in_left up black p (node pr red g u)) n (omega arith)
                (down_left nil k new _ up black p _ f') b ((w.0, dark, w.1, w.3.0), w.3.1))

    -- A right child of a left child.
    pub turn_lr :
        (pl nl nr u : Nodes)
        → root_color u ≡ black
        → Focus nil h root (node nl red e nr) (in_right pl red p (in_left up black g u))
        → IsRb n (node nl red e nr)
        → IsRbCtx n (in_right pl red p (in_left up black g u))
        → Fixed nil h root
            (suc fuel)
            e.addr
            (entries (plug (in_right pl red p (in_left up black g u)) (node nl red e nr)))
    unfolding plug entries
    turn_lr pl nl nr u dark f b w =
        round nil fuel h root e.addr _ _ p.addr (node (node pl red p nl) black e (node nr red g u))
          up _ f.inside.0 f.outside.0 refl
          (left_right nil h root up _ _ pl nl nr u red e p g dark
            (up_left nil h root _ up black g u (up_right nil h root _ pl red p _ f)))
          λ k new f'.
            retitle nil k new fuel p.addr _ _
              (entries-plug_eq up (node (node pl red p nl) black e (node nr red g u))
                (node (node pl red p (node nl red e nr)) black g u) (simp append_assoc))
              (works k new pl p nl (in_left up black e (node nr red g u)) n (omega arith)
                (down_left nil k new _ up black e _ f') (w.0, b.0, w.1, b.2)
                ((b.1, dark, b.3, w.3.0), w.3.1))

    -- A right child of a right child.
    pub turn_rr :
        (nl nr pl u : Nodes)
        → root_color u ≡ black
        → Focus nil h root (node nl red e nr) (in_right pl red p (in_right u black g up))
        → IsRb n (node nl red e nr)
        → IsRbCtx n (in_right pl red p (in_right u black g up))
        → Fixed nil h root
            (suc fuel)
            e.addr
            (entries (plug (in_right pl red p (in_right u black g up)) (node nl red e nr)))
    unfolding plug entries
    turn_rr nl nr pl u dark f b w =
        round nil fuel h root e.addr _ _ e.addr (node (node u red g pl) black p (node nl red e nr))
          up _ f.inside.0 f.outside.0 refl
          (right_right nil h root up _ _ nl nr pl u red e p g dark
            (up_right nil h root _ u black g up (up_right nil h root _ pl red p _ f)))
          λ k new f'.
            retitle nil k new fuel e.addr _ _
              (entries-plug_eq up (node (node u red g pl) black p (node nl red e nr))
                (node u black g (node pl red p (node nl red e nr))) (simp append_assoc))
              (works k new nl e nr (in_right (node u red g pl) black p up) n (omega arith)
                (down_right nil k new _ _ black p up f') b ((dark, w.0, w.3.0, w.1), w.3.1))

    -- A left child of a right child.
    pub turn_rl :
        (pr nl nr u : Nodes)
        → root_color u ≡ black
        → Focus nil h root (node nl red e nr) (in_left (in_right u black g up) red p pr)
        → IsRb n (node nl red e nr)
        → IsRbCtx n (in_left (in_right u black g up) red p pr)
        → Fixed nil h root
            (suc fuel)
            e.addr
            (entries (plug (in_left (in_right u black g up) red p pr) (node nl red e nr)))
    unfolding plug entries
    turn_rl pr nl nr u dark f b w =
        round nil fuel h root e.addr _ _ p.addr (node (node u red g nl) black e (node nr red p pr))
          up _ f.inside.0 f.outside.0 refl
          (right_left nil h root up _ _ pr nl nr u red e p g dark
            (up_right nil h root _ u black g up (up_left nil h root _ _ red p pr f)))
          λ k new f'.
            retitle nil k new fuel p.addr _ _
              (entries-plug_eq up (node (node u red g nl) black e (node nr red p pr))
                (node u black g (node (node nl red e nr) red p pr)) (simp append_assoc))
              (works k new nr p pr (in_right (node u red g nl) black e up) n (omega arith)
                (down_right nil k new _ _ black e up f') (b.1, w.0, b.3, w.1)
                ((dark, b.0, w.3.0, b.2), w.3.1))
