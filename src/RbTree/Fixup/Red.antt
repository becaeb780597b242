-- ===== src/RbTree/Fixup/Red.antt =====
-- rbtree_insert_fixup in base/rbtree/rbtree.cpp where the uncle is red.
use yamq.Prelude.{ℕ, suc, ◌<◌, ◌≡◌, refl, some, arith}
use yamq.RbTree.{red, black}
use yamq.RbTree.Shape.{Heap, Entry, Nodes, node, Ctx, plug, cell, Focus}
use yamq.RbTree.Balance.{entries, IsRb, IsRbCtx}
use yamq.RbTree.Fixup.Rounds.{red_left, red_right}
use yamq.RbTree.Fixup.Loop.{depth, Fixed, entries-plug_eq, Works, round, retitle}

module _ (nil : ℕ) where
  module _ (fuel : ℕ) (works : Works nil fuel) (h : Heap) (root n : ℕ) (p g u : Entry) (up : Ctx)
      (enough : suc (suc (depth up)) < suc fuel) (e : Entry) (y z a b : ℕ)
      (at : h e.addr ≡ some (cell y z p.addr red e))
      (above : h p.addr ≡ some (cell a b g.addr red p)) where
    -- The parent `p` has the children `pl` and `pr`, one of them the node `x` of the loop.
    pub red_uncle_right :
        (pl pr ul ur : Nodes)
        → Focus nil h root (node (node pl red p pr) black g (node ul red u ur)) up
        → IsRb n pl × IsRb n pr
        → IsRb n ul × IsRb n ur
        → IsRbCtx (suc n) up
        → Fixed nil h root
            (suc fuel)
            e.addr
            (entries (plug up (node (node pl red p pr) black g (node ul red u ur))))
    unfolding entries
    red_uncle_right pl pr ul ur f q c w =
        round nil fuel h root e.addr _ _ g.addr _ up _ at above refl
          (red_left nil h root up e.addr a b pl pr ul ur p g u f)
          λ k new f'.
            retitle nil k new fuel g.addr _ _
              (entries-plug_eq up (node (node pl black p pr) red g (node ul black u ur))
                (node (node pl red p pr) black g (node ul red u ur)) refl)
              (works k new (node pl black p pr) g (node ul black u ur) up (suc n) (omega arith) f'
                (refl, refl, q, c) w)

    pub red_uncle_left :
        (pl pr ul ur : Nodes)
        → Focus nil h root (node (node ul red u ur) black g (node pl red p pr)) up
        → IsRb n pl × IsRb n pr
        → IsRb n ul × IsRb n ur
        → IsRbCtx (suc n) up
        → Fixed nil h root
            (suc fuel)
            e.addr
            (entries (plug up (node (node ul red u ur) black g (node pl red p pr))))
    unfolding entries
    red_uncle_left pl pr ul ur f q c w =
        round nil fuel h root e.addr _ _ g.addr _ up _ at above refl
          (red_right nil h root up e.addr a b pl pr ul ur p g u f)
          λ k new f'.
            retitle nil k new fuel g.addr _ _
              (entries-plug_eq up (node (node ul black u ur) red g (node pl black p pr))
                (node (node ul red u ur) black g (node pl red p pr)) refl)
              (works k new (node ul black u ur) g (node pl black p pr) up (suc n) (omega arith) f'
                (refl, refl, c, q) w)
