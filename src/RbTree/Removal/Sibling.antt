-- ===== src/RbTree/Removal/Sibling.antt =====
-- A round of rbtree_del_fixup in base/rbtree/rbtree.cpp from the black sibling on.
use yamq.Prelude.{ℕ, suc, ◌<◌, ◌≡◌, refl, append_assoc}
use yamq.RbTree.{Color, red, black}
use yamq.RbTree.Shape.{Heap, Entry, Nodes, leaf, node, Ctx, in_left, plug, ptr, Focus}
use yamq.RbTree.Balance.{entries, root_color, IsRb, IsRbCtx, regraft}
use yamq.RbTree.Moves.{up_left, down_left}
use yamq.RbTree.Fixup.Loop.{entries-plug_eq}
use yamq.RbTree.Ends.{Ends}
use yamq.RbTree.Removal.Quits.{Marked, Marked-kept}
use yamq.RbTree.Removal.Stops.{Repaired}
use yamq.RbTree.Removal.Left.{rest_both, rest_far, rest_near, left_ends, left-Quits}
use yamq.RbTree.Delete.{case1_left}
use yamq.RbTree.Removal.Loop.{retitle, go_on, go_end}

module _ (nil : ℕ) (h : Heap) (root : ℕ) (fuel : ℕ) (s : Nodes) (up : Ctx) (c : Color) (p : Entry)
    (w : Nodes) where
  -- With the black sibling `a` in the context `up'`, which the first case has made out of `w`.
  module _ (f : Focus nil h root s (in_left up c p w)) (m : Marked nil h s (in_left up c p w))
      (dark : root_color s ≡ black) (some_fuel : 0 < fuel) (n : ℕ) (b : IsRb n s) (d : Color)
      (a : Entry) (up' : Ctx) where
    abbrev pub Next : Nodes → Nodes → Type 0
    Next al ar =
        (k : Heap) (new : ℕ)
        → Focus nil k new (node s d p (node al red a ar)) up'
        → Repaired nil k new fuel p.addr (entries (plug up' (node s d p (node al red a ar))))

    abbrev pub First : Nodes → Nodes → Type 0
    First al ar =
        Ends nil h root (case1_left (ptr nil s) p.addr (ptr nil w)) a.addr
          (node s d p (node al black a ar)) up'

    abbrev pub Done : Nodes → Nodes → Type 0
    Done al ar =
        Repaired nil h root (suc fuel) (ptr nil s)
          (entries (plug up' (node s d p (node al black a ar))))

    kept_mark :
        (k : Heap) (new : ℕ) (al ar : Nodes)
        → Focus nil k new (node s d p (node al black a ar)) up'
        → k nil ≡ h nil
        → Marked nil k s (in_left up' d p (node al black a ar))
    kept_mark k new al ar g q =
        Marked-kept nil h k new s _ (in_left up' d p (node al black a ar)) m q refl
          (down_left nil k new s up' d p _ g)

    far_red :
        (al fl : Nodes) (e : Entry) (fr : Nodes)
        → First al (node fl red e fr)
        → IsRb n al
        → IsRb n (node fl red e fr)
        → IsRbCtx (suc n) (in_left up' d p (node al black a (node fl red e fr)))
        → Done al (node fl red e fr)
    unfolding entries
    far_red al fl e fr first bl br x =
        let out = node (node s black p al) d a (node fl black e fr) in
        go_end nil h root fuel s up c p w out up' _ f m dark some_fuel
          (left-Quits nil h root s p up c w a.addr _ out up' up' (up_left nil h root s up c p w f) m
            first
            λ k new g q.
              rest_far nil k new s p up' d al a fl e fr g
                (kept_mark k new al (node fl red e fr) g q))
          (regraft (suc n) (node s black p al) d a (node fl black e fr) up' p _ refl refl (b, bl)
            (br.2, br.3) x)
          (entries-plug_eq up' out (node s d p (node al black a (node fl red e fr)))
            (simp append_assoc))

    near_red :
        (kl : Nodes) (e : Entry) (kr ar : Nodes)
        → root_color ar ≡ black
        → First (node kl red e kr) ar
        → IsRb n (node kl red e kr)
        → IsRb n ar
        → IsRbCtx (suc n) (in_left up' d p (node (node kl red e kr) black a ar))
        → Done (node kl red e kr) ar
    unfolding entries
    near_red kl e kr ar dr first bl br x =
        let out = node (node s black p kl) d e (node kr black a ar) in
        go_end nil h root fuel s up c p w out up' _ f m dark some_fuel
          (left-Quits nil h root s p up c w a.addr _ out up' up' (up_left nil h root s up c p w f) m
            first
            λ k new g q.
              rest_near nil k new s p up' d kl e kr a ar dr g
                (kept_mark k new (node kl red e kr) ar g q))
          (regraft (suc n) (node s black p kl) d e (node kr black a ar) up' p _ refl refl (b, bl.2)
            (bl.3, br) x)
          (entries-plug_eq up' out (node s d p (node (node kl red e kr) black a ar))
            (simp append_assoc))

    both_black :
        (al ar : Nodes)
        → root_color al ≡ black
        → root_color ar ≡ black
        → First al ar
        → Next al ar
        → Done al ar
    unfolding entries
    both_black al ar dl dr first next =
        go_on nil h root fuel s up c p w p.addr (node s d p (node al red a ar)) up' _ f m dark
          (left_ends nil h root s p up c w a.addr p.addr _ (node s d p (node al red a ar)) up' up'
            (up_left nil h root s up c p w f) m first
            λ k new g q. rest_both nil k new s p up' d al a ar dl dr g (kept_mark k new al ar g q))
          λ k new g.
            retitle nil k new fuel p.addr _ _
              (entries-plug_eq up' (node s d p (node al red a ar)) (node s d p (node al black a ar))
                refl)
              (next k new g)

    pub tail :
        (al ar : Nodes)
        → First al ar
        → IsRb n al
        → IsRb n ar
        → IsRbCtx (suc n) (in_left up' d p (node al black a ar))
        → (root_color al ≡ black → root_color ar ≡ black → Next al ar)
        → Done al ar
    tail al (node fl red e fr) first bl br x next = far_red al fl e fr first bl br x
    tail (node kl red e kr) leaf first bl br x next = near_red kl e kr leaf refl first bl br x
    tail (node kl red e kr) (node fl black g fr) first bl br x next =
        near_red kl e kr (node fl black g fr) refl first bl br x
    tail leaf leaf first bl br x next = both_black leaf leaf refl refl first (next refl refl)
    tail leaf (node fl black g fr) first bl br x next =
        both_black leaf (node fl black g fr) refl refl first (next refl refl)
    tail (node kl black e kr) leaf first bl br x next =
        both_black (node kl black e kr) leaf refl refl first (next refl refl)
    tail (node kl black e kr) (node fl black g fr) first bl br x next =
        both_black (node kl black e kr) (node fl black g fr) refl refl first (next refl refl)
