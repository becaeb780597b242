-- ===== src/RbTree/Fixup/Rounds.antt =====
-- fixup_body in each of its cases: where the uncle is red, and the four rotations.
use yamq.Prelude.{ℕ, ◌≡◌, ◌≢◌, refl, sym, ◌∙◌, ==_false, ==-self, arith}
use yamq.RbTree.{Color, red, black}
use yamq.RbTree.Shape.{Heap, Entry, Nodes, node, Ctx, in_left, in_right, ptr, cell, Focus}
use yamq.RbTree.Links.{here_self, ne_of_here, load-run, ptr-ne}
use yamq.RbTree.Balance.{root_color}
use yamq.RbTree.Moves.{up_left, up_right, down_left, down_right, color_of-focus}
use yamq.RbTree.Ends.{Ends, seq, read, done, refocus, rotate_left, rotate_right}
use yamq.RbTree.Insert.{fixup_left, fixup_right, fixup_body}
use yamq.RbTree.Fixup.Steps.{recolor_left, recolor_right, raise_right-Ends, raise_left-Ends}

module _ (nil : ℕ) (h : Heap) (root : ℕ) (up : Ctx) where
  -- A node is no child of its sibling's side.
  apart_left :
      (x : Entry) (s l r : Nodes) (c d : Color) (e : Entry) (c' : Ctx)
      → Focus nil h root (node (node l c x r) d e s) c'
      → x.addr ≢ ptr nil s
  apart_left x s l r c d e c' f =
      let once = f.distinct x.addr in
      let z = f.apart in
      let self = here_self x.addr in
      ptr-ne nil x.addr s (λ q. ne_of_here nil x.addr (omega arith) (sym q)) (omega arith)

  apart_right :
      (x : Entry) (s l r : Nodes) (c d : Color) (e : Entry) (c' : Ctx)
      → Focus nil h root (node s d e (node l c x r)) c'
      → x.addr ≢ ptr nil s
  apart_right x s l r c d e c' f =
      let once = f.distinct x.addr in
      let z = f.apart in
      let self = here_self x.addr in
      ptr-ne nil x.addr s (λ q. ne_of_here nil x.addr (omega arith) (sym q)) (omega arith)

  -- The parent is the left child of the grandparent, or the right one.
  body_left :
      (n x y : ℕ) (pl pr u : Nodes) (p g : Entry) (n' : ℕ) (s : Nodes)
      → Focus nil h root (node (node pl red p pr) black g u) up
      → Ends nil h root (fixup_left n p.addr g.addr (ptr nil u)) n' s up
      → Ends nil h root (fixup_body n p.addr (cell x y g.addr red p)) n' s up
  unfolding fixup_body
  body_left n x y pl pr u p g n' s f e =
      read nil h root _ _ _ n' s up (load-run nil h root g.addr _ f.inside.0)
        (rw (==-self p.addr) e)

  body_right :
      (n x y : ℕ) (pl pr u : Nodes) (p g : Entry) (n' : ℕ) (s : Nodes)
      → Focus nil h root (node u black g (node pl red p pr)) up
      → Ends nil h root (fixup_right n p.addr g.addr (ptr nil u)) n' s up
      → Ends nil h root (fixup_body n p.addr (cell x y g.addr red p)) n' s up
  unfolding fixup_body
  body_right n x y pl pr u p g n' s f e =
      read nil h root _ _ _ n' s up (load-run nil h root g.addr _ f.inside.0)
        (rw (==_false p.addr (ptr nil u) (apart_right p u pl pr red black g up f)) e)

  pub red_left :
      (n x y : ℕ) (pl pr ul ur : Nodes) (p g u : Entry)
      → Focus nil h root (node (node pl red p pr) black g (node ul red u ur)) up
      → Ends nil h root
          (fixup_body n p.addr (cell x y g.addr red p))
          g.addr
          (node (node pl black p pr) red g (node ul black u ur))
          up
  unfolding fixup_left
  red_left n x y pl pr ul ur p g u f = body_left n x y pl pr _ p g g.addr _ f (
      read nil h root _ _ red g.addr _ up
        (color_of-focus nil h root (node ul red u ur) _
          (down_right nil h root _ (node pl red p pr) black g up f))
        (recolor_left nil h root up pl pr ul ur p g u f))

  pub red_right :
      (n x y : ℕ) (pl pr ul ur : Nodes) (p g u : Entry)
      → Focus nil h root (node (node ul red u ur) black g (node pl red p pr)) up
      → Ends nil h root
          (fixup_body n p.addr (cell x y g.addr red p))
          g.addr
          (node (node ul black u ur) red g (node pl black p pr))
          up
  unfolding fixup_right
  red_right n x y pl pr ul ur p g u f = body_right n x y pl pr _ p g g.addr _ f (
      read nil h root _ _ red g.addr _ up
        (color_of-focus nil h root (node ul red u ur) _
          (down_left nil h root _ up black g (node pl red p pr) f))
        (recolor_right nil h root up pl pr ul ur p g u f))

  -- `n` is a left child of a left child.
  pub left_left :
      (x y : ℕ) (nl nr pr u : Nodes) (c : Color) (n p g : Entry)
      → root_color u ≡ black
      → Focus nil h root (node (node (node nl c n nr) red p pr) black g u) up
      → Ends nil h root
          (fixup_body n.addr p.addr (cell x y g.addr red p))
          n.addr
          (node (node nl c n nr) black p (node pr red g u))
          up
  unfolding fixup_left
  left_left x y nl nr pr u c n p g dark f =
      let below = down_left nil h root _ up black g u f in
      let out = node (node nl c n nr) black p (node pr red g u) in
      body_left n.addr x y _ pr u p g n.addr out f (
        read nil h root _ _ black n.addr out up
          (color_of-focus nil h root u _ (down_right nil h root _ _ black g up f) ∙ rw dark)
          (read nil h root _ _ _ n.addr out up (load-run nil h root p.addr _ f.inside.1.0) (
            rw
              (==_false n.addr (ptr nil pr)
                (apart_left n pr nl nr c red p (in_left up black g u) below))
              (read nil h root _ _ n.addr n.addr out up refl
                (raise_right-Ends nil h root up nl nr pr u c red black n p g f)))))

  -- `n` is a right child of a left child.
  pub left_right :
      (x y : ℕ) (pl nl nr u : Nodes) (c : Color) (n p g : Entry)
      → root_color u ≡ black
      → Focus nil h root (node (node pl red p (node nl c n nr)) black g u) up
      → Ends nil h root
          (fixup_body n.addr p.addr (cell x y g.addr red p))
          p.addr
          (node (node pl red p nl) black n (node nr red g u))
          up
  unfolding fixup_left
  left_right x y pl nl nr u c n p g dark f =
      let below = down_left nil h root _ up black g u f in
      let out = node (node pl red p nl) black n (node nr red g u) in
      body_left n.addr x y pl _ u p g p.addr out f (
        read nil h root _ _ black p.addr out up
          (color_of-focus nil h root u _ (down_right nil h root _ _ black g up f) ∙ rw dark)
          (read nil h root _ _ _ p.addr out up (load-run nil h root p.addr _ f.inside.1.0) (
            rw (==-self n.addr) (
              seq nil h root _ _ p.addr p.addr _ out up up
                (seq nil h root _ _ tt p.addr _ _ up up
                  (refocus nil h root _ tt _ _ (in_left up black g u) up
                    (λ k new. up_left nil k new (node (node pl red p nl) c n nr) up black g u)
                    (rotate_left nil h root pl nl nr red c p n (in_left up black g u) below))
                  λ k new f'. done nil k new p.addr _ up f')
                λ k new f'. raise_right-Ends nil k new up pl nl nr u red c black p n g f'))))

  -- `n` is a right child of a right child.
  pub right_right :
      (x y : ℕ) (nl nr pl u : Nodes) (c : Color) (n p g : Entry)
      → root_color u ≡ black
      → Focus nil h root (node u black g (node pl red p (node nl c n nr))) up
      → Ends nil h root
          (fixup_body n.addr p.addr (cell x y g.addr red p))
          n.addr
          (node (node u red g pl) black p (node nl c n nr))
          up
  unfolding fixup_right
  right_right x y nl nr pl u c n p g dark f =
      let below = down_right nil h root _ u black g up f in
      let out = node (node u red g pl) black p (node nl c n nr) in
      body_right n.addr x y pl _ u p g n.addr out f (
        read nil h root _ _ black n.addr out up
          (color_of-focus nil h root u _ (down_left nil h root _ up black g _ f) ∙ rw dark)
          (read nil h root _ _ _ n.addr out up (load-run nil h root p.addr _ f.inside.2.0) (
            rw
              (==_false n.addr (ptr nil pl)
                (apart_right n pl nl nr c red p (in_right u black g up) below))
              (read nil h root _ _ n.addr n.addr out up refl
                (raise_left-Ends nil h root up nl nr pl u c red black n p g f)))))

  -- `n` is a left child of a right child.
  pub right_left :
      (x y : ℕ) (pr nl nr u : Nodes) (c : Color) (n p g : Entry)
      → root_color u ≡ black
      → Focus nil h root (node u black g (node (node nl c n nr) red p pr)) up
      → Ends nil h root
          (fixup_body n.addr p.addr (cell x y g.addr red p))
          p.addr
          (node (node u red g nl) black n (node nr red p pr))
          up
  unfolding fixup_right
  right_left x y pr nl nr u c n p g dark f =
      let below = down_right nil h root _ u black g up f in
      let out = node (node u red g nl) black n (node nr red p pr) in
      body_right n.addr x y _ pr u p g p.addr out f (
        read nil h root _ _ black p.addr out up
          (color_of-focus nil h root u _ (down_left nil h root _ up black g _ f) ∙ rw dark)
          (read nil h root _ _ _ p.addr out up (load-run nil h root p.addr _ f.inside.2.0) (
            rw (==-self n.addr) (
              seq nil h root _ _ p.addr p.addr _ out up up
                (seq nil h root _ _ tt p.addr _ _ up up
                  (refocus nil h root _ tt _ _ (in_right u black g up) up
                    (λ k new. up_right nil k new (node nl c n (node nr red p pr)) u black g up)
                    (rotate_right nil h root nl nr pr red c p n (in_right u black g up) below))
                  λ k new f'. done nil k new p.addr _ up f')
                λ k new f'. raise_left-Ends nil k new up nr pr nl u red c black p n g f'))))
