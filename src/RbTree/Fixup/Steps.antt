-- ===== src/RbTree/Fixup/Steps.antt =====
-- One round of rbtree_insert_fixup in base/rbtree/rbtree.cpp, in each of its cases.
use yamq.Prelude.{ℕ}
use yamq.RbTree.{Color, red, black}
use yamq.RbTree.Shape.{Heap, Entry, Nodes, node, Ctx, Focus}
use yamq.RbTree.Links.{parent_of-run}
use yamq.RbTree.Moves.{}
use yamq.RbTree.Ends.{
  Ends, seq, read, done, paint, paint_left, paint_right, rotate_left, rotate_right,
}
use yamq.RbTree.Insert.{recolor, raise_right, raise_left}

module _ (nil : ℕ) (h : Heap) (root : ℕ) (up : Ctx) where
  -- A red uncle on the right.
  pub recolor_left :
      (pl pr ul ur : Nodes) (p g u : Entry)
      → Focus nil h root (node (node pl red p pr) black g (node ul red u ur)) up
      → Ends nil h root
          (recolor p.addr u.addr g.addr)
          g.addr
          (node (node pl black p pr) red g (node ul black u ur))
          up
  unfolding recolor
  recolor_left pl pr ul ur p g u f =
      seq nil h root _ _ tt _ _ _ up up (paint_left nil h root black pl red p pr black g _ up f)
        λ h₁ r₁ f₁.
          seq nil h₁ r₁ _ _ tt _ _ _ up up (paint_right nil h₁ r₁ black _ black g ul red u ur up f₁)
            λ h₂ r₂ f₂.
              seq nil h₂ r₂ _ _ tt _ _ _ up up (paint nil h₂ r₂ red _ black g _ up f₂)
                λ h₃ r₃ f₃. done nil h₃ r₃ g.addr _ up f₃

  -- A red uncle on the left.
  pub recolor_right :
      (pl pr ul ur : Nodes) (p g u : Entry)
      → Focus nil h root (node (node ul red u ur) black g (node pl red p pr)) up
      → Ends nil h root
          (recolor p.addr u.addr g.addr)
          g.addr
          (node (node ul black u ur) red g (node pl black p pr))
          up
  unfolding recolor
  recolor_right pl pr ul ur p g u f =
      seq nil h root _ _ tt _ _ _ up up (paint_right nil h root black _ black g pl red p pr up f)
        λ h₁ r₁ f₁.
          seq nil h₁ r₁ _ _ tt _ _ _ up up (paint_left nil h₁ r₁ black ul red u ur black g _ up f₁)
            λ h₂ r₂ f₂.
              seq nil h₂ r₂ _ _ tt _ _ _ up up (paint nil h₂ r₂ red _ black g _ up f₂)
                λ h₃ r₃ f₃. done nil h₃ r₃ g.addr _ up f₃

  pub raise_right-Ends :
      (nl nr pr u : Nodes) (c d b : Color) (n p g : Entry)
      → Focus nil h root (node (node (node nl c n nr) d p pr) b g u) up
      → Ends nil h root
          (raise_right n.addr)
          n.addr
          (node (node nl c n nr) black p (node pr red g u))
          up
  unfolding raise_right
  raise_right-Ends nl nr pr u c d b n p g f =
      read nil h root _ _ p.addr _ _ up (parent_of-run nil h root n.addr _ f.inside.1.1.0) (
        seq nil h root _ _ tt _ _ _ up up (paint_left nil h root black _ d p pr b g u up f)
          λ h₁ r₁ f₁.
            read nil h₁ r₁ _ _ g.addr _ _ up (parent_of-run nil h₁ r₁ p.addr _ f₁.inside.1.0) (
              seq nil h₁ r₁ _ _ tt _ _ _ up up (paint nil h₁ r₁ red _ b g u up f₁) λ h₂ r₂ f₂.
                seq nil h₂ r₂ _ _ tt _ _ _ up up (rotate_right nil h₂ r₂ _ pr u red black g p up f₂)
                  λ h₃ r₃ f₃. done nil h₃ r₃ n.addr _ up f₃))

  pub raise_left-Ends :
      (nl nr pl u : Nodes) (c d b : Color) (n p g : Entry)
      → Focus nil h root (node u b g (node pl d p (node nl c n nr))) up
      → Ends nil h root
          (raise_left n.addr)
          n.addr
          (node (node u red g pl) black p (node nl c n nr))
          up
  unfolding raise_left
  raise_left-Ends nl nr pl u c d b n p g f =
      read nil h root _ _ p.addr _ _ up (parent_of-run nil h root n.addr _ f.inside.2.2.0) (
        seq nil h root _ _ tt _ _ _ up up (paint_right nil h root black u b g pl d p _ up f)
          λ h₁ r₁ f₁.
            read nil h₁ r₁ _ _ g.addr _ _ up (parent_of-run nil h₁ r₁ p.addr _ f₁.inside.2.0) (
              seq nil h₁ r₁ _ _ tt _ _ _ up up (paint nil h₁ r₁ red u b g _ up f₁) λ h₂ r₂ f₂.
                seq nil h₂ r₂ _ _ tt _ _ _ up up (rotate_left nil h₂ r₂ u pl _ red black g p up f₂)
                  λ h₃ r₃ f₃. done nil h₃ r₃ n.addr _ up f₃))
