-- ===== src/RbTree/Removal/Steps.antt =====
-- One round of rbtree_del_fixup in base/rbtree/rbtree.cpp for a left child, in each of its cases.
use yamq.Prelude.{ℕ, ◌≡◌, refl, ◌∙◌, some}
use yamq.RbTree.{Color, red, black, Node}
use yamq.RbTree.Shape.{Heap, Entry, Nodes, node, Ctx, in_left, in_right, ptr, tree, Focus}
use yamq.RbTree.Links.{and_then, load-run}
use yamq.RbTree.Moves.{up_right, down_left, down_right, color_of-run}
use yamq.RbTree.Ends.{
  Ends, read, done, refocus, paint, paint_left, paint_right, rotate_left, rotate_right,
}
use yamq.RbTree.Removal.Quits.{
  Marked, Marked-kept, Marked-run, Quits, quit_seq, quit_read, quit, seq_kept, peek_end,
}
use yamq.RbTree.Delete.{right_of, case1_left, case3_left, case4_left}

pub right_of-run :
    (nil : ℕ) (h : Heap) (root p : ℕ) (n : Node)
    → h p ≡ some n
    → right_of p (tree nil h root) ≡ some (n.right, tree nil h root)
right_of-run nil h root p n e = and_then _ _ _ _ _ (load-run nil h root p n e)

module _ (nil : ℕ) (h : Heap) (root : ℕ) (s : Nodes) (p : Entry) (up : Ctx) where
  -- A red sibling.
  pub case1_red :
      (wl : Nodes) (w : Entry) (wr : Nodes)
      → Focus nil h root (node s black p (node wl red w wr)) up
      → Marked nil h s (in_left up black p (node wl red w wr))
      → Ends nil h root
          (case1_left (ptr nil s) p.addr w.addr)
          (ptr nil wl)
          (node (node s red p wl) black w wr)
          up
  unfolding case1_left
  case1_red wl w wr f m =
      let out = node (node s red p wl) black w wr in
      read nil h root _ _ red _ out up (color_of-run nil h root w.addr _ f.inside.2.0) (
        seq_kept nil h root _ _ tt _ _ out up up
          (paint_right nil h root black s black p wl red w wr up f)
          λ h₁ r₁ f₁ q₁.
            seq_kept nil h₁ r₁ _ _ tt _ _ out up up (paint nil h₁ r₁ red s black p _ up f₁)
              λ h₂ r₂ f₂ q₂.
                seq_kept nil h₂ r₂ _ _ tt _ _ out up up
                  (rotate_left nil h₂ r₂ s wl wr red black p w up f₂)
                  λ h₃ r₃ f₃ q₃.
                    let below = down_left nil h₃ r₃ _ up black w wr f₃ in
                    let at = down_left nil h₃ r₃ s _ red p wl below in
                    read nil h₃ r₃ _ _ p.addr _ out up
                      (Marked-run nil h₃ r₃ s _ (
                        Marked-kept nil h h₃ r₃ s _ (in_left (in_left up black w wr) red p wl) m
                          (q₃ ∙ q₂ ∙ q₁) refl at))
                      (peek_end nil h₃ r₃ _ (ptr nil wl) out up
                        (right_of-run nil h₃ r₃ p.addr _ f₃.inside.1.0) f₃))

  pub case1_black :
      (wl : Nodes) (c : Color) (w : Entry) (wr : Nodes)
      → Focus nil h root (node s c p (node wl black w wr)) up
      → Ends nil h root
          (case1_left (ptr nil s) p.addr w.addr)
          w.addr
          (node s c p (node wl black w wr))
          up
  unfolding case1_left
  case1_black wl c w wr f =
      read nil h root _ _ black _ _ up (color_of-run nil h root w.addr _ f.inside.2.0)
        (done nil h root w.addr _ up f)

  -- A black sibling whose child on the far side is black and on the near side is red.
  pub case3_black :
      (c : Color) (kl : Nodes) (k : Entry) (kr : Nodes) (w : Entry) (wr : Nodes)
      → Focus nil h root (node s c p (node (node kl red k kr) black w wr)) up
      → Marked nil h s (in_left up c p (node (node kl red k kr) black w wr))
      → Ends nil h root
          (case3_left (ptr nil s) w.addr k.addr black)
          k.addr
          (node s c p (node kl black k (node kr red w wr)))
          up
  unfolding case3_left
  case3_black c kl k kr w wr f m =
      let out = node s c p (node kl black k (node kr red w wr)) in
      seq_kept nil h root _ _ tt _ _ out up up
        (refocus nil h root _ tt _ _ (in_right s c p up) up (λ g new. up_right nil g new _ s c p up)
          (paint_left nil h root black kl red k kr black w wr (in_right s c p up)
            (down_right nil h root _ s c p up f)))
        λ h₁ r₁ f₁ q₁.
          seq_kept nil h₁ r₁ _ _ tt _ _ out up up
            (paint_right nil h₁ r₁ red s c p _ black w wr up f₁)
            λ h₂ r₂ f₂ q₂.
              seq_kept nil h₂ r₂ _ _ tt _ _ out up up
                (refocus nil h₂ r₂ _ tt _ _ (in_right s c p up) up
                  (λ g new. up_right nil g new _ s c p up)
                  (rotate_right nil h₂ r₂ kl kr wr red black w k (in_right s c p up)
                    (down_right nil h₂ r₂ _ s c p up f₂)))
                λ h₃ r₃ f₃ q₃.
                  let at = down_left nil h₃ r₃ s up c p _ f₃ in
                  read nil h₃ r₃ _ _ p.addr _ out up
                    (Marked-run nil h₃ r₃ s _ (
                      Marked-kept nil h h₃ r₃ s _
                        (in_left up c p (node kl black k (node kr red w wr))) m (q₃ ∙ q₂ ∙ q₁) refl
                        at))
                    (peek_end nil h₃ r₃ _ k.addr out up
                      (right_of-run nil h₃ r₃ p.addr _ f₃.inside.0) f₃)

  -- A black sibling with a child on the far side.
  pub case4_Quits :
      (c : Color) (wl : Nodes) (w : Entry) (fl : Nodes) (d : Color) (e : Entry) (fr : Nodes)
      → Focus nil h root (node s c p (node wl black w (node fl d e fr))) up
      → Marked nil h s (in_left up c p (node wl black w (node fl d e fr)))
      → Quits nil h root
          (case4_left (ptr nil s) w.addr)
          (node (node s black p wl) c w (node fl black e fr))
          up
  unfolding case4_left
  case4_Quits c wl w fl d e fr f m =
      let out = node (node s black p wl) c w (node fl black e fr) in
      quit_read nil h root _ _ p.addr out up (Marked-run nil h root s _ m) (
        quit_read nil h root _ _ c out up (color_of-run nil h root p.addr _ f.inside.0) (
          quit_seq nil h root _ _ tt _ out up up (paint_right nil h root c s c p wl black w _ up f)
            λ h₁ r₁ f₁ q₁.
              quit_seq nil h₁ r₁ _ _ tt _ out up up (paint nil h₁ r₁ black s c p _ up f₁)
                λ h₂ r₂ f₂ q₂.
                  quit_read nil h₂ r₂ _ _ e.addr out up
                    (right_of-run nil h₂ r₂ w.addr _ f₂.inside.2.0)
                    (quit_seq nil h₂ r₂ _ _ tt _ out up up
                      (refocus nil h₂ r₂ _ tt _ _ (in_right s black p up) up
                        (λ g new. up_right nil g new _ s black p up)
                        (paint_right nil h₂ r₂ black wl c w fl d e fr (in_right s black p up)
                          (down_right nil h₂ r₂ _ s black p up f₂)))
                      λ h₃ r₃ f₃ q₃.
                        quit_seq nil h₃ r₃ _ _ tt _ out up up
                          (rotate_left nil h₃ r₃ s wl _ black c p w up f₃)
                          λ h₄ r₄ f₄ q₄. quit nil h₄ r₄ out up f₄)))
