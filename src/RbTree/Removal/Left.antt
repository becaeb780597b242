-- ===== src/RbTree/Removal/Left.antt =====
-- The branch of rbtree_del_fixup in base/rbtree/rbtree.cpp for a left child, from its cases.
use yamq.Prelude.{ℕ, ◌≡◌, refl, ◌∙◌, Bool, true, false, ◌&&◌}
use yamq.RbTree.{Color, red, black, is_black}
use yamq.RbTree.Shape.{Heap, Entry, Nodes, node, Ctx, in_left, ptr, Focus}
use yamq.RbTree.Links.{load-run}
use yamq.RbTree.Balance.{root_color}
use yamq.RbTree.Moves.{down_left, down_right, color_of-focus, color_of-run}
use yamq.RbTree.Ends.{Ends, read, paint_right}
use yamq.RbTree.Removal.Quits.{
  Marked, Marked-kept, Marked-run, Quits, quit_seq, quit_read, seq_kept, peek_end,
}
use yamq.RbTree.Delete.{case1_left, case3_left, rest_left, del_left}
use yamq.RbTree.Removal.Steps.{right_of-run, case3_black, case4_Quits}

module _ (nil : ℕ) (h : Heap) (root : ℕ) (s : Nodes) (p : Entry) (up : Ctx) where
  -- Both children of the black sibling are black.
  pub rest_both :
      (c : Color) (wl : Nodes) (w : Entry) (wr : Nodes)
      → root_color wl ≡ black
      → root_color wr ≡ black
      → Focus nil h root (node s c p (node wl black w wr)) up
      → Marked nil h s (in_left up c p (node wl black w wr))
      → Ends nil h root (rest_left (ptr nil s) w.addr) p.addr (node s c p (node wl red w wr)) up
  unfolding rest_left
  rest_both c wl w wr dl dr f m =
      let out = node s c p (node wl red w wr) in
      let at = down_right nil h root (node wl black w wr) s c p up f in
      read nil h root _ _ _ p.addr out up (load-run nil h root w.addr _ f.inside.2.0) (
        read nil h root _ _ black p.addr out up
          (color_of-focus nil h root wl _ (down_left nil h root wl _ black w wr at) ∙ rw dl)
          (read nil h root _ _ black p.addr out up
            (color_of-focus nil h root wr _ (down_right nil h root wr wl black w _ at) ∙ rw dr)
            (seq_kept nil h root _ _ tt p.addr _ out up up
              (paint_right nil h root red s c p wl black w wr up f)
              λ h₁ r₁ f₁ q₁.
                peek_end nil h₁ r₁ _ p.addr out up
                  (Marked-run nil h₁ r₁ s _ (
                    Marked-kept nil h h₁ r₁ s _ (in_left up c p (node wl red w wr)) m q₁ refl
                      (down_left nil h₁ r₁ s up c p _ f₁)))
                  f₁)))

  -- The far child is red.
  pub rest_far :
      (c : Color) (wl : Nodes) (w : Entry) (fl : Nodes) (e : Entry) (fr : Nodes)
      → Focus nil h root (node s c p (node wl black w (node fl red e fr))) up
      → Marked nil h s (in_left up c p (node wl black w (node fl red e fr)))
      → Quits nil h root
          (rest_left (ptr nil s) w.addr)
          (node (node s black p wl) c w (node fl black e fr))
          up
  unfolding rest_left case3_left
  rest_far c wl w fl e fr f m =
      let out = node (node s black p wl) c w (node fl black e fr) in
      let at = down_right nil h root (node wl black w (node fl red e fr)) s c p up f in
      quit_read nil h root _ _ _ out up (load-run nil h root w.addr _ f.inside.2.0) (
        quit_read nil h root _ _ (root_color wl) out up
          (color_of-focus nil h root wl _ (down_left nil h root wl _ black w _ at))
          (quit_read nil h root _ _ red out up (color_of-run nil h root e.addr _ f.inside.2.2.0) (
            rw (and-false (is_black (root_color wl))) (
              quit_read nil h root _ _ w.addr out up refl
                (case4_Quits nil h root s p up c wl w fl red e fr f m)))))
    where
      and-false : (b : Bool) → (b && false) ≡ false
      and-false true = refl
      and-false false = refl

  -- The far child is black, and the near one red.
  pub rest_near :
      (c : Color) (kl : Nodes) (k : Entry) (kr : Nodes) (w : Entry) (wr : Nodes)
      → root_color wr ≡ black
      → Focus nil h root (node s c p (node (node kl red k kr) black w wr)) up
      → Marked nil h s (in_left up c p (node (node kl red k kr) black w wr))
      → Quits nil h root
          (rest_left (ptr nil s) w.addr)
          (node (node s black p kl) c k (node kr black w wr))
          up
  unfolding rest_left
  rest_near c kl k kr w wr dr f m =
      let out = node (node s black p kl) c k (node kr black w wr) in
      let at = down_right nil h root (node (node kl red k kr) black w wr) s c p up f in
      quit_read nil h root _ _ _ out up (load-run nil h root w.addr _ f.inside.2.0) (
        quit_read nil h root _ _ red out up (color_of-run nil h root k.addr _ f.inside.2.1.0) (
          quit_read nil h root _ _ black out up
            (color_of-focus nil h root wr _ (down_right nil h root wr _ black w _ at) ∙ rw dr)
            (quit_seq nil h root _ _ k.addr _ out up up
              (case3_black nil h root s p up c kl k kr w wr f m)
              λ h₁ r₁ f₁ q₁. case4_Quits nil h₁ r₁ s p up c kl k kr red w wr f₁ (
                Marked-kept nil h h₁ r₁ s _ (in_left up c p (node kl black k (node kr red w wr))) m
                  q₁ refl (down_left nil h₁ r₁ s up c p _ f₁)))))

  -- The sibling is found and made black, and the rest follows.
  pub left_ends :
      (c : Color) (w : Nodes) (w' b : ℕ) (mid out : Nodes) (upm up' : Ctx)
      → Focus nil h root (node s c p w) up
      → Marked nil h s (in_left up c p w)
      → Ends nil h root (case1_left (ptr nil s) p.addr (ptr nil w)) w' mid upm
      → ((k : Heap) (new : ℕ)
          → Focus nil k new mid upm
          → k nil ≡ h nil
          → Ends nil k new (rest_left (ptr nil s) w') b out up')
      → Ends nil h root (del_left (ptr nil s)) b out up'
  unfolding del_left
  left_ends c w w' b mid out upm up' f m e next =
      read nil h root _ _ p.addr b out up' (Marked-run nil h root s _ m) (
        read nil h root _ _ (ptr nil w) b out up' (right_of-run nil h root p.addr _ f.inside.0)
          (seq_kept nil h root _ _ w' b mid out upm up' e next))

  pub left-Quits :
      (c : Color) (w : Nodes) (w' : ℕ) (mid out : Nodes) (upm up' : Ctx)
      → Focus nil h root (node s c p w) up
      → Marked nil h s (in_left up c p w)
      → Ends nil h root (case1_left (ptr nil s) p.addr (ptr nil w)) w' mid upm
      → ((k : Heap) (new : ℕ)
          → Focus nil k new mid upm
          → k nil ≡ h nil
          → Quits nil k new (rest_left (ptr nil s) w') out up')
      → Quits nil h root (del_left (ptr nil s)) out up'
  unfolding del_left
  left-Quits c w w' mid out upm up' f m e next =
      quit_read nil h root _ _ p.addr out up' (Marked-run nil h root s _ m) (
        quit_read nil h root _ _ (ptr nil w) out up' (right_of-run nil h root p.addr _ f.inside.0)
          (quit_seq nil h root _ _ w' mid out upm up' e next))
