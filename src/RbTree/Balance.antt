-- ===== src/RbTree/Balance.antt =====
-- The red-black rules on trees and on contexts, and the entries in order.
use yamq.Prelude.{ℕ, zero, suc, ◌≡◌, refl, sym, ◌∙◌, List, [], ◌∷◌, ◌++◌, append_assoc, append-nil}
use yamq.RbTree.{Color, red, black}
use yamq.RbTree.Shape.{Entry, Nodes, leaf, node, Ctx, top, in_left, in_right, plug}

unfoldable pub entries : Nodes → List Entry
entries leaf = []
entries (node l c e r) = entries l ++ (e ∷ entries r)

abbrev pub root_color : Nodes → Color
root_color leaf = black
root_color (node l c e r) = c

-- Every path to a leaf has `n` black nodes, and no red node has a red child.
abbrev pub IsRb : ℕ → Nodes → Type 0
IsRb n leaf = n ≡ 0
IsRb n (node l red e r) = (root_color l ≡ black) × (root_color r ≡ black) × IsRb n l × IsRb n r
IsRb zero (node l black e r) = ⊥
IsRb (suc n) (node l black e r) = IsRb n l × IsRb n r

-- The hole lies right below a black node.
abbrev pub BelowBlack : Ctx → Type 0
BelowBlack top = ⊥
BelowBlack (in_left up red e r) = ⊥
BelowBlack (in_left up black e r) = Unit
BelowBlack (in_right l red e up) = ⊥
BelowBlack (in_right l black e up) = Unit

-- The rules of the nodes around a hole for a tree of `n` black nodes on each path.
abbrev pub IsRbCtx : ℕ → Ctx → Type 0
IsRbCtx n top = Unit
IsRbCtx n (in_left up red e r) = (root_color r ≡ black) × IsRb n r × BelowBlack up × IsRbCtx n up
IsRbCtx n (in_left up black e r) = IsRb n r × IsRbCtx (suc n) up
IsRbCtx n (in_right l red e up) = (root_color l ≡ black) × IsRb n l × BelowBlack up × IsRbCtx n up
IsRbCtx n (in_right l black e up) = IsRb n l × IsRbCtx (suc n) up

-- The color of the parent of the hole; the sentinel is black.
abbrev pub par_color : Ctx → Color
par_color top = black
par_color (in_left up c e r) = c
par_color (in_right l c e up) = c

abbrev pub Fits : Color → Color → Type 0
Fits red red = ⊥
Fits red black = Unit
Fits black c = Unit

black_of_Fits : (c : Color) → Fits c red → c ≡ black
black_of_Fits red f = absurd f
black_of_Fits black f = refl

pub Fits-BelowBlack : (up : Ctx) → BelowBlack up → Fits red (par_color up)
Fits-BelowBlack top b = absurd b
Fits-BelowBlack (in_left up red e r) b = absurd b
Fits-BelowBlack (in_left up black e r) b = tt
Fits-BelowBlack (in_right l red e up) b = absurd b
Fits-BelowBlack (in_right l black e up) b = tt

-- Where the colors fit, tree and context obey the rules together.
pub plug-IsRb :
    (n : ℕ) (c : Ctx) (s : Nodes)
    → IsRb n s
    → IsRbCtx n c
    → Fits (root_color s) (par_color c)
    → (m : ℕ) × IsRb m (plug c s)
unfolding plug
plug-IsRb n top s b w f = (n, b)
plug-IsRb n (in_left up red e r) s b w f =
    plug-IsRb n up (node s red e r) (black_of_Fits (root_color s) f, w.0, b, w.1) w.3
      (Fits-BelowBlack up w.2)
plug-IsRb n (in_left up black e r) s b w f = plug-IsRb (suc n) up (node s black e r) (b, w.0) w.1 tt
plug-IsRb n (in_right l red e up) s b w f =
    plug-IsRb n up (node l red e s) (w.0, black_of_Fits (root_color s) f, w.1, b) w.3
      (Fits-BelowBlack up w.2)
plug-IsRb n (in_right l black e up) s b w f =
    plug-IsRb (suc n) up (node l black e s) (w.0, b) w.1 tt

-- The entries left and right of a hole.
unfoldable pub before : Ctx → List Entry
unfolding entries
before top = []
before (in_left up c e r) = before up
before (in_right l c e up) = before up ++ (entries l ++ (e ∷ []))

unfoldable pub after : Ctx → List Entry
unfolding entries
after top = []
after (in_left up c e r) = e ∷ (entries r ++ after up)
after (in_right l c e up) = after up

pub entries-plug : (c : Ctx) (s : Nodes) → entries (plug c s) ≡ before c ++ (entries s ++ after c)
unfolding entries plug before after
entries-plug top s = sym (append-nil (entries s))
entries-plug (in_left up c e r) s = entries-plug up (node s c e r) ∙ simp append_assoc
entries-plug (in_right l c e up) s = entries-plug up (node l c e s) ∙ simp append_assoc

-- The rules of a whole tree with a black root give those of each part.
pub record Parts (c : Ctx) (s : Nodes) : Type 0 where
  pub blacks : ℕ
  pub inner : IsRb blacks s
  pub outer : IsRbCtx blacks c
  pub fits : root_color s ≡ red → BelowBlack c

black_left :
    (s : Nodes) (up : Ctx) (e : Entry) (r : Nodes) (n : ℕ)
    → IsRb n (node s black e r)
    → IsRbCtx n up
    → Parts (in_left up black e r) s
black_left s up e r zero b w = absurd b
black_left s up e r (suc n) b w = record {
  blacks = n;
  inner = b.0;
  outer = (b.1, w);
  fits = λ q. tt;
}

black_right :
    (s l : Nodes) (e : Entry) (up : Ctx) (n : ℕ)
    → IsRb n (node l black e s)
    → IsRbCtx n up
    → Parts (in_right l black e up) s
black_right s l e up zero b w = absurd b
black_right s l e up (suc n) b w = record {
  blacks = n;
  inner = b.1;
  outer = (b.0, w);
  fits = λ q. tt;
}

pub plug-Parts :
    (n : ℕ) (c : Ctx) (s : Nodes) → IsRb n (plug c s) → root_color (plug c s) ≡ black → Parts c s
unfolding plug
plug-Parts n top s b d = record { blacks = n; inner = b; outer = tt; fits = λ q. cc }
plug-Parts n (in_left up c e r) s b d = below c (plug-Parts n up (node s c e r) b d)
  where
    below : (c : Color) → Parts up (node s c e r) → Parts (in_left up c e r) s
    below red p = record {
      blacks = p.blacks;
      inner = p.inner.2;
      outer = (p.inner.1, p.inner.3, p.fits refl, p.outer);
      fits = λ q. cc (p.inner.0);
    }
    below black p = black_left s up e r p.blacks p.inner p.outer
plug-Parts n (in_right l c e up) s b d = below c (plug-Parts n up (node l c e s) b d)
  where
    below : (c : Color) → Parts up (node l c e s) → Parts (in_right l c e up) s
    below red p = record {
      blacks = p.blacks;
      inner = p.inner.3;
      outer = (p.inner.0, p.inner.2, p.fits refl, p.outer);
      fits = λ q. cc (p.inner.1);
    }
    below black p = black_right s l e up p.blacks p.inner p.outer

-- Two black subtrees below a node that takes the place of another.
pub regraft :
    (n : ℕ) (l : Nodes) (c : Color) (e : Entry) (r : Nodes) (up : Ctx) (p : Entry) (w : Nodes)
    → root_color l ≡ black
    → root_color r ≡ black
    → IsRb n l
    → IsRb n r
    → IsRbCtx n (in_left up c p w)
    → (m : ℕ) × IsRb m (plug up (node l c e r))
regraft n l red e r up p w dl dr bl br x =
    plug-IsRb n up (node l red e r) (dl, dr, bl, br) x.3 (Fits-BelowBlack up x.2)
regraft n l black e r up p w dl dr bl br x = plug-IsRb (suc n) up (node l black e r) (bl, br) x.1 tt
