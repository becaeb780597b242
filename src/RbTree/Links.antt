-- ===== src/RbTree/Links.antt =====
-- The small steps of base/rbtree/rbtree.cpp on the nodes of the heap: assignments, `adopt` and `relink`.
use yamq.Prelude.{ℕ, ◌≤◌, ◌<◌, ◌≡◌, ◌≢◌, refl, ap, none, some, ==_false, ==-self, arith}
use yamq.RbTree.{Node, Tree, M, load, modify, ◌>>=◌, parent_of, adopt, relink}
use yamq.RbTree.Shape.{
  Heap, Nodes, leaf, node, Ctx, top, in_left, in_right, here, occ, occ_ctx, ptr, par, cell, tree,
  upd, Holds, Around, Holds-upd, Around-upd,
}

pub here_self : (a : ℕ) → here a a ≡ 1
here_self a = rw (==-self a)

pub ne_of_here : (a b : ℕ) → here a b ≡ 0 → a ≢ b
ne_of_here a b o e = omega (arith, here_self a, ap (here a) e)

pub ne_of_occ : (a b : ℕ) (s : Nodes) → 0 < occ a s → occ b s ≡ 0 → a ≢ b
ne_of_occ a b s i o e = omega (arith, ap (λ z. occ z s) e)

pub ne_of_occ_ctx : (a b : ℕ) (c : Ctx) → 0 < occ_ctx a c → occ_ctx b c ≡ 0 → a ≢ b
ne_of_occ_ctx a b c i o e = omega (arith, ap (λ z. occ_ctx z c) e)

-- A command that succeeds hands its result and its heap to the next.
pub and_then :
    {A B : Type 0} (m : M A) (f : A → M B) (t u : Tree) (a : A)
    → m t ≡ some (a, u)
    → (m >>= f) t ≡ f a u
unfolding ◌>>=◌
and_then m f t u a e = ap (λ r. elim r [ none ↦ none | some (b, v) ↦ f b v ]) e

pub parent_of-run :
    (nil : ℕ) (h : Heap) (root p : ℕ) (n : Node)
    → h p ≡ some n
    → parent_of p (tree nil h root) ≡ some (n.parent, tree nil h root)
unfolding load parent_of ◌>>=◌
parent_of-run nil h root p n e = rw e

pub modify-run :
    (nil : ℕ) (h : Heap) (root p : ℕ) (f : Node → Node) (n : Node)
    → h p ≡ some n
    → modify p f (tree nil h root) ≡ some (tt, tree nil (upd h p (f n)) root)
unfolding modify
modify-run nil h root p f n e = rw e

pub load-run :
    (nil : ℕ) (h : Heap) (root p : ℕ) (n : Node)
    → h p ≡ some n
    → load p (tree nil h root) ≡ some (n, tree nil h root)
unfolding load
load-run nil h root p n e = rw e

-- The heap after the root of a tree has a new parent.
abbrev pub adopted : ℕ → Heap → Nodes → ℕ → Heap
adopted nil h leaf q = h
adopted nil h (node l c e r) q = upd h e.addr (cell (ptr nil l) (ptr nil r) q c e)

pub adopt-run :
    (nil : ℕ) (h : Heap) (root p : ℕ) (s : Nodes) (q : ℕ)
    → Holds nil h p s
    → occ nil s ≡ 0
    → adopt (ptr nil s) q (tree nil h root) ≡ some (tt, tree nil (adopted nil h s q) root)
unfolding adopt ◌>>=◌
adopt-run nil h root p leaf q w o = rw (==-self nil)
adopt-run nil h root p (node l c e r) q w o =
    rw (==_false e.addr nil (ground arith)) (modify-run nil h root e.addr _ _ w.0)

pub adopted-Holds :
    (nil : ℕ) (h : Heap) (p : ℕ) (s : Nodes) (q : ℕ)
    → Holds nil h p s
    → ((a : ℕ) → occ a s ≤ 1)
    → Holds nil (adopted nil h s q) q s
adopted-Holds nil h p leaf q w d = tt
adopted-Holds nil h p (node l c e r) q w d =
    let once = d e.addr in
    (
      rw (==-self e.addr),
      Holds-upd nil h e.addr l e.addr _ (ground arith) w.1,
      Holds-upd nil h e.addr r e.addr _ (ground arith) w.2,
    )

pub adopted-same :
    (nil : ℕ) (h : Heap) (s : Nodes) (q a : ℕ) → occ a s ≡ 0 → adopted nil h s q a ≡ h a
adopted-same nil h leaf q a o = refl
adopted-same nil h (node l c e r) q a o = rw (==_false a e.addr (ground arith))

-- The heap and the root after the hole of a context is filled by another pointer.
abbrev pub relinked : ℕ → Heap → Ctx → ℕ → Heap
relinked nil h top y = h
relinked nil h (in_left up c e r) y = upd h e.addr (cell y (ptr nil r) (par nil up) c e)
relinked nil h (in_right l c e up) y = upd h e.addr (cell (ptr nil l) y (par nil up) c e)

abbrev pub new_root : ℕ → Ctx → ℕ → ℕ
new_root root top y = y
new_root root (in_left up c e r) y = root
new_root root (in_right l c e up) y = root

pub ptr-ne : (nil x : ℕ) (s : Nodes) → x ≢ nil → occ x s ≡ 0 → x ≢ ptr nil s
ptr-ne nil x leaf h o = h
ptr-ne nil x (node l c e r) h o = ground arith

pub relink-run :
    (nil : ℕ) (h : Heap) (root x y : ℕ) (c : Ctx)
    → Around nil h root x c
    → x ≢ nil
    → occ_ctx x c ≡ 0
    → occ_ctx nil c ≡ 0
    → relink (par nil c) x y (tree nil h root)
      ≡ some (tt, tree nil (relinked nil h c y) (new_root root c y))
unfolding relink load modify ◌>>=◌
relink-run nil h root x y top w n o z = rw (==-self nil)
relink-run nil h root x y (in_left up c e r) w n o z =
    rw (==_false e.addr nil (ground arith), w.0, ==-self x, w.0)
relink-run nil h root x y (in_right l c e up) w n o z = rw (
  ==_false e.addr nil (ground arith),
  w.0,
  ==_false x (ptr nil l) (ptr-ne nil x l n (ground arith)),
  w.0,
)

pub relinked-Around :
    (nil : ℕ) (h : Heap) (root x y : ℕ) (c : Ctx)
    → Around nil h root x c
    → ((a : ℕ) → occ_ctx a c ≤ 1)
    → Around nil (relinked nil h c y) (new_root root c y) y c
relinked-Around nil h root x y top w d = refl
relinked-Around nil h root x y (in_left up c e r) w d =
    let once = d e.addr in
    (
      rw (==-self e.addr),
      Holds-upd nil h e.addr r e.addr _ (ground arith) w.1,
      Around-upd nil h root e.addr up e.addr _ (ground arith) w.2,
    )
relinked-Around nil h root x y (in_right l c e up) w d =
    let once = d e.addr in
    (
      rw (==-self e.addr),
      Holds-upd nil h e.addr l e.addr _ (ground arith) w.1,
      Around-upd nil h root e.addr up e.addr _ (ground arith) w.2,
    )

pub relinked-same :
    (nil : ℕ) (h : Heap) (c : Ctx) (y a : ℕ) → occ_ctx a c ≡ 0 → relinked nil h c y a ≡ h a
relinked-same nil h top y a o = refl
relinked-same nil h (in_left up c e r) y a o = rw (==_false a e.addr (ground arith))
relinked-same nil h (in_right l c e up) y a o = rw (==_false a e.addr (ground arith))
