-- ===== src/RbTree/Descent.antt =====
-- The search of _rbtree_insert_node in base/rbtree/rbtree.cpp.
use yamq.Prelude.{
  ℕ, zero, suc, ◌+◌, ◌≤◌, ◌<◌, ◌≡◌, inl, inr, refl, sym, ap, ◌∙◌, Option, none, some, [], ◌∷◌, ◌++◌,
  append_assoc, ltb, ltb→lt, Bool-cases, ==_false, ==-self, if◌then◌else◌, arith, max,
}
use native.Mathlib.Nat.{le-max_left, le-max_right}
use yamq.RbTree.{Color, pure}
use yamq.RbTree.Shape.{
  Heap, Entry, Nodes, leaf, node, Ctx, top, in_left, in_right, plug, ptr, par, tree, Focus,
}
use yamq.RbTree.Links.{and_then, load-run, ne_of_here}
use yamq.RbTree.Order.{
  Below, Above, IsAscending, insert_entry, Below-append, Above-append, Below-raise, Above-lower,
  Split, split, insert_entry-Below, insert_entry-there,
}
use yamq.RbTree.Balance.{entries, before, after, entries-plug}
use yamq.RbTree.Moves.{down_left, down_right}
use yamq.RbTree.Insert.{descend}
use yamq.RbTree.Fixup.Loop.{depth}

-- The number of nodes on the longest path.
abbrev pub height : Nodes → ℕ
height leaf = 0
height (node l c e r) = suc (max (height l) (height r))

pub depth-le-height : (c : Ctx) (s : Nodes) → depth c + height s ≤ height (plug c s)
unfolding plug
depth-le-height top s = omega arith
depth-le-height (in_left up c e r) s =
    omega (arith, depth-le-height up (node s c e r), le-max_left (height s) (height r))
depth-le-height (in_right l c e up) s =
    omega (arith, depth-le-height up (node l c e s), le-max_right (height l) (height s))

-- What the search for the place of `e` finds in the tree `all`.
pub record Place (nil : ℕ) (h : Heap) (root bound : ℕ) (e : Entry) (all : Nodes) (p : ℕ)
    : Type 0 where
  pub hole : Ctx
  pub parent : p ≡ par nil hole
  pub focus : Focus nil h root leaf hole
  pub whole : plug hole leaf ≡ all
  pub below : Below e.key (before hole)
  pub above : Above e.key (after hole)
  pub within : depth hole ≤ bound

pub data Outcome (nil : ℕ) (h : Heap) (root bound : ℕ) (e : Entry) (all : Nodes)
    : Option ℕ → Type 0 where
  there : insert_entry e (entries all) ≡ entries all → Outcome nil h root bound e all none
  place : {p : ℕ} → Place nil h root bound e all p → Outcome nil h root bound e all (some p)

-- The parent that the search keeps is that of the hole at a leaf.
abbrev pub Kept : ℕ → Nodes → ℕ → Ctx → Type 0
Kept nil leaf p c = p ≡ par nil c
Kept nil (node l d e r) p c = Unit

pub Kept-node : (nil : ℕ) (s : Nodes) (p : ℕ) (c : Ctx) → p ≡ par nil c → Kept nil s p c
Kept-node nil leaf p c q = q
Kept-node nil (node l d e r) p c q = tt

-- A key that is in the tree is left alone.
insert_entry-plug_there :
    (e : Entry) (c : Ctx) (l : Nodes) (d : Color) (x : Entry) (r : Nodes)
    → e.key ≡ x.key
    → Below e.key (before c)
    → Split (entries l) x (entries r)
    → insert_entry e (entries (plug c (node l d x r))) ≡ entries (plug c (node l d x r))
unfolding entries
insert_entry-plug_there e c l d x r q b parts =
    let rest = x ∷ (entries r ++ after c) in
    let shape : entries (plug c (node l d x r)) ≡ before c ++ (entries l ++ rest) =
      entries-plug c (node l d x r) ∙ simp append_assoc in
    let low = Below-raise x.key e.key (entries l) (omega arith) parts.below in
    ap (insert_entry e) shape
    ∙ insert_entry-Below e (before c) (entries l ++ rest) b
    ∙ ap (λ ys. before c ++ ys)
        (insert_entry-Below e (entries l) rest low
          ∙ ap (λ ys. entries l ++ ys) (insert_entry-there e x (entries r ++ after c) q))
    ∙ sym shape

pub descend-Outcome :
    (nil : ℕ) (h : Heap) (root bound : ℕ) (e : Entry) (fuel p : ℕ) (s : Nodes) (c : Ctx)
    → height s < fuel
    → depth c + height s ≤ bound
    → Kept nil s p c
    → Focus nil h root s c
    → IsAscending (entries s)
    → Below e.key (before c)
    → Above e.key (after c)
    → (found : Option ℕ) × (descend fuel e.key (ptr nil s) p (tree nil h root)
        ≡ some (found, tree nil h root))
      × Outcome nil h root bound e (plug c s) found
unfolding descend entries before after plug
descend-Outcome nil h root bound e zero p s c enough fits kept f asc b a = absurd (omega arith)
descend-Outcome nil h root bound e (suc fuel) p leaf c enough fits kept f asc b a = (
  some p,
  and_then _ _ _ _ _ refl ∙ rw (==-self nil),
  place (record {
    hole = c;
    parent = kept;
    focus = f;
    whole = refl;
    below = b;
    above = a;
    within = omega arith;
  }),
)
descend-Outcome nil h root bound e (suc fuel) p (node l d x r) c enough fits kept f asc b a =
    elim (Bool-cases (ltb e.key x.key)) [
      | inl lower ↦
          let lt = ltb→lt e.key x.key lower in
          let (found, run, out) =
            descend-Outcome nil h root bound e fuel x.addr l (in_left c d x r) (omega arith)
              (omega arith) (Kept-node nil l x.addr (in_left c d x r) refl)
              (down_left nil h root l c d x r f) parts.left b
              (
                lt,
                Above-append e.key (entries r) (after c)
                    (Above-lower e.key x.key (entries r) (omega arith) parts.above) a,
              ) in
          (found, start ∙ rw lower run, out)
      | inr not_lower ↦ elim (Bool-cases (ltb x.key e.key)) [
        | inl higher ↦
            let lt = ltb→lt x.key e.key higher in
            let (found, run, out) =
              descend-Outcome nil h root bound e fuel x.addr r (in_right l d x c) (omega arith)
                (omega arith) (Kept-node nil r x.addr (in_right l d x c) refl)
                (down_right nil h root r l d x c f) parts.right
                (Below-append e.key (before c) _ b (
                  Below-append e.key (entries l) (x ∷ [])
                    (Below-raise x.key e.key (entries l) (omega arith) parts.below) (lt, tt)))
                a in
            (found, start ∙ rw (not_lower, higher) run, out)
        | inr not_higher ↦ (
          none,
          start ∙ rw (not_lower, not_higher),
          there (insert_entry-plug_there e c l d x r (ground arith) b parts),
        )
      ]
    ]
  where
    parts : Split (entries l) x (entries r)
    parts = split (entries l) x (entries r) asc

    start :
        descend (suc fuel) e.key x.addr p (tree nil h root)
        ≡ (if ltb e.key x.key
              then descend fuel e.key (ptr nil l) x.addr
              else if ltb x.key e.key
              then descend fuel e.key (ptr nil r) x.addr
              else pure none)
            (tree nil h root)
    start =
        and_then _ _ _ _ _ refl
        ∙ rw (==_false x.addr nil (λ q. ne_of_here nil x.addr (omega (arith, f.apart)) (sym q)))
            (and_then _ _ _ _ _ (load-run nil h root x.addr _ f.inside.0))
