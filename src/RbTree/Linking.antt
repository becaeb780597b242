-- ===== src/RbTree/Linking.antt =====
-- The new node of _rbtree_insert_node in base/rbtree/rbtree.cpp takes its place.
use yamq.Prelude.{
  ℕ, ◌+◌, ◌≤◌, ◌<◌, ◌≡◌, ◌≢◌, refl, sym, ap, ◌∙◌, none, some, List, [], ◌∷◌, ◌++◌, ltb, lt→ltb,
  false, ◌==◌, ==_false, ==-self, ==_iff, Bool-cases, inl, inr, arith,
}
use yamq.RbTree.{red, Node}
use yamq.RbTree.Shape.{
  Heap, Entry, Nodes, leaf, node, Ctx, top, in_left, in_right, occ, occ_ctx, par, tree, upd, Holds,
  Around, Focus, here, Around-frame,
}
use yamq.RbTree.Links.{
  and_then, load-run, modify-run, ne_of_here, relinked, new_root, relinked-Around, relinked-same,
  ne_of_occ_ctx,
}
use yamq.RbTree.Order.{Below, Above}
use yamq.RbTree.Balance.{before, after}
use yamq.RbTree.Insert.{link, place_node, insert_fixup}

-- An address at which no node lives is not in a tree.
pub occ-fresh :
    (nil : ℕ) (h : Heap) (p : ℕ) (s : Nodes) (n : ℕ) → h n ≡ none → Holds nil h p s → occ n s ≡ 0
occ-fresh nil h p leaf n e w = refl
occ-fresh nil h p (node l c x r) n e w =
    rw (==_false n x.addr (λ q. cc (w.0, ap h q)))
      (omega (arith, occ-fresh nil h x.addr l n e w.1, occ-fresh nil h x.addr r n e w.2))

pub occ_ctx-fresh :
    (nil : ℕ) (h : Heap) (root x : ℕ) (c : Ctx) (n : ℕ)
    → h n ≡ none
    → Around nil h root x c
    → occ_ctx n c ≡ 0
occ_ctx-fresh nil h root x top n e w = refl
occ_ctx-fresh nil h root x (in_left up c g r) n e w =
    rw (==_false n g.addr (λ q. cc (w.0, ap h q)))
      (omega (arith, occ-fresh nil h g.addr r n e w.1, occ_ctx-fresh nil h root g.addr up n e w.2))
occ_ctx-fresh nil h root x (in_right l c g up) n e w =
    rw (==_false n g.addr (λ q. cc (w.0, ap h q)))
      (omega (arith, occ-fresh nil h g.addr l n e w.1, occ_ctx-fresh nil h root g.addr up n e w.2))

Below-last : (k : ℕ) (xs : List Entry) (x : Entry) → Below k (xs ++ (x ∷ [])) → x.key < k
Below-last k [] x b = b.0
Below-last k (y ∷ xs) x b = Below-last k xs x b.1

Below-second : (k : ℕ) (xs ys : List Entry) → Below k (xs ++ ys) → Below k ys
Below-second k [] ys b = b
Below-second k (x ∷ xs) ys b = Below-second k xs ys b.1

link-run :
    (nil : ℕ) (h : Heap) (root key n : ℕ) (c : Ctx)
    → Around nil h root nil c
    → occ_ctx nil c ≡ 0
    → Below key (before c)
    → Above key (after c)
    → link (par nil c) key n (tree nil h root)
      ≡ some (tt, tree nil (relinked nil h c n) (new_root root c n))
unfolding link before after
link-run nil h root key n top w z b a = and_then _ _ _ _ _ refl ∙ rw (==-self nil)
link-run nil h root key n (in_left up c e r) w z b a =
    and_then _ _ _ _ _ refl
    ∙ rw (==_false e.addr nil (λ q. ne_of_here nil e.addr (omega arith) (sym q))) (
        and_then _ _ _ _ _ (load-run nil h root e.addr _ w.0)
        ∙ rw (lt→ltb key e.key a.0) (modify-run nil h root e.addr _ _ w.0))
link-run nil h root key n (in_right l c e up) w z b a =
    let lt = Below-last key _ e (Below-second key (before up) _ b) in
    let not_lower : ltb key e.key ≡ false = ground arith in
    and_then _ _ _ _ _ refl
    ∙ rw (==_false e.addr nil (λ q. ne_of_here nil e.addr (omega arith) (sym q))) (
        and_then _ _ _ _ _ (load-run nil h root e.addr _ w.0)
        ∙ rw not_lower (modify-run nil h root e.addr _ _ w.0))

once : (a x : ℕ) (c : Ctx) → occ_ctx x c ≡ 0 → occ_ctx a c ≤ 1 → here a x + 0 + 0 + occ_ctx a c ≤ 1
once a x c o h = elim (Bool-cases (a == x)) [
  | inl q ↦ rw q (omega (arith, ap (λ z. occ_ctx z c) ((==_iff a x).0 q)))
  | inr q ↦ rw q (omega arith)
]

-- The new node `e` at an address outside the context `c`, in which it fills the hole.
module _ (nil : ℕ) (h : Heap) (root : ℕ) (c : Ctx) (e : Entry) (raw : Node)
    (at : h e.addr ≡ some raw) (raw_key : raw.key ≡ e.key) (raw_val : raw.val ≡ e.val)
    (f : Focus nil h root leaf c) (outside : occ_ctx e.addr c ≡ 0) (other : e.addr ≢ nil) where
  abbrev n₁ : Node
  n₁ = record raw { parent = par nil c }

  abbrev n₂ : Node
  n₂ = record n₁ { right = nil }

  abbrev n₃ : Node
  n₃ = record n₂ { left = nil }

  abbrev n₄ : Node
  n₄ = record n₃ { col = red }

  abbrev before_link : Heap
  before_link = upd h e.addr n₁

  abbrev after_link : Heap
  after_link = relinked nil before_link c e.addr

  abbrev pub placed : Heap
  placed = upd (upd (upd after_link e.addr n₂) e.addr n₃) e.addr n₄

  around : Around nil before_link root nil c
  around =
      Around-frame nil h before_link root nil c
        (λ a i. rw (==_false a e.addr (ne_of_occ_ctx a e.addr c i outside))) f.outside

  after_link-n : after_link e.addr ≡ some n₁
  after_link-n = relinked-same nil before_link c e.addr e.addr outside ∙ rw (==-self e.addr)

  pub placed-Focus : Focus nil placed (new_root root c e.addr) (node leaf red e leaf) c
  placed-Focus = record {
    sentinel = record {
      node = f.sentinel.node;
      at = rw (==_false nil e.addr (λ q. other (sym q))) (
          relinked-same nil before_link c e.addr nil (omega (arith, f.apart))
          ∙ rw (==_false nil e.addr (λ q. other (sym q))) f.sentinel.at);
      is_black = f.sentinel.is_black;
    };
    inside = (rw (==-self e.addr, raw_key, raw_val), tt, tt);
    outside =
        Around-frame nil after_link placed _ e.addr c
          (λ a i. rw (==_false a e.addr (ne_of_occ_ctx a e.addr c i outside)))
          (relinked-Around nil before_link root nil e.addr c around
            (λ a. omega (arith, f.distinct a)));
    distinct = λ a. once a e.addr c outside (omega (arith, f.distinct a));
    apart = rw (==_false nil e.addr (λ q. other (sym q))) (omega (arith, f.apart));
  }

  pub place_node-run :
      (fuel : ℕ)
      → Below e.key (before c)
      → Above e.key (after c)
      → place_node fuel e.addr e.key (par nil c) (tree nil h root)
        ≡ insert_fixup fuel e.addr (tree nil placed (new_root root c e.addr))
  unfolding place_node
  place_node-run fuel b a =
      and_then _ _ _ _ _ (modify-run nil h root e.addr _ raw at)
      ∙ and_then _ _ _ _ _
          (link-run nil before_link root e.key e.addr c around (omega (arith, f.apart)) b a)
      ∙ and_then _ _ _ _ _ refl
      ∙ and_then _ _ _ _ _ (modify-run nil _ _ e.addr _ n₁ after_link-n)
      ∙ and_then _ _ _ _ _ (modify-run nil _ _ e.addr _ n₂ (rw (==-self e.addr)))
      ∙ and_then _ _ _ _ _ (modify-run nil _ _ e.addr _ n₃ (rw (==-self e.addr)))
