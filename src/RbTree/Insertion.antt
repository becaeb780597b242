-- ===== src/RbTree/Insertion.antt =====
-- rbtree_insert of base/rbtree/rbtree.cpp as a whole.
use yamq.Prelude.{
  ℕ, suc, ◌+◌, ◌≤◌, ◌<◌, ◌*◌, ◌^◌, ◌≡◌, ◌≢◌, refl, sym, ap, subst, ◌∙◌, Option, none, some, ◌++◌,
  ==_false, ==-self, length, arith,
}
use yamq.RbTree.{red, Node, Tree, null}
use yamq.RbTree.Shape.{
  Heap, Entry, Nodes, leaf, node, Ctx, top, plug, occ, occ_ctx, ptr, tree, upd, occ-plug,
}
use yamq.RbTree.Links.{and_then, load-run, modify-run, new_root}
use yamq.RbTree.Order.{
  Below, Above, IsAscending, insert_entry, insert_entry-IsAscending, insert_entry-Below,
  insert_entry-Above,
}
use yamq.RbTree.Balance.{entries, before, after, entries-plug, root_color, IsRb, plug-Parts}
use yamq.RbTree.Insert.{malloc, insert_node, rbtree_insert, descend, place_node}
use yamq.RbTree.Descent.{height, Outcome, there, place, Kept, descend-Outcome}
use yamq.RbTree.Linking.{occ-fresh, placed, placed-Focus, place_node-run}
use yamq.RbTree.Fixup.Whole.{fixup_loop-Works}
use yamq.RbTree.Bounds.{height_bounds}
use yamq.RbTree.IsTree.{IsTree, Holding}
use yamq.RbTree.Settle.{entry_ne, settle, Focus-fresh}

entries-hole :
    (e : Entry) (c : Ctx)
    → Below e.key (before c)
    → Above e.key (after c)
    → entries (plug c (node leaf red e leaf)) ≡ insert_entry e (entries (plug c leaf))
unfolding entries
entries-hole e c b a =
    entries-plug c (node leaf red e leaf)
    ∙ ap (λ ys. before c ++ ys) (sym (insert_entry-Above e (after c) a))
    ∙ sym (insert_entry-Below e (before c) (after c) b)
    ∙ ap (insert_entry e) (sym (entries-plug c leaf))

module _ (nil : ℕ) (h : Heap) (root fuel : ℕ) (e : Entry) (raw : Node) (s : Nodes)
    (at : h e.addr ≡ some raw) (raw_key : raw.key ≡ e.key) (raw_val : raw.val ≡ e.val)
    (fresh : occ e.addr s ≡ 0) (other : e.addr ≢ nil) (enough : height s < fuel)
    (is_tree : IsTree (tree nil h root) s) where
  -- The search and what follows it.
  insert_outcome :
      (found : Option ℕ)
      → descend fuel e.key root root (tree nil h root) ≡ some (found, tree nil h root)
      → Outcome nil h root (height s) e s found
      → (u : Tree) × (s' : Nodes) × (insert_node fuel e.addr (tree nil h root) ≡ some (tt, u))
        × IsTree u s'
        × (entries s' ≡ insert_entry e (entries s))
  unfolding insert_node entries
  insert_outcome none run (there same) = (
    tree nil h root,
    s,
    and_then _ _ _ _ _ (load-run nil h root e.addr raw at)
        ∙ and_then _ _ _ _ _ refl
        ∙ rw raw_key (and_then _ _ _ _ _ run),
    is_tree,
    sym same,
  )
  insert_outcome (some p) run (place w) =
      let parts =
        plug-Parts is_tree.blacks w.hole leaf
          (subst (IsRb is_tree.blacks) (sym w.whole) is_tree.rules)
          (ap root_color w.whole ∙ is_tree.dark) in
      let outside : occ_ctx e.addr w.hole ≡ 0 =
        omega (arith, occ-plug e.addr w.hole leaf, ap (occ e.addr) w.whole) in
      let heap = placed nil h root w.hole e raw at raw_key raw_val w.focus outside other in
      let focus = placed-Focus nil h root w.hole e raw at raw_key raw_val w.focus outside other in
      let es = entries (plug w.hole (node leaf red e leaf)) in
      let here =
        entries-hole e w.hole w.below w.above ∙ ap (λ z. insert_entry e (entries z)) w.whole in
      let fixed =
        fixup_loop-Works nil fuel heap (new_root root w.hole e.addr) leaf e leaf w.hole parts.blacks
          (omega (arith, w.within)) focus (refl, refl, parts.inner, parts.inner) parts.outer in
      let settled =
        settle nil heap (new_root root w.hole e.addr) fuel e.addr es fixed fixed.whole fixed.height
          fixed.focus fixed.rules fixed.same
          (entry_ne es (before w.hole) (after w.hole) e
            (entries-plug w.hole (node leaf red e leaf)))
          (subst IsAscending (sym here)
            (insert_entry-IsAscending e (entries s) is_tree.ascending)) in
      (
        settled.after,
        settled.whole,
        and_then _ _ _ _ _ (load-run nil h root e.addr raw at)
            ∙ and_then _ _ _ _ _ refl
            ∙ and_then _ _ _ _ _
                (ap (λ k. descend fuel k root root (tree nil h root)) raw_key ∙ run)
            ∙ ap (λ k. place_node fuel e.addr k p (tree nil h root)) raw_key
            ∙ ap (λ q. place_node fuel e.addr e.key q (tree nil h root)) w.parent
            ∙ place_node-run nil h root w.hole e raw at raw_key raw_val w.focus outside other fuel
                w.below w.above
            ∙ settled.run,
        settled.is_tree,
        settled.same ∙ here,
      )

abbrev pub entry : ℕ → ℕ → ℕ → Entry
entry key addr val = record { key = key; addr = addr; val = val }

Kept-top : (nil : ℕ) (s : Nodes) (root : ℕ) → root ≡ ptr nil s → Kept nil s root top
Kept-top nil leaf root q = q
Kept-top nil (node l c e r) root q = tt

insert_node-run :
    (nil : ℕ) (h : Heap) (root fuel : ℕ) (e : Entry) (raw : Node) (s : Nodes)
    → h e.addr ≡ some raw
    → raw.key ≡ e.key
    → raw.val ≡ e.val
    → occ e.addr s ≡ 0
    → e.addr ≢ nil
    → height s < fuel
    → IsTree (tree nil h root) s
    → (u : Tree) × (s' : Nodes) × (insert_node fuel e.addr (tree nil h root) ≡ some (tt, u))
      × IsTree u s'
      × (entries s' ≡ insert_entry e (entries s))
unfolding plug before after
insert_node-run nil h root fuel e raw s at k v fresh other enough t =
    let (found, run, out) =
      descend-Outcome nil h root (height s) e fuel root s top enough (omega arith)
        (Kept-top nil s root t.focus.outside) t.focus t.ascending tt tt in
    insert_outcome nil h root fuel e raw s at k v fresh other enough t found
      (ap (λ x. descend fuel e.key x root (tree nil h root)) t.focus.outside ∙ run) out

-- On a heap that holds a red-black search tree, with fuel above its height and an unused address
-- from malloc that is not null, rbtree_insert returns that address and leaves a red-black search
-- tree, whose entries are the old ones with the new one in front of the first larger key, or the
-- old ones where the key is there.
pub rbtree_insert-Holding :
    (t : Tree) (s : Nodes) (fuel fresh : ℕ) (raw : Node) (key val : ℕ)
    → IsTree t s
    → height s < fuel
    → t.heap fresh ≡ none
    → fresh ≢ null
    → Holding
        (rbtree_insert fuel fresh raw key val)
        t
        fresh
        (insert_entry (entry key fresh val) (entries s))
unfolding rbtree_insert malloc
rbtree_insert-Holding t s fuel fresh raw key val w enough free ok =
    let raw' = record raw { key = key; val = val } in
    let h₁ = upd t.heap fresh raw in
    let h₂ = upd h₁ fresh (record raw { key = key }) in
    let h₃ = upd h₂ fresh raw' in
    let kept =
      Focus-fresh t.nil t.heap h₃ t.root fresh s top free (λ a q. rw (==_false a fresh q))
        w.focus in
    let (u, s', run, is_tree, same) =
      insert_node-run t.nil h₃ t.root fuel (entry key fresh val) raw' s (rw (==-self fresh)) refl
        refl (occ-fresh t.nil t.heap t.nil s fresh free w.focus.inside)
        (λ q. cc (w.focus.sentinel.at)) enough
        (record {
          focus = kept;
          blacks = w.blacks;
          rules = w.rules;
          dark = w.dark;
          ascending = w.ascending;
        }) in
    record {
      tree' = u;
      whole = s';
      run =
          and_then _ _ _ _ _ (rw (==_false fresh null ok))
          ∙ and_then _ _ _ _ _ (modify-run t.nil h₁ t.root fresh _ raw (rw (==-self fresh)))
          ∙ and_then _ _ _ _ _
              (modify-run t.nil h₂ t.root fresh _ (record raw { key = key }) (rw (==-self fresh)))
          ∙ and_then _ _ _ _ _ run;
      is_tree = is_tree;
      same = same;
    }

-- In a heap that holds a red-black search tree with b black nodes on each path, 2 ^ b is at most
-- the number of entries and one, and fuel 2 * b + 1 is enough for rbtree_insert to leave a
-- red-black search tree with the entry inserted, where malloc gives an unused address that is not
-- null.
pub rbtree_insert-bounded :
    (t : Tree) (s : Nodes) (fresh : ℕ) (raw : Node) (key val : ℕ) (w : IsTree t s)
    → t.heap fresh ≡ none
    → fresh ≢ null
    → (2 ^ w.blacks ≤ length (entries s) + 1)
      × Holding
          (rbtree_insert (suc (2 * w.blacks)) fresh raw key val)
          t
          fresh
          (insert_entry (entry key fresh val) (entries s))
rbtree_insert-bounded t s fresh raw key val w free ok =
    let b = height_bounds w.blacks s w.rules w.dark in
    (b.1, rbtree_insert-Holding t s (suc (2 * w.blacks)) fresh raw key val w (omega arith) free ok)
