-- ===== src/RbTree/Removal/Quits.antt =====
-- Rules for the commands of rbtree_del_fixup in base/rbtree/rbtree.cpp, whose node may be the sentinel.
use yamq.Prelude.{ℕ, ◌≡◌, refl, ap, ◌∙◌, some}
use yamq.RbTree.{Node, M, ◌>>=◌, get_root, parent_of}
use yamq.RbTree.Shape.{Heap, Nodes, leaf, node, Ctx, ptr, par, tree, Focus}
use yamq.RbTree.Links.{and_then, parent_of-run}
use yamq.RbTree.Ends.{Ends}

-- The node of the hole, or the sentinel, knows the parent of the hole.
pub record Marked (nil : ℕ) (h : Heap) (s : Nodes) (up : Ctx) : Type 0 where
  pub cell : Node
  pub at : h (ptr nil s) ≡ some cell
  pub parent : cell.parent ≡ par nil up

pub Marked-kept :
    (nil : ℕ) (h k : Heap) (new : ℕ) (s : Nodes) (up up' : Ctx)
    → Marked nil h s up
    → k nil ≡ h nil
    → par nil up ≡ par nil up'
    → Focus nil k new s up'
    → Marked nil k s up'
Marked-kept nil h k new leaf up up' m q same f = record {
  cell = m.cell;
  at = q ∙ m.at;
  parent = m.parent ∙ same;
}
Marked-kept nil h k new (node l c e r) up up' m q same f = record {
  cell = _;
  at = f.inside.0;
  parent = refl;
}

pub Marked-run :
    (nil : ℕ) (h : Heap) (root : ℕ) (s : Nodes) (up : Ctx)
    → Marked nil h s up
    → parent_of (ptr nil s) (tree nil h root) ≡ some (par nil up, tree nil h root)
Marked-run nil h root s up m =
    parent_of-run nil h root (ptr nil s) m.cell m.at ∙ ap (λ p. some (p, tree nil h root)) m.parent

-- A command that ends with the root.
pub record Quits (nil : ℕ) (h : Heap) (root : ℕ) (m : M ℕ) (s : Nodes) (up : Ctx) : Type 0 where
  pub heap : Heap
  pub new : ℕ
  pub run : m (tree nil h root) ≡ some (new, tree nil heap new)
  pub focus : Focus nil heap new s up

module _ {A : Type 0} (nil : ℕ) (h : Heap) (root : ℕ) where
  pub quit_seq :
      (m : M A) (f : A → M ℕ) (a : A) (s s' : Nodes) (up up' : Ctx)
      → Ends nil h root m a s up
      → ((k : Heap) (new : ℕ) → Focus nil k new s up → k nil ≡ h nil → Quits nil k new (f a) s' up')
      → Quits nil h root (m >>= f) s' up'
  quit_seq m f a s s' up up' e next =
      let rest = next e.heap e.new e.focus e.kept in
      record {
        heap = rest.heap;
        new = rest.new;
        run = and_then m f (tree nil h root) (tree nil e.heap e.new) a e.run ∙ rest.run;
        focus = rest.focus;
      }

  pub quit_read :
      (m : M A) (f : A → M ℕ) (a : A) (s' : Nodes) (up' : Ctx)
      → m (tree nil h root) ≡ some (a, tree nil h root)
      → Quits nil h root (f a) s' up'
      → Quits nil h root (m >>= f) s' up'
  quit_read m f a s' up' e rest = record {
    heap = rest.heap;
    new = rest.new;
    run = and_then m f (tree nil h root) (tree nil h root) a e ∙ rest.run;
    focus = rest.focus;
  }

pub quit :
    (nil : ℕ) (h : Heap) (root : ℕ) (s : Nodes) (up : Ctx)
    → Focus nil h root s up
    → Quits nil h root get_root s up
quit nil h root s up f = record { heap = h; new = root; run = refl; focus = f }

module _ {A B : Type 0} (nil : ℕ) (h : Heap) (root : ℕ) where
  -- The rule for a sequence, where what follows looks at the sentinel.
  pub seq_kept :
      (m : M A) (f : A → M B) (a : A) (b : B) (s s' : Nodes) (up up' : Ctx)
      → Ends nil h root m a s up
      → ((k : Heap) (new : ℕ)
          → Focus nil k new s up
          → k nil ≡ h nil
          → Ends nil k new (f a) b s' up')
      → Ends nil h root (m >>= f) b s' up'
  seq_kept m f a b s s' up up' e next =
      let rest = next e.heap e.new e.focus e.kept in
      record {
        heap = rest.heap;
        new = rest.new;
        run = and_then m f (tree nil h root) (tree nil e.heap e.new) a e.run ∙ rest.run;
        focus = rest.focus;
        kept = rest.kept ∙ e.kept;
      }

-- A command that only reads, at the end.
pub peek_end :
    {A : Type 0} (nil : ℕ) (h : Heap) (root : ℕ) (m : M A) (a : A) (s : Nodes) (up : Ctx)
    → m (tree nil h root) ≡ some (a, tree nil h root)
    → Focus nil h root s up
    → Ends nil h root m a s up
peek_end nil h root m a s up e f = record { heap = h; new = root; run = e; focus = f; kept = refl }
