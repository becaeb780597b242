-- ===== src/RbTree/Removal/Keeps.antt =====
-- No command of rbtree_del_fixup in base/rbtree/rbtree.cpp frees a node.
use yamq.Prelude.{
  ℕ, ◌≡◌, inl, inr, Bool, true, false, Bool-cases, Option, none, some, ◌==◌, if◌then◌else◌,
}
use yamq.RbTree.{
  Node, Tree, M, pure, ◌>>=◌, fault, get_root, get_nil, set_root, write, load, modify, parent_of,
  color_of, adopt, relink, left_rotate, right_rotate,
}
use yamq.RbTree.Delete.{left_of, right_of}

abbrev pub Alive : Tree → ℕ → Type 0
Alive t a = (n : Node) × (t.heap a ≡ some n)

abbrev pub AliveAfter : {A : Type 0} → ℕ → Option (A × Tree) → Type 0
AliveAfter a none = Unit
AliveAfter a (some (r, u)) = Alive u a

pub record Keeps {A : Type 0} (m : M A) : Type 0 where
  pub keeps : (t : Tree) (a : ℕ) → Alive t a → AliveAfter a (m t)

module _ {A : Type 0} where
  bind_after :
      {B : Type 0} (f : A → M B) (a : ℕ) (o : Option (A × Tree))
      → AliveAfter a o
      → ((x : A) → Keeps (f x))
      → AliveAfter a (elim o [ none ↦ none | some (x, u) ↦ f x u ])
  bind_after f a none w l = tt
  bind_after f a (some (x, u)) w l = (l x).keeps u a w

  pub bind :
      {B : Type 0} (m : M A) (f : A → M B) → Keeps m → ((x : A) → Keeps (f x)) → Keeps (m >>= f)
  unfolding ◌>>=◌
  bind m f k l = record { keeps = λ t a w. bind_after f a (m t) (k.keeps t a w) l }

  pub Keeps-pure : (x : A) → Keeps (pure x)
  Keeps-pure x = record { keeps = λ t a w. w }

  pub Keeps-fault : Keeps (fault {A = A})
  Keeps-fault = record { keeps = λ t a w. tt }

  pub Keeps-if : (b : Bool) (m n : M A) → Keeps m → Keeps n → Keeps (if b then m else n)
  Keeps-if true m n k l = k
  Keeps-if false m n k l = l

pub Keeps-get_root : Keeps get_root
Keeps-get_root = record { keeps = λ t a w. w }

pub Keeps-get_nil : Keeps get_nil
Keeps-get_nil = record { keeps = λ t a w. w }

pub Keeps-set_root : (p : ℕ) → Keeps (set_root p)
Keeps-set_root p = record { keeps = λ t a w. w }

load_after :
    (t : Tree) (a : ℕ) (o : Option Node)
    → Alive t a
    → AliveAfter a (elim o [ none ↦ none | some n ↦ some (n, t) ])
load_after t a none w = tt
load_after t a (some n) w = w

pub Keeps-load : (p : ℕ) → Keeps (load p)
unfolding load
Keeps-load p = record { keeps = λ t a w. load_after t a (t.heap p) w }

Alive-write : (t : Tree) (p a : ℕ) (n : Node) → Alive t a → Alive (write t p (some n)) a
unfolding write
Alive-write t p a n w = elim (Bool-cases (a == p)) [ inl e ↦ (n, rw e) | inr e ↦ (w.0, rw e w.1) ]

modify_after :
    (t : Tree) (p a : ℕ) (f : Node → Node) (o : Option Node)
    → Alive t a
    → AliveAfter a (elim o [ none ↦ none | some n ↦ some (tt, write t p (some (f n))) ])
modify_after t p a f none w = tt
modify_after t p a f (some n) w = Alive-write t p a (f n) w

pub Keeps-modify : (p : ℕ) (f : Node → Node) → Keeps (modify p f)
unfolding modify
Keeps-modify p f = record { keeps = λ t a w. modify_after t p a f (t.heap p) w }

pub Keeps-parent_of : (p : ℕ) → Keeps (parent_of p)
unfolding parent_of
Keeps-parent_of p = bind _ _ (Keeps-load p) λ n. Keeps-pure n.parent

pub Keeps-color_of : (p : ℕ) → Keeps (color_of p)
unfolding color_of
Keeps-color_of p = bind _ _ (Keeps-load p) λ n. Keeps-pure n.col

pub Keeps-left_of : (p : ℕ) → Keeps (left_of p)
Keeps-left_of p = bind _ _ (Keeps-load p) λ n. Keeps-pure n.left

pub Keeps-right_of : (p : ℕ) → Keeps (right_of p)
Keeps-right_of p = bind _ _ (Keeps-load p) λ n. Keeps-pure n.right

Keeps-adopt : (c p : ℕ) → Keeps (adopt c p)
unfolding adopt
Keeps-adopt c p =
    bind _ _ Keeps-get_nil λ nil. Keeps-if (c == nil) _ _ (Keeps-pure tt) (Keeps-modify c _)

pub Keeps-relink : (p old new : ℕ) → Keeps (relink p old new)
unfolding relink
Keeps-relink p old new = bind _ _ Keeps-get_nil λ nil.
    Keeps-if (p == nil) _ _ (Keeps-set_root new) (
      bind _ _ (Keeps-load p)
        λ n. Keeps-if (old == n.left) _ _ (Keeps-modify p _) (Keeps-modify p _))

pub Keeps-left_rotate : (x : ℕ) → Keeps (left_rotate x)
unfolding left_rotate
Keeps-left_rotate x = bind _ _ Keeps-get_nil λ nil. bind _ _ (Keeps-load x) λ n.
    Keeps-if (n.right == nil) _ _ (Keeps-pure tt) (
      bind _ _ (Keeps-load n.right) λ m. bind _ _ (Keeps-modify x _) λ _.
        bind _ _ (Keeps-adopt m.left x) λ _. bind _ _ (Keeps-parent_of x) λ p.
          bind _ _ (Keeps-modify n.right _) λ _.
            bind _ _ (Keeps-relink p x n.right)
              λ _. bind _ _ (Keeps-modify x _) λ _. Keeps-modify n.right _)

pub Keeps-right_rotate : (x : ℕ) → Keeps (right_rotate x)
unfolding right_rotate
Keeps-right_rotate x = bind _ _ Keeps-get_nil λ nil. bind _ _ (Keeps-load x) λ n.
    Keeps-if (n.left == nil) _ _ (Keeps-pure tt) (
      bind _ _ (Keeps-load n.left) λ m. bind _ _ (Keeps-modify x _) λ _.
        bind _ _ (Keeps-adopt m.right x) λ _. bind _ _ (Keeps-parent_of x) λ p.
          bind _ _ (Keeps-modify n.left _) λ _.
            bind _ _ (Keeps-relink p x n.left)
              λ _. bind _ _ (Keeps-modify x _) λ _. Keeps-modify n.left _)
