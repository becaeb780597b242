-- ===== src/Timers/Expiry.antt =====
-- The first loop of PerTick in rpc/timer/timer_queue_rbtree.cpp.
use yamq.Prelude.{
  ℕ, ◌+◌, ◌^◌, ◌≤◌, ◌<◌, ◌≡◌, ◌≢◌, refl, sym, ap, ◌∙◌, inl, inr, Bool-cases, some, List, [], ◌∷◌,
  ◌++◌, map, length, length-append, ◌==◌, ==_iff, arith, Map, find, put_key, find-put_key,
  find-put_key_ne,
}
use yamq.RbTree.{Color, Tree, Node}
use yamq.RbTree.Links.{ne_of_here}
use yamq.RbTree.Removal.Free.{occ_list, occ-entries}
use yamq.RbTree.Shape.{Entry, Heap, Nodes, leaf, node, Holds}
use yamq.RbTree.Balance.{entries}
use yamq.RbTree.Descent.{height}
use yamq.RbTree.IsTree.{IsTree}
use yamq.Timers.{Timer, TimerQueue, collect}

-- The entry of a timer: its key is the expiry, which fits in an int64_t.
pub record Filed (timers : Map Timer) (e : Entry) : Type 0 where
  pub timer : Timer
  pub found : find e.val timers ≡ some timer
  pub key : e.key ≡ timer.expire + 2 ^ 63
  pub fits : timer.expire < 2 ^ 63

abbrev pub AllFiled : Map Timer → List Entry → Type 0
AllFiled timers [] = Unit
AllFiled timers (e ∷ es) = Filed timers e × AllFiled timers es

-- The entries whose expiry is before `now`, or not.
abbrev pub Due : ℕ → List Entry → Type 0
Due now [] = Unit
Due now (e ∷ es) = (e.key < now + 2 ^ 63) × Due now es

abbrev pub NotDue : ℕ → List Entry → Type 0
NotDue now [] = Unit
NotDue now (e ∷ es) = (now + 2 ^ 63 ≤ e.key) × NotDue now es

abbrev pub val_of : Entry → ℕ
val_of e = e.val

pub height-le-length : (s : Nodes) → height s ≤ length (entries s)
unfolding entries
height-le-length leaf = omega arith
height-le-length (node l c e r) =
    omega (arith, length-append (entries l) (e ∷ entries r), height-le-length l, height-le-length r)

entries-cons :
    (l : Nodes) (c : Color) (x : Entry) (r : Nodes)
    → (e : Entry) × (es : List Entry) × (entries (node l c x r) ≡ e ∷ es)
unfolding entries
entries-cons leaf c x r = (x, entries r, refl)
entries-cons (node l d y s) c x r =
    let (e, es, q) = entries-cons l d y s in
    (e, es ++ (x ∷ entries r), ap (λ xs. xs ++ (x ∷ entries r)) q)

-- The node of the first entry.
pub first-cell :
    (nil : ℕ) (h : Heap) (p : ℕ) (s : Nodes) (e : Entry) (es : List Entry)
    → Holds nil h p s
    → entries s ≡ e ∷ es
    → (m : Node) × (h e.addr ≡ some m) × (m.val ≡ e.val) × (m.key ≡ e.key)
unfolding entries
first-cell nil h p leaf e es w q = cc
first-cell nil h p (node leaf c x r) e es w q =
    let same : x ≡ e = cc in
    (_, ap (λ z. h z.addr) (sym same) ∙ w.0, ap (λ z. z.val) same, ap (λ z. z.key) same)
first-cell nil h p (node (node l d y s) c x r) e es w q =
    let (e', es', z) = entries-cons l d y s in
    let (m, at, v, k) = first-cell nil h x.addr (node l d y s) e' es' w.1 z in
    let same : e' ≡ e = cc (q, ap (λ xs. xs ++ (x ∷ entries r)) z) in
    (m, ap (λ z. h z.addr) (sym same) ∙ at, v ∙ ap (λ z. z.val) same, k ∙ ap (λ z. z.key) same)

pub first-ne-nil :
    (t : Tree) (s : Nodes) (e : Entry) (es : List Entry)
    → IsTree t s
    → entries s ≡ e ∷ es
    → e.addr ≢ t.nil
unfolding occ_list
first-ne-nil t s e es w q z =
    let none_here : occ_list t.nil (e ∷ es) ≡ 0 =
      ap (occ_list t.nil) (sym q) ∙ sym (occ-entries t.nil s) ∙ omega (arith, w.focus.apart) in
    ne_of_here t.nil e.addr (omega (arith, none_here)) (sym z)

-- A change of a timer that keeps its expiry.
Filed-store :
    (timers : Map Timer) (ptr : ℕ) (old new : Timer) (e : Entry)
    → find ptr timers ≡ some old
    → new.expire ≡ old.expire
    → Filed timers e
    → Filed (put_key ptr new timers) e
Filed-store timers ptr old new e at same f = elim (Bool-cases (e.val == ptr)) [
  | inl q ↦
      let eq = (==_iff e.val ptr).0 q in
      let both : f.timer ≡ old = cc (f.found, at, ap (λ k. find k timers) eq) in
      record {
        timer = new;
        found = ap (λ k. find k (put_key ptr new timers)) eq ∙ find-put_key ptr new timers;
        key = rw (same, ← both) f.key;
        fits = rw (same, ← both) f.fits;
      }
  | inr q ↦ record {
    timer = f.timer;
    found = find-put_key_ne new timers (λ z. cc ((==_iff e.val ptr).1 z)) ∙ f.found;
    key = f.key;
    fits = f.fits;
  }
]

pub AllFiled-store :
    (timers : Map Timer) (ptr : ℕ) (old new : Timer) (es : List Entry)
    → find ptr timers ≡ some old
    → new.expire ≡ old.expire
    → AllFiled timers es
    → AllFiled (put_key ptr new timers) es
AllFiled-store timers ptr old new [] at same f = tt
AllFiled-store timers ptr old new (e ∷ es) at same f =
    (Filed-store timers ptr old new e at same f.0, AllFiled-store timers ptr old new es at same f.1)

-- What the loop leaves: the timers that are due, in order, are out of the tree, and the others in.
pub record Collected (fuel rounds now : ℕ) (q : TimerQueue) (es : List Entry) : Type 0 where
  pub late : List Entry
  pub rest : List Entry
  pub after : TimerQueue
  pub whole : Nodes
  pub run : collect fuel rounds now q ≡ some (map val_of late, after)
  pub parts : late ++ rest ≡ es
  pub due : Due now late
  pub not_due : NotDue now rest
  pub is_tree : IsTree after.tree whole
  pub same : entries whole ≡ rest
  pub filed : AllFiled after.timers rest
