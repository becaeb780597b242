-- ===== src/Timers/Collect.antt =====
-- The first loop of PerTick in rpc/timer/timer_queue_rbtree.cpp takes out just the timers that are due.
use yamq.Prelude.{
  ℕ, zero, suc, ◌+◌, ◌^◌, ◌≤◌, ◌<◌, ◌≡◌, refl, ap, subst, ◌∙◌, inl, inr, false, true, ◌==◌,
  Bool-cases, some, List, [], ◌∷◌, length, ==_false, ==-self, ltb, ltb→lt, arith,
}
use yamq.RbTree.{null, Node}
use yamq.RbTree.Insert.{rbtree_min}
use yamq.RbTree.Shape.{Entry, Nodes}
use yamq.RbTree.Order.{IsAscending, Above}
use yamq.RbTree.Balance.{entries}
use yamq.RbTree.IsTree.{IsTree}
use yamq.RbTree.Extremes.{rbtree_min-first, first_addr}
use yamq.RbTree.Removal.Least.{Deleted, rbtree_delete-least}
use yamq.Timers.{Timer, TimerQueue, collect, store_timer}
use yamq.Timers.Expiry.{
  Filed, AllFiled, NotDue, height-le-length, first-cell, first-ne-nil, AllFiled-store, Collected,
}

NotDue-Above : (now k : ℕ) (es : List Entry) → now + 2 ^ 63 ≤ k → Above k es → NotDue now es
NotDue-Above now k [] h a = tt
NotDue-Above now k (e ∷ es) h a = (omega arith, NotDue-Above now k es h a.1)

not_ltb→le : (a b : ℕ) → ltb a b ≡ false → b ≤ a
not_ltb→le a b h = ground arith

-- What the first timer of a queue is found by.
record First (fuel : ℕ) (q : TimerQueue) (e : Entry) : Type 0 where
  pub low : rbtree_min fuel q.tree ≡ some (e.addr, q.tree)
  pub other : (e.addr == q.tree.nil) ≡ false
  pub cell : Node
  pub at : q.tree.heap e.addr ≡ some cell
  pub val : cell.val ≡ e.val

head-First :
    (fuel : ℕ) (q : TimerQueue) (s : Nodes) (e : Entry) (es : List Entry)
    → IsTree q.tree s
    → entries s ≡ e ∷ es
    → length (e ∷ es) < fuel
    → First fuel q e
head-First fuel q s e es w same k =
    let (m, at, v, mk) = first-cell q.tree.nil q.tree.heap q.tree.nil s e es w.focus.inside same in
    record {
      low =
          rbtree_min-first q.tree s fuel w (omega (arith, height-le-length s, ap length same))
          ∙ ap (λ a. some (a, q.tree)) (ap (first_addr q.tree.nil) same);
      other = ==_false e.addr q.tree.nil (first-ne-nil q.tree s e es w same);
      cell = m;
      at = at;
      val = v;
    }

-- Where the first timer is not due, none is.
none_late :
    (fuel rounds now : ℕ) (q : TimerQueue) (s : Nodes) (e : Entry) (es : List Entry)
    (w : IsTree q.tree s) (same : entries s ≡ e ∷ es) (filed : AllFiled q.timers (e ∷ es))
    → length (e ∷ es) < fuel
    → ltb filed.0.timer.expire now ≡ false
    → Collected fuel (suc rounds) now q (e ∷ es)
unfolding collect
none_late fuel rounds now q s e es w same filed k on_time =
    let h = head-First fuel q s e es w same k in
    let f = filed.0 in
    let later : now + 2 ^ 63 ≤ e.key =
      omega (arith, not_ltb→le f.timer.expire now on_time, f.key) in
    record {
      late = [];
      rest = e ∷ es;
      after = q;
      whole = s;
      run = rw (h.low, h.other, h.at, h.val, f.found, on_time);
      parts = refl;
      due = tt;
      not_due = (later, NotDue-Above now e.key es later (subst IsAscending same w.ascending).0);
      is_tree = w;
      same = same;
      filed = filed;
    }

-- Where the first timer is due, it comes before those of the other rounds.
late_first :
    (fuel rounds now : ℕ) (q : TimerQueue) (s : Nodes) (e : Entry) (es : List Entry)
    (w : IsTree q.tree s) (same : entries s ≡ e ∷ es) (f : Filed q.timers e)
    → length (e ∷ es) < fuel
    → ltb f.timer.expire now ≡ true
    → (d : Deleted fuel q.tree e.addr es)
    → Collected fuel rounds now
        (store_timer (record q { tree = d.tree' }) e.val (record f.timer { attach = null }))
        es
    → Collected fuel (suc rounds) now q (e ∷ es)
unfolding collect
late_first fuel rounds now q s e es w same f k late d rest =
    let h = head-First fuel q s e es w same k in
    record {
      late = e ∷ rest.late;
      rest = rest.rest;
      after = rest.after;
      whole = rest.whole;
      run = rw (h.low, h.other, h.at, h.val, f.found, late, d.run, rest.run);
      parts = ap (λ xs. e ∷ xs) rest.parts;
      due = (omega (arith, f.key, ltb→lt _ _ late), rest.due);
      not_due = rest.not_due;
      is_tree = rest.is_tree;
      same = rest.same;
      filed = rest.filed;
    }

-- In a queue whose tree is a red-black search tree of the live timers by their expiry, below 2 ^
-- 63, with more fuel and rounds than timers, the first loop of PerTick ends and returns, in the
-- order of their expiry, just the timers whose expiry is before now; the others stay in the tree,
-- which is again a red-black search tree of live timers.
pub collect-Collected :
    (fuel rounds now : ℕ) (q : TimerQueue) (s : Nodes) (es : List Entry)
    → IsTree q.tree s
    → entries s ≡ es
    → AllFiled q.timers es
    → length es < fuel
    → length es < rounds
    → Collected fuel rounds now q es
unfolding collect
collect-Collected fuel zero now q s es w same filed k r = absurd (omega arith)
collect-Collected fuel (suc rounds) now q s [] w same filed k r =
    let low =
      rbtree_min-first q.tree s fuel w (omega (arith, height-le-length s, ap length same)) in
    record {
      late = [];
      rest = [];
      after = q;
      whole = s;
      run = rw (low, ap (first_addr q.tree.nil) same, ==-self q.tree.nil);
      parts = refl;
      due = tt;
      not_due = tt;
      is_tree = w;
      same = same;
      filed = tt;
    }
collect-Collected fuel (suc rounds) now q s (e ∷ es) w same filed k r =
    let f = filed.0 in
    let high = height-le-length s in
    let len = ap length same in
    elim (Bool-cases (ltb f.timer.expire now)) [
      | inl late ↦
          let d = rbtree_delete-least q.tree s fuel e es w (omega arith) same in
          let timer' : Timer = record f.timer { attach = null } in
          let q' = store_timer (record q { tree = d.tree' }) e.val timer' in
          let filed' = AllFiled-store q.timers e.val f.timer timer' es f.found refl filed.1 in
          late_first fuel rounds now q s e es w same f k late d (
            collect-Collected fuel rounds now q' d.whole es d.is_tree d.same filed' (omega arith)
              (omega arith))
      | inr on_time ↦ none_late fuel rounds now q s e es w same filed k on_time
    ]
