-- ===== src/Timers/Adding.antt =====
-- addTimer of rpc/timer/timer_queue_rbtree.cpp: the new timer is filed, and the descriptor armed where it
-- is the first.
use yamq.Prelude.{
  ℕ, ◌+◌, ◌%◌, ◌<◌, ◌≡◌, Bool, true, some, List, [], ◌∷◌, leb, if◌then◌else◌, arith, put_key,
}
use yamq.RbTree.{Node, Tree}
use yamq.RbTree.Insert.{rbtree_min}
use yamq.RbTree.Shape.{Entry, Nodes}
use yamq.RbTree.Order.{insert_entry}
use yamq.RbTree.Balance.{entries}
use yamq.RbTree.IsTree.{IsTree}
use yamq.RbTree.Insertion.{entry}
use yamq.Timers.{Timer, TimerQueue, add_node, ticks_of, trans_ticks, ticks_per_second, key_of, u64}

-- Below 2 ^ 64, the ticks of the time that TransTicks makes of ticks are those ticks, and its
-- nanoseconds are below a second.
pub trans_ticks-ticks_of :
    (ticks : ℕ)
    → ticks < u64
    → (ticks_of (trans_ticks ticks) ≡ ticks) × ((trans_ticks ticks).nsec < ticks_per_second)
unfolding ticks_of trans_ticks
trans_ticks-ticks_of ticks h = (omega arith, omega arith)

-- No entry has a smaller key.
abbrev pub is_earliest : ℕ → List Entry → Bool
is_earliest key [] = true
is_earliest key (e ∷ es) = leb key e.key

-- The queue after a timer is added.
pub record Added (fuel now : ℕ) (q : TimerQueue) (ptr : ℕ) (timer : Timer) (es : List Entry)
    : Type 0 where
  pub fresh : ℕ
  pub whole : Nodes
  pub after : TimerQueue
  pub run : add_node fuel q ptr ≡ some after
  pub is_tree : IsTree after.tree whole
  pub same : entries whole ≡ insert_entry (entry (key_of ((now + timer.time) % u64)) fresh ptr) es
  pub kept :
      after.timers
      ≡ put_key ptr (record timer { expire = (now + timer.time) % u64; attach = fresh }) q.timers
  pub armed : after.armed ≡ (
      if is_earliest (key_of ((now + timer.time) % u64)) es
      then trans_ticks ((q.own_epoch + (now + timer.time) % u64) % u64) ∷ q.armed
      else q.armed)

-- The least node of a tree with a new entry, and how the keys of the two compare.
record Lowest (fuel : ℕ) (t : Tree) (e : Entry) (es : List Entry) : Type 0 where
  pub addr : ℕ
  pub low : rbtree_min fuel t ≡ some (addr, t)
  pub cell : Node
  pub at : t.heap addr ≡ some cell
  pub early : leb e.key cell.key ≡ is_earliest e.key es
