-- ===== src/Timers.antt =====
-- rpc/timer/timer_queue_base.h, timer_queue_rbtree.cpp, timer_utilties.cpp and the arming of
-- timerfd.cpp: timers in a red-black tree by their expiry. What the clock, malloc and new return next
-- are lists of the state. Unsigned 64-bit numbers wrap.
pub mod Expiry
pub mod Collect
pub mod Adding
mod Tests
use yamq.Prelude.{
  ℤ, ℕ, zero, suc, ◌+◌, ◌-◌, ◌*◌, ◌/◌, ◌%◌, ◌^◌, ◌≡◌, Bool, true, false, ◌&&◌, Option, none, some,
  List, [], ◌∷◌, ◌++◌, ◌==◌, ltb, leb, if◌then◌else◌, ◌>>=◌, ◌>>◌, guard, Map, find, put_key, erase,
}
use yamq.RbTree.{Node, Tree, null}
use yamq.RbTree
use yamq.RbTree.Insert.{rbtree_insert, rbtree_min}
use yamq.RbTree.Delete.{rbtree_delete}
use yamq.Tcp.Ids.{timer_next_id}

abbrev pub u64 : ℕ
u64 = 2 ^ 64

-- A positive number, read as an int64_t.
abbrev pub is_positive : ℕ → Bool
is_positive n = ltb 0 n && ltb n (2 ^ 63)

-- `static_cast<long long>`, less LLONG_MIN.
abbrev pub key_of : ℕ → ℕ
key_of expire = (expire + 2 ^ 63) % u64

abbrev pub ticks_per_second : ℕ
ticks_per_second = 1000000000

pub record Timespec : Type 0 where
  pub sec : ℕ
  pub nsec : ℕ

unfoldable pub trans_ticks : ℕ → Timespec
trans_ticks ticks = record { sec = ticks / ticks_per_second; nsec = ticks % ticks_per_second }

unfoldable pub ticks_of : Timespec → ℕ
ticks_of ts = (ts.sec * ticks_per_second + ts.nsec) % u64

pub record Timer : Type 0 where
  pub id : ℕ
  pub expire : ℕ
  pub time : ℕ
  pub interval : ℕ
  pub elapse : ℕ
  pub cb : ℕ
  pub attach : ℕ

pub record TimerQueue : Type 0 where
  pub tree : Tree
  pub timers : Map Timer
  pub ref : Map ℕ
  pub slot : ℤ
  pub own_epoch : ℕ
  pub armed : List Timespec
  pub clock : List Timespec
  pub mallocs : List (ℕ × Node)
  pub news : List ℕ

-- `GetNowTicks`.
unfoldable pub now_ticks : TimerQueue → Option (ℕ × TimerQueue)
unfolding ticks_of
now_ticks q = elim q.clock [ [] ↦ none | ts ∷ rest ↦ some (ticks_of ts, record q { clock = rest }) ]

-- `GetNowTicks() - _own_epoch`.
unfoldable pub own_now : TimerQueue → Option (ℕ × TimerQueue)
unfolding now_ticks
own_now q = do (now, q₁) ← now_ticks q; some ((now + u64 - q.own_epoch) % u64, q₁)

-- `resetTimerfd`: the times armed, the last one first.
unfoldable pub reset_timerfd : TimerQueue → ℕ → TimerQueue
unfolding trans_ticks
reset_timerfd q ticks = record q { armed = trans_ticks ticks ∷ q.armed }

unfoldable pub next_malloc : TimerQueue → Option ((ℕ × Node) × TimerQueue)
next_malloc q = elim q.mallocs [ [] ↦ none | m ∷ rest ↦ some (m, record q { mallocs = rest }) ]

abbrev pub store_timer : TimerQueue → ℕ → Timer → TimerQueue
store_timer q ptr timer = record q { timers = put_key ptr timer q.timers }

-- `addTimer`, for the timer at `ptr`.
unfoldable pub add_node : ℕ → TimerQueue → ℕ → Option TimerQueue
unfolding own_now reset_timerfd next_malloc
add_node fuel q ptr = do
  (now, q₁) ← own_now q
  timer ← find ptr q₁.timers
  let expire = (now + timer.time) % u64
  ((fresh, raw), q₂) ← next_malloc q₁
  (n, tree) ← rbtree_insert fuel fresh raw (key_of expire) ptr q₂.tree
  (low, tree') ← rbtree_min fuel tree
  m ← tree'.heap low
  let q₃ =
      store_timer (record q₂ { tree = tree' }) ptr (record timer { expire = expire; attach = n })
  some (if leb (key_of expire) m.key then reset_timerfd q₃ ((q.own_epoch + expire) % u64) else q₃)

-- `AddTimer` up to the functor that calls `addTimer`: the id, and the timer that the functor is for.
unfoldable pub add_timer : TimerQueue → ℕ → ℕ → ℕ → Option ((ℕ × ℕ) × TimerQueue)
add_timer q time interval cb = elim q.news [
  | [] ↦ none
  | ptr ∷ rest ↦ do
    id ← timer_next_id q.ref q.slot
    let timer : Timer = record {
      id = id;
      expire = 0;
      time = time;
      interval = interval;
      elapse = interval;
      cb = cb;
      attach = null;
    }
    some (
      (id, ptr),
      record q {
        timers = put_key ptr timer q.timers;
        ref = put_key id ptr q.ref;
        slot = yamq.Prelude.pos id;
        news = rest;
      },
    )
]

-- `cancelTimer`: a missing id gets a null pointer in `_ref`, and no entry is ever erased.
unfoldable pub cancel_timer : ℕ → TimerQueue → ℕ → Option (Bool × TimerQueue)
cancel_timer fuel q id =
    let ptr : ℕ = elim (find id q.ref) [ none ↦ null | some p ↦ p ] in
    let q₁ = record q { ref = put_key id ptr q.ref } in
    if ptr == null then some (false, q₁) else do
      timer ← find ptr q.timers
      (u, tree) ←
          if timer.attach == null then some (tt, q.tree) else rbtree_delete fuel timer.attach q.tree
      some (true, record q₁ { tree = tree; timers = erase ptr q.timers })

-- The first loop of `PerTick`: the timers whose expiry is past leave the tree.
unfoldable pub collect : ℕ → ℕ → ℕ → TimerQueue → Option (List ℕ × TimerQueue)
collect fuel zero now q = none
collect fuel (suc rounds) now q = do
  (n, tree) ← rbtree_min fuel q.tree
  let further = (do
    m ← tree.heap n
    timer ← find m.val q.timers
    let late = (do
      (u, tree') ← rbtree_delete fuel n tree
      (ptrs, q') ←
          collect fuel rounds now
            (store_timer (record q { tree = tree' }) m.val (record timer { attach = null }))
      some (m.val ∷ ptrs, q'))
    if ltb timer.expire now then late else some ([], record q { tree = tree }))
  if n == q.tree.nil then some ([], record q { tree = tree }) else further

-- The second loop. `call` is the callback, which may use the queue.
module _ (call : ℕ → TimerQueue → Option TimerQueue) where
  unfoldable pub run_one : ℕ → TimerQueue → ℕ → Option TimerQueue
  unfolding add_node
  run_one fuel q ptr = do
    timer ← find ptr q.timers
    let called = (do
      q' ← call timer.cb (store_timer q ptr (record timer { elapse = timer.elapse - 1 }))
      again ← find ptr q'.timers
      let gone = some (record q' { timers = erase ptr q'.timers })
      if is_positive again.elapse then add_node fuel q' ptr else gone)
    if is_positive timer.elapse then called else some (record q { timers = erase ptr q.timers })

  unfoldable pub run_expired : ℕ → TimerQueue → List ℕ → Option TimerQueue
  unfolding run_one
  run_expired fuel q [] = some q
  run_expired fuel q (ptr ∷ ptrs) = run_one fuel q ptr >>= λ q'. run_expired fuel q' ptrs

  unfoldable pub per_tick : ℕ → ℕ → TimerQueue → Option TimerQueue
  unfolding own_now collect run_expired
  per_tick fuel rounds q = do
    (now, q₁) ← own_now q
    (ptrs, q₂) ← collect fuel rounds now q₁
    run_expired fuel q₂ ptrs

  -- `WaitTimeUsec`, an int64_t as its bits: -1 where there is no timer.
  unfoldable pub wait_time : ℕ → TimerQueue → Option ℕ
  wait_time fuel q = do
    (n, tree) ← rbtree_min fuel q.tree
    let expire = (do m ← tree.heap n; timer ← find m.val q.timers; some timer.expire)
    if n == q.tree.nil then some (u64 - 1) else expire

  -- `HandleRead`, where the descriptor gives its eight bytes.
  unfoldable pub handle_read : ℕ → ℕ → TimerQueue → Option TimerQueue
  unfolding per_tick wait_time
  handle_read fuel rounds q = do
    (now, q₀) ← now_ticks q
    q₁ ← per_tick fuel rounds q₀
    expire ← wait_time fuel q₁
    some (if is_positive expire then reset_timerfd q₁ ((q₁.own_epoch + expire) % u64) else q₁)
