-- ===== src/Selector/Epoll.antt =====
-- rpc/epoll_selector.cpp: EpollSelector. The kernel's side of epoll is a parameter.
pub mod Contract
pub mod Events
use yamq.Prelude.{
  ℕ, zero, suc, ◌+◌, ◌-◌, ◌*◌, ◌^◌, ◌≡◌, ◌≢◌, Bool, true, false, Option, none, some, List, [], ◌∷◌,
  ◌++◌, length, get_elem?, take, replicate, splice, ◌==◌, if◌then◌else◌, ◌>>=◌, has, or_if,
}
use yamq.Selector.{ev_none, ev_read, ev_write, ev_error, ev_close, Event, Ret, ret_0, ret_1}

-- The flags of sys/epoll.h.
abbrev pub epollin : ℕ
epollin = 1

abbrev pub epollpri : ℕ
epollpri = 2

abbrev pub epollout : ℕ
epollout = 4

abbrev pub epollerr : ℕ
epollerr = 8

abbrev pub epollhup : ℕ
epollhup = 16

abbrev pub epollrdhup : ℕ
epollrdhup = 2 ^ 13

pub data Ctl : Type 0 where
  ctl_add ctl_mod ctl_del : Ctl

-- What the manual says of `epoll_ctl`: `none` for a failure. `registered` is the interest list.
pub record Kernel : Type 1 where
  pub K : Type 0
  pub epoll_ctl : K → Ctl → ℕ → ℕ → Option K
  pub registered : K → ℕ → Option ℕ
  pub add_absent :
      (k : K) (fd events : ℕ)
      → registered k fd ≡ none
      → (k' : K) × (epoll_ctl k ctl_add fd events ≡ some k')
        × (registered k' fd ≡ some events)
        × ((i : ℕ) → i ≢ fd → registered k' i ≡ registered k i)
  pub mod_present :
      (k : K) (fd events : ℕ)
      → registered k fd ≢ none
      → (k' : K) × (epoll_ctl k ctl_mod fd events ≡ some k')
        × (registered k' fd ≡ some events)
        × ((i : ℕ) → i ≢ fd → registered k' i ≡ registered k i)
  pub del_present :
      (k : K) (fd events : ℕ)
      → registered k fd ≢ none
      → (k' : K) × (epoll_ctl k ctl_del fd events ≡ some k')
        × (registered k' fd ≡ none)
        × ((i : ℕ) → i ≢ fd → registered k' i ≡ registered k i)

pub record EpollEvent : Type 0 where
  pub events : ℕ
  pub fd : ℕ

pub trans_epollev_to_ev : ℕ → ℕ
trans_epollev_to_ev epollev =
    let ev1 = or_if ev_none (has epollev epollout) ev_write in
    let ev2 = or_if ev1 (has epollev epollin) ev_read in
    let ev3 = or_if ev2 (has epollev epollpri) ev_read in
    let ev4 = or_if ev3 (has epollev epollerr) ev_error in
    let ev5 = or_if ev4 (has epollev epollhup) ev_error in
    or_if ev5 (has epollev epollrdhup) ev_close

-- The `evs` of `Add` and `Update`.
abbrev pub epoll_events : ℕ → ℕ
epoll_events events = or_if (or_if 0 (has events ev_read) epollin) (has events ev_write) epollout

module _ (kernel : Kernel) where
  open kernel use {K, epoll_ctl}

  -- The descriptor `_epfd` stands for the kernel's state.
  pub record EpollSelector : Type 0 where
    pub epfd : K
    pub events : List EpollEvent

  abbrev pub epoll_selector : K → EpollSelector
  epoll_selector k = record { epfd = k; events = replicate 10 (record { events = 0; fd = 0 }) }

  -- Where `epoll_ctl` fails the program is ended by the log line.
  pub control : EpollSelector → Ctl → ℕ → ℕ → Option (Ret × EpollSelector)
  control s op fd evs = epoll_ctl s.epfd op fd evs >>= λ k. some (ret_0, record s { epfd = k })

  pub add : EpollSelector → ℕ → ℕ → Option (Ret × EpollSelector)
  add s fd events = control s ctl_add fd (epoll_events events)

  pub update : EpollSelector → ℕ → ℕ → Option (Ret × EpollSelector)
  update s fd events = control s ctl_mod fd (epoll_events events)

  -- The event is not initialised, and not looked at.
  pub remove : EpollSelector → ℕ → Option (Ret × EpollSelector)
  remove s fd = control s ctl_del fd 0

abbrev pub event_of : EpollEvent → Event
event_of e = record { revents = trans_epollev_to_ev e.events; fd = e.fd }

-- The loop of `Select`, with `left` rounds to go; `none` for a read outside the vector.
pub collect : ℕ → ℕ → List EpollEvent → List Event → Option (List Event)
collect zero i ready events = some events
collect (suc left) i ready events = do
  e ← get_elem? ready i
  collect left (i + 1) ready (events ++ event_of e ∷ [])

pub resize_events : List EpollEvent → ℕ → List EpollEvent
resize_events ready n = take n ready ++ replicate (n - length ready) (record { events = 0; fd = 0 })

-- `epoll_wait` wrote `ready` to the front of the vector and returned its length, or a negative number.
pub select :
    List EpollEvent
    → Option (List EpollEvent)
    → List Event
    → Option (Ret × List EpollEvent × List Event)
select vec none events = some (ret_1, vec, events)
select vec (some []) events = some (ret_0, vec, events)
select vec (some (e ∷ ready)) events =
    let n = suc (length ready) in
    let filled = splice 0 (e ∷ ready) vec in
    do
      events' ← collect n 0 filled events
      some (ret_0, if length filled == n then resize_events filled (n * 2) else filled, events')
