-- ===== src/Selector/Poll.antt =====
-- rpc/selector.cpp: PollSelector, an array of pollfds and an index from descriptors into it.
-- `poll` itself is a parameter: what it returns and the `revents` it stores.
pub mod Watch
pub mod Dropped
pub mod Swapped
pub mod Remove
pub mod Contract
pub mod Events
use yamq.Prelude.{
  ℕ, zero, suc, ◌-◌, ◌≡◌, Bool, true, false, Option, none, some, List, [], ◌∷◌, ◌++◌, length,
  get_elem?, set, take, ◌==◌, ltb, if◌then◌else◌, ◌>>=◌, Map, find, put_key, erase, has, or_if,
}
use yamq.Selector.{ev_none, ev_read, ev_write, Event, Ret, ret_0, ret_1, ret_2}

-- The flags of poll.h.
abbrev pub pollin : ℕ
pollin = 1

abbrev pub pollout : ℕ
pollout = 4

pub record PollFd : Type 0 where
  pub fd : ℕ
  pub events : ℕ
  pub revents : ℕ

pub record PollSelector : Type 0 where
  pub pollfds : List PollFd
  pub fd_idx_map : Map ℕ

abbrev pub poll_selector : PollSelector
poll_selector = record { pollfds = []; fd_idx_map = [] }

pub trans_ev : ℕ → ℕ
trans_ev revents = or_if (or_if ev_none (has revents pollin) ev_read) (has revents pollout) ev_write

-- The `evs` of `Add` and `Update`.
abbrev pub poll_events : ℕ → ℕ
poll_events events = or_if (or_if 0 (has events ev_read) pollin) (has events ev_write) pollout

-- The loop of `Select`: it stops where as many descriptors as are active have been met.
pub collect : List PollFd → ℕ → List Event → List Event
collect [] active events = events
collect (pfd ∷ pfds) zero events = events
collect (pfd ∷ pfds) (suc active) events =
    let found =
      collect pfds active (events ++ record { revents = trans_ev pfd.revents; fd = pfd.fd } ∷ []) in
    let skipped = collect pfds (suc active) events in if ltb 0 pfd.revents then found else skipped

-- `poll` returned `active` and left `pollfds`; `none` for a negative number, which ends the program.
pub select :
    PollSelector → Option (ℕ × List PollFd) → List Event → Option (Ret × PollSelector × List Event)
select s none events = none
select s (some (zero, pfds)) events = some (ret_1, record s { pollfds = pfds }, events)
select s (some (suc n, pfds)) events =
    some (ret_0, record s { pollfds = pfds }, collect pfds (suc n) events)

unfoldable pub add : PollSelector → ℕ → ℕ → PollSelector
add s fd events =
    let pollfds = s.pollfds ++ record { fd = fd; events = poll_events events; revents = 0 } ∷ [] in
    record { pollfds = pollfds; fd_idx_map = put_key fd (length pollfds - 1) s.fd_idx_map }

-- `none` for an index outside the array.
pub update : PollSelector → ℕ → ℕ → Option (Ret × PollSelector)
update s fd events = elim (find fd s.fd_idx_map) [
  | none ↦ some (ret_1, s)
  | some idx ↦ do
    pfd ← get_elem? s.pollfds idx
    some (
      ret_0,
      record s { pollfds = set s.pollfds idx (record pfd { events = poll_events events }) },
    )
]

-- `pop_back`; `none` on an empty vector.
unfoldable pub pop_back : List PollFd → Option (List PollFd)
pop_back [] = none
pop_back (pfd ∷ pfds) = some (take (length pfds) (pfd ∷ pfds))

-- The last descriptor takes the place of the one removed.
unfoldable pub swap_remove : PollSelector → ℕ → Option PollSelector
swap_remove s idx = do
  back ← get_elem? s.pollfds (length s.pollfds - 1)
  pfd ← get_elem? s.pollfds idx
  pollfds ← pop_back (set (set s.pollfds (length s.pollfds - 1) pfd) idx back)
  some (record { pollfds = pollfds; fd_idx_map = put_key back.fd idx s.fd_idx_map })

pub drop_last : PollSelector → Option PollSelector
drop_last s = do pollfds ← pop_back s.pollfds; some (record s { pollfds = pollfds })

unfoldable pub erase_fd : ℕ → PollSelector → PollSelector
erase_fd fd s = record s { fd_idx_map = erase fd s.fd_idx_map }

unfoldable pub remove : PollSelector → ℕ → Option (Ret × PollSelector)
remove s fd = elim (find fd s.fd_idx_map) [
  | none ↦ some (ret_1, s)
  | some idx ↦ do
    s' ← if idx == length s.fd_idx_map - 1 then drop_last s else swap_remove s idx
    some (ret_0, erase_fd fd s')
]
