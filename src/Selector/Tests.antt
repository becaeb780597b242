-- ===== src/Selector/Tests.antt =====
-- Runs of the selectors at fixed inputs, and the theorems at inputs that meet their hypotheses.
use yamq.Prelude.{
  ℕ, ◌≤◌, ◌<◌, ◌≡◌, ◌≢◌, refl, inl, inr, Option, none, some, List, [], ◌∷◌, ◌++◌, map, arith,
  length, Map, find, put_key, erase, find-put_key, find-put_key_ne, find-erase, find-erase_ne,
  ◌>>=◌, Option-cases,
}
use yamq.Selector.{
  ev_read, ev_write, ev_error, ev_close, Event, Ret, ret_0, ret_1, Interest, Selector,
}
use yamq.Selector.Runs.{Request, adds, updates, removes, Meants, map_run, run}
use yamq.Selector.Poll.{
  PollFd, PollSelector, poll_selector, add, remove, swap_remove, pop_back, erase_fd,
}
use yamq.Selector.Poll.Watch.{Indexed, watched}
use yamq.Selector.Poll.Contract.{poll_Selector, run-poll}
use yamq.Selector.Epoll.{
  Ctl, ctl_add, ctl_mod, ctl_del, Kernel, EpollEvent, trans_epollev_to_ev, epollin, epollpri,
  epollout, epollerr, epollhup, epollrdhup,
}
use yamq.Selector.Epoll.Events.{select-epoll_wait}

-- Descriptors 5 and 6 are added, 5 is removed, and 6 watched for writing.
abbrev calls : List Request
calls = adds 5 1 ∷ adds 6 3 ∷ removes 5 ∷ updates 6 2 ∷ []

calls-Meants : Meants calls (λ i. none)
calls-Meants = (refl, (refl, (λ e. cc, (λ e. cc, tt))))

run-poll_example :
    (s : PollSelector) × (run poll_Selector calls poll_selector ≡ some s)
    × Indexed s
    × ((i : ℕ) → watched s i ≡ map_run calls (λ i. none) i)
run-poll_example = run-poll calls calls-Meants

-- A descriptor that is added twice stays in the array when it is removed.
twice :
    (remove (add (add poll_selector 5 1) 5 1) 5)
    ≡ some (
      ret_0,
      record { pollfds = record { fd = 5; events = 1; revents = 0 } ∷ []; fd_idx_map = [] },
    )
unfolding remove add swap_remove pop_back erase_fd erase put_key find
twice = refl

abbrev polled : List PollFd
polled =
    record { fd = 5; events = 1; revents = 1 }
    ∷ record { fd = 6; events = 4; revents = 0 }
    ∷ record { fd = 7; events = 5; revents = 5 }
    ∷ []

-- A kernel that keeps its interest list as a map.
abbrev ctl : Map ℕ → Ctl → ℕ → ℕ → Option (Map ℕ)
ctl k ctl_add fd events = elim (find fd k) [ none ↦ some (put_key fd events k) | some old ↦ none ]
ctl k ctl_mod fd events = find fd k >>= λ old. some (put_key fd events k)
ctl k ctl_del fd events = find fd k >>= λ old. some (erase fd k)

-- Where the descriptor is there, the write and the deletion succeed.
ctl_mod-some :
    (k : Map ℕ) (fd events : ℕ)
    → find fd k ≢ none
    → ctl k ctl_mod fd events ≡ some (put_key fd events k)
ctl_mod-some k fd events h = elim (Option-cases (find fd k)) [
  | inl e ↦ absurd (h e)
  | inr (old, e) ↦ rw e
]

ctl_del-some :
    (k : Map ℕ) (fd events : ℕ) → find fd k ≢ none → ctl k ctl_del fd events ≡ some (erase fd k)
ctl_del-some k fd events h = elim (Option-cases (find fd k)) [
  | inl e ↦ absurd (h e)
  | inr (old, e) ↦ rw e
]

abbrev map_kernel : Kernel
map_kernel = record {
  K = Map ℕ;
  epoll_ctl = ctl;
  registered = λ k fd. find fd k;
  add_absent = λ k fd events h. (
    put_key fd events k,
    rw (ctl, h),
    find-put_key fd events k,
    λ i d. find-put_key_ne events k d,
  );
  mod_present = λ k fd events h. (
    put_key fd events k,
    ctl_mod-some k fd events h,
    find-put_key fd events k,
    λ i d. find-put_key_ne events k d,
  );
  del_present = λ k fd events h.
      (erase fd k, ctl_del-some k fd events h, find-erase fd k, λ i d. find-erase_ne k d);
}

abbrev ready : List EpollEvent
ready = record { events = 5; fd = 5 } ∷ record { events = 17; fd = 6 } ∷ []

select-epoll_wait_example :
    (vec' : List EpollEvent) × (yamq.Selector.Epoll.select ready (some ready) []
      ≡ some (ret_0, vec', [] ++ map yamq.Selector.Epoll.event_of ready))
    × (length ready ≤ length vec')
    × (length ready < length vec')
select-epoll_wait_example = select-epoll_wait ready ready [] (omega arith) (omega arith)
