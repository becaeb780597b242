-- ===== src/Selector/Poll/Events.antt =====
-- PollSelector.Select: what is delivered, and how the flags are translated.
use yamq.Prelude.{
  ℕ, zero, suc, ◌≡◌, refl, sym, ap, ◌∙◌, inl, inr, Bool, true, false, some, List, [], ◌∷◌, ◌++◌,
  append_assoc, append-nil, map, arith, length, ltb, Bool-cases, if◌then◌else◌, has, or_if,
}
use yamq.Selector.{ev_none, ev_read, ev_write, Event, ret_0}
use yamq.Selector.Poll.{PollFd, PollSelector, pollin, pollout, trans_ev, collect, select}

-- The descriptors that `poll` marked.
unfoldable pub active_fds : List PollFd → List PollFd
active_fds [] = []
active_fds (p ∷ ps) = let rest = active_fds ps in if ltb 0 p.revents then p ∷ rest else rest

abbrev pub event_of : PollFd → Event
event_of p = record { revents = trans_ev p.revents; fd = p.fd }

no_elements : (l : List PollFd) → length l ≡ 0 → l ≡ []
no_elements [] h = refl
no_elements (p ∷ l) h = absurd (omega arith)

collect-active_fds :
    (ps : List PollFd) (n : ℕ) (events : List Event)
    → n ≡ length (active_fds ps)
    → collect ps n events ≡ events ++ map event_of (active_fds ps)
unfolding collect active_fds
collect-active_fds [] n events h = sym (append-nil events)
collect-active_fds (p ∷ ps) zero events h =
    sym (append-nil events)
    ∙ ap (λ l. events ++ map event_of l) (sym (no_elements (active_fds (p ∷ ps)) (sym h)))
collect-active_fds (p ∷ ps) (suc n) events h = elim (Bool-cases (ltb 0 p.revents)) [
  | inl e ↦ rw e (
      collect-active_fds ps n (events ++ event_of p ∷ []) (omega (arith, h ∙ ap length (marked e)))
      ∙ append_assoc events (event_of p ∷ []) (map event_of (active_fds ps)))
  | inr e ↦ rw e (collect-active_fds ps (suc n) events (h ∙ ap length (unmarked e)))
]
  where
    marked : ltb 0 p.revents ≡ true → active_fds (p ∷ ps) ≡ p ∷ active_fds ps
    marked e = rw e

    unmarked : ltb 0 p.revents ≡ false → active_fds (p ∷ ps) ≡ active_fds ps
    unmarked e = rw e

-- Where poll returns a number above 0 that is the number of the descriptors it marked, Select
-- appends the translated events of those, in the order of the array, and returns 0.
pub select-active_fds :
    (s : PollSelector) (ps : List PollFd) (n : ℕ) (events : List Event)
    → suc n ≡ length (active_fds ps)
    → select s (some (suc n, ps)) events
      ≡ some (ret_0, record s { pollfds = ps }, events ++ map event_of (active_fds ps))
unfolding select
select-active_fds s ps n events h = rw (collect-active_fds ps (suc n) events h)

-- The translated flags, from the two tests.
translated-flags :
    (r w : Bool)
    → (has (or_if (or_if ev_none r ev_read) w ev_write) ev_read ≡ r)
      × (has (or_if (or_if ev_none r ev_read) w ev_write) ev_write ≡ w)
translated-flags r w = ground arith

pub trans_ev-flags :
    (revents : ℕ)
    → (has (trans_ev revents) ev_read ≡ has revents pollin)
      × (has (trans_ev revents) ev_write ≡ has revents pollout)
unfolding trans_ev
trans_ev-flags revents = translated-flags (has revents pollin) (has revents pollout)
