-- ===== src/Selector/Epoll/Events.antt =====
-- EpollSelector.Select: what is delivered, and how the flags are translated.
use yamq.Prelude.{
  ℕ, suc, ◌+◌, ◌-◌, ◌*◌, ◌≤◌, ◌<◌, ◌≡◌, ◌≢◌, refl, sym, subst, ap, ◌∙◌, inl, inr, Bool, false, ◌||◌,
  some, List, [], ◌∷◌, ◌++◌, map, append_assoc, append-nil, arith, length, length-append,
  length-take, length-replicate, get_elem?, get_elem?-append_end, take, drop, replicate, splice,
  length-splice, ◌==◌, ==_iff, Bool-cases, if◌then◌else◌, has, or_if,
}
use yamq.Selector.{ev_none, ev_read, ev_write, ev_error, ev_close, Event, ret_0}
use yamq.Selector.Epoll.{
  EpollEvent, event_of, collect, resize_events, select, trans_epollev_to_ev, epollin, epollout,
  epollpri, epollerr, epollhup, epollrdhup,
}

collect-map :
    (front ready rest vec : List EpollEvent) (i : ℕ) (events : List Event)
    → vec ≡ front ++ (ready ++ rest)
    → i ≡ length front
    → collect (length ready) i vec events ≡ some (events ++ map event_of ready)
unfolding collect
collect-map front [] rest vec i events whole at = rw (append-nil events)
collect-map front (e ∷ ready) rest vec i events whole at =
    rw (ap (λ v. get_elem? v i) whole, at, get_elem?-append_end front (ready ++ rest) e)
      (subst
        (λ j.
          collect (length ready) j vec (events ++ event_of e ∷ [])
          ≡ some (events ++ map event_of (e ∷ ready)))
        (ap (λ j. j + 1) at)
        (collect-map (front ++ e ∷ []) ready rest vec (i + 1) (events ++ event_of e ∷ [])
            (whole ∙ sym (append_assoc front (e ∷ []) (ready ++ rest)))
            (omega (arith, at, length-append front (e ∷ [])))
          ∙ ap some (append_assoc events (event_of e ∷ []) (map event_of ready))))

length-resize_events : (vec : List EpollEvent) (n : ℕ) → length (resize_events vec n) ≡ n
unfolding resize_events
length-resize_events vec n =
    let fill : EpollEvent = record { events = 0; fd = 0 } in
    omega (
      arith,
      length-append (take n vec) (replicate (n - length vec) fill),
      length-take n vec,
      length-replicate (n - length vec) fill,
    )

-- Where epoll_wait reports no more events than the vector, which is not empty, has room for, Select
-- appends them all, translated and in order, returns 0, and leaves the vector no shorter and with
-- room for one more event than were reported.
pub select-epoll_wait :
    (vec ready : List EpollEvent) (events : List Event)
    → 0 < length vec
    → length ready ≤ length vec
    → (vec' : List EpollEvent) × (select vec (some ready) events
        ≡ some (ret_0, vec', events ++ map event_of ready))
      × (length vec ≤ length vec')
      × (length ready < length vec')
unfolding select
select-epoll_wait vec [] events h k = (vec, rw (append-nil events), omega arith, omega arith)
select-epoll_wait vec (e ∷ ready) events h k = (
  if length filled == n then resize_events filled (n * 2) else filled,
  rw (collect-map [] (e ∷ ready) (drop (0 + n) vec) filled 0 events refl refl),
  grown.0,
  grown.1,
)
  where
    n : ℕ
    n = suc (length ready)

    filled : List EpollEvent
    filled = splice 0 (e ∷ ready) vec

    size : length filled ≡ length vec
    size = length-splice 0 (e ∷ ready) vec (omega arith)

    short : (length filled == n) ≡ false → n ≢ length filled
    short room = ground arith

    grown :
        (length vec ≤ length (if length filled == n then resize_events filled (n * 2) else filled))
        × (n < length (if length filled == n then resize_events filled (n * 2) else filled))
    grown = elim (Bool-cases (length filled == n)) [
      | inl full ↦ rw full (
          omega
            (arith, size, (==_iff (length filled) n).0 full, length-resize_events filled (n * 2)))
      | inr room ↦ rw room (omega (arith, size, short room))
    ]

-- The translated flags, from the six tests.
abbrev translated : Bool → Bool → Bool → Bool → Bool → Bool → ℕ
translated w r p e h c =
    or_if
      (or_if (or_if (or_if (or_if (or_if ev_none w ev_write) r ev_read) p ev_read) e ev_error) h
        ev_error)
      c ev_close

translated-read : (w r p e h c : Bool) → has (translated w r p e h c) ev_read ≡ (r || p)
translated-read w r p e h c = ground arith

translated-write : (w r p e h c : Bool) → has (translated w r p e h c) ev_write ≡ w
translated-write w r p e h c = ground arith

translated-error : (w r p e h c : Bool) → has (translated w r p e h c) ev_error ≡ (e || h)
translated-error w r p e h c = ground arith

translated-close : (w r p e h c : Bool) → has (translated w r p e h c) ev_close ≡ c
translated-close w r p e h c = ground arith

-- The translated flags have EV_READ where epoll reported EPOLLIN or EPOLLPRI, EV_WRITE for
-- EPOLLOUT, EV_ERROR for EPOLLERR or EPOLLHUP, EV_CLOSE for EPOLLRDHUP, and none of these
-- otherwise.
pub trans_epollev_to_ev-flags :
    (epollev : ℕ)
    → (has (trans_epollev_to_ev epollev) ev_read ≡ (has epollev epollin || has epollev epollpri))
      × (has (trans_epollev_to_ev epollev) ev_write ≡ has epollev epollout)
      × (has (trans_epollev_to_ev epollev) ev_error
          ≡ (has epollev epollerr || has epollev epollhup))
      × (has (trans_epollev_to_ev epollev) ev_close ≡ has epollev epollrdhup)
unfolding trans_epollev_to_ev
trans_epollev_to_ev-flags epollev =
    let w = has epollev epollout in
    let r = has epollev epollin in
    let p = has epollev epollpri in
    let e = has epollev epollerr in
    let h = has epollev epollhup in
    let c = has epollev epollrdhup in
    (
      translated-read w r p e h c,
      translated-write w r p e h c,
      translated-error w r p e h c,
      translated-close w r p e h c,
    )
