-- ===== src/Selector/Epoll/Contract.antt =====
-- EpollSelector is a selector as the dispatcher needs it, where the kernel keeps its word.
use yamq.Prelude.{
  ℕ, ◌≡◌, ◌≢◌, refl, ap, Bool, true, false, inl, inr, Option, none, some, Option-cases, ◌>>=◌, has,
  or_if,
}
use yamq.Selector.{ev_read, ev_write, Interest, interest, Selector}
use yamq.Selector.Epoll.{
  Kernel, EpollSelector, epollin, epollout, epoll_events, control, add, update, remove,
}

abbrev seen : ℕ → Interest
seen evs = (has evs epollin, has evs epollout)

seen_flags :
    (r w : Bool)
    → ◌≡◌ {A = Interest}
        (
          has (or_if (or_if 0 r epollin) w epollout) epollin,
          has (or_if (or_if 0 r epollin) w epollout) epollout,
        )
        (r, w)
seen_flags true true = refl
seen_flags true false = refl
seen_flags false true = refl
seen_flags false false = refl

module _ (kernel : Kernel) where
  pub watched_epoll : EpollSelector kernel → ℕ → Option Interest
  watched_epoll s fd = kernel.registered s.epfd fd >>= λ evs. some (seen evs)

  registered_none :
      (s : EpollSelector kernel) (fd : ℕ)
      → watched_epoll s fd ≡ none
      → kernel.registered s.epfd fd ≡ none
  unfolding watched_epoll
  registered_none s fd h = elim (Option-cases (kernel.registered s.epfd fd)) [
    | inl e ↦ e
    | inr (evs, e) ↦ cc (ap {A = Option ℕ} (λ o. o >>= λ evs. some (seen evs)) e)
  ]

  registered_some :
      (s : EpollSelector kernel) (fd : ℕ)
      → watched_epoll s fd ≢ none
      → kernel.registered s.epfd fd ≢ none
  unfolding watched_epoll
  registered_some s fd h e = h (rw e)

  watched_new :
      (s : EpollSelector kernel) (fd events : ℕ)
      → kernel.registered s.epfd fd ≡ some (epoll_events events)
      → watched_epoll s fd ≡ some (interest events)
  unfolding watched_epoll
  watched_new s fd events e = rw e (ap some (seen_flags (has events ev_read) (has events ev_write)))

  pub epoll_Selector : Selector (EpollSelector kernel)
  unfolding add update remove control watched_epoll
  epoll_Selector = record {
    add = add kernel;
    update = update kernel;
    remove = remove kernel;
    watched = watched_epoll;
    Valid = λ s. Unit {0};
    add_watched = λ s fd events v h.
        let (k, e, now, kept) =
          kernel.add_absent s.epfd fd (epoll_events events) (registered_none s fd h) in
        (
          record s { epfd = k },
          rw e,
          tt,
          watched_new (record s { epfd = k }) fd events now,
          λ i d. rw (kept i d),
        );
    update_watched = λ s fd events v h.
        let (k, e, now, kept) =
          kernel.mod_present s.epfd fd (epoll_events events) (registered_some s fd h) in
        (
          record s { epfd = k },
          rw e,
          tt,
          watched_new (record s { epfd = k }) fd events now,
          λ i d. rw (kept i d),
        );
    remove_watched = λ s fd v h.
        let (k, e, now, kept) = kernel.del_present s.epfd fd 0 (registered_some s fd h) in
        (record s { epfd = k }, rw e, tt, rw now, λ i d. rw (kept i d));
  }
