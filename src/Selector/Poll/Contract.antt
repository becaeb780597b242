-- ===== src/Selector/Poll/Contract.antt =====
-- PollSelector is a selector as the dispatcher needs it.
use yamq.Prelude.{
  ℕ, ◌-◌, ◌≡◌, ◌≢◌, refl, sym, subst, ap, ◌∙◌, ◌⊎◌, inl, inr, true, false, none, some, List, [],
  ◌∷◌, ◌++◌, arith, length, length-append, length-set, get_elem?, set, get_elem?-lt,
  get_elem?-append, get_elem?-set_self, get_elem?-set_ne, ◌==◌, ==_iff, Bool-cases, Option-cases,
  ◌>>=◌, find, IsUnique, find-put_key, find-put_key_ne, has,
}
use yamq.Selector.{ev_read, ev_write, interest, ret_0, Selector}
use yamq.Selector.Runs.{Request, Meants, map_run, run, run-map_run}
use yamq.Selector.Poll.{poll_selector, PollFd, PollSelector, poll_events, add, update, remove}
use yamq.Selector.Poll.Watch.{
  Indexed, entry, watched, watched_events, watched_flags, pollfd, extended-last, add-Indexed,
}
use yamq.Selector.Poll.Remove.{remove-Without}

-- The entry of a watched descriptor.
pub watched-entry :
    (s : PollSelector) (fd : ℕ)
    → watched s fd ≢ none
    → (idx : ℕ) × (find fd s.fd_idx_map ≡ some idx)
unfolding watched entry
watched-entry s fd h = elim (Option-cases (find fd s.fd_idx_map)) [
  | inl e ↦ absurd (h (rw e))
  | inr found ↦ found
]

watched-none :
    (s : PollSelector) (fd : ℕ) → Indexed s → watched s fd ≡ none → find fd s.fd_idx_map ≡ none
unfolding watched entry
watched-none s fd v h = elim (Option-cases (find fd s.fd_idx_map)) [
  | inl e ↦ e
  | inr (idx, found) ↦ let (p, at, _) = v.located fd idx found in cc (sym h ∙ lem idx p found at)
]
  where
    lem :
        (idx : ℕ) (p : PollFd)
        → find fd s.fd_idx_map ≡ some idx
        → get_elem? s.pollfds idx ≡ some p
        → watched s fd ≡ some (watched_events p)
    lem idx p found at = rw (found, at)

-- `Add` of a descriptor that is not watched.
pub add_watched :
    (s : PollSelector) (fd events : ℕ)
    → Indexed s
    → watched s fd ≡ none
    → Indexed (add s fd events)
      × (watched (add s fd events) fd ≡ some (interest events))
      × ((i : ℕ) → i ≢ fd → watched (add s fd events) i ≡ watched s i)
unfolding watched entry add
add_watched s fd events v h = (
  add-Indexed s fd events v new,
  rw (find-put_key fd m s.fd_idx_map, extended-last s (pollfd fd events) m end new)
      (ap some (watched_flags (has events ev_read) (has events ev_write))),
  λ i d. rw (find-put_key_ne m s.fd_idx_map d) (others i (Option-cases (find i s.fd_idx_map))),
)
  where
    new : find fd s.fd_idx_map ≡ none
    new = watched-none s fd v h

    m : ℕ
    m = length (s.pollfds ++ pollfd fd events ∷ []) - 1

    end : m ≡ length s.pollfds
    end = omega (arith, length-append s.pollfds (pollfd fd events ∷ []))

    others :
        (i : ℕ)
        → (find i s.fd_idx_map ≡ none) ⊎ ((idx : ℕ) × (find i s.fd_idx_map ≡ some idx))
        → (find i s.fd_idx_map >>= get_elem? (s.pollfds ++ pollfd fd events ∷ []) >>= λ p.
            some (watched_events p))
          ≡ (find i s.fd_idx_map >>= get_elem? s.pollfds >>= λ p. some (watched_events p))
    others i (inl e) = rw e
    others i (inr (idx, e)) =
        let (p, at, _) = v.located i idx e in
        rw (
          e,
          get_elem?-append s.pollfds (pollfd fd events ∷ []) idx (get_elem?-lt s.pollfds idx at),
        )

-- `Update` of a watched descriptor.
module _ (s : PollSelector) (fd idx events : ℕ) (p : PollFd) (v : Indexed s)
    (found : find fd s.fd_idx_map ≡ some idx) (at : get_elem? s.pollfds idx ≡ some p)
    (named : p.fd ≡ fd) where
  abbrev pub p' : PollFd
  p' = record p { events = poll_events events }

  abbrev pub s' : PollSelector
  s' = record s { pollfds = set s.pollfds idx p' }

  here : get_elem? s'.pollfds idx ≡ some p'
  here = get_elem?-set_self s.pollfds idx p' (get_elem?-lt s.pollfds idx at)

  elsewhere : (j : ℕ) → (j == idx) ≡ false → get_elem? s'.pollfds j ≡ get_elem? s.pollfds j
  elsewhere j e = get_elem?-set_ne s.pollfds p' (λ d. cc ((==_iff j idx).1 (sym d)))

  same_fd : (i j : ℕ) → find i s.fd_idx_map ≡ some j → (j == idx) ≡ true → fd ≡ i
  same_fd i j h e =
      let (q, at', named') = v.located i j h in
      let same : p ≡ q = cc ((==_iff j idx).0 e) in sym named ∙ ap (λ r. r.fd) same ∙ named'

  pub update-Indexed : Indexed s'
  update-Indexed = record {
    unique = v.unique;
    sized = omega (arith, v.sized, length-set s.pollfds idx p');
    located = λ i j h. elim (Bool-cases (j == idx)) [
      | inl e ↦ (
        p',
        subst (λ k. get_elem? s'.pollfds k ≡ some p') (sym ((==_iff j idx).0 e)) here,
        named ∙ same_fd i j h e,
      )
      | inr e ↦ let (q, at', named') = v.located i j h in (q, elsewhere j e ∙ at', named')
    ];
    indexed = λ j q h. elim (Bool-cases (j == idx)) [
      | inl e ↦
          let same : p' ≡ q = cc (here, (==_iff j idx).0 e) in
          subst (λ r. find r.fd s.fd_idx_map ≡ some j) same
            (ap (λ k. find k s.fd_idx_map) named ∙ found ∙ ap some (sym ((==_iff j idx).0 e)))
      | inr e ↦ v.indexed j q (sym (elsewhere j e) ∙ h)
    ];
  }

  pub update-kept : (i : ℕ) → i ≢ fd → watched s' i ≡ watched s i
  unfolding watched entry
  update-kept i d = elim (Option-cases (find i s.fd_idx_map)) [
    | inl e ↦ rw e
    | inr (j, e) ↦ rw (e, elsewhere j (other j e (Bool-cases (j == idx))))
  ]
    where
      other :
          (j : ℕ)
          → find i s.fd_idx_map ≡ some j
          → ((j == idx) ≡ true) ⊎ ((j == idx) ≡ false)
          → (j == idx) ≡ false
      other j e (inl b) = absurd (d (sym (same_fd i j e b)))
      other j e (inr b) = b

  pub update-found :
      (update s fd events ≡ some (ret_0, s')) × (watched s' fd ≡ some (interest events))
  unfolding update watched entry
  update-found = (
    rw (update, found, at),
    rw (found, here) (ap some (watched_flags (has events ev_read) (has events ev_write))),
  )

pub watched-gone : (s : PollSelector) (fd : ℕ) → find fd s.fd_idx_map ≡ none → watched s fd ≡ none
unfolding watched entry
watched-gone s fd h = rw h

pub watched-kept :
    (s s' : PollSelector) (i : ℕ) → entry s' i ≡ entry s i → watched s' i ≡ watched s i
unfolding watched
watched-kept s s' i h = rw h

unfoldable pub poll_Selector : Selector PollSelector
poll_Selector = record {
  add = λ s fd events. some (ret_0, add s fd events);
  update = update;
  remove = remove;
  watched = watched;
  Valid = Indexed;
  add_watched = λ s fd events v h.
      let (v', now, kept) = add_watched s fd events v h in (add s fd events, refl, v', now, kept);
  update_watched = λ s fd events v h.
      let (idx, found) = watched-entry s fd h in
      let (p, at, named) = v.located fd idx found in
      let (e, now) = update-found s fd idx events p v found at named in
      (
        s' s fd idx events p v found at named,
        e,
        update-Indexed s fd idx events p v found at named,
        now,
        update-kept s fd idx events p v found at named,
      );
  remove_watched = λ s fd v h.
      let (idx, found) = watched-entry s fd h in
      let (s', e, w) = remove-Without s fd idx v found in
      (s', e, w.valid, watched-gone s' fd w.gone, λ i d. watched-kept s s' i (w.kept i d));
}

-- From the empty PollSelector, every sequence of Add of unwatched, Update and Remove of watched
-- descriptors succeeds, keeps the index and the array of pollfds naming the same descriptors, and
-- watches what the sequence makes of a finite map.
pub run-poll :
    (rs : List Request)
    → Meants rs (λ i. none)
    → (s : PollSelector) × (run poll_Selector rs poll_selector ≡ some s)
      × Indexed s
      × ((i : ℕ) → watched s i ≡ map_run rs (λ i. none) i)
unfolding poll_Selector watched entry IsUnique
run-poll rs h =
    run-map_run poll_Selector rs poll_selector (λ i. none)
      (record {
        unique = tt;
        sized = refl;
        located = λ fd idx e. absurd (cc);
        indexed = λ idx p e. absurd (cc);
      })
      (λ i. refl) h
