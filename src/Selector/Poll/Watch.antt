-- ===== src/Selector/Poll/Watch.antt =====
-- PollSelector keeps its index right: the operations change just the entry of their descriptor.
use yamq.Prelude.{
  ℕ, ◌<◌, ◌≡◌, refl, sym, subst, ap, ◌∙◌, inl, inr, Bool, true, false, Option, none, some, [], ◌∷◌,
  ◌++◌, arith, length, length-append, get_elem?, get_elem?-lt, get_elem?-append,
  get_elem?-append_end, ◌==◌, ==_iff, Bool-cases, ◌>>=◌, or_if, find, put_key, IsUnique,
  find-put_key, find-put_key_ne, length-put_key_new, put_key-IsUnique, has,
}
use yamq.Selector.{Interest}
use yamq.Selector.Poll.{PollFd, PollSelector, pollin, pollout, poll_events, add}

-- The index and the array name the same descriptors.
pub record Indexed (s : PollSelector) : Type 0 where
  pub unique : IsUnique s.fd_idx_map
  pub sized : length s.fd_idx_map ≡ length s.pollfds
  pub located :
      (fd idx : ℕ)
      → find fd s.fd_idx_map ≡ some idx
      → (p : PollFd) × (get_elem? s.pollfds idx ≡ some p) × (p.fd ≡ fd)
  pub indexed :
      (idx : ℕ) (p : PollFd) → get_elem? s.pollfds idx ≡ some p → find p.fd s.fd_idx_map ≡ some idx

-- The entry of a descriptor.
unfoldable pub entry : PollSelector → ℕ → Option PollFd
entry s fd = find fd s.fd_idx_map >>= get_elem? s.pollfds

abbrev pub watched_events : PollFd → Interest
watched_events p = (has p.events pollin, has p.events pollout)

unfoldable pub watched : PollSelector → ℕ → Option Interest
unfolding entry
watched s fd = entry s fd >>= λ p. some (watched_events p)

-- The flags asked for are those that `poll` is told.
pub watched_flags :
    (r w : Bool)
    → ◌≡◌ {A = Interest}
        (
          has (or_if (or_if 0 r pollin) w pollout) pollin,
          has (or_if (or_if 0 r pollin) w pollout) pollout,
        )
        (r, w)
watched_flags true true = refl
watched_flags true false = refl
watched_flags false true = refl
watched_flags false false = refl

-- The entry that `add` makes.
abbrev pub pollfd : ℕ → ℕ → PollFd
pollfd fd events = record { fd = fd; events = poll_events events; revents = 0 }

-- A new descriptor at the end, its index `m`.
module _ (s : PollSelector) (p : PollFd) (m : ℕ) (end : m ≡ length s.pollfds)
    (new : find p.fd s.fd_idx_map ≡ none) where
  abbrev pub extended : PollSelector
  extended = record { pollfds = s.pollfds ++ p ∷ []; fd_idx_map = put_key p.fd m s.fd_idx_map }

  pub extended-last : get_elem? extended.pollfds m ≡ some p
  extended-last = rw end (get_elem?-append_end s.pollfds [] p)

  extended-located :
      Indexed s
      → (i idx : ℕ) → find i extended.fd_idx_map ≡ some idx
      → (q : PollFd) × (get_elem? extended.pollfds idx ≡ some q) × (q.fd ≡ i)
  extended-located v i idx h = elim (Bool-cases (i == p.fd)) [
    | inl e ↦
        let e' = (==_iff i p.fd).0 e in
        let same : m ≡ idx = cc (find-put_key p.fd m s.fd_idx_map) in
        (p, subst (λ j. get_elem? extended.pollfds j ≡ some p) same extended-last, sym e')
    | inr e ↦
        let (q, at, named) =
          v.located i idx
            (sym (find-put_key_ne m s.fd_idx_map (λ d. cc ((==_iff i p.fd).1 d))) ∙ h) in
        (q, get_elem?-append s.pollfds _ idx (get_elem?-lt s.pollfds idx at) ∙ at, named)
  ]

  extended_converse :
      Indexed s
      → (idx : ℕ) (q : PollFd) → get_elem? extended.pollfds idx ≡ some q
      → find q.fd extended.fd_idx_map ≡ some idx
  extended_converse v idx q h = elim (Bool-cases (idx == m)) [
    | inl e ↦
        let same : p ≡ q = cc (extended-last, (==_iff idx m).0 e) in
        subst (λ r. find r.fd extended.fd_idx_map ≡ some idx) same
          (find-put_key p.fd m s.fd_idx_map ∙ ap some (sym ((==_iff idx m).0 e)))
    | inr e ↦
        let at : get_elem? s.pollfds idx ≡ some q =
          sym (get_elem?-append s.pollfds (p ∷ []) idx (inside e)) ∙ h in
        let found = v.indexed idx q at in
        find-put_key_ne m s.fd_idx_map (λ d. cc (found, new, ap (λ j. find j s.fd_idx_map) d))
        ∙ found
  ]
    where
      inside : (idx == m) ≡ false → idx < length s.pollfds
      inside e =
          ground (arith, end, get_elem?-lt extended.pollfds idx h, length-append s.pollfds (p ∷ []))

  extended-Indexed : Indexed s → Indexed extended
  extended-Indexed v = record {
    unique = put_key-IsUnique p.fd m s.fd_idx_map v.unique;
    sized = omega (
      arith,
      v.sized,
      length-append s.pollfds (p ∷ []),
      length-put_key_new p.fd m s.fd_idx_map new,
    );
    located = extended-located v;
    indexed = extended_converse v;
  }

pub add-Indexed :
    (s : PollSelector) (fd events : ℕ)
    → Indexed s
    → find fd s.fd_idx_map ≡ none
    → Indexed (add s fd events)
unfolding add
add-Indexed s fd events v new =
    let p = pollfd fd events in
    extended-Indexed s p _ (omega (arith, length-append s.pollfds (p ∷ []))) new v
