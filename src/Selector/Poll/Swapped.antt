-- ===== src/Selector/Poll/Swapped.antt =====
-- PollSelector.Remove of another descriptor: the last one moves to its place.
use yamq.Prelude.{
  ℕ, ◌-◌, ◌<◌, ◌≡◌, ◌≢◌, sym, subst, ap, ◌∙◌, inl, inr, some, arith, length, length-take,
  length-set, get_elem?, set, take, get_elem?-lt, get_elem?-take, get_elem?-set_self,
  get_elem?-set_ne, ◌==◌, ==_iff, Bool-cases, Option-cases, find, put_key, erase, find-put_key,
  find-put_key_ne, find-erase, find-erase_ne, length-put_key_old, length-erase, put_key-IsUnique,
  erase-IsUnique,
}
use yamq.Selector.Poll.{PollFd, PollSelector, swap_remove}
use yamq.Selector.Poll.Watch.{Indexed, entry}
use yamq.Selector.Poll.Dropped.{pop_back-take, Without, inside, apart}

-- The last descriptor moved to the place of the one removed.
module _ (s : PollSelector) (fd idx : ℕ) (p back : PollFd) (v : Indexed s)
    (found : find fd s.fd_idx_map ≡ some idx) (before : idx ≢ length s.pollfds - 1)
    (ends : get_elem? s.pollfds (length s.pollfds - 1) ≡ some back) where
  abbrev tail : ℕ
  tail = length s.pollfds - 1

  abbrev pub swapped : PollSelector
  swapped = record {
    pollfds = take tail (set (set s.pollfds tail p) idx back);
    fd_idx_map = erase fd (put_key back.fd idx s.fd_idx_map);
  }

  back_found : find back.fd s.fd_idx_map ≡ some tail
  back_found = v.indexed tail back ends

  back-other : back.fd ≢ fd
  back-other d = before (cc (ap (λ k. find k s.fd_idx_map) d, back_found, found))

  in_front : idx < tail
  in_front = omega (arith, inside s fd idx v found, before)

  moved : get_elem? swapped.pollfds idx ≡ some back
  moved =
      get_elem?-take tail (set (set s.pollfds tail p) idx back) idx in_front
      ∙ get_elem?-set_self (set s.pollfds tail p) idx back
          (omega (arith, in_front, length-set s.pollfds tail p))

  unmoved : (j : ℕ) → j < tail → j ≢ idx → get_elem? swapped.pollfds j ≡ get_elem? s.pollfds j
  unmoved j small d =
      get_elem?-take tail (set (set s.pollfds tail p) idx back) j small
      ∙ (get_elem?-set_ne (set s.pollfds tail p) back (λ e. d (sym e))
          ∙ get_elem?-set_ne s.pollfds p (omega arith))

  -- The index of a descriptor that is neither removed nor moved.
  front : (i j : ℕ) → find i s.fd_idx_map ≡ some j → i ≢ back.fd → j < tail
  front i j h d =
      let (q, at, named) = v.located i j h in
      omega (arith, get_elem?-lt s.pollfds j at, apart s back.fd tail v back_found i j h d)

  find-back : find back.fd swapped.fd_idx_map ≡ some idx
  find-back =
      find-erase_ne (put_key back.fd idx s.fd_idx_map) back-other
      ∙ find-put_key back.fd idx s.fd_idx_map

  find-rest : (i : ℕ) → i ≢ fd → i ≢ back.fd → find i swapped.fd_idx_map ≡ find i s.fd_idx_map
  find-rest i d c =
      find-erase_ne (put_key back.fd idx s.fd_idx_map) d ∙ find-put_key_ne idx s.fd_idx_map c

  swapped-kept : (i : ℕ) → i ≢ fd → entry swapped i ≡ entry s i
  unfolding entry
  swapped-kept i d = elim (Bool-cases (i == back.fd)) [
    | inl e ↦
        subst (λ k. entry swapped k ≡ entry s k) (sym ((==_iff i back.fd).0 e))
          (rw (find-back, moved, back_found, ends))
    | inr e ↦
        let c : i ≢ back.fd = λ b. cc ((==_iff i back.fd).1 b) in
        elim (Option-cases (find i s.fd_idx_map)) [
          | inl h ↦ rw (find-rest i d c, h)
          | inr (j, h) ↦
              rw (find-rest i d c, h, unmoved j (front i j h c) (apart s fd idx v found i j h d))
        ]
  ]

  swapped-located :
      (i j : ℕ)
      → find i swapped.fd_idx_map ≡ some j
      → (q : PollFd) × (get_elem? swapped.pollfds j ≡ some q) × (q.fd ≡ i)
  swapped-located i j h = elim (Bool-cases (i == back.fd)) [
    | inl e ↦
        let same : idx ≡ j =
          cc (find-back, ap (λ k. find k swapped.fd_idx_map) ((==_iff i back.fd).0 e)) in
        (
          back,
          subst (λ k. get_elem? swapped.pollfds k ≡ some back) same moved,
          sym ((==_iff i back.fd).0 e),
        )
    | inr e ↦
        let c : i ≢ back.fd = λ b. cc ((==_iff i back.fd).1 b) in
        let h' = sym (find-rest i other c) ∙ h in
        let (q, at, named) = v.located i j h' in
        (q, unmoved j (front i j h' c) (apart s fd idx v found i j h' other) ∙ at, named)
  ]
    where
      other : i ≢ fd
      other d = cc (
        h,
        ap (λ k. find k swapped.fd_idx_map) d,
        find-erase fd (put_key back.fd idx s.fd_idx_map),
      )

  swapped-indexed :
      (j : ℕ) (q : PollFd)
      → get_elem? swapped.pollfds j ≡ some q
      → find q.fd swapped.fd_idx_map ≡ some j
  swapped-indexed j q h = elim (Bool-cases (j == idx)) [
    | inl e ↦
        let same : back ≡ q = cc (moved, h, ap (get_elem? swapped.pollfds) ((==_iff j idx).0 e)) in
        subst (λ r. find r.fd swapped.fd_idx_map ≡ some j) same
          (find-back ∙ ap some (sym ((==_iff j idx).0 e)))
    | inr e ↦
        let old = v.indexed j q (sym (unmoved j small (λ b. cc ((==_iff j idx).1 b))) ∙ h) in
        find-rest q.fd (λ d. cc ((==_iff j idx).1 (same_place d old)))
          (λ d. omega (arith, small, same_tail d old))
        ∙ old
  ]
    where
      small : j < tail
      small = omega (
        arith,
        get_elem?-lt swapped.pollfds j h,
        length-take tail (set (set s.pollfds tail p) idx back),
      )

      same_place : q.fd ≡ fd → find q.fd s.fd_idx_map ≡ some j → j ≡ idx
      same_place d old = cc (ap (λ k. find k s.fd_idx_map) d, found)

      same_tail : q.fd ≡ back.fd → find q.fd s.fd_idx_map ≡ some j → j ≡ tail
      same_tail d old = cc (ap (λ k. find k s.fd_idx_map) d, back_found)

  pub swap_remove-swapped :
      get_elem? s.pollfds idx ≡ some p
      → swap_remove s idx
        ≡ some (record {
          pollfds = take tail (set (set s.pollfds tail p) idx back);
          fd_idx_map = put_key back.fd idx s.fd_idx_map;
        })
  unfolding swap_remove
  swap_remove-swapped at =
      let same : length (set (set s.pollfds tail p) idx back) ≡ length s.pollfds =
        length-set (set s.pollfds tail p) idx back ∙ length-set s.pollfds tail p in
      rw (
        ends,
        at,
        pop_back-take (set (set s.pollfds tail p) idx back) (omega (arith, in_front, same)),
        same,
      )

  pub swapped-Without : Without s fd swapped
  swapped-Without = record {
    valid = record {
      unique = erase-IsUnique fd _ (put_key-IsUnique back.fd idx s.fd_idx_map v.unique);
      sized = omega (
        arith,
        v.sized,
        length-take tail (set (set s.pollfds tail p) idx back),
        length-set (set s.pollfds tail p) idx back,
        length-set s.pollfds tail p,
        length-put_key_old back.fd idx tail s.fd_idx_map back_found,
        length-erase fd idx (put_key back.fd idx s.fd_idx_map)
            (put_key-IsUnique back.fd idx s.fd_idx_map v.unique)
            (find-put_key_ne idx s.fd_idx_map (λ d. back-other (sym d)) ∙ found),
      );
      located = swapped-located;
      indexed = swapped-indexed;
    };
    gone = find-erase fd (put_key back.fd idx s.fd_idx_map);
    kept = swapped-kept;
  }
