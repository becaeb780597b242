-- ===== src/Selector/Poll/Dropped.antt =====
-- PollSelector.Remove of the last descriptor, and what a state without a descriptor is.
use yamq.Prelude.{
  ℕ, suc, ◌-◌, ◌<◌, ◌≡◌, ◌≢◌, sym, ap, ◌∙◌, inl, inr, none, some, List, [], ◌∷◌, arith, length,
  length-take, get_elem?, take, get_elem?-lt, get_elem?-take, Option-cases, find, erase, find-erase,
  find-erase_ne, length-erase, erase-IsUnique,
}
use yamq.Selector.Poll.{PollFd, PollSelector, pop_back}
use yamq.Selector.Poll.Watch.{Indexed, entry}

pub pop_back-take :
    (pfds : List PollFd) → 0 < length pfds → pop_back pfds ≡ some (take (length pfds - 1) pfds)
unfolding pop_back
pop_back-take [] h = absurd (omega arith)
pop_back-take (p ∷ pfds) h =
    ap (λ n. some (take n (p ∷ pfds))) {x = length pfds} {y = suc (length pfds) - 1} (omega arith)

-- A state without the descriptor: its other entries stand where `s` has them, or at `idx` what was last.
pub record Without (s : PollSelector) (fd : ℕ) (s' : PollSelector) : Type 0 where
  pub valid : Indexed s'
  pub gone : find fd s'.fd_idx_map ≡ none
  pub kept : (i : ℕ) → i ≢ fd → entry s' i ≡ entry s i

module _ (s : PollSelector) (fd idx : ℕ) (v : Indexed s)
    (found : find fd s.fd_idx_map ≡ some idx) where
  abbrev pub last : ℕ
  last = length s.pollfds - 1

  pub inside : idx < length s.pollfds
  inside = let (p, at, _) = v.located fd idx found in get_elem?-lt s.pollfds idx at

  -- Another descriptor has another index.
  pub apart : (i j : ℕ) → find i s.fd_idx_map ≡ some j → i ≢ fd → j ≢ idx
  apart i j h d e =
      let (p, at, named) = v.located i j h in
      let (q, at', named') = v.located fd idx found in
      let same : p ≡ q = cc e in d (sym named ∙ ap (λ r. r.fd) same ∙ named')

  abbrev pub dropped : PollSelector
  dropped = record { pollfds = take last s.pollfds; fd_idx_map = erase fd s.fd_idx_map }

  dropped-kept :
      last ≡ idx
      → (i j : ℕ) → find i s.fd_idx_map ≡ some j
      → i ≢ fd
      → get_elem? dropped.pollfds j ≡ get_elem? s.pollfds j
  dropped-kept e i j h d =
      let (p, at, _) = v.located i j h in
      get_elem?-take last s.pollfds j (omega (arith, get_elem?-lt s.pollfds j at, apart i j h d))

  pub dropped-Without : last ≡ idx → Without s fd dropped
  unfolding entry
  dropped-Without e = record {
    valid = record {
      unique = erase-IsUnique fd s.fd_idx_map v.unique;
      sized = omega (
        arith,
        v.sized,
        length-take last s.pollfds,
        length-erase fd idx s.fd_idx_map v.unique found,
      );
      located = located';
      indexed = indexed';
    };
    gone = find-erase fd s.fd_idx_map;
    kept = kept';
  }
    where
      other : (i j : ℕ) → find i (erase fd s.fd_idx_map) ≡ some j → i ≢ fd
      other i j h d = cc (h, ap (λ k. find k (erase fd s.fd_idx_map)) d, find-erase fd s.fd_idx_map)

      located' :
          (i j : ℕ)
          → find i (erase fd s.fd_idx_map) ≡ some j
          → (p : PollFd) × (get_elem? dropped.pollfds j ≡ some p) × (p.fd ≡ i)
      located' i j h =
          let d = other i j h in
          let h' = sym (find-erase_ne s.fd_idx_map d) ∙ h in
          let (p, at, named) = v.located i j h' in (p, dropped-kept e i j h' d ∙ at, named)

      indexed' :
          (j : ℕ) (p : PollFd)
          → get_elem? dropped.pollfds j ≡ some p
          → find p.fd (erase fd s.fd_idx_map) ≡ some j
      indexed' j p h =
          let small = get_elem?-lt dropped.pollfds j h in
          let small' : j < last = omega (arith, length-take last s.pollfds) in
          let old = v.indexed j p (sym (get_elem?-take last s.pollfds j small') ∙ h) in
          find-erase_ne s.fd_idx_map (λ d. omega (arith, same_index d old)) ∙ old
        where
          same_index : p.fd ≡ fd → find p.fd s.fd_idx_map ≡ some j → j ≡ idx
          same_index d old = cc (ap (λ k. find k s.fd_idx_map) d)

      kept' : (i : ℕ) → i ≢ fd → entry dropped i ≡ entry s i
      kept' i d = elim (Option-cases (find i s.fd_idx_map)) [
        | inl h ↦ rw (find-erase_ne s.fd_idx_map d, h)
        | inr (j, h) ↦ rw (find-erase_ne s.fd_idx_map d, h, dropped-kept e i j h d)
      ]
