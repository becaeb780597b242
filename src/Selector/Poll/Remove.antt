-- ===== src/Selector/Poll/Remove.antt =====
-- PollSelector.Remove: the last descriptor takes the place of the one removed, and the index follows.
use yamq.Prelude.{
  ℕ, ◌-◌, ◌≡◌, ◌≢◌, inl, inr, false, some, arith, length, get_elem?-some, ◌==◌, ==_iff, Bool-cases,
  find,
}
use yamq.Selector.{ret_0}
use yamq.Selector.Poll.{PollSelector, remove, drop_last, erase_fd}
use yamq.Selector.Poll.Watch.{Indexed}
use yamq.Selector.Poll.Dropped.{pop_back-take, Without, inside, dropped, dropped-Without}
use yamq.Selector.Poll.Swapped.{swapped, swap_remove-swapped, swapped-Without}

-- `Remove` of a watched descriptor.
pub remove-Without :
    (s : PollSelector) (fd idx : ℕ)
    → Indexed s
    → find fd s.fd_idx_map ≡ some idx
    → (s' : PollSelector) × (remove s fd ≡ some (ret_0, s')) × Without s fd s'
unfolding remove drop_last erase_fd
remove-Without s fd idx v found = elim (Bool-cases (idx == length s.fd_idx_map - 1)) [
  | inl e ↦ (
    dropped s fd idx v found,
    rw (remove, found, e, pop_back-take s.pollfds (omega (arith, inside s fd idx v found))),
    dropped-Without s fd idx v found
        (omega (arith, v.sized, (==_iff idx (length s.fd_idx_map - 1)).0 e)),
  )
  | inr e ↦
      let (p, at, _) = v.located fd idx found in
      let (back, ends) =
        get_elem?-some s.pollfds (length s.pollfds - 1) (omega (arith, inside s fd idx v found)) in
      (
        swapped s fd idx p back v found (before e) ends,
        rw (remove, found, e, swap_remove-swapped s fd idx p back v found (before e) ends at),
        swapped-Without s fd idx p back v found (before e) ends,
      )
]
  where
    before : (idx == length s.fd_idx_map - 1) ≡ false → idx ≢ length s.pollfds - 1
    before e = ground (arith, v.sized)
