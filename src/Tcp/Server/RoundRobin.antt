-- ===== src/Tcp/Server/RoundRobin.antt =====
-- multi::Server gives the connections to its workers in turn.
use yamq.Prelude.{
  ℕ, zero, suc, ◌+◌, ◌%◌, ◌<◌, ◌≡◌, sym, ap, ◌∙◌, inl, inr, Option, some, List, [], ◌∷◌, arith,
  length, get_elem?, get_elem?-some, leb, Bool-cases, ◌>>=◌,
}
use native.Mathlib.Nat.{mod_self, mod-eq_of_lt, mod-lt, mod-add-mod}
use yamq.Tcp.Server.{Workers, wrap, next_evd}

-- The worker after `n` calls.
unfoldable pub calls : ℕ → Workers → Option Workers
calls zero w = some w
calls (suc n) w = next_evd w w.evds >>= λ r. calls n r.1

abbrev pub at : Workers → ℕ → Workers
at w k = record w { next_evd_id = k }

wrap-mod : (k size : ℕ) → k < size → wrap (k + 1) size ≡ (k + 1) % size
wrap-mod k size h = elim (Bool-cases (leb size (k + 1))) [
  | inl e ↦
      let same : k + 1 ≡ size = ground arith in
      rw e (sym (mod_self size) ∙ ap (λ n. n % size) (sym same))
  | inr e ↦ rw e (sym (mod-eq_of_lt (ground arith)))
]

-- A call gives the worker whose turn it is, and the turn passes on.
pub next_evd-turn :
    (w : Workers)
    → w.next_evd_id < length w.evds
    → (evd : ℕ) × (get_elem? w.evds w.next_evd_id ≡ some evd)
      × (next_evd w w.evds ≡ some (evd, at w ((w.next_evd_id + 1) % length w.evds)))
unfolding next_evd
next_evd-turn w h = go w.evds h
  where
    go :
        (evds : List ℕ)
        → w.next_evd_id < length evds
        → (evd : ℕ) × (get_elem? evds w.next_evd_id ≡ some evd)
          × (next_evd w evds ≡ some (evd, at w ((w.next_evd_id + 1) % length evds)))
    go [] h = absurd (omega arith)
    go (e ∷ evds) h =
        let (evd, found) = get_elem?-some (e ∷ evds) w.next_evd_id h in
        (
          evd,
          found,
          rw (next_evd, found)
              (ap (λ k. some (evd, at w k)) (wrap-mod w.next_evd_id (suc (length evds)) h)),
        )

-- From an index within the workers, after any number of calls of nextEvd the index has moved on by
-- that number, modulo the number of workers.
pub calls-mod :
    (n : ℕ) (w : Workers)
    → w.next_evd_id < length w.evds
    → calls n w ≡ some (at w ((w.next_evd_id + n) % length w.evds))
unfolding calls
calls-mod zero w h =
    ap (λ k. some (at w k))
      (sym (mod-eq_of_lt h)
        ∙ ap (λ k. k % length w.evds) {x = w.next_evd_id} {y = w.next_evd_id + 0} (omega arith))
calls-mod (suc n) w h =
    let (evd, found, e) = next_evd-turn w h in
    let size = length w.evds in
    let w1 = at w ((w.next_evd_id + 1) % size) in
    rw e (
      calls-mod n w1 (mod-lt (w.next_evd_id + 1) (omega arith))
      ∙ ap (λ k. some (at w k))
          (mod-add-mod (w.next_evd_id + 1) size n
            ∙ ap (λ k. k % size) {x = w.next_evd_id + 1 + n} {y = w.next_evd_id + suc n}
                (omega arith)))
