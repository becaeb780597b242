-- ===== src/Evd/Functors/Order.antt =====
-- Functors are called in the order in which they were handed over, each once; the wait of
-- `SyncRunInEvd` may be over before its functor is called.
use yamq.Prelude.{ℕ, ◌≡◌, refl, ◌∙◌, true, Option, none, some, List, [], ◌∷◌, ◌++◌, arith}
use yamq.Evd.Functors.{
  Functors, push_functor, mark, wake_if_calling, end_calls, returns, pushes, marks, wakes, ends,
  Steps, stay, go,
}

abbrev pub in_progress : Option (List ℕ) → List ℕ
in_progress none = []
in_progress (some fs) = fs

-- All functors, in the order of their calls, past and to come.
abbrev pub order : Functors → List ℕ
order e = e.called ++ (in_progress e.running ++ e.pending)

wake-running : (e : Functors) → (wake_if_calling e).running ≡ e.running
unfolding wake_if_calling
wake-running e = ground arith

wake-called : (e : Functors) → (wake_if_calling e).called ≡ e.called
unfolding wake_if_calling
wake-called e = ground arith

wake-pending : (e : Functors) → (wake_if_calling e).pending ≡ e.pending
unfolding wake_if_calling
wake-pending e = ground arith

-- Where the loop has called all it had taken, another thread can hand a functor over and mark it,
-- and the end of the calls then ends the wait of SyncRunInEvd while the functor is pending and has
-- not been called.
pub sync-early :
    (e : Functors) (f : ℕ)
    → e.running ≡ some []
    → let e' = end_calls (wake_if_calling (mark (push_functor e f))) in
      Steps e e' (f ∷ [])
      × (returns e' ≡ true)
      × (e'.called ≡ e.called)
      × (e'.pending ≡ e.pending ++ f ∷ [])
sync-early e f h =
    let e1 = mark (push_functor e f) in
    (
      go (pushes e f) (
          go (marks (push_functor e f))
            (go (wakes e1) (go (ends (wake_if_calling e1) (wake-running e1 ∙ h)) (stay _)))),
      refl,
      wake-called e1,
      wake-pending e1,
    )
