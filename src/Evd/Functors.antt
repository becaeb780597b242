-- ===== src/Evd/Functors.antt =====
-- The functors of rpc/event_dispatcher.cpp that other threads hand to the loop. A functor is a number.
-- Every access to the shared state is a step of its own.
pub mod Order
use yamq.Prelude.{ℕ, ◌≡◌, Bool, true, false, Option, none, some, List, [], ◌∷◌, ◌++◌, if◌then◌else◌}

-- `running` are the functors that `runPendingFunctor` has taken and not called, while it runs.
pub record Functors : Type 0 where
  pub pending : List ℕ
  pub running : Option (List ℕ)
  pub called : List ℕ
  pub done : Bool
  pub calling : Bool
  pub wakeups : List (Unit {0})

abbrev pub functors : Functors
functors = record {
  pending = [];
  running = none;
  called = [];
  done = true;
  calling = false;
  wakeups = [];
}

-- `addPendingFunctor`: the push under the mutex, and the write behind it.
abbrev pub push_functor : Functors → ℕ → Functors
push_functor e f = record e { pending = e.pending ++ f ∷ [] }

abbrev pub mark : Functors → Functors
mark e = record e { done = false }

-- The wakeup of `RunInEvd` and `SyncRunInEvd`.
pub wake_if_calling : Functors → Functors
wake_if_calling e = if e.calling then record e { wakeups = tt ∷ e.wakeups } else e

-- `runPendingFunctor`: the flag, the swap, one call, and what follows the calls.
abbrev pub begin_calls : Functors → Functors
begin_calls e = record e { calling = true }

abbrev pub swap_functors : Functors → Functors
swap_functors e = record e { pending = []; running = some e.pending }

abbrev pub call_functor : Functors → ℕ → List ℕ → Functors
call_functor e f fs = record e { running = some fs; called = e.called ++ f ∷ [] }

abbrev pub end_calls : Functors → Functors
end_calls e = record e { running = none; calling = false; done = true }

-- The wait of `SyncRunInEvd` is over.
abbrev pub returns : Functors → Bool
returns e = e.done

-- `RunInEvd` in the thread of the loop calls the functor at once.
abbrev pub run_now : Functors → ℕ → Functors
run_now e f = record e { called = e.called ++ f ∷ [] }

-- The steps of all threads, each where its program has come to.
pub data Step : Functors → Functors → Type 0 where
  pushes : (e : Functors) (f : ℕ) → Step e (push_functor e f)
  marks : (e : Functors) → Step e (mark e)
  wakes : (e : Functors) → Step e (wake_if_calling e)
  begins : (e : Functors) → e.running ≡ none → Step e (begin_calls e)
  swaps : (e : Functors) → e.running ≡ none → Step e (swap_functors e)
  calls :
      (e : Functors) (f : ℕ) (fs : List ℕ)
      → e.running ≡ some (f ∷ fs)
      → Step e (call_functor e f fs)
  ends : (e : Functors) → e.running ≡ some [] → Step e (end_calls e)

-- The functor that a step hands over.
abbrev pub handed : {e e' : Functors} → Step e e' → List ℕ
handed (pushes e f) = f ∷ []
handed _ = []

pub data Steps : Functors → Functors → List ℕ → Type 0 where
  stay : (e : Functors) → Steps e e []
  go :
      {e e1 e2 : Functors} {fs : List ℕ} (s : Step e e1)
      → Steps e1 e2 fs
      → Steps e e2 (handed s ++ fs)
