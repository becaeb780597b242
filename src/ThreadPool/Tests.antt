-- ===== src/ThreadPool/Tests.antt =====
-- A run of the thread pool, and the theorem on it.
use yamq.Prelude.{◌≡◌, refl, true, [], ◌∷◌, ◌++◌}
use yamq.ThreadPool.{
  ThreadPool, thread_pool, waits, executes, returned, add_task, take_task, worker_step, adds, works,
  stops, Steps, stay, go,
}
use yamq.ThreadPool.Invariant.{IsSound, order, Steps-IsSound, thread_pool-IsSound}

-- One worker and room for one task: 7 is queued, taken and executed, the pool stopped, and the worker returns.
abbrev pool : ThreadPool
pool = thread_pool 1 1

abbrev at_end : ThreadPool
at_end = record {
  tasks = [];
  stop = true;
  max_task_size = 1;
  workers = returned ∷ [];
  started = 7 ∷ [];
}

run : Steps pool at_end (7 ∷ [])
unfolding thread_pool add_task take_task worker_step
run = go (adds {p = pool} 7 true refl) (
    go (works 0 waits refl refl) (
      go (works 0 (executes 7) refl refl)
        (go (stops _) (go (works 0 waits refl refl) (stay at_end)))))

Steps-IsSound_example : IsSound at_end × (order at_end ≡ order pool ++ 7 ∷ [])
Steps-IsSound_example = Steps-IsSound run (thread_pool-IsSound 1 1)
