-- ===== src/ThreadPool.antt =====
-- base/thread_pool.cpp: the pool of threads. Every section under the mutex is a step; a task is a number,
-- and a step that waits on a condition is not taken while the condition is false.
pub mod Invariant
mod Tests
use yamq.Prelude.{
  ℕ, zero, suc, ◌≡◌, Bool, true, false, not, ◌&&◌, ◌||◌, Option, none, some, List, [], ◌∷◌, ◌++◌,
  length, get_elem?, set, replicate, leb, ltb, if◌then◌else◌, ◌>>=◌,
}

-- A thread waits for a task, executes one, or has returned.
pub data Worker : Type 0 where
  waits : Worker
  executes : ℕ → Worker
  returned : Worker

-- `started` are the tasks that were taken, in their order.
pub record ThreadPool : Type 0 where
  pub tasks : List ℕ
  pub stop : Bool
  pub max_task_size : ℕ
  pub workers : List Worker
  pub started : List ℕ

pub thread_pool : ℕ → ℕ → ThreadPool
thread_pool k_thread_num task_size = record {
  tasks = [];
  stop = false;
  max_task_size = task_size;
  workers = replicate k_thread_num waits;
  started = [];
}

-- The queue is bounded and full.
abbrev pub is_full : ThreadPool → Bool
is_full p = ltb 0 p.max_task_size && leb p.max_task_size (length p.tasks)

-- `addTask`: `none` while it waits for room. After the stop the task is dropped; the result says whether
-- it was queued.
unfoldable pub add_task : ThreadPool → ℕ → Option (Bool × ThreadPool)
add_task p task =
    if p.stop
    then some (false, p)
    else if is_full p
    then none
    else some (true, record p { tasks = p.tasks ++ task ∷ [] })

-- A worker behind its wait: it returns where the pool is stopped and empty, and takes the first task
-- otherwise. `none` while it waits.
unfoldable pub take_task : ThreadPool → ℕ → List ℕ → Option ThreadPool
take_task p i [] = if p.stop then some (record p { workers = set p.workers i returned }) else none
take_task p i (task ∷ tasks) = some (record p {
  tasks = tasks;
  workers = set p.workers i (executes task);
  started = p.started ++ task ∷ [];
})

-- The next step of worker `i`.
unfoldable pub worker_step : ThreadPool → ℕ → Worker → Option ThreadPool
worker_step p i waits = take_task p i p.tasks
worker_step p i (executes task) = some (record p { workers = set p.workers i waits })
worker_step p i returned = none

-- The destructor, before it joins the threads.
abbrev pub shutdown : ThreadPool → ThreadPool
shutdown p = record p { stop = true }

-- The steps of the producers, the workers and the destructor.
pub data Step : ThreadPool → ThreadPool → Type 0 where
  adds :
      {p p' : ThreadPool} (task : ℕ) (queued : Bool)
      → add_task p task ≡ some (queued, p')
      → Step p p'
  works :
      {p p' : ThreadPool} (i : ℕ) (w : Worker)
      → get_elem? p.workers i ≡ some w
      → worker_step p i w ≡ some p'
      → Step p p'
  stops : (p : ThreadPool) → Step p (shutdown p)

abbrev pub queued : {p p' : ThreadPool} → Step p p' → List ℕ
queued (adds task true e) = task ∷ []
queued _ = []

pub data Steps : ThreadPool → ThreadPool → List ℕ → Type 0 where
  stay : (p : ThreadPool) → Steps p p []
  go :
      {p p1 p2 : ThreadPool} {ts : List ℕ} (s : Step p p1)
      → Steps p1 p2 ts
      → Steps p p2 (queued s ++ ts)
