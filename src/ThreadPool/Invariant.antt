-- ===== src/ThreadPool/Invariant.antt =====
-- The queue keeps its bound, tasks are taken in the order in which they were queued, and a thread that
-- has returned leaves none behind.
use yamq.Prelude.{
  ℕ, zero, suc, ◌≤◌, ◌<◌, ◌≡◌, ◌≢◌, refl, sym, subst, ap, ◌∙◌, inl, inr, Bool, true, false, Option,
  none, some, List, [], ◌∷◌, ◌++◌, append_assoc, append-nil, arith, length, length-append,
  get_elem?, set, replicate, Bool-cases, if◌then◌else◌, if-true, if-false,
}
use yamq.ThreadPool.{
  Worker, waits, executes, returned, ThreadPool, thread_pool, is_full, add_task, take_task,
  worker_step, Step, adds, works, stops, queued, Steps, stay, go,
}

pub record IsSound (p : ThreadPool) : Type 0 where
  pub bounded : 0 < p.max_task_size → length p.tasks ≤ p.max_task_size
  pub stopped : (i : ℕ) → get_elem? p.workers i ≡ some returned → p.stop ≡ true
  pub drained : (i : ℕ) → get_elem? p.workers i ≡ some returned → p.tasks ≡ []

-- All that was taken, and what waits.
abbrev pub order : ThreadPool → List ℕ
order p = p.started ++ p.tasks

abbrev Keeps : ThreadPool → ThreadPool → List ℕ → Type 0
Keeps p p' ts = IsSound p' × (order p' ≡ order p ++ ts)

-- Where a worker is written that has not returned, those that have are those of before.
old_returned :
    (ws : List Worker) (i j : ℕ) (w : Worker)
    → w ≢ returned
    → get_elem? (set ws i w) j ≡ some returned
    → get_elem? ws j ≡ some returned
old_returned [] i j w n h = h
old_returned (x ∷ ws) zero zero w n h = absurd (n (cc))
old_returned (x ∷ ws) zero (suc j) w n h = h
old_returned (x ∷ ws) (suc i) zero w n h = h
old_returned (x ∷ ws) (suc i) (suc j) w n h = old_returned ws i j w n h

take_task-Keeps :
    (p p' : ThreadPool) (i : ℕ) (tasks : List ℕ)
    → p.tasks ≡ tasks
    → IsSound p
    → take_task p i tasks ≡ some p'
    → Keeps p p' []
unfolding take_task
take_task-Keeps p p' i [] same s h = elim (Bool-cases p.stop) [
  | inl on ↦
      let e : record p { workers = set p.workers i returned } ≡ p' =
        cc (sym (if-true (some (record p { workers = set p.workers i returned })) none on) ∙ h) in
      subst (λ q. Keeps p q []) e
        (
          record { bounded = s.bounded; stopped = λ j r. on; drained = λ j r. same },
          sym (append-nil (order p)),
        )
  | inr off ↦
      absurd
        (cc (sym (if-false (some (record p { workers = set p.workers i returned })) none off) ∙ h))
]
take_task-Keeps p p' i (t ∷ tasks) same s h =
    let q : ThreadPool = record p {
      tasks = tasks;
      workers = set p.workers i (executes t);
      started = p.started ++ t ∷ [];
    } in
    let e : q ≡ p' = cc in
    let old = λ (j : ℕ) (r : get_elem? q.workers j ≡ some returned).
      old_returned p.workers i j (executes t) (λ d. cc) r in
    subst (λ q. Keeps p q []) e
      (
        record {
          bounded = λ b. omega (arith, s.bounded b, ap length same);
          stopped = λ j r. s.stopped j (old j r);
          drained = λ j r. absurd (cc (s.drained j (old j r), same));
        },
        append_assoc p.started (t ∷ []) tasks
            ∙ ap (λ l. p.started ++ l) (sym same)
            ∙ sym (append-nil (order p)),
      )

worker_step-Keeps :
    (p p' : ThreadPool) (i : ℕ) (w : Worker)
    → IsSound p
    → worker_step p i w ≡ some p'
    → Keeps p p' []
unfolding worker_step
worker_step-Keeps p p' i waits s h = take_task-Keeps p p' i p.tasks refl s h
worker_step-Keeps p p' i (executes t) s h =
    let e : record p { workers = set p.workers i waits } ≡ p' = cc in
    let old = λ (j : ℕ) (r : get_elem? (set p.workers i waits) j ≡ some returned).
      old_returned p.workers i j waits (λ d. cc) r in
    subst (λ q. Keeps p q []) e
      (
        record {
          bounded = s.bounded;
          stopped = λ j r. s.stopped j (old j r);
          drained = λ j r. s.drained j (old j r);
        },
        sym (append-nil (order p)),
      )
worker_step-Keeps p p' i returned s h = absurd (cc)

-- A call of `addTask` that is over.
abbrev taken : Bool → ℕ → List ℕ
taken true t = t ∷ []
taken false t = []

abbrev added : ThreadPool → ℕ → Bool × ThreadPool
added p t = (true, record p { tasks = p.tasks ++ t ∷ [] })

abbrev full_or_added : ThreadPool → ℕ → Option (Bool × ThreadPool)
full_or_added p t = if is_full p then none else some (added p t)

add_task-Keeps :
    (p p' : ThreadPool) (t : ℕ) (b : Bool)
    → IsSound p
    → add_task p t ≡ some (b, p')
    → Keeps p p' (taken b t)
unfolding add_task
add_task-Keeps p p' t b s h = elim (Bool-cases p.stop) [
  | inl on ↦
      let e : ◌≡◌ {A = Bool × ThreadPool} (false, p) (b, p') =
        cc (sym (if-true (some (false, p)) (full_or_added p t) on) ∙ h) in
      subst (λ r. Keeps p r.1 (taken r.0 t)) e (s, sym (append-nil (order p)))
  | inr off ↦
      let h' = sym (if-false (some (false, p)) (full_or_added p t) off) ∙ h in
      elim (Bool-cases (is_full p)) [
        | inl full ↦ absurd (cc (sym (if-true none (some (added p t)) full) ∙ h'))
        | inr room ↦
            let e : ◌≡◌ {A = Bool × ThreadPool} (added p t) (b, p') =
              cc (sym (if-false none (some (added p t)) room) ∙ h') in
            subst (λ r. Keeps p r.1 (taken r.0 t)) e
              (
                record {
                  bounded =
                      λ b. omega (arith, s.bounded b, length-append p.tasks (t ∷ []), below b room);
                  stopped = s.stopped;
                  drained = λ j r. absurd (cc (s.stopped j r));
                },
                sym (append_assoc p.started p.tasks (t ∷ [])),
              )
      ]
]
  where
    below : 0 < p.max_task_size → is_full p ≡ false → length p.tasks < p.max_task_size
    below b room = ground arith

pub Step-Keeps : {p p' : ThreadPool} (st : Step p p') → IsSound p → Keeps p p' (queued st)
Step-Keeps {p} {p'} (adds t true e) s = add_task-Keeps p p' t true s e
Step-Keeps {p} {p'} (adds t false e) s = add_task-Keeps p p' t false s e
Step-Keeps {p} {p'} (works i w at e) s = worker_step-Keeps p p' i w s e
Step-Keeps (stops p) s = (
  record { bounded = s.bounded; stopped = λ j r. refl; drained = s.drained },
  sym (append-nil (order p)),
)

-- Over any steps of producers, workers and the destructor, from a sound pool: the queue stays
-- within its bound, a worker has returned only where the pool is stopped and no task is left, and
-- the tasks started, followed by those that wait, are what they were, followed by those queued, in
-- their order.
pub Steps-IsSound :
    {p p' : ThreadPool} {ts : List ℕ}
    → Steps p p' ts
    → IsSound p
    → IsSound p' × (order p' ≡ order p ++ ts)
Steps-IsSound (stay p) s = (s, sym (append-nil (order p)))
Steps-IsSound (go {p} {p1} {p2} {ts} st sts) s =
    let (s1, same1) = Step-Keeps st s in
    let (s2, same2) = Steps-IsSound sts s1 in
    (s2, same2 ∙ ap (λ l. l ++ ts) same1 ∙ append_assoc (order p) (queued st) ts)

-- The pool as it is constructed.
all_wait : (n i : ℕ) → get_elem? (replicate n waits) i ≢ some returned
all_wait zero i h = cc
all_wait (suc n) zero h = cc
all_wait (suc n) (suc i) h = all_wait n i h

pub thread_pool-IsSound : (n size : ℕ) → IsSound (thread_pool n size)
unfolding thread_pool
thread_pool-IsSound n size = record {
  bounded = λ b. omega arith;
  stopped = λ i h. absurd (all_wait n i h);
  drained = λ i h. refl;
}
