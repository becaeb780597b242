-- ===== src/Log/Worker/Shutdown.antt =====
-- The end of a LogWorker: the thread writes all and finishes, unless no buffer is in use.
use yamq.Prelude.{
  ℕ, zero, suc, ◌≡◌, refl, sym, subst, ap, ap₂, ◌∙◌, true, Option, none, some, List, [], ◌∷◌, ◌++◌,
  append_assoc, append-nil,
}
use yamq.Log.FixedBuffer.{FixedBuffer, contents}
use yamq.Log.Worker.{
  waiting, writing, finished, LogWorker, push_buffer, flush, shutdown, take_filled, wake, give_back,
  thread_step,
}
use yamq.Log.Worker.Whole.{all_contents, all_contents-append, whole}

pub thread_steps : ℕ → LogWorker → LogWorker
thread_steps zero w = w
thread_steps (suc n) w = thread_steps n (thread_step w w.thread)

-- A worker whose destructor runs with no buffer in use and none filled.
idle-hangs :
    (n : ℕ) (w : LogWorker)
    → let w' : LogWorker = record w { filled = []; buffer = none; stop = true; thread = waiting } in
      thread_steps n w' ≡ w'
unfolding thread_steps thread_step wake push_buffer take_filled
idle-hangs zero w = refl
idle-hangs (suc n) w = idle-hangs n w

flushed :
    (w : LogWorker) (o : Option FixedBuffer) (n : ℕ)
    → (thread_steps n (shutdown (flush (record w { buffer = o; thread = waiting })))).thread
      ≡ waiting
unfolding flush push_buffer
flushed w none n =
    ap (λ v. v.thread) (idle-hangs n (flush (record w { buffer = none; thread = waiting })))
flushed w (some b) n =
    ap (λ v. v.thread) (idle-hangs n (flush (record w { buffer = some b; thread = waiting })))

-- Where the thread waits, and the destructor runs after flush with no message between, the thread
-- is waiting again after any number of its steps, so that the join does not return.
pub flush-shutdown_hangs :
    (w : LogWorker) (n : ℕ)
    → w.thread ≡ waiting
    → (thread_steps n (shutdown (flush w))).thread ≡ waiting
flush-shutdown_hangs w n h =
    subst (λ t. (thread_steps n (shutdown (flush (record w { thread = t })))).thread ≡ waiting)
      (sym h) (flushed w w.buffer n)

-- The loop over the filled buffers, and the end.
loop-ends :
    (bs : List FixedBuffer) (w : LogWorker) (b : FixedBuffer)
    → let w' : LogWorker = record w {
      filled = bs;
      buffer = none;
      stop = true;
      thread = writing b true;
    } in
      (n : ℕ) × ((thread_steps n w').thread ≡ finished)
      × ((thread_steps n w').output ≡ w.output ++ (contents b ++ all_contents bs))
unfolding thread_steps thread_step give_back
loop-ends [] w b = (3, refl, ap (λ l. w.output ++ l) (sym (append-nil (contents b))))
loop-ends (b' ∷ bs) w b =
    let (n, done, same) =
      loop-ends bs (record w { output = w.output ++ contents b; available = _ }) b' in
    (suc (suc n), done, same ∙ append_assoc w.output (contents b) (contents b' ++ all_contents bs))

stopped-ends :
    (bs : List FixedBuffer) (w : LogWorker) (b : FixedBuffer)
    → let w' : LogWorker = record w {
      filled = bs;
      buffer = some b;
      stop = true;
      thread = waiting;
    } in
      (n : ℕ) × ((thread_steps n w').thread ≡ finished)
      × ((thread_steps n w').output ≡ w.output ++ all_contents (bs ++ b ∷ []))
unfolding thread_steps thread_step wake push_buffer take_filled
stopped-ends [] w b = let (n, done, same) = loop-ends [] w b in (suc n, done, same)
stopped-ends (c ∷ cs) w b =
    let (n, done, same) = loop-ends (cs ++ b ∷ []) w c in (suc n, done, same)

-- The thread, alone, ends and has written all that was left.
abbrev pub Ends : LogWorker → Type 0
Ends w =
    (n : ℕ) × ((thread_steps n (shutdown w)).thread ≡ finished)
    × ((thread_steps n (shutdown w)).output ≡ whole w)

-- From a waiting thread and with a buffer in use, the thread alone finishes after the destructor
-- has set _stop, in some number of steps, and has then written all that waited.
pub shutdown-Ends :
    (w : LogWorker) (b : FixedBuffer) → w.thread ≡ waiting → w.buffer ≡ some b → Ends w
shutdown-Ends w b h k =
    let (n, done, same) = stopped-ends w.filled w b in
    subst Ends (ap₂ (λ o t. record w { buffer = o; thread = t }) (sym k) (sym h)) (
      n,
      done,
      same
          ∙ ap (λ l. w.output ++ l)
              (all_contents-append w.filled (b ∷ [])
                ∙ ap (λ l. all_contents w.filled ++ l) (append-nil (contents b))),
    )
