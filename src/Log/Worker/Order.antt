-- ===== src/Log/Worker/Order.antt =====
-- What is logged reaches the output in its order, whatever the order of the turns, as long as `flush`
-- does not overtake the thread.
use yamq.Prelude.{ℕ, ◌≡◌, sym, ap, ◌∙◌, List, [], ◌∷◌, ◌++◌, append_assoc, append-nil}
use yamq.Log.Worker.{LogWorker, Turn, logs, flushes, stops, runs, turn}
use yamq.Log.Worker.Whole.{in_hand, whole, Sound, accepted, append_async-Logged}
use yamq.Log.Worker.Steps.{flush-whole, thread_step-Keeps}

-- A turn that does not flush while the thread has a buffer to write.
abbrev pub IsCalm : LogWorker → Turn → Type 0
IsCalm w flushes = in_hand w.thread ≡ []
IsCalm w t = Unit {0}

pub turn-whole :
    (w : LogWorker) (t : Turn)
    → Sound w
    → IsCalm w t
    → Sound (turn w t) × (whole (turn w t) ≡ whole w ++ accepted w t)
unfolding turn
turn-whole w (logs text) s calm = let l = append_async-Logged w text s in (l.sound, l.same)
turn-whole w flushes s calm =
    let (s', same) = flush-whole w s calm in (s', same ∙ sym (append-nil (whole w)))
turn-whole w stops s calm =
    (record { pool = s.pool; inside = s.inside; reset = s.reset }, sym (append-nil (whole w)))
turn-whole w runs s calm =
    let (s', same) = thread_step-Keeps w w.thread s in (s', same ∙ sym (append-nil (whole w)))

-- A run, the messages it stores, and whether its turns are calm.
unfoldable pub run : List Turn → LogWorker → LogWorker
run [] w = w
run (t ∷ ts) w = run ts (turn w t)

abbrev pub all_accepted : List Turn → LogWorker → List ℕ
all_accepted [] w = []
all_accepted (t ∷ ts) w = accepted w t ++ all_accepted ts (turn w t)

abbrev pub AreCalm : List Turn → LogWorker → Type 0
AreCalm [] w = Unit {0}
AreCalm (t ∷ ts) w = IsCalm w t × AreCalm ts (turn w t)

-- From a sound worker, over any sequence of append_async, shutdown, steps of the thread, and flush
-- where the thread has no buffer that it has still to write, the output followed by what waits is
-- what it was, followed by the messages that append_async stored, in their order, and the worker
-- stays sound.
pub run-whole :
    (ts : List Turn) (w : LogWorker)
    → Sound w
    → AreCalm ts w
    → Sound (run ts w) × (whole (run ts w) ≡ whole w ++ all_accepted ts w)
unfolding run
run-whole [] w s calm = (s, sym (append-nil (whole w)))
run-whole (t ∷ ts) w s (calm, calms) =
    let (s1, same1) = turn-whole w t s calm in
    let (s2, same2) = run-whole ts (turn w t) s1 calms in
    (
      s2,
      same2
          ∙ ap (λ l. l ++ all_accepted ts (turn w t)) same1
          ∙ append_assoc (whole w) (accepted w t) (all_accepted ts (turn w t)),
    )
