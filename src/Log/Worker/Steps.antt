-- ===== src/Log/Worker/Steps.antt =====
-- `flush` and the steps of the thread keep what is whole.
use yamq.Prelude.{
  ℕ, ◌≡◌, refl, sym, ap, ◌∙◌, inl, inr, Bool, true, false, Option, none, some, List, [], ◌∷◌, ◌++◌,
  append_assoc, append-nil, Bool-cases, ◌==◌,
}
use yamq.Log.FixedBuffer.{FixedBuffer, rewind, contents}
use yamq.Log.Worker.{
  Thread, waiting, writing, returning, written, finished, LogWorker, push_buffer, write_all, flush,
  take_filled, wake, give_back, thread_step,
}
use yamq.Log.Worker.Whole.{
  all_contents, held, in_hand, whole, AreEmpty, Sound, with_buffer, pushed, push_buffer-Sound,
  no_buffer,
}

-- `flush` writes all that is filled and in use.
pub write_all-lem :
    (bs available : List FixedBuffer) (output : List ℕ)
    → AreEmpty available
    → AreEmpty (write_all bs available output).0
      × ((write_all bs available output).1 ≡ output ++ all_contents bs)
unfolding write_all
write_all-lem [] available output h = (h, sym (append-nil output))
write_all-lem (b ∷ bs) available output h =
    let (empty, same) = write_all-lem bs (rewind b ∷ available) (output ++ contents b) (refl, h) in
    (empty, same ∙ append_assoc output (contents b) (all_contents bs))

-- Where nothing is in hand or in use, all that waits is filled.
pub settled :
    (w : LogWorker)
    → in_hand w.thread ≡ []
    → held w.buffer ≡ []
    → whole w ≡ w.output ++ all_contents w.filled
settled w calm e = rw (calm, e) (ap (λ l. w.output ++ l) (append-nil (all_contents w.filled)))

pub push_buffer-thread :
    (o : Option FixedBuffer) (w : LogWorker) → (push_buffer (with_buffer w o)).thread ≡ w.thread
unfolding push_buffer
push_buffer-thread none w = refl
push_buffer-thread (some b) w = refl

pub flush-whole :
    (w : LogWorker)
    → Sound w
    → in_hand w.thread ≡ []
    → Sound (flush w) × (whole (flush w) ≡ whole w)
unfolding flush
flush-whole w s calm =
    let w' = push_buffer w in
    let s' = push_buffer-Sound w s in
    let (empty, same) = write_all-lem w'.filled w'.available w'.output s'.pool in
    let calm' : in_hand w'.thread ≡ [] = ap in_hand (push_buffer-thread w.buffer w) ∙ calm in
    let idle : held w'.buffer ≡ [] = no_buffer w.buffer w in
    (
      record { pool = empty; inside = s'.inside; reset = s'.reset },
      settled (flush w) calm' idle
          ∙ append-nil _
          ∙ same
          ∙ sym (settled w' calm' idle)
          ∙ pushed w w.buffer,
    )

-- The step keeps what is sound and what is whole.
abbrev pub Keeps : LogWorker → LogWorker → Type 0
Keeps w w' = Sound w' × (whole w' ≡ whole w)

pub take_filled-Keeps :
    (w : LogWorker) (bs : List FixedBuffer) (o : Option FixedBuffer)
    → let w' : LogWorker = record w { filled = bs; buffer = o; thread = waiting } in
      Sound w' → Keeps w' (take_filled w' bs)
unfolding take_filled
take_filled-Keeps w [] none s = (s, refl)
take_filled-Keeps w [] (some b) s = elim (Bool-cases (b.cur == 0)) [
  | inl e ↦ rw e (s, refl)
  | inr e ↦ rw e (
    record { pool = s.pool; inside = tt; reset = tt },
    ap (λ l. w.output ++ l) (append-nil (contents b)),
  )
]
take_filled-Keeps w (b ∷ bs) o s = (
  record { pool = s.pool; inside = s.inside; reset = tt },
  ap (λ l. w.output ++ l) (sym (append_assoc (contents b) (all_contents bs) (held o))),
)

pub wake-Keeps :
    (w : LogWorker) (stop : Bool) (o : Option FixedBuffer)
    → let w' : LogWorker = record w { buffer = o; stop = stop; thread = waiting } in
      Sound w' → Keeps w' (wake w')
unfolding wake push_buffer
wake-Keeps w false o s = take_filled-Keeps (record w { stop = false }) w.filled o s
wake-Keeps w true none s = take_filled-Keeps (record w { stop = true }) w.filled none s
wake-Keeps w true (some b) s =
    let w' : LogWorker = record w { stop = true; thread = waiting } in
    let (s2, same) =
      take_filled-Keeps w' (w.filled ++ b ∷ []) none
        (record { pool = s.pool; inside = tt; reset = tt }) in
    (s2, same ∙ pushed w' (some b))

pub give_back-Keeps :
    (w : LogWorker) (b : FixedBuffer) (looping : Bool) (bs : List FixedBuffer)
    → let w' : LogWorker = record w { filled = bs; thread = returning b looping } in
      Sound w' → Keeps w' (give_back w' b looping bs)
unfolding give_back
give_back-Keeps w b false bs s =
    (record { pool = (s.reset, s.pool); inside = s.inside; reset = tt }, refl)
give_back-Keeps w b true [] s =
    (record { pool = (s.reset, s.pool); inside = s.inside; reset = tt }, refl)
give_back-Keeps w b true (b' ∷ bs) s = (
  record { pool = (s.reset, s.pool); inside = s.inside; reset = tt },
  ap (λ l. w.output ++ l) (sym (append_assoc (contents b') (all_contents bs) (held w.buffer))),
)

pub written-Keeps :
    (w : LogWorker) (stop : Bool)
    → let w' : LogWorker = record w { stop = stop; thread = written } in
      Sound w' → Keeps w' (thread_step w' written)
unfolding thread_step
written-Keeps w true s = (record { pool = s.pool; inside = s.inside; reset = tt }, refl)
written-Keeps w false s = (record { pool = s.pool; inside = s.inside; reset = tt }, refl)

pub thread_step-Keeps :
    (w : LogWorker) (t : Thread)
    → let w' : LogWorker = record w { thread = t } in Sound w' → Keeps w' (thread_step w' t)
unfolding thread_step
thread_step-Keeps w waiting s = wake-Keeps w w.stop w.buffer s
thread_step-Keeps w (writing b looping) s = (
  record { pool = s.pool; inside = s.inside; reset = refl },
  append_assoc w.output (contents b) (all_contents w.filled ++ held w.buffer),
)
thread_step-Keeps w (returning b looping) s = give_back-Keeps w b looping w.filled s
thread_step-Keeps w written s = written-Keeps w w.stop s
thread_step-Keeps w finished s = (s, refl)
