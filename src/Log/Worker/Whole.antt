-- ===== src/Log/Worker/Whole.antt =====
-- What a LogWorker has written and has still to write, in its order; `append_async` adds its text there.
use yamq.Prelude.{
  ℕ, ◌≡◌, refl, sym, ap, ◌∙◌, inl, inr, Bool, true, false, Option, none, some, List, [], ◌∷◌, ◌++◌,
  append_assoc, append-nil, arith, length, take, ltb, Bool-cases,
}
use yamq.Log.FixedBuffer.{
  FixedBuffer, remain, append, contents, InBounds, append-contents, append-refused,
}
use yamq.Log.Worker.{
  Thread, writing, returning, LogWorker, push_buffer, from_pool, append_async, Turn, logs,
}

abbrev pub all_contents : List FixedBuffer → List ℕ
all_contents [] = []
all_contents (b ∷ bs) = contents b ++ all_contents bs

abbrev pub held : Option FixedBuffer → List ℕ
held none = []
held (some b) = contents b

-- What the thread has taken and not written.
abbrev pub in_hand : Thread → List ℕ
in_hand (writing b looping) = contents b
in_hand t = []

-- What is written and what is still to be written, in its order.
abbrev pub whole : LogWorker → List ℕ
whole w = w.output ++ (in_hand w.thread ++ (all_contents w.filled ++ held w.buffer))

abbrev pub AreEmpty : List FixedBuffer → Type 0
AreEmpty [] = Unit {0}
AreEmpty (b ∷ bs) = (b.cur ≡ 0) × AreEmpty bs

abbrev pub IsHeld : Option FixedBuffer → Type 0
IsHeld none = Unit {0}
IsHeld (some b) = InBounds b

abbrev pub IsReset : Thread → Type 0
IsReset (returning b looping) = b.cur ≡ 0
IsReset t = Unit {0}

-- The buffers of the pool are empty.
pub record Sound (w : LogWorker) : Type 0 where
  pub pool : AreEmpty w.available
  pub inside : IsHeld w.buffer
  pub reset : IsReset w.thread

-- The messages that are stored.
abbrev pub stored : Bool → List ℕ → List ℕ
stored true text = text
stored false text = []

abbrev pub accepted : LogWorker → Turn → List ℕ
accepted w (logs text) = stored (append_async w text).0 text
accepted w t = []

pub all_contents-append :
    (bs cs : List FixedBuffer) → all_contents (bs ++ cs) ≡ all_contents bs ++ all_contents cs
all_contents-append [] cs = refl
all_contents-append (b ∷ bs) cs =
    ap (λ l. contents b ++ l) (all_contents-append bs cs)
    ∙ sym (append_assoc (contents b) (all_contents bs) (all_contents cs))

-- More at the end of the buffer in use.
pub whole-held :
    (w : LogWorker) (b : Option FixedBuffer) (text : List ℕ)
    → held b ≡ held w.buffer ++ text
    → (available : List FixedBuffer)
    → whole (record w { buffer = b; available = available }) ≡ whole w ++ text
whole-held w b text h available =
    ap (λ l. w.output ++ (in_hand w.thread ++ (all_contents w.filled ++ l))) h
    ∙ (ap (λ l. w.output ++ (in_hand w.thread ++ l))
          (sym (append_assoc (all_contents w.filled) (held w.buffer) text))
        ∙ (ap (λ l. w.output ++ l)
              (sym (append_assoc (in_hand w.thread) (all_contents w.filled ++ held w.buffer) text))
            ∙ sym (
                append_assoc w.output (in_hand w.thread ++ (all_contents w.filled ++ held w.buffer))
                  text)))

-- To split on the buffer of a worker.
abbrev pub with_buffer : LogWorker → Option FixedBuffer → LogWorker
with_buffer w o = record w { buffer = o }

-- Pushing the buffer moves its contents to the filled ones.
pub pushed :
    (w : LogWorker) (o : Option FixedBuffer)
    → whole (push_buffer (with_buffer w o)) ≡ whole (with_buffer w o)
unfolding push_buffer
pushed w none = refl
pushed w (some b) =
    ap (λ l. w.output ++ (in_hand w.thread ++ l))
      (append-nil (all_contents (w.filled ++ b ∷ []))
        ∙ (all_contents-append w.filled (b ∷ [])
            ∙ ap (λ l. all_contents w.filled ++ l) (append-nil (contents b))))

pub push_buffer-Sound : (w : LogWorker) → Sound w → Sound (push_buffer w)
unfolding push_buffer
push_buffer-Sound w s = go w.buffer s
  where
    go : (o : Option FixedBuffer) → Sound (with_buffer w o) → Sound (push_buffer (with_buffer w o))
    go none s = s
    go (some b) s = record { pool = s.pool; inside = tt; reset = s.reset }

pub no_buffer :
    (o : Option FixedBuffer) (w : LogWorker) → held (push_buffer (with_buffer w o)).buffer ≡ []
unfolding push_buffer
no_buffer none w = refl
no_buffer (some b) w = refl

-- What a call of `append_async` does to what is whole.
pub record Logged (w : LogWorker) (text : List ℕ) (r : Bool × LogWorker) : Type 0 where
  pub sound : Sound r.1
  pub same : whole r.1 ≡ whole w ++ stored r.0 text

pub unchanged : (w : LogWorker) (text : List ℕ) → Sound w → Logged w text (false, w)
unchanged w text s = record { sound = s; same = sym (append-nil (whole w)) }

-- The room of a buffer decides whether it takes the text.
pub append-cases :
    (b : FixedBuffer) (text : List ℕ)
    → InBounds b
    → InBounds (append b text).1
      × (contents (append b text).1 ≡ contents b ++ stored (append b text).0 text)
append-cases b text h = elim (Bool-cases (ltb (remain b) (length text))) [
  | inl full ↦
      let e = append-refused b text (ground arith) in rw e (h, sym (append-nil (contents b)))
  | inr room ↦
      let (b', e, same, inside, size) = append-contents b text h (ground arith) in
      rw e (inside, same)
]

pub empty-contents : (b : FixedBuffer) → b.cur ≡ 0 → contents b ≡ []
empty-contents b h = ap (λ n. take n b.data_) h

pub from_pool-Logged :
    (w : LogWorker) (available : List FixedBuffer) (text : List ℕ)
    → AreEmpty available
    → Sound w
    → held w.buffer ≡ []
    → Logged w text (from_pool w available text)
unfolding from_pool
from_pool-Logged w [] text h s e = unchanged w text s
from_pool-Logged w (b ∷ bs) text h s e =
    let (inside, same) = append-cases b text (omega (arith, h.0)) in
    record {
      sound = record { pool = h.1; inside = inside; reset = s.reset };
      same =
          whole-held w (some (append b text).1) (stored (append b text).0 text)
            (same ∙ ap (λ l. l ++ stored (append b text).0 text) (empty-contents b h.0 ∙ sym e)) bs;
    }

pub append_async-Logged :
    (w : LogWorker) (text : List ℕ) → Sound w → Logged w text (append_async w text)
unfolding append_async from_pool push_buffer
append_async-Logged w text s = go w.stop w.buffer s
  where
    go :
        (stop : Bool) (o : Option FixedBuffer)
        → let w' : LogWorker = record w { stop = stop; buffer = o } in
          Sound w' → Logged w' text (append_async w' text)
    go true o s = unchanged _ text s
    go false none s = from_pool-Logged _ w.available text s.pool s refl
    go false (some b) s = elim (Bool-cases (ltb (length text) (remain b))) [
      | inl room ↦
          let (inside, same) = append-cases b text s.inside in
          let w' : LogWorker = record w { stop = false; buffer = some b } in
          rw room (record {
            sound = record { pool = s.pool; inside = inside; reset = s.reset };
            same =
                whole-held w' (some (append b text).1) (stored (append b text).0 text) same
                  w.available;
          })
      | inr full ↦
          let w' : LogWorker = record w { stop = false; buffer = some b } in
          let l =
            from_pool-Logged (push_buffer w') w.available text s.pool (push_buffer-Sound w' s)
              (no_buffer (some b) w') in
          rw full (record {
            sound = l.sound;
            same =
                l.same
                ∙ ap (λ r. r ++ stored (from_pool (push_buffer w') w.available text).0 text)
                    (pushed w' (some b));
          })
    ]
