-- ===== src/Log/Worker.antt =====
-- log/asynclogging.h and asynclogging.cpp: LogWorker. Each section under the mutex is a step, and so is
-- the write that the thread does with the mutex released.
pub mod Whole
pub mod Steps
pub mod Order
pub mod Shutdown
use yamq.Prelude.{
  ℕ, zero, suc, ◌+◌, ◌≡◌, Bool, true, false, ◌&&◌, ◌||◌, not, Option, none, some, List, [], ◌∷◌,
  ◌++◌, length, ltb, ◌==◌, if◌then◌else◌, ◌>>=◌,
}
use yamq.Log.FixedBuffer.{FixedBuffer, fixed_buffer, remain, rewind, append, contents}

abbrev pub k_max_log_buffer_len : ℕ
k_max_log_buffer_len = 3000000

-- Where the thread stands: before the wait; with a buffer to write or to return, taken alone or in the
-- loop over the filled ones; behind the loop; at its end.
pub data Thread : Type 0 where
  waiting : Thread
  writing returning : FixedBuffer → Bool → Thread
  written : Thread
  finished : Thread

-- `output` is what was handed to the LogFile.
pub record LogWorker : Type 0 where
  pub filled : List FixedBuffer
  pub available : List FixedBuffer
  pub buffer : Option FixedBuffer
  pub stop : Bool
  pub output : List ℕ
  pub thread : Thread

pub copies : ℕ → List FixedBuffer
copies zero = []
copies (suc n) = fixed_buffer k_max_log_buffer_len ∷ copies n

pub log_worker : ℕ → LogWorker
log_worker buf_size = record {
  filled = [];
  available = copies buf_size;
  buffer = some (fixed_buffer k_max_log_buffer_len);
  stop = false;
  output = [];
  thread = waiting;
}

-- `push(std::move(_buffer))` where there is one.
unfoldable pub push_buffer : LogWorker → LogWorker
push_buffer w = elim w.buffer [
  | none ↦ w
  | some b ↦ record w { filled = w.filled ++ b ∷ []; buffer = none }
]

-- The part of `append_async` that takes a buffer from the pool, the last one. The result says whether
-- the message was stored.
unfoldable pub from_pool : LogWorker → List FixedBuffer → List ℕ → Bool × LogWorker
from_pool w [] text = (false, w)
from_pool w (b ∷ bs) text =
    let (stored, b') = append b text in (stored, record w { available = bs; buffer = some b' })

-- The pool is a stack, its top first.
unfoldable pub append_async : LogWorker → List ℕ → Bool × LogWorker
append_async w text = if w.stop then (false, w) else elim w.buffer [
  | none ↦ from_pool w w.available text
  | some b ↦
      if ltb (length text) (remain b)
      then (let (stored, b') = append b text in (stored, record w { buffer = some b' }))
      else from_pool (push_buffer w) w.available text
]

-- The loop of `flush`.
unfoldable pub write_all : List FixedBuffer → List FixedBuffer → List ℕ → List FixedBuffer × List ℕ
write_all [] available output = (available, output)
write_all (b ∷ bs) available output = write_all bs (rewind b ∷ available) (output ++ contents b)

unfoldable pub flush : LogWorker → LogWorker
flush w =
    let w' = push_buffer w in
    let (available, output) = write_all w'.filled w'.available w'.output in
    record w' { filled = []; available = available; output = output }

-- The destructor, before it joins the thread.
abbrev pub shutdown : LogWorker → LogWorker
shutdown w = record w { stop = true }

-- What the thread takes when it wakes up.
unfoldable pub take_filled : LogWorker → List FixedBuffer → LogWorker
take_filled w [] = elim w.buffer [
  | none ↦ record w { thread = waiting }
  | some b ↦
      if b.cur == 0
      then record w { thread = waiting }
      else record w { buffer = none; thread = writing b false }
]
take_filled w (b ∷ bs) = record w { filled = bs; thread = writing b true }

unfoldable pub wake : LogWorker → LogWorker
wake w = let w' = if w.stop then push_buffer w else w in take_filled w' w'.filled

-- The buffer goes back to the pool, and the loop takes the next one.
unfoldable pub give_back : LogWorker → FixedBuffer → Bool → List FixedBuffer → LogWorker
give_back w b false bs = record w { available = b ∷ w.available; thread = written }
give_back w b true [] = record w { available = b ∷ w.available; thread = written }
give_back w b true (b' ∷ bs) = record w {
  available = b ∷ w.available;
  filled = bs;
  thread = writing b' true;
}

-- The write is done with the mutex released, and the buffer reset.
unfoldable pub thread_step : LogWorker → Thread → LogWorker
thread_step w waiting = wake w
thread_step w (writing b looping) = record w {
  output = w.output ++ contents b;
  thread = returning (rewind b) looping;
}
thread_step w (returning b looping) = give_back w b looping w.filled
thread_step w written = record w { thread = if w.stop then finished else waiting }
thread_step w finished = w

-- The calls of the program and the steps of the thread, in the order in which they get the mutex.
pub data Turn : Type 0 where
  logs : List ℕ → Turn
  flushes stops runs : Turn

unfoldable pub turn : LogWorker → Turn → LogWorker
turn w (logs text) = (append_async w text).1
turn w flushes = flush w
turn w stops = shutdown w
turn w runs = thread_step w w.thread
