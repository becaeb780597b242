-- ===== src/Log/Tests.antt =====
-- Runs of the logging library at fixed inputs, and the theorems at inputs that meet their hypotheses.
use yamq.Prelude.{
  negsuc, ℕ, suc, ◌+◌, ◌≡◌, refl, true, false, some, List, [], ◌∷◌, ◌++◌, take, arith, length,
  codes, decimal,
}
use yamq.Log.FixedBuffer.{FixedBuffer, fixed_buffer, append, remain}
use yamq.Log.Convert.{convert}
use yamq.Log.Convert.Decimal.{magnitude, numeral, convert-numeral}
use yamq.Log.Stream.{Item, of_bool, of_int, of_pointer, of_string, insert_all}
use yamq.Log.Stream.Shown.{shown, Grown, insert_all-shown}
use yamq.Log.File.{AppendFile, st_same, LogFile, log_file, roll_path}
use yamq.Log.File.Append.{append-short}
use yamq.Log.Worker.{
  waiting, LogWorker, push_buffer, from_pool, append_async, flush, shutdown, take_filled, wake,
  thread_step, Turn, logs, runs, turn,
}
use yamq.Log.Worker.Whole.{Sound, whole}
use yamq.Log.Worker.Order.{run, all_accepted, run-whole}
use yamq.Log.Worker.Shutdown.{thread_steps, flush-shutdown_hangs, Ends, shutdown-Ends}

convert-numeral_example :
    convert (suc (magnitude (negsuc 41))) (negsuc 41) ≡ some (numeral (negsuc 41))
convert-numeral_example = convert-numeral (negsuc 41)

minus_42 : numeral (negsuc 41) ≡ codes "-42"
unfolding decimal
minus_42 = refl

-- "x=-42" in a buffer of 40 bytes; the pointer finds no room.
abbrev items : List Item
items = of_string (codes "x=") ∷ of_int (negsuc 41) ∷ of_pointer 5 ∷ of_bool true ∷ []

insert_all-shown_example :
    (b' : FixedBuffer) × (insert_all (fixed_buffer 37) items ≡ some b')
    × Grown (fixed_buffer 37) (shown (remain (fixed_buffer 37)) items) b'
insert_all-shown_example =
    insert_all-shown (fixed_buffer 37) items (omega arith)
      (tt, (omega arith, (omega arith, (tt, tt))))

items-shown : shown 37 items ≡ codes "x=-421"
unfolding shown decimal
items-shown = refl

abbrev appended : AppendFile
appended = record { path = codes "l"; valid = true; writen_chars = 0; content = [] }

append-short_example :
    yamq.Log.File.append appended (codes "abc") st_same (2 ∷ 1 ∷ [])
    ≡ some (
      length (codes "abc"),
      record appended {
        writen_chars = 0 + length (codes "abc");
        content = ([] ++ take 2 (codes "abc")) ++ take 1 (codes "abc");
      },
    )
append-short_example =
    append-short appended (codes "abc") 2 1 refl (omega arith) (omega arith) (omega arith) refl

abbrev rolling : LogFile
rolling = log_file (codes "d") (codes "l") 4 (codes "log") true

abbrev texts : List (List ℕ)
texts = codes "abc" ∷ codes "def" ∷ codes "g" ∷ []

-- A worker with buffers of four bytes, one of them in the pool.
abbrev worker : LogWorker
worker = record {
  filled = [];
  available = fixed_buffer 4 ∷ [];
  buffer = some (fixed_buffer 4);
  stop = false;
  output = [];
  thread = waiting;
}

abbrev turns : List Turn
turns = logs (codes "ab") ∷ logs (codes "cd") ∷ runs ∷ logs (codes "e") ∷ runs ∷ []

worker-Sound : Sound worker
worker-Sound = record { pool = (refl, tt); inside = omega arith; reset = tt }

run-whole_example :
    Sound (run turns worker)
    × (whole (run turns worker) ≡ whole worker ++ all_accepted turns worker)
run-whole_example = run-whole turns worker worker-Sound (tt, (tt, (tt, (tt, (tt, tt)))))

-- The messages of that run are stored, and all but the last is written.
turns_accepted : all_accepted turns worker ≡ codes "abcde"
unfolding turn append_async from_pool push_buffer thread_step wake take_filled append
turns_accepted = refl

turns_output : (run turns worker).output ≡ codes "ab"
unfolding run turn append_async from_pool push_buffer thread_step wake take_filled append
turns_output = refl

flush-shutdown_hangs_example : (thread_steps 5 (shutdown (flush worker))).thread ≡ waiting
flush-shutdown_hangs_example = flush-shutdown_hangs worker 5 refl

shutdown-Ends_example : Ends worker
shutdown-Ends_example = shutdown-Ends worker (fixed_buffer 4) refl refl
