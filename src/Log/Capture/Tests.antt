-- ===== src/Log/Capture/Tests.antt =====
-- Runs of the front end of the logging at fixed inputs, and the theorems at inputs that meet their
-- hypotheses.
use yamq.Prelude.{pos, ◌≡◌, refl, some, List, [], ◌∷◌, ◌++◌, arith, codes, decimal, replicate}
use yamq.Log.Stream.{Item, of_string, of_int}
use yamq.Log.Stream.Shown.{shown}
use yamq.Log.Capture.{log_error, log_level_name, ReadableTime, padded, time_text, log_capture}
use yamq.Log.Capture.Heading.{heading}
use yamq.Log.Capture.Line.{line_items, Captured, log_capture-Captured}
use yamq.Log.Utilities.{init_utilities, split_last}

-- The third of July 2018, 22:04:05.
abbrev evening : ReadableTime
evening = record { tm_year = 118; tm_mon = 6; tm_mday = 3; tm_hour = 22; tm_min = 4; tm_sec = 5 }

abbrev words : List Item
words = of_string (codes "x=") ∷ of_int (pos 7) ∷ []

log_capture-Captured_example :
    Captured
      (log_capture log_error evening 242153 (pos 6569) (codes "a.cpp") (pos 7) words [])
      log_error
      (heading log_error evening 242153
        ++ shown 2978 (line_items log_error (pos 6569) (codes "a.cpp") (pos 7) words []))
log_capture-Captured_example =
    log_capture-Captured log_error evening 242153 (pos 6569) (codes "a.cpp") (pos 7) words []
      (omega arith) (omega arith) (tt, (omega arith, tt))

-- The year has three digits and the month counts from 0; the last two digits of the time are cut off.
error_line :
    heading log_error evening 242153
      ++ shown 2978 (line_items log_error (pos 6569) (codes "a.cpp") (pos 7) words [])
    ≡ codes "E1180603 22:04:05.2421 6569 a.cpp:7] x=7\n"
unfolding log_level_name time_text padded decimal shown
error_line = refl

-- A message that fills the room leaves none for the end of the line.
full_line :
    shown 50 (line_items log_error (pos 1) [] (pos 7) (of_string (replicate 43 97) ∷ []) [])
    ≡ codes " 1 :7] " ++ replicate 43 97
unfolding shown decimal
full_line = refl

program_split : init_utilities (codes "/bin/yamq") ≡ some (codes "/bin/", codes "yamq")
unfolding init_utilities split_last
program_split = refl
