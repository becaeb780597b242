-- ===== src/Log/Capture.antt =====
-- log/logging.cpp: LogCapture, which puts a prefix before a line and hands the line over when it ends.
-- What the clock, the thread and the stack say is given.
pub mod Heading
pub mod Line
mod Tests
use yamq.Prelude.{
  ℤ, ℕ, suc, ◌+◌, ◌-◌, ◌%◌, Bool, true, false, Option, none, some, List, [], ◌∷◌, ◌++◌, take,
  length, codes, decimal, replicate, leb, if◌then◌else◌, ◌>>=◌,
}
use yamq.Log.FixedBuffer.{FixedBuffer, fixed_buffer, remain, offset, write_at, contents}
use yamq.Log.Stream.{k_max_log_message_len, Item, of_int, of_string, append_to, insert_all}

pub data Level : Type 0 where
  log_trace log_info log_warning log_error log_fatal : Level

unfoldable pub log_level_name : Level → List ℕ
log_level_name log_trace = codes "TRACE"
log_level_name log_info = codes "INFO"
log_level_name log_warning = codes "WARNING"
log_level_name log_error = codes "ERROR"
log_level_name log_fatal = codes "FATAL"

abbrev pub is_fatal : Level → Bool
is_fatal log_fatal = true
is_fatal _ = false

-- The fields of `struct tm` that are printed.
pub record ReadableTime : Type 0 where
  pub tm_year : ℕ
  pub tm_mon : ℕ
  pub tm_mday : ℕ
  pub tm_hour : ℕ
  pub tm_min : ℕ
  pub tm_sec : ℕ

-- `%0<width>d`.
unfoldable pub padded : ℕ → ℕ → List ℕ
padded width n = replicate (width - length (decimal n)) 48 ++ decimal n

-- What the format of `_format_time` makes of the time.
unfoldable pub time_text : ReadableTime → ℕ → List ℕ
unfolding padded
time_text tm now =
    padded 2 tm.tm_year
    ++ (padded 2 tm.tm_mon
        ++ (padded 2 tm.tm_mday
            ++ (codes " "
                ++ (padded 2 tm.tm_hour
                    ++ (codes ":"
                        ++ (padded 2 tm.tm_min
                            ++ (codes ":"
                                ++ (padded 2 tm.tm_sec
                                    ++ (codes "." ++ padded 6 (now % 1000000))))))))))

-- `_format_time`: `snprintf` writes one byte less than `len`, and a zero byte.
unfoldable pub format_time : FixedBuffer → ReadableTime → ℕ → ℕ × FixedBuffer
unfolding time_text
format_time b tm now = (22, write_at b (take (22 - 1) (time_text tm now) ++ 0 ∷ []))

abbrev pub prefix_items : ℤ → List ℕ → ℤ → List Item
prefix_items tid file line =
    of_string (codes " ")
    ∷ of_int tid
    ∷ of_string (codes " ")
    ∷ of_string file
    ∷ of_string (codes ":")
    ∷ of_int line
    ∷ of_string (codes "] ")
    ∷ []

-- `formatPrefix`.
unfoldable pub format_prefix :
    FixedBuffer → Level → ReadableTime → ℕ → ℤ → List ℕ → ℤ → Option FixedBuffer
unfolding log_level_name format_time
format_prefix b level tm now tid file line =
    let b₁ = append_to b (take 1 (log_level_name level)) in
    let (len, timed) = format_time b₁ tm now in
    let b₂ = if leb 22 (remain b₁) then offset timed (len - 1) else b₁ in
    insert_all b₂ (prefix_items tid file line)

-- What the end of a line hands to the saving function, and whether it flushes and aborts.
pub record Ended : Type 0 where
  pub saved : List ℕ
  pub flushes : Bool
  pub aborts : Bool

-- The destructor.
unfoldable pub end_line : FixedBuffer → Level → List ℕ → Ended
end_line b level trace =
    let b₁ = append_to b (codes "\n") in
    let b₂ = if is_fatal level then append_to b₁ trace else b₁ in
    record { saved = contents b₂; flushes = is_fatal level; aborts = is_fatal level }

-- `LOG(level) << items`.
unfoldable pub log_capture :
    Level → ReadableTime → ℕ → ℤ → List ℕ → ℤ → List Item → List ℕ → Option Ended
unfolding format_prefix end_line
log_capture level tm now tid file line items trace = do
  b ← format_prefix (fixed_buffer k_max_log_message_len) level tm now tid file line
  b' ← insert_all b items
  some (end_line b' level trace)
