-- ===== src/Log/Capture/Heading.antt =====
-- What formatPrefix of log/logging.cpp puts before the thread id: the level and the time.
use yamq.Prelude.{
  ℕ, suc, ◌+◌, ◌-◌, ◌%◌, ◌≤◌, ◌≡◌, refl, subst, ◌∙◌, true, List, [], ◌∷◌, ◌++◌, arith, decimal,
  length, length-append, length-take, length-replicate, take, replicate, leb, le→leb,
}
use yamq.Log.FixedBuffer.{
  FixedBuffer, fixed_buffer, remain, offset, write_at, InBounds, contents, write_at-contents,
}
use yamq.Log.Stream.{k_max_log_message_len, append_to}
use yamq.Log.Stream.Shown.{Grown, append_to-Grown, remain-Grown, Grown-Grown}
use yamq.Log.Capture.{
  Level, log_trace, log_info, log_warning, log_error, log_fatal, log_level_name, ReadableTime,
  padded, time_text, format_time,
}

-- The level and the time, which has its last digits cut off.
abbrev pub heading : Level → ReadableTime → ℕ → List ℕ
heading level tm now = take 1 (log_level_name level) ++ take 21 (time_text tm now)

-- The buffer with the level and the time.
abbrev pub headed : FixedBuffer → Level → ReadableTime → ℕ → FixedBuffer
headed b level tm now =
    offset (format_time (append_to b (take 1 (log_level_name level))) tm now).1 21

length-padded : (width n : ℕ) → width ≤ length (padded width n)
unfolding padded
length-padded width n = omega (
  arith,
  length-append (replicate (width - length (decimal n)) 48) (decimal n),
  length-replicate {A = ℕ} (width - length (decimal n)) 48,
)

after_padded :
    (width n k : ℕ) (rest : List ℕ) → k ≤ length rest → width + k ≤ length (padded width n ++ rest)
after_padded width n k rest h =
    omega (arith, length-append (padded width n) rest, length-padded width n)

after_code : (c k : ℕ) (rest : List ℕ) → k ≤ length rest → suc k ≤ length (c ∷ rest)
after_code c k rest h = omega arith

length-time_text : (tm : ReadableTime) (now : ℕ) → 22 ≤ length (time_text tm now)
unfolding time_text
length-time_text tm now =
    let us = after_code 46 6 _ (length-padded 6 (now % 1000000)) in
    let sec = after_code 58 9 _ (after_padded 2 tm.tm_sec 7 _ us) in
    let min = after_code 58 12 _ (after_padded 2 tm.tm_min 10 _ sec) in
    let hour = after_code 32 15 _ (after_padded 2 tm.tm_hour 13 _ min) in
    let mday = after_padded 2 tm.tm_mday 16 _ hour in
    after_padded 2 tm.tm_year 20 _ (after_padded 2 tm.tm_mon 18 _ mday)

pub length-level : (level : Level) → length (take 1 (log_level_name level)) ≡ 1
unfolding log_level_name
length-level log_trace = refl
length-level log_info = refl
length-level log_warning = refl
length-level log_error = refl
length-level log_fatal = refl

-- Behind the level and the time, in an empty buffer with the room.
pub prefix-Grown :
    (b : FixedBuffer) (level : Level) (tm : ReadableTime) (now : ℕ)
    → InBounds b
    → 23 ≤ remain b
    → Grown b (heading level tm now) (headed b level tm now)
unfolding format_time
prefix-Grown b level tm now h k =
    let one =
      append_to-Grown b (take 1 (log_level_name level)) h (omega (arith, length-level level)) in
    let b₁ = append_to b (take 1 (log_level_name level)) in
    let text = take 21 (time_text tm now) in
    let size : length text ≡ 21 =
      omega (arith, length-take 21 (time_text tm now), length-time_text tm now) in
    let left = remain-Grown b b₁ (take 1 (log_level_name level)) h one in
    let (same, inside, whole) =
      write_at-contents b₁ text (0 ∷ []) one.inside
        (omega (arith, size, left, length-level level)) in
    let two : Grown b₁ text (offset (write_at b₁ (text ++ 0 ∷ [])) (length text)) = record {
      same = same;
      inside = inside;
      size = whole;
    } in
    subst (λ n. Grown b (heading level tm now) (offset (write_at b₁ (text ++ 0 ∷ [])) n)) size
      (Grown-Grown b b₁ _ _ text one two)

pub length-heading :
    (level : Level) (tm : ReadableTime) (now : ℕ) → length (heading level tm now) ≡ 22
length-heading level tm now = omega (
  arith,
  length-append (take 1 (log_level_name level)) (take 21 (time_text tm now)),
  length-level level,
  length-take 21 (time_text tm now),
  length-time_text tm now,
)

-- In a new buffer: the room for the time is there, and 2978 bytes are left behind it.
pub record Headed (b : FixedBuffer) (level : Level) (tm : ReadableTime) (now : ℕ) : Type 0 where
  pub asked : leb 22 (remain (append_to b (take 1 (log_level_name level)))) ≡ true
  pub same : contents (headed b level tm now) ≡ heading level tm now
  pub inside : InBounds (headed b level tm now)
  pub size : length (headed b level tm now).data_ ≡ 3000
  pub left : remain (headed b level tm now) ≡ 2978

pub fixed_buffer-Headed :
    (level : Level) (tm : ReadableTime) (now : ℕ)
    → Headed (fixed_buffer k_max_log_message_len) level tm now
fixed_buffer-Headed level tm now =
    let b = fixed_buffer k_max_log_message_len in
    let room : length b.data_ ≡ 3000 = length-replicate {A = ℕ} 3000 0 in
    let c = take 1 (log_level_name level) in
    let one = append_to-Grown b c (omega arith) (omega (arith, room, length-level level)) in
    let g = prefix-Grown b level tm now (omega arith) (omega (arith, room)) in
    record {
      asked = le→leb 22 (remain (append_to b c)) (
          omega
            (arith, room, length-level level, remain-Grown b (append_to b c) c (omega arith) one));
      same = g.same;
      inside = g.inside;
      size = g.size ∙ room;
      left = omega (
        arith,
        room,
        remain-Grown b (headed b level tm now) (heading level tm now) (omega arith) g,
        length-heading level tm now,
      );
    }
