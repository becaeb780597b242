-- ===== src/Log/File/Append.antt =====
-- AppendFileWrapper.append: what reaches the file.
use yamq.Prelude.{
  ℕ, ◌+◌, ◌-◌, ◌%◌, ◌^◌, ◌≤◌, ◌<◌, ◌≡◌, ap, true, some, List, [], ◌∷◌, ◌++◌, arith, length, take,
  take-ge, lt→ltb, ◌==◌, ==_false,
}
use yamq.Log.File.{AppendFile, st_same, check_if_open, fwrite_loop, write_file, append}

-- The unsigned subtractions of the loop, on a part `x` of what remains.
less : (r x : ℕ) → x ≤ r → r < 2 ^ 64 → (r + 2 ^ 64 - x) % 2 ^ 64 ≡ r - x
less r x h k = omega arith

-- What is counted, where nothing remains.
all : (n r : ℕ) → r ≡ 0 → n < 2 ^ 64 → (n + 2 ^ 64 - r) % 2 ^ 64 ≡ n
all n r h k = omega arith

no_wrap : (m n : ℕ) → n + m < 2 ^ 64 → (m + n) % 2 ^ 64 ≡ m + n
no_wrap m n h = omega arith

-- A complete `fwrite`: the text comes to the file, and its length is returned and counted.
pub append_complete :
    (f : AppendFile) (text : List ℕ)
    → f.valid ≡ true
    → 0 < length text
    → length text + f.writen_chars < 2 ^ 64
    → append f text st_same (length text ∷ [])
      ≡ some (
        length text,
        record f { writen_chars = f.writen_chars + length text; content = f.content ++ text },
      )
unfolding append check_if_open write_file fwrite_loop
append_complete f text v p h = rw (
  v,
  lt→ltb 0 (length text) p,
  ==_false (length text) 0 (omega arith),
  less (length text) (length text) (omega arith) (omega arith),
  ap (λ n. n == 0) {x = length text - length text} {y = 0} (omega arith),
  take-ge (length text) text (omega arith),
  all (length text) (length text - length text) (omega arith) (omega arith),
  no_wrap f.writen_chars (length text) h,
)

-- Where fwrite takes the first x bytes and then y bytes that make up the length, append on the
-- valid file, the counter not wrapping, returns the whole length, and the file has got the first x
-- bytes of the text followed by the first y bytes of it again.
pub append-short :
    (f : AppendFile) (text : List ℕ) (x y : ℕ)
    → f.valid ≡ true
    → length text + f.writen_chars < 2 ^ 64
    → 0 < x
    → 0 < y
    → x + y ≡ length text
    → append f text st_same (x ∷ y ∷ [])
      ≡ some (
        length text,
        record f {
          writen_chars = f.writen_chars + length text;
          content = (f.content ++ take x text) ++ take y text;
        },
      )
unfolding append check_if_open write_file fwrite_loop
append-short f text x y v h p q e = rw (
  v,
  lt→ltb 0 (length text) (omega arith),
  ==_false x 0 (omega arith),
  less (length text) x (omega arith) (omega arith),
  ==_false (length text - x) 0 (omega arith),
  ==_false y 0 (omega arith),
  less (length text - x) y (omega arith) (omega arith),
  ap (λ n. n == 0) {x = length text - x - y} {y = 0} (omega arith),
  all (length text) (length text - x - y) (omega arith) (omega arith),
  no_wrap f.writen_chars (length text) h,
)
