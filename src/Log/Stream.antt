-- ===== src/Log/Stream.antt =====
-- log/logstream.h and logstream.cpp: LogStream, whose operators write to a FixedBuffer.
pub mod Shown
use yamq.Prelude.{
  ℤ, ℕ, suc, ◌+◌, ◌≡◌, Bool, true, false, Option, none, some, List, [], ◌∷◌, ◌++◌, codes, length,
  leb, ltb, if◌then◌else◌, ◌>>=◌,
}
use yamq.Log.FixedBuffer.{FixedBuffer, fixed_buffer, remain, offset, write_at, append}
use yamq.Log.Convert.{convert, convert_hex}
use yamq.Log.Convert.Decimal.{magnitude}

abbrev pub k_max_log_message_len : ℕ
k_max_log_message_len = 3000

abbrev pub max_numeric_size : ℕ
max_numeric_size = 32

-- What the operators take. The text of a `double` is that of `snprintf`, a parameter.
pub data Item : Type 0 where
  of_bool : Bool → Item
  of_int : ℤ → Item
  of_pointer : ℕ → Item
  of_char : ℕ → Item
  of_null : Item
  of_string : List ℕ → Item
  of_buffer : List ℕ → Item
  of_double : List ℕ → Item

-- The result of `append` is not looked at.
abbrev pub append_to : FixedBuffer → List ℕ → FixedBuffer
append_to b text = (append b text).1

-- The text with the zero byte behind it at the pointer, which moves over the text.
abbrev pub print_at : FixedBuffer → List ℕ → FixedBuffer
print_at b text = offset (write_at b (text ++ 0 ∷ [])) (length text)

pub copy2buf : FixedBuffer → ℤ → Option FixedBuffer
copy2buf b v =
    if leb max_numeric_size (remain b)
    then (convert (suc (magnitude v)) v >>= λ text. some (print_at b text))
    else some b

pub put_pointer : FixedBuffer → ℕ → Option FixedBuffer
put_pointer b p =
    if ltb (max_numeric_size + 2) (remain b)
    then (convert_hex (suc p) p >>= λ text. some (print_at (append_to b (codes "0x")) text))
    else some b

pub put_double : FixedBuffer → List ℕ → FixedBuffer
put_double b text = if leb max_numeric_size (remain b) then print_at b text else b

-- `operator<<` on each type.
unfoldable pub insert : FixedBuffer → Item → Option FixedBuffer
insert b (of_bool v) = some (append_to b (if v then codes "1" else codes "0"))
insert b (of_int v) = copy2buf b v
insert b (of_pointer p) = put_pointer b p
insert b (of_char c) = some (append_to b (c ∷ []))
insert b of_null = some (append_to b (codes "(null)"))
insert b (of_string str) = some (append_to b str)
insert b (of_buffer text) = some (append_to b text)
insert b (of_double text) = some (put_double b text)

unfoldable pub insert_all : FixedBuffer → List Item → Option FixedBuffer
insert_all b [] = some b
insert_all b (item ∷ items) = do b' ← insert b item; insert_all b' items
