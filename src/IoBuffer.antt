-- ===== src/IoBuffer.antt =====
-- rpc/io_buffer.h and rpc/io_buffer.cpp: the byte buffer of a connection.
-- A `char` is a number, a buffer is its vector with the two indices. `none` is the end of defined
-- behaviour: an assert fails, `std::copy` leaves the vector, or a size does not fit in an `int`.
pub mod Valid
pub mod Queue
mod Growth
pub mod Ints
pub mod Search
pub mod Run
mod Tests
use mathlib.Core.Option
use yamq.Prelude.{
  ℕ, suc, ◌&&◌, ◌+◌, ◌-◌, ◌*◌, ◌/◌, ◌%◌, ◌^◌, ◌≡◌, Bool, true, false, Option, none, some, List, [],
  ◌∷◌, ◌++◌, ltb, leb, ◌==◌, if◌then◌else◌, length, take, drop, replicate, slice, splice, ◌>>=◌,
  ◌>>◌, guard, to_int,
}

pub record IoBuffer : Type 0 where
  pub buf : List ℕ
  pub reader_index : ℕ
  pub writer_index : ℕ

abbrev pub k_initial_size : ℕ
k_initial_size = 1024

abbrev pub k_cheap_prepend : ℕ
k_cheap_prepend = 8

-- `std::vector<char>(n)` holds zeros.
pub io_buffer : ℕ → IoBuffer
io_buffer initial_size = record {
  buf = replicate (initial_size + k_cheap_prepend) 0;
  reader_index = k_cheap_prepend;
  writer_index = k_cheap_prepend;
}

abbrev pub writable_bytes : IoBuffer → ℕ
writable_bytes b = length b.buf - b.writer_index

abbrev pub prepend_bytes : IoBuffer → ℕ
prepend_bytes b = b.reader_index

abbrev pub readable_bytes : IoBuffer → ℕ
readable_bytes b = b.writer_index - b.reader_index

-- The `n` bytes from `Peek()` on.
abbrev pub peek : IoBuffer → ℕ → List ℕ
peek b n = slice b.reader_index n b.buf

-- `std::copy` into the vector, from index `i` on.
pub copy_to : List ℕ → ℕ → List ℕ → Option (List ℕ)
copy_to xs i ys = if leb (i + length ys) (length xs) then some (splice i ys xs) else none

-- `std::vector::resize`: new elements are zeros.
pub resize : List ℕ → ℕ → List ℕ
resize xs n = take n xs ++ replicate (n - length xs) 0

pub wseek : IoBuffer → ℕ → Option IoBuffer
wseek b offset = do
  guard (leb offset (writable_bytes b))
  writer_index ← to_int (b.writer_index + offset)
  some (record b { writer_index = writer_index })

pub compact : IoBuffer → Option IoBuffer
compact b = do
  guard (ltb k_cheap_prepend b.reader_index)
  buf ← copy_to b.buf k_cheap_prepend (peek b (readable_bytes b))
  some (record {
    buf = buf;
    reader_index = k_cheap_prepend;
    writer_index = k_cheap_prepend + readable_bytes b;
  })

pub make_space : IoBuffer → ℕ → Option IoBuffer
make_space b n =
    if ltb (writable_bytes b + prepend_bytes b) (n + k_cheap_prepend)
    then some (record b { buf = resize b.buf (b.writer_index + n) })
    else compact b

pub put : IoBuffer → List ℕ → Option IoBuffer
put b bytes = do
  size ← to_int (length bytes)
  b' ← if ltb (writable_bytes b) size then make_space b size else some b
  buf ← copy_to b'.buf b'.writer_index bytes
  wseek (record b' { buf = buf }) size

pub append : IoBuffer → List ℕ → Option IoBuffer
append b bytes = put b bytes

-- The assert names a `PrependChars` that the class does not have; `PrependBytes` is meant.
pub prepend : IoBuffer → List ℕ → Option IoBuffer
prepend b bytes = do
  guard (leb (length bytes) (prepend_bytes b))
  let reader_index = b.reader_index - length bytes
  buf ← copy_to b.buf reader_index bytes
  some (record b { buf = buf; reader_index = reader_index })

-- Every caller passes an offset of 0 or more.
pub seek : IoBuffer → ℕ → Option IoBuffer
seek b offset = do
  guard (leb offset (readable_bytes b))
  some (
      if ltb offset (readable_bytes b)
      then record b { reader_index = b.reader_index + offset }
      else record b { reader_index = k_cheap_prepend; writer_index = k_cheap_prepend })

-- The bytes that are copied out come first; their number is what the function returns.
pub get : IoBuffer → ℕ → Option (List ℕ × IoBuffer)
get b size =
    if leb (readable_bytes b) 0
    then some ([], b)
    else let actual = if ltb size (readable_bytes b) then size else readable_bytes b in
      do b' ← seek b actual; some (peek b actual, b')

abbrev pub extrabuf_size : ℕ
extrabuf_size = 65536

-- How many bytes `readv` may deliver: the second vector is passed only if the first is short.
pub readv_room : IoBuffer → ℕ
readv_room b =
    if ltb (writable_bytes b) extrabuf_size
    then writable_bytes b + extrabuf_size
    else writable_bytes b

-- `received` is what `readv` delivers, `none` its failure, which is logged as fatal and aborts.
pub retrieve : IoBuffer → Option (List ℕ) → Option (ℕ × IoBuffer)
retrieve b none = none
retrieve b (some received) =
    let writeable = writable_bytes b in
    do
      buf ← copy_to b.buf b.writer_index (take writeable received)
      let filled = record b { buf = buf }
      b' ←
          if leb (length received) writeable
          then wseek filled (length received)
          else (do b' ← wseek filled writeable; put b' (drop writeable received))
      some (length received, b')

-- Each object ends with the fields of the other.
pub swap : IoBuffer → IoBuffer → IoBuffer × IoBuffer
swap b that = (that, b)

pub shrink : IoBuffer → ℕ → Option IoBuffer
shrink b reserve =
    let buf = io_buffer k_initial_size in
    do
      reserve' ← to_int (reserve + readable_bytes b)
      buf' ← if ltb (writable_bytes buf) reserve' then make_space buf reserve' else some buf
      append buf' (peek b (readable_bytes b))

pub reset : IoBuffer → IoBuffer
reset b = (swap b (io_buffer k_initial_size)).0

-- The four bytes of a 32-bit pattern as a little-endian host stores them, and back.
pub le_bytes32 : ℕ → List ℕ
le_bytes32 v = (v % 256) ∷ (v / 256 % 256) ∷ (v / 256 ^ 2 % 256) ∷ (v / 256 ^ 3 % 256) ∷ []

le_value : List ℕ → ℕ
le_value [] = 0
le_value (x ∷ xs) = x + 256 * le_value xs

-- `be32toh` and `htobe32` on a little-endian host: the bytes in reverse.
pub bswap32 : ℕ → ℕ
bswap32 v =
    v % 256 * 256 ^ 3 + v / 256 % 256 * 256 ^ 2 + v / 256 ^ 2 % 256 * 256 + v / 256 ^ 3 % 256

-- An `int32_t` is its bit pattern, a number below 2^32.
pub put_int32 : IoBuffer → ℕ → Option (ℕ × IoBuffer)
put_int32 b val = do b' ← put b (le_bytes32 (bswap32 val)); some (4, b')

pub get_int32 : IoBuffer → Option (ℕ × IoBuffer)
get_int32 b = do
  (bytes, b') ← get b 4
  guard (length bytes == 4)
  some (bswap32 (le_value bytes), b')

pub put_string : IoBuffer → List ℕ → Option (ℕ × IoBuffer)
put_string b str = do b' ← put b str; some (length str, b')

pub get_as_string : IoBuffer → ℕ → Option (List ℕ × IoBuffer)
get_as_string b n = do guard (leb n (readable_bytes b)); b' ← seek b n; some (peek b n, b')

pub get_all_as_string : IoBuffer → Option (List ℕ × IoBuffer)
get_all_as_string b = get_as_string b (readable_bytes b)

-- `std::search` for `kCRLF`: the index of its first occurrence.
pub search_crlf : List ℕ → Option ℕ
search_crlf [] = none
search_crlf (x ∷ []) = none
search_crlf (x ∷ y ∷ xs) =
    let rest = search_crlf (y ∷ xs) in if x == 13 && y == 10 then some 0 else Option.map suc rest

-- The range searched begins at `Peek()` and is `_writer_index` bytes long, so it goes on behind the
-- writer. Its end may lie outside the vector: that the search comes there is undefined.
pub find_crlf : IoBuffer → Option (Option ℕ)
find_crlf b = elim (search_crlf (peek b b.writer_index)) [
  | some i ↦ some (some i)
  | none ↦ if leb (b.reader_index + b.writer_index) (length b.buf) then some none else none
]

-- `end` points `n` bytes behind `Peek()`.
pub get_until : IoBuffer → ℕ → Option IoBuffer
get_until b n = seek b n
