-- ===== src/IoBuffer/Valid.antt =====
-- The invariant of the buffer, and what `put` does on each of its three branches.
use yamq.Prelude.{
  ℕ, ◌+◌, ◌-◌, ◌≤◌, ◌<◌, ◌≡◌, refl, ap, ap₂, ◌∙◌, some, List, ◌++◌, arith, ltb, inl, inr,
  if◌then◌else◌, ltb→lt, Bool-cases, length, take, replicate, length-append, length-take,
  length-replicate, slice, splice, length-splice, length-slice, slice-splice_end, slice-splice_self,
  slice-take_append, ◌>>=◌, to_int, int_max,
}
use yamq.IoBuffer.{
  IoBuffer, k_cheap_prepend, writable_bytes, prepend_bytes, readable_bytes, peek, copy_to, resize,
  wseek, compact, make_space, put,
}

-- The indices are in order, the writer is never in the prepend area, and every size is an `int`.
pub record IsValid (b : IoBuffer) : Type 0 where
  pub ordered : b.reader_index ≤ b.writer_index
  pub within : b.writer_index ≤ length b.buf
  pub ahead : k_cheap_prepend ≤ b.writer_index
  pub small : length b.buf ≤ int_max

-- The bytes that a reader has still to see.
abbrev pub contents : IoBuffer → List ℕ
contents b = peek b (readable_bytes b)

pub length-contents : {b : IoBuffer} → IsValid b → length (contents b) ≡ readable_bytes b
length-contents {b} v = length-slice b.reader_index (readable_bytes b) b.buf (omega arith)

pub copy_to-some :
    (xs : List ℕ) (i : ℕ) (ys : List ℕ)
    → i + length ys ≤ length xs
    → copy_to xs i ys ≡ some (splice i ys xs)
unfolding copy_to
copy_to-some xs i ys h = ground arith

pub to_int-some : (n : ℕ) → n ≤ int_max → to_int n ≡ some n
to_int-some n h = ground arith

pub length-resize : (xs : List ℕ) (n : ℕ) → length xs ≤ n → length (resize xs n) ≡ n
unfolding resize
length-resize xs n h = omega (
  arith,
  length-append (take n xs) (replicate (n - length xs) 0),
  length-take n xs,
  length-replicate {A = ℕ} (n - length xs) 0,
)

-- The buffer after the copy of `put` has found room.
abbrev pub filled : IoBuffer → List ℕ → IoBuffer
filled b bytes = record b {
  buf = splice b.writer_index bytes b.buf;
  writer_index = b.writer_index + length bytes;
}

pub wseek-some :
    (b : IoBuffer) (n : ℕ)
    → n ≤ writable_bytes b
    → b.writer_index + n ≤ int_max
    → wseek b n ≡ some (record b { writer_index = b.writer_index + n })
unfolding wseek
wseek-some b n h k = ground arith

pub fill :
    (b : IoBuffer) (bytes : List ℕ)
    → IsValid b
    → length bytes ≤ writable_bytes b
    → (copy_to b.buf b.writer_index bytes >>= λ buf. wseek (record b { buf = buf }) (length bytes))
      ≡ some (filled b bytes)
fill b bytes v h = rw (copy_to-some b.buf b.writer_index bytes (omega arith)) (
    wseek-some (record b { buf = splice b.writer_index bytes b.buf }) (length bytes)
      (omega (arith, length-splice b.writer_index bytes b.buf)) (omega arith))

pub filled-IsValid :
    {b : IoBuffer} (bytes : List ℕ)
    → IsValid b
    → length bytes ≤ writable_bytes b
    → IsValid (filled b bytes)
filled-IsValid {b} bytes v h = omega (arith, length-splice b.writer_index bytes b.buf)

pub contents-filled :
    {b : IoBuffer} (bytes : List ℕ)
    → IsValid b
    → length bytes ≤ writable_bytes b
    → contents (filled b bytes) ≡ contents b ++ bytes
contents-filled {b} bytes v h =
    ap₂ (λ n w. slice b.reader_index n (splice w bytes b.buf)) (omega arith) (omega arith)
    ∙ slice-splice_end b.reader_index (readable_bytes b) bytes b.buf (omega arith)

-- The buffer after `make_space`, where `put` calls it for `n` bytes.
abbrev pub grown : IoBuffer → ℕ → IoBuffer
grown b n = record b { buf = resize b.buf (b.writer_index + n) }

abbrev pub compacted : IoBuffer → IoBuffer
compacted b = record {
  buf = splice k_cheap_prepend (contents b) b.buf;
  reader_index = k_cheap_prepend;
  writer_index = k_cheap_prepend + readable_bytes b;
}

abbrev pub roomed : IoBuffer → ℕ → IoBuffer
roomed b n =
    if ltb (writable_bytes b + prepend_bytes b) (n + k_cheap_prepend)
    then grown b n
    else compacted b

abbrev pub spaced : IoBuffer → ℕ → IoBuffer
spaced b n = if ltb (writable_bytes b) n then roomed b n else b

-- What making room keeps, and the room that it makes.
pub record Spaced (b : IoBuffer) (n : ℕ) (b' : IoBuffer) : Type 0 where
  pub valid : IsValid b'
  pub room : n ≤ writable_bytes b'
  pub same : contents b' ≡ contents b
  pub back : b'.writer_index ≤ b.writer_index

module _ {b : IoBuffer} (n : ℕ) (v : IsValid b) where
  grown-Spaced : writable_bytes b < n → b.writer_index + n ≤ int_max → Spaced b n (grown b n)
  unfolding resize
  grown-Spaced h k = record {
    valid = omega (arith, size);
    room = omega (arith, size);
    same =
        slice-take_append b.reader_index (readable_bytes b) (b.writer_index + n) b.buf _
          (omega arith) (omega arith);
    back = omega arith;
  }
    where
      size : length (resize b.buf (b.writer_index + n)) ≡ b.writer_index + n
      size = length-resize b.buf (b.writer_index + n) (omega arith)

  compacted-Spaced :
      writable_bytes b < n
      → n + k_cheap_prepend ≤ writable_bytes b + prepend_bytes b
      → Spaced b n (compacted b)
  compacted-Spaced h k = record {
    valid = omega (arith, size, length-contents v);
    room = omega (arith, size);
    same =
        ap (λ m. slice k_cheap_prepend m (splice k_cheap_prepend (contents b) b.buf))
          (omega (arith, length-contents v))
        ∙ slice-splice_self k_cheap_prepend (contents b) b.buf (omega arith);
    back = omega arith;
  }
    where
      size : length (splice k_cheap_prepend (contents b) b.buf) ≡ length b.buf
      size = length-splice k_cheap_prepend (contents b) b.buf (omega (arith, length-contents v))

  -- `make_space` is called only where it is able to make the room.
  pub spaced-Spaced : b.writer_index + n ≤ int_max → Spaced b n (spaced b n)
  spaced-Spaced k = elim (Bool-cases (ltb (writable_bytes b) n)) [
    | inr enough ↦
        rw enough (record { valid = v; room = ground arith; same = refl; back = omega arith })
    | inl short ↦
        rw short
          (elim (Bool-cases (ltb (writable_bytes b + prepend_bytes b) (n + k_cheap_prepend))) [
            | inl full ↦ rw full (grown-Spaced (ltb→lt _ _ short) k)
            | inr loose ↦ rw loose (compacted-Spaced (ltb→lt _ _ short) (ground arith))
          ])
  ]

  make_space-roomed : writable_bytes b < n → make_space b n ≡ some (roomed b n)
  unfolding make_space compact copy_to
  make_space-roomed h = ground (arith, length-contents v)

pub made_room :
    {b : IoBuffer} (n : ℕ)
    → IsValid b
    → (if ltb (writable_bytes b) n then make_space b n else some b) ≡ some (spaced b n)
made_room {b} n v = elim (Bool-cases (ltb (writable_bytes b) n)) [
  | inl short ↦ rw short (make_space-roomed n v (ltb→lt _ _ short))
  | inr enough ↦ rw enough
]

-- `put` never fails within the range of an `int`.
pub put-filled :
    {b : IoBuffer} (bytes : List ℕ)
    → IsValid b
    → b.writer_index + length bytes ≤ int_max
    → put b bytes ≡ some (filled (spaced b (length bytes)) bytes)
unfolding put
put-filled {b} bytes v h =
    let n = length bytes in
    let s = spaced-Spaced n v h in
    rw (to_int-some n (omega arith), made_room n v) (fill (spaced b n) bytes s.valid s.room)

pub put-room :
    {b : IoBuffer} (bytes : List ℕ)
    → IsValid b
    → length bytes ≤ writable_bytes b
    → put b bytes ≡ some (filled b bytes)
put-room {b} bytes v h =
    put-filled bytes v (omega arith)
    ∙ ap (λ s. some (filled s bytes)) {x = spaced b (length bytes)} {y = b} (ground arith)
