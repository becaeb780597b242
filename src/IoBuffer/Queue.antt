-- ===== src/IoBuffer/Queue.antt =====
-- The buffer seen as the queue of the bytes between its indices: what each operation does to it.
use yamq.Prelude.{
  ℕ, ◌+◌, ◌≤◌, ◌<◌, ◌≡◌, refl, sym, subst, ap, ap₂, ◌∙◌, some, none, List, [], ◌++◌, arith, ltb,
  leb, inl, inr, if◌then◌else◌, Bool-cases, leb→le, le→leb, length, take, drop, take-ge, drop-ge,
  drop-drop, drop-take, take-take, length-replicate, ◌>>=◌, int_max,
}
use yamq.IoBuffer.{
  IoBuffer, io_buffer, k_cheap_prepend, writable_bytes, readable_bytes, peek, put, seek, get,
  get_as_string, append,
}
use yamq.IoBuffer.Valid.{
  IsValid, contents, length-contents, filled, spaced, spaced-Spaced, put-filled, filled-IsValid,
  contents-filled,
}

pub io_buffer-writer_index : (n : ℕ) → (io_buffer n).writer_index ≡ k_cheap_prepend
unfolding io_buffer
io_buffer-writer_index n = refl

-- The buffer is valid and holds the bytes `c`.
pub record Holds (b : IoBuffer) (c : List ℕ) : Type 0 where
  pub valid : IsValid b
  pub bytes : contents b ≡ c

pub length-Holds : {b : IoBuffer} {c : List ℕ} → Holds b c → length c ≡ readable_bytes b
length-Holds {b} {c} h = omega (arith, length-contents h.valid, ap length h.bytes)

-- A new buffer is valid and empty.
pub io_buffer-Holds : (n : ℕ) → n + k_cheap_prepend ≤ int_max → Holds (io_buffer n) []
unfolding io_buffer
io_buffer-Holds n h = record {
  valid = omega (arith, length-replicate {A = ℕ} (n + 8) 0);
  bytes = refl;
}

pub filled-Holds :
    {b : IoBuffer} {c : List ℕ} (bytes : List ℕ)
    → Holds b c
    → length bytes ≤ writable_bytes b
    → Holds (filled b bytes) (c ++ bytes)
filled-Holds {b} bytes h k = record {
  valid = filled-IsValid bytes h.valid k;
  bytes = contents-filled bytes h.valid k ∙ ap (λ l. l ++ bytes) h.bytes;
}

-- On a valid buffer, where the writer index and the bytes fit in an int, Put succeeds on each of
-- its branches, keeps the buffer valid and appends the bytes to those that are readable.
pub put-Holds :
    {b : IoBuffer} {c : List ℕ} (bytes : List ℕ)
    → Holds b c
    → b.writer_index + length bytes ≤ int_max
    → (b' : IoBuffer) × (put b bytes ≡ some b')
      × Holds b' (c ++ bytes)
      × (b'.writer_index ≤ b.writer_index + length bytes)
put-Holds {b} {c} bytes h k =
    let s = spaced-Spaced (length bytes) h.valid k in
    (
      filled (spaced b (length bytes)) bytes,
      put-filled bytes h.valid k,
      filled-Holds bytes (record { valid = s.valid; bytes = s.same ∙ h.bytes }) s.room,
      omega (arith, s.back),
    )

-- The buffer after `Seek` within the readable bytes.
abbrev sought : IoBuffer → ℕ → IoBuffer
sought b n =
    if ltb n (readable_bytes b)
    then record b { reader_index = b.reader_index + n }
    else record b { reader_index = k_cheap_prepend; writer_index = k_cheap_prepend }

drop-contents :
    (b : IoBuffer) (n : ℕ)
    → drop n (contents b) ≡ contents (record b { reader_index = b.reader_index + n })
drop-contents b n =
    drop-take n (readable_bytes b) (drop b.reader_index b.buf)
    ∙ ap₂ take (omega arith) (drop-drop n b.reader_index b.buf)

sought-Holds :
    {b : IoBuffer} {c : List ℕ} (n : ℕ) → Holds b c → n ≤ length c → Holds (sought b n) (drop n c)
sought-Holds {b} {c} n h k = elim (Bool-cases (ltb n (readable_bytes b))) [
  | inl part ↦ rw part (record {
    valid = ground (arith, h.valid);
    bytes = sym (ap (drop n) (sym h.bytes) ∙ drop-contents b n);
  })
  | inr all ↦ rw all (record {
    valid = ground (arith, h.valid);
    bytes = sym (drop-ge n c (ground (arith, length-Holds h)));
  })
]

seek-sought : (b : IoBuffer) (n : ℕ) → n ≤ readable_bytes b → seek b n ≡ some (sought b n)
unfolding seek
seek-sought b n h = ground arith

-- `Seek` by no more than the readable bytes drops that many; when none is left the indices go back
-- to the front.
pub seek-Holds :
    {b : IoBuffer} {c : List ℕ} (n : ℕ)
    → Holds b c
    → n ≤ length c
    → (b' : IoBuffer) × (seek b n ≡ some b')
      × Holds b' (drop n c)
      × (b'.writer_index ≤ b.writer_index)
seek-Holds {b} {c} n h k = (
  sought b n,
  seek-sought b n (omega (arith, length-Holds h)),
  sought-Holds n h k,
  ground (arith, h.valid),
)

pub seek-none : {b : IoBuffer} {c : List ℕ} (n : ℕ) → Holds b c → length c < n → seek b n ≡ none
unfolding seek
seek-none {b} {c} n h k = ground (arith, length-Holds h)

-- A `Seek` that succeeds was within the readable bytes.
pub seek-some :
    {b b' : IoBuffer} {c : List ℕ} (n : ℕ)
    → Holds b c
    → seek b n ≡ some b'
    → (n ≤ length c) × Holds b' (drop n c)
seek-some {b} {b'} {c} n h e = elim (Bool-cases (leb n (length c))) [
  | inl fits ↦
      let (b1, e1, hold, _) = seek-Holds n h (leb→le _ _ fits) in
      let same : b1 ≡ b' = cc in (leb→le _ _ fits, subst (λ b. Holds b (drop n c)) same hold)
  | inr over ↦ cc (seek-none n h (ground arith))
]

pub take-peek : {b : IoBuffer} {c : List ℕ} (n : ℕ) → Holds b c → n ≤ length c → peek b n ≡ take n c
take-peek {b} {c} n h k =
    sym (take-take n (readable_bytes b) (drop b.reader_index b.buf) (omega (arith, length-Holds h)))
    ∙ ap (take n) h.bytes

-- One read of `m` bytes, `m` being no more than there are.
got :
    {b : IoBuffer} {c : List ℕ} (m : ℕ)
    → Holds b c
    → m ≤ length c
    → (b' : IoBuffer) × (◌>>=◌ {B = List ℕ × IoBuffer} (seek b m) (λ b'. some (peek b m, b'))
        ≡ some (take m c, b'))
      × Holds b' (drop m c)
      × (b'.writer_index ≤ b.writer_index)
got {b} {c} m h k =
    let (b', e, hold, back) = seek-Holds m h k in (b', rw (e, take-peek m h k), hold, back)

-- `Get` hands out the first bytes, as many as there are, and drops them.
pub get-Holds :
    {b : IoBuffer} {c : List ℕ} (n : ℕ)
    → Holds b c
    → (b' : IoBuffer) × (get b n ≡ some (take n c, b'))
      × Holds b' (drop n c)
      × (b'.writer_index ≤ b.writer_index)
unfolding get
get-Holds {b} {c} n h = elim (Bool-cases (leb (readable_bytes b) 0)) [
  | inl none_left ↦
      let nil : c ≡ [] = drop-ge 0 c (ground (arith, length-Holds h)) in
      rw none_left (
        b,
        rw nil (ap (λ l. some (l, b)) (sym (take-ge n [] (omega arith)))),
        record {
          valid = h.valid;
          bytes = h.bytes ∙ nil ∙ sym (drop-ge n c (ground (arith, length-Holds h)));
        },
        omega arith,
      )
  | inr some_left ↦ rw some_left (elim (Bool-cases (ltb n (readable_bytes b))) [
    | inl part ↦ rw part (got n h (ground (arith, length-Holds h)))
    | inr all ↦ rw all (
        let (b', e, hold, back) = got (readable_bytes b) h (ground (arith, length-Holds h)) in
        (
          b',
          e
              ∙ ap (λ l. some (l, b'))
                  (take-ge (readable_bytes b) c (omega (arith, length-Holds h))
                    ∙ sym (take-ge n c (ground (arith, length-Holds h)))),
          record {
            valid = hold.valid;
            bytes =
                hold.bytes
                ∙ drop-ge (readable_bytes b) c (omega (arith, length-Holds h))
                ∙ sym (drop-ge n c (ground (arith, length-Holds h)));
          },
          back,
        ))
  ])
]

-- Reading a string of a length that is there.
pub get_as_string-Holds :
    {b : IoBuffer} {c : List ℕ} (n : ℕ)
    → Holds b c
    → n ≤ length c
    → (b' : IoBuffer) × (get_as_string b n ≡ some (take n c, b')) × Holds b' (drop n c)
unfolding get_as_string
get_as_string-Holds {b} {c} n h k =
    rw (le→leb n (readable_bytes b) (omega (arith, length-Holds h)))
      (let (b', e, hold, _) = got n h k in (b', e, hold))

pub append-Holds :
    {b : IoBuffer} {c : List ℕ} (bytes : List ℕ)
    → Holds b c
    → b.writer_index + length bytes ≤ int_max
    → (b' : IoBuffer) × (append b bytes ≡ some b')
      × Holds b' (c ++ bytes)
      × (b'.writer_index ≤ b.writer_index + length bytes)
unfolding append
append-Holds bytes h k = put-Holds bytes h k
