-- ===== src/IoBuffer/Growth.antt =====
-- The operations that write beside the readable bytes or move them to another array: Prepend, Retrieve
-- and Shrink.
use yamq.Prelude.{
  ℕ, ◌+◌, ◌-◌, ◌≤◌, ◌≡◌, refl, subst, ap, ◌∙◌, false, some, List, [], ◌++◌, arith, leb, inl, inr,
  Bool-cases, leb→le, le→leb, slice-splice_front, length, take, drop, length-take, length-drop,
  append_assoc, take-append-drop, slice, splice, length-splice, take-ge, ◌>>=◌, int_max,
}
use yamq.IoBuffer.{
  swap, IoBuffer, io_buffer, k_initial_size, k_cheap_prepend, writable_bytes, readable_bytes,
  prepend_bytes, peek, prepend, retrieve, shrink, append,
}
use yamq.IoBuffer.Valid.{
  length-contents, filled, spaced, spaced-Spaced, copy_to-some, wseek-some, to_int-some, put-room,
  made_room,
}
use yamq.IoBuffer.Queue.{
  Holds, length-Holds, io_buffer-Holds, put-Holds, filled-Holds, io_buffer-writer_index,
}

-- `Prepend` puts bytes in front of those that are there, if there is room before them.
pub prepend-Holds :
    {b : IoBuffer} {c : List ℕ} (bytes : List ℕ)
    → Holds b c
    → length bytes ≤ prepend_bytes b
    → (b' : IoBuffer) × (prepend b bytes ≡ some b')
      × Holds b' (bytes ++ c)
      × (b'.writer_index ≡ b.writer_index)
unfolding prepend
prepend-Holds {b} {c} bytes h k =
    rw (le→leb (length bytes) (prepend_bytes b) k, copy_to-some b.buf i bytes fits)
      (
        record b { buf = splice i bytes b.buf; reader_index = i },
        refl,
        record {
          valid = omega (arith, h.valid, length-splice i bytes b.buf fits);
          bytes =
              ap (λ n. slice i n (splice i bytes b.buf)) (omega (arith, h.valid))
              ∙ slice-splice_front i (readable_bytes b) bytes b.buf (omega (arith, h.valid))
              ∙ ap (λ j. bytes ++ slice j (readable_bytes b) b.buf) {y = b.reader_index}
                  (omega arith)
              ∙ ap (λ l. bytes ++ l) h.bytes;
        },
        refl,
      )
  where
    i : ℕ
    i = b.reader_index - length bytes

    fits : i + length bytes ≤ length b.buf
    fits = omega (arith, h.valid)

-- On a valid buffer, where the writer index and the bytes received fit in an int, Retrieve appends
-- all that readv delivered, also what came through the second vector, and returns its number.
pub retrieve-Holds :
    {b : IoBuffer} {c : List ℕ} (received : List ℕ)
    → Holds b c
    → b.writer_index + length received ≤ int_max
    → (b' : IoBuffer) × (retrieve b (some received) ≡ some (length received, b'))
      × Holds b' (c ++ received)
unfolding retrieve
retrieve-Holds {b} {c} received h k = elim (Bool-cases (leb (length received) (writable_bytes b))) [
  | inl fits ↦
      rw
        (
          fits,
          take-ge (writable_bytes b) received (leb→le _ _ fits),
          copy_to-some b.buf b.writer_index received (ground arith),
          wseek-some (record b { buf = splice b.writer_index received b.buf }) (length received)
              (ground (arith, length-splice b.writer_index received b.buf)) k,
        )
        (filled b received, refl, filled-Holds received h (leb→le _ _ fits))
  | inr over ↦
      rw
        (
          over,
          copy_to-some b.buf b.writer_index part part_fits,
          wseek-some (record b { buf = splice b.writer_index part b.buf }) room
              (omega (arith, length-splice b.writer_index part b.buf part_fits)) (omega arith),
        )
        (let (b', e, hold, _) =
            put-Holds {b = topped} rest (topped-Holds over)
              (omega (arith, length-drop room received)) in
          (
            b',
            ap (λ r. r >>= λ b'. some (length received, b')) e,
            subst (Holds b')
                (append_assoc c part rest ∙ ap (λ l. c ++ l) (take-append-drop room received)) hold,
          ))
]
  where
    room : ℕ
    room = writable_bytes b

    part : List ℕ
    part = take room received

    rest : List ℕ
    rest = drop room received

    part_len : leb (length received) room ≡ false → length part ≡ room
    part_len over = ground (arith, length-take room received)

    part_fits : b.writer_index + length part ≤ length b.buf
    part_fits = omega (arith, length-take room received, h.valid)

    topped : IoBuffer
    topped = record b {
      buf = splice b.writer_index part b.buf;
      writer_index = b.writer_index + room;
    }

    topped-Holds : leb (length received) room ≡ false → Holds topped (c ++ part)
    topped-Holds over =
        subst
          (λ n.
            Holds
              (record b {
                buf = splice b.writer_index part b.buf;
                writer_index = b.writer_index + n;
              })
              (c ++ part))
          (part_len over) (filled-Holds part h (omega (arith, part_fits)))

-- On a valid buffer, where the sizes fit in an int, Shrink keeps the readable bytes and leaves room
-- to write the reserve asked for.
pub shrink-Holds :
    {b : IoBuffer} {c : List ℕ} (reserve : ℕ)
    → Holds b c
    → reserve + length c + k_cheap_prepend ≤ int_max
    → (b' : IoBuffer) × (shrink b reserve ≡ some b') × Holds b' c × (reserve ≤ writable_bytes b')
unfolding shrink append swap
shrink-Holds {b} {c} reserve h k =
    let n = reserve + readable_bytes b in
    let s =
      spaced-Spaced n fresh.valid
        (omega (arith, io_buffer-writer_index k_initial_size, length-Holds h)) in
    rw
      (
        to_int-some n (omega (arith, length-Holds h)),
        made_room {b = io_buffer k_initial_size} n fresh.valid,
      )
      (
        filled (spaced new n) moved,
        put-room moved s.valid (omega (arith, s.room, length-contents h.valid)),
        subst (Holds (filled (spaced new n) moved)) h.bytes (
            filled-Holds moved (record { valid = s.valid; bytes = s.same ∙ fresh.bytes })
              (omega (arith, s.room, length-contents h.valid))),
        omega (
          arith,
          s.room,
          length-contents h.valid,
          length-splice (spaced new n).writer_index moved (spaced new n).buf
              (omega (arith, s.room, s.valid, length-contents h.valid)),
        ),
      )
  where
    new : IoBuffer
    new = io_buffer k_initial_size

    moved : List ℕ
    moved = peek b (readable_bytes b)

    fresh : Holds new []
    fresh = io_buffer-Holds k_initial_size (omega arith)
