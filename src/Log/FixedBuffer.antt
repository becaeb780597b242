-- ===== src/Log/FixedBuffer.antt =====
-- log/logstream.h: FixedBuffer, an array of bytes and a pointer into it, as an index.
use yamq.Prelude.{
  ℕ, ◌+◌, ◌-◌, ◌≤◌, ◌<◌, ◌≡◌, sym, subst, ap, ◌∙◌, Bool, true, false, List, [], ◌++◌, append_assoc,
  append-nil, arith, length, length-append, length-take, take, drop, replicate, splice,
  length-splice, take-append, ltb, if◌then◌else◌,
}

pub record FixedBuffer : Type 0 where
  pub data_ : List ℕ
  pub cur : ℕ

abbrev pub fixed_buffer : ℕ → FixedBuffer
fixed_buffer bufsize = record { data_ = replicate bufsize 0; cur = 0 }

abbrev pub remain : FixedBuffer → ℕ
remain b = length b.data_ - b.cur

abbrev pub offset : FixedBuffer → ℕ → FixedBuffer
offset b off = record b { cur = b.cur + off }

abbrev pub rewind : FixedBuffer → FixedBuffer
rewind b = record b { cur = 0 }

-- What is written at `current()`, which `offset` then makes part of the contents.
abbrev pub write_at : FixedBuffer → List ℕ → FixedBuffer
write_at b text = record b { data_ = splice b.cur text b.data_ }

-- `len` is the length of the text.
unfoldable pub append : FixedBuffer → List ℕ → Bool × FixedBuffer
append b text =
    if ltb (remain b) (length text)
    then (false, b)
    else (true, offset (write_at b text) (length text))

-- The pointer stays in the array.
abbrev pub InBounds : FixedBuffer → Type 0
InBounds b = b.cur ≤ length b.data_

abbrev pub contents : FixedBuffer → List ℕ
contents b = take b.cur b.data_

-- A text written at the pointer, followed by what the pointer is not moved over.
pub write_at-contents :
    (b : FixedBuffer) (text after : List ℕ)
    → InBounds b
    → length text + length after ≤ remain b
    → (contents (offset (write_at b (text ++ after)) (length text)) ≡ contents b ++ text)
      × InBounds (offset (write_at b (text ++ after)) (length text))
      × (length (write_at b (text ++ after)).data_ ≡ length b.data_)
write_at-contents b text after h k = (
  ap (λ l. take (b.cur + length text) l) whole
      ∙ (ap (λ n. take n ((contents b ++ text) ++ rest)) same
          ∙ take-append (contents b ++ text) rest),
  omega (arith, size, length-append text after),
  size,
)
  where
    rest : List ℕ
    rest = after ++ drop (b.cur + length (text ++ after)) b.data_

    whole : splice b.cur (text ++ after) b.data_ ≡ (contents b ++ text) ++ rest
    whole =
        ap (λ l. contents b ++ l)
          (append_assoc text after (drop (b.cur + length (text ++ after)) b.data_))
        ∙ sym (append_assoc (contents b) text rest)

    same : b.cur + length text ≡ length (contents b ++ text)
    same = omega (arith, length-append (contents b) text, length-take b.cur b.data_)

    size : length (splice b.cur (text ++ after) b.data_) ≡ length b.data_
    size = length-splice b.cur (text ++ after) b.data_ (omega (arith, length-append text after))

not_less : (m n : ℕ) → n ≤ m → ltb m n ≡ false
not_less m n h = ground arith

-- `append` takes the whole text, or refuses it and changes nothing.
pub append-contents :
    (b : FixedBuffer) (text : List ℕ)
    → InBounds b
    → length text ≤ remain b
    → (b' : FixedBuffer) × (append b text ≡ (true, b'))
      × (contents b' ≡ contents b ++ text)
      × InBounds b'
      × (length b'.data_ ≡ length b.data_)
unfolding append
append-contents b text h k =
    let (same, inside, size) =
      subst
        (λ t.
          (contents (offset (write_at b t) (length text)) ≡ contents b ++ text)
          × InBounds (offset (write_at b t) (length text))
          × (length (write_at b t).data_ ≡ length b.data_))
        (append-nil text) (write_at-contents b text [] h (omega arith)) in
    (
      offset (write_at b text) (length text),
      rw (not_less (remain b) (length text) k),
      same,
      inside,
      size,
    )

pub append-refused :
    (b : FixedBuffer) (text : List ℕ) → remain b < length text → append b text ≡ (false, b)
unfolding append
append-refused b text k = ground arith
