-- ===== src/IoBuffer/Search.antt =====
-- `findCRLF`: right where the readable bytes hold a line end, and astray where they do not.
use yamq.Prelude.{
  ℕ, ◌+◌, ◌-◌, ◌≤◌, ◌<◌, ◌≡◌, ◌≢◌, refl, ap, ◌∙◌, sym, none, some, List, [], ◌∷◌, ◌++◌, arith,
  length, drop, drop, Lacks, take-append-drop, take-take,
}
use yamq.IoBuffer.{IoBuffer, peek, readable_bytes, search_crlf, find_crlf, get_until}
use yamq.IoBuffer.Valid.{IsValid, contents}
use yamq.IoBuffer.Queue.{Holds, seek-none, seek-Holds, seek-some}

-- More bytes behind do not change what is found.
search_crlf-append :
    (xs ys : List ℕ) → search_crlf xs ≢ none → search_crlf (xs ++ ys) ≡ search_crlf xs
unfolding search_crlf
search_crlf-append [] ys h = absurd (h refl)
search_crlf-append (x ∷ []) ys h = absurd (h refl)
search_crlf-append (x ∷ y ∷ xs) ys h = ground (arith, search_crlf-append (y ∷ xs) ys)

-- Nor is anything found in the front part alone that is not found there in the whole.
search_crlf-prefix :
    (xs ys : List ℕ) (i : ℕ)
    → search_crlf (xs ++ ys) ≡ some i
    → i + 2 ≤ length xs
    → search_crlf xs ≡ some i
unfolding search_crlf
search_crlf-prefix [] ys i h k = absurd (omega arith)
search_crlf-prefix (x ∷ []) ys i h k = absurd (omega arith)
search_crlf-prefix (x ∷ y ∷ xs) ys i h k = ground (arith, search_crlf-prefix (y ∷ xs) ys (i - 1))

-- The first line end of a line that has no carriage return of its own.
pub search_crlf-line :
    (line rest : List ℕ) → Lacks 13 line → search_crlf (line ++ 13 ∷ 10 ∷ rest) ≡ some (length line)
unfolding search_crlf
search_crlf-line [] rest h = refl
search_crlf-line (x ∷ []) rest h = ground arith
search_crlf-line (x ∷ y ∷ xs) rest h = ground (arith, search_crlf-line (y ∷ xs) rest h.1)

pub search_crlf-lt : (xs : List ℕ) (i : ℕ) → search_crlf xs ≡ some i → i + 2 ≤ length xs
unfolding search_crlf
search_crlf-lt [] i h = cc
search_crlf-lt (x ∷ []) i h = cc
search_crlf-lt (x ∷ y ∷ xs) i h = ground (arith, search_crlf-lt (y ∷ xs) (i - 1))

window : {b : IoBuffer} → IsValid b → (rest : List ℕ) × (peek b b.writer_index ≡ contents b ++ rest)
window {b} v =
    let shown =
      take-take (readable_bytes b) b.writer_index (drop b.reader_index b.buf) (omega arith) in
    (
      drop (readable_bytes b) (peek b b.writer_index),
      sym (take-append-drop (readable_bytes b) (peek b b.writer_index))
          ∙ ap (λ l. l ++ drop (readable_bytes b) (peek b b.writer_index)) shown,
    )

-- A line end among the readable bytes is found, and it is the first of them.
pub find_crlf-Holds :
    {b : IoBuffer} {c : List ℕ} (i : ℕ)
    → Holds b c
    → search_crlf c ≡ some i
    → find_crlf b ≡ some (some i)
unfolding find_crlf
find_crlf-Holds {b} {c} i h e =
    let (rest, w) = window h.valid in ground (arith, w, h.bytes, search_crlf-append c rest)

-- In a valid buffer whose readable bytes hold no line end, where the range that findCRLF searches
-- does hold one, the function points to it, behind the readable bytes, and GetUntil to its end
-- fails its assert.
pub find_crlf_stale :
    {b : IoBuffer} {c : List ℕ} (i : ℕ)
    → Holds b c
    → search_crlf c ≡ none
    → search_crlf (peek b b.writer_index) ≡ some i
    → (find_crlf b ≡ some (some i)) × (length c < i + 2) × (get_until b (i + 2) ≡ none)
unfolding find_crlf get_until
find_crlf_stale {b} {c} i h e k =
    let (rest, w) = window h.valid in
    let past : length c < i + 2 = ground (arith, w, h.bytes, search_crlf-prefix c rest i) in
    (rw (k, find_crlf), past, seek-none (i + 2) h past)

-- `GetUntil` is `Seek` by the distance from `Peek()`.
pub get_until-Holds :
    {b : IoBuffer} {c : List ℕ} (n : ℕ)
    → Holds b c
    → n ≤ length c
    → (b' : IoBuffer) × (get_until b n ≡ some b')
      × Holds b' (drop n c)
      × (b'.writer_index ≤ b.writer_index)
unfolding get_until
get_until-Holds n h k = seek-Holds n h k

pub get_until-some :
    {b b' : IoBuffer} {c : List ℕ} (n : ℕ)
    → Holds b c
    → get_until b n ≡ some b'
    → (n ≤ length c) × Holds b' (drop n c)
unfolding get_until
get_until-some n h e = seek-some n h e
