-- ===== src/Http/Context/Termination.antt =====
-- The loop of `parseRequest` ends in the two states that the server starts it in, and in no other.
use yamq.Prelude.{
  ℕ, zero, suc, ◌+◌, ◌<◌, ◌≡◌, ◌≢◌, refl, sym, subst, ◌⊎◌, inl, inr, Bool, true, false, none, some,
  Option, List, arith, length, length-drop, index_of, drop, ◌==◌, ◌>>=◌, Option-cases, Bool-cases,
}
use yamq.IoBuffer.{IoBuffer, peek, find_crlf, get_until}
use yamq.IoBuffer.Queue.{Holds}
use yamq.IoBuffer.Search.{get_until-some}
use yamq.Http.Request.{HttpRequest}
use yamq.Http.Context.{
  accept_line, HttpContext, HttpRequestParseState, Parse, running, parse_line, parse_loop,
  parse_request, process_request_line, k_expect_request_line, k_expect_headers, k_expect_body,
  k_got_all,
}

-- The states in which a round reads a line.
abbrev pub IsReading : HttpRequestParseState → Type 0
IsReading k_expect_request_line = Unit {0}
IsReading k_expect_headers = Unit {0}
IsReading _ = ⊥

-- The round took a line off the buffer, or it was the last.
abbrev Progress : List ℕ → Option Parse → Type 0
Progress c none = Unit {0}
Progress c (some p) =
    (p.has_more ≡ false)
    ⊎ (IsReading p.context.state × ((c' : List ℕ) × Holds p.buffer c' × (length c' < length c)))

after_line :
    {b : IoBuffer} {c : List ℕ} (i : ℕ) (k : IoBuffer → Parse) (o : Option IoBuffer)
    → Holds b c
    → get_until b (i + 2) ≡ o
    → ((b' : IoBuffer)
        → ((k b').has_more ≡ false) ⊎ (IsReading (k b').context.state × ((k b').buffer ≡ b')))
    → Progress c (o >>= λ b'. some (k b'))
after_line {b} {c} i k none h e f = tt
after_line {b} {c} i k (some b') h e f = elim (f b') [
  | inl last ↦ inl last
  | inr (reading, same) ↦
      let (fits, hold) = get_until-some (i + 2) h e in
      inr (
        reading,
        (
          drop (i + 2) c,
          subst (λ b. Holds b (drop (i + 2) c)) (sym same) hold,
          omega (arith, length-drop (i + 2) c),
        ),
      )
]

accept_line-Progress :
    {c : List ℕ} (p : Parse) (i : ℕ) (accepted : Bool) (r : HttpRequest)
    → Holds p.buffer c
    → Progress c (accept_line p i accepted r)
unfolding accept_line
accept_line-Progress p i true r h =
    after_line i _ (get_until p.buffer (i + 2)) h refl (λ b'. inr (tt, refl))
accept_line-Progress p i false r h = inl refl

request_round :
    {c : List ℕ} (p : Parse) (o : Option (Option ℕ))
    → Holds p.buffer c
    → find_crlf p.buffer ≡ o
    → Progress c (parse_line k_expect_request_line p)
unfolding parse_line
request_round p none h e = rw e tt
request_round p (some none) h e = rw e (inl refl)
request_round {c} p (some (some i)) h e =
    rw e (elim (Option-cases (process_request_line p.context.request (peek p.buffer i))) [
      | inl bad ↦ rw bad tt
      | inr ((accepted, r), good) ↦ rw good (accept_line-Progress p i accepted r h)
    ])

header_round :
    {c : List ℕ} (p : Parse) (o : Option (Option ℕ))
    → IsReading p.context.state
    → Holds p.buffer c
    → find_crlf p.buffer ≡ o
    → Progress c (parse_line k_expect_headers p)
unfolding parse_line
header_round p none r h e = rw e tt
header_round p (some none) r h e = rw e (inl refl)
header_round {c} p (some (some i)) r h e = rw e (
    after_line i _ (get_until p.buffer (i + 2)) h refl (λ b'.
      elim (Bool-cases (index_of 58 (peek p.buffer i) == length (peek p.buffer i))) [
        | inl absent ↦ rw absent (inl refl)
        | inr present ↦ rw present (inr (r, refl))
      ]))

parse_line-Progress :
    {c : List ℕ} (st : HttpRequestParseState) (p : Parse)
    → IsReading st
    → IsReading p.context.state
    → Holds p.buffer c
    → Progress c (parse_line st p)
parse_line-Progress k_expect_request_line p s r h = request_round p (find_crlf p.buffer) h refl
parse_line-Progress k_expect_headers p s r h = header_round p (find_crlf p.buffer) r h refl
parse_line-Progress k_expect_body p s r h = absurd s
parse_line-Progress k_got_all p s r h = absurd s

parse_loop-ends :
    (fuel : ℕ) {c : List ℕ} (p : Parse)
    → IsReading p.context.state
    → Holds p.buffer c
    → length c < fuel
    → parse_loop fuel p ≢ running
unfolding parse_loop
parse_loop-ends zero p r h k = absurd (omega arith)
parse_loop-ends (suc fuel) {c} p r h k = elim (Option-cases (parse_line p.context.state p)) [
  | inl bad ↦ rw (bad, parse_loop) (λ w. cc)
  | inr (p', round) ↦
      rw (round, parse_loop)
        (elim (Bool-cases p'.has_more) [
          | inl more ↦ rw more (elim (rw round at (parse_line-Progress p.context.state p r r h)) [
            | inl last ↦ cc
            | inr (r', (c', hold, less)) ↦ parse_loop-ends fuel p' r' hold (omega arith)
          ])
          | inr last ↦ rw last (λ w. cc)
        ])
]

-- On a valid buffer, in the states that expect a request line or headers, the loop of parseRequest
-- ends within as many rounds as there are readable bytes and one.
pub parse_request-ends :
    (fuel : ℕ) {c : List ℕ} (context : HttpContext) (b : IoBuffer)
    → IsReading context.state
    → Holds b c
    → length c < fuel
    → parse_request fuel context b ≢ running
unfolding parse_request
parse_request-ends fuel context b r h k = parse_loop-ends fuel _ r h k

parse_line-stays :
    (st : HttpRequestParseState) (p : Parse) → ¬ IsReading st → parse_line st p ≡ some p
unfolding parse_line
parse_line-stays k_expect_request_line p r = absurd (r tt)
parse_line-stays k_expect_headers p r = absurd (r tt)
parse_line-stays k_expect_body p r = refl
parse_line-stays k_got_all p r = refl

parse_loop-hangs :
    (fuel : ℕ) (p : Parse)
    → ¬ IsReading p.context.state
    → p.has_more ≡ true
    → parse_loop fuel p ≡ running
unfolding parse_loop
parse_loop-hangs zero p r h = refl
parse_loop-hangs (suc fuel) p r h =
    rw (parse_line-stays p.context.state p r, h, parse_loop) (parse_loop-hangs fuel p r h)

-- Called in the state that has got all of a request, or in the one that expects a body,
-- parseRequest is still running after any number of rounds.
pub parse_request-hangs :
    (fuel : ℕ) (context : HttpContext) (b : IoBuffer)
    → ¬ IsReading context.state
    → parse_request fuel context b ≡ running
unfolding parse_request
parse_request-hangs fuel context b r = parse_loop-hangs fuel _ r refl
