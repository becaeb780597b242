-- ===== src/Http/Context/Rounds.antt =====
-- One round of the loop of `parseRequest`, on a buffer that holds a whole line.
use yamq.Prelude.{
  ℕ, ◌+◌, ◌≡◌, ◌≢◌, subst, ap, ◌∙◌, true, false, some, List, ◌∷◌, ◌++◌, arith, length,
  length-append, drop, drop-append_ge, take-append, Lacks, index_of, index_of-Lacks, ==_false,
  ==-self,
}
use yamq.IoBuffer.{IoBuffer, peek, find_crlf, get_until}
use yamq.IoBuffer.Queue.{Holds, take-peek}
use yamq.IoBuffer.Search.{search_crlf-line, find_crlf-Holds, get_until-Holds}
use yamq.Http.Request.{HttpRequest, add_header}
use yamq.Http.Context.{
  accept_line, Parse, parse_line, process_request_line, k_expect_request_line, k_expect_headers,
  k_got_all,
}

-- The buffer begins with a line, and the line is read from it.
pub line-Holds :
    {b : IoBuffer} (line rest : List ℕ)
    → Lacks 13 line
    → Holds b (line ++ 13 ∷ 10 ∷ rest)
    → (b' : IoBuffer) × (find_crlf b ≡ some (some (length line)))
      × (peek b (length line) ≡ line)
      × (get_until b (length line + 2) ≡ some b')
      × Holds b' rest
line-Holds {b} line rest solid h =
    let (b', e, hold, _) =
      get_until-Holds (length line + 2) h (omega (arith, length-append line (13 ∷ 10 ∷ rest))) in
    (
      b',
      find_crlf-Holds (length line) h (search_crlf-line line rest solid),
      take-peek (length line) h (omega (arith, length-append line (13 ∷ 10 ∷ rest)))
          ∙ take-append line (13 ∷ 10 ∷ rest),
      e,
      subst (Holds b')
          (drop-append_ge (length line + 2) line (13 ∷ 10 ∷ rest) (omega arith)
            ∙ ap (λ n. drop n (13 ∷ 10 ∷ rest)) {y = 2} (omega arith))
          hold,
    )

module _ (p : Parse) (line rest : List ℕ) (solid : Lacks 13 line)
    (h : Holds p.buffer (line ++ 13 ∷ 10 ∷ rest)) where
  -- An accepted request line is consumed, and headers are expected.
  pub parse_line-accepted :
      (r : HttpRequest)
      → process_request_line p.context.request line ≡ some (true, r)
      → (b' : IoBuffer) × (parse_line k_expect_request_line p
          ≡ some (record {
            is_ok = true;
            has_more = p.has_more;
            context = record { state = k_expect_headers; request = r };
            buffer = b';
          }))
        × Holds b' rest
  unfolding parse_line accept_line
  parse_line-accepted r e =
      let (b', found, read, sought, hold) = line-Holds line rest solid h in
      (b', rw (found, read, e, sought), hold)

  -- A line with a colon is a header.
  pub parse_line-header :
      index_of 58 line ≢ length line
      → (b' : IoBuffer) × (parse_line k_expect_headers p
          ≡ some (record p {
            context = record (p.context) {
              request = add_header p.context.request line (index_of 58 line);
            };
            buffer = b';
          }))
        × Holds b' rest
  unfolding parse_line
  parse_line-header e =
      let (b', found, read, sought, hold) = line-Holds line rest solid h in
      (b', rw (found, read, sought, ==_false (index_of 58 line) (length line) e), hold)

  -- A line without a colon, be it empty or not, ends the headers.
  pub parse_line-end :
      Lacks 58 line
      → (b' : IoBuffer) × (parse_line k_expect_headers p
          ≡ some (record p {
            has_more = false;
            context = record (p.context) { state = k_got_all };
            buffer = b';
          }))
        × Holds b' rest
  unfolding parse_line
  parse_line-end e =
      let (b', found, read, sought, hold) = line-Holds line rest solid h in
      (b', rw (found, read, sought, index_of-Lacks 58 line e, ==-self (length line)), hold)

  -- A request line that is not accepted ends the loop and stays in the buffer.
  pub parse_line-refused :
      (r : HttpRequest)
      → process_request_line p.context.request line ≡ some (false, r)
      → parse_line k_expect_request_line p
        ≡ some (record p {
          is_ok = false;
          has_more = false;
          context = record (p.context) { request = r };
        })
  unfolding parse_line accept_line
  parse_line-refused r e =
      let (b', found, read, sought, hold) = line-Holds line rest solid h in rw (found, read, e)
