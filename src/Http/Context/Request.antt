-- ===== src/Http/Context/Request.antt =====
-- A whole request, as a client writes it, is read back with all its parts.
use yamq.Prelude.{
  ℕ, zero, suc, ◌+◌, ◌<◌, ◌≡◌, ◌≢◌, refl, subst, true, false, some, List, [], ◌∷◌, ◌++◌, arith,
  length, length-append, index_of-append, Lacks, Lacks-append, append_assoc,
}
use yamq.IoBuffer.{IoBuffer}
use yamq.IoBuffer.Queue.{Holds}
use yamq.Http.HeaderMap.{HeaderMap, set_header}
use yamq.Http.Request.{HttpRequest, Method, Version, k_invalid, k_unknown, http_request}
use yamq.Http.Request.Headers.{IsTrimmed, add_header-field}
use yamq.Http.Context.{
  process_request_line, Parse, done, parse_loop, parse_request, http_context, k_expect_request_line,
  k_expect_headers, k_got_all,
}
use yamq.Http.Context.RequestLine.{
  request_line, request_line-Lacks, IsQuery, process_request_line-print,
}
use yamq.Http.Context.Rounds.{
  parse_line-accepted, parse_line-header, parse_line-end, parse_line-refused,
}

-- The bytes of the header lines, and of the empty line that ends them.
unfoldable pub header_lines : HeaderMap → List ℕ
header_lines [] = 13 ∷ 10 ∷ []
header_lines ((field, value) ∷ hs) = field ++ 58 ∷ 32 ∷ value ++ 13 ∷ 10 ∷ header_lines hs

-- The headers in the order of the lines, put one after the other into the map.
unfoldable pub set_headers : HeaderMap → HeaderMap → HeaderMap
set_headers [] m = m
set_headers ((field, value) ∷ hs) m = set_headers hs (set_header field value m)

-- No colon in a field, no carriage return in either part, no space at the ends of a value.
abbrev pub AreHeaders : HeaderMap → Type 0
AreHeaders [] = Unit {0}
AreHeaders ((field, value) ∷ hs) =
    Lacks 58 field × Lacks 13 field × Lacks 13 value × IsTrimmed value × AreHeaders hs

abbrev reading_headers : HttpRequest → IoBuffer → Parse
reading_headers r b = record {
  is_ok = true;
  has_more = true;
  context = record { state = k_expect_headers; request = r };
  buffer = b;
}

-- The request with the headers of the lines.
abbrev pub with_headers : HttpRequest → HeaderMap → HttpRequest
with_headers r hs = record r { headers = set_headers hs r.headers }

header_line-Lacks :
    (field value : List ℕ) → Lacks 13 field → Lacks 13 value → Lacks 13 (field ++ 58 ∷ 32 ∷ value)
header_line-Lacks field value f v =
    Lacks-append 13 field (58 ∷ 32 ∷ value) f (omega arith, (omega arith, v))

parse_loop-headers :
    (hs : HeaderMap) (fuel : ℕ) (r : HttpRequest) (b : IoBuffer) (rest : List ℕ)
    → AreHeaders hs
    → Holds b (header_lines hs ++ rest)
    → length hs < fuel
    → (b' : IoBuffer) × (parse_loop fuel (reading_headers r b)
        ≡ done true (record { state = k_got_all; request = with_headers r hs }) b')
      × Holds b' rest
unfolding parse_loop header_lines set_headers
parse_loop-headers hs zero r b rest a h k = absurd (omega arith)
parse_loop-headers [] (suc fuel) r b rest a h k =
    let (b', e, hold) = parse_line-end (reading_headers r b) [] rest tt h tt in
    (b', rw (e, parse_loop), hold)
parse_loop-headers ((field, value) ∷ hs) (suc fuel) r b rest (colonless, f, v, trim, more) h k =
    let line = field ++ 58 ∷ 32 ∷ value in
    let found = index_of-append 58 field (32 ∷ value) colonless in
    let (b1, e1, hold1) =
      parse_line-header (reading_headers r b) line (header_lines hs ++ rest)
        (header_line-Lacks field value f v)
        (subst (Holds b) (append_assoc line (13 ∷ 10 ∷ header_lines hs) rest) h)
        (λ w. absurd (omega (arith, found, w, length-append field (58 ∷ 32 ∷ value)))) in
    let (b2, e2, hold2) =
      parse_loop-headers hs fuel (record r { headers = set_header field value r.headers }) b1 rest
        more hold1 (omega arith) in
    (b2, rw (e1, found, add_header-field r field value trim, parse_loop) e2, hold2)

-- The bytes of a request: the request line, the header lines, the empty line.
abbrev pub request_text : Method → List ℕ → List ℕ → Version → HeaderMap → List ℕ
request_text m path query v hs = request_line m path query v ++ 13 ∷ 10 ∷ header_lines hs

-- The parts of a request that can be written so that they are read back.
pub record IsRequest (m : Method) (path query : List ℕ) (v : Version) (hs : HeaderMap)
    : Type 0 where
  pub named : m ≢ k_invalid
  pub known : v ≢ k_unknown
  pub plain : Lacks 63 path
  pub marked : IsQuery query
  pub solid : Lacks 32 (path ++ query)
  pub one_line : Lacks 13 (path ++ query)
  pub headed : AreHeaders hs

-- Where a valid buffer begins with the text of a well-formed request, and the fuel is above the
-- number of headers and one, parseRequest from the initial context succeeds with the method, path,
-- query, version and headers of the request, and leaves what follows the request in the buffer.
pub parse_request-request_text :
    (fuel : ℕ) (b : IoBuffer) (m : Method) (path query : List ℕ) (v : Version) (hs : HeaderMap)
    (rest : List ℕ)
    → IsRequest m path query v hs
    → Holds b (request_text m path query v hs ++ rest)
    → length hs + 1 < fuel
    → (b' : IoBuffer) × (parse_request fuel http_context b
        ≡ done true
            (record {
              state = k_got_all;
              request = record {
                method = m;
                version = v;
                path = path;
                query = query;
                headers = set_headers hs [];
              };
            })
            b')
      × Holds b' rest
unfolding parse_request parse_loop
parse_request-request_text zero b m path query v hs rest q h k = absurd (omega arith)
parse_request-request_text (suc fuel) b m path query v hs rest q h k =
    let line = request_line m path query v in
    let (b1, e1, hold1) =
      parse_line-accepted
        (record { is_ok = true; has_more = true; context = http_context; buffer = b }) line
        (header_lines hs ++ rest) (request_line-Lacks m path query v q.one_line)
        (subst (Holds b) (append_assoc line (13 ∷ 10 ∷ header_lines hs) rest) h) _
        (process_request_line-print http_request m path query v refl refl q.named q.plain q.marked
          q.solid q.known) in
    let (b2, e2, hold2) =
      parse_loop-headers hs fuel
        (record { method = m; version = v; path = path; query = query; headers = [] }) b1 rest
        q.headed hold1 (omega arith) in
    (b2, rw (e1, parse_loop) e2, hold2)

-- A line that is not accepted ends the parser without success.
pub parse_request-refused :
    (fuel : ℕ) (b : IoBuffer) (line rest : List ℕ) (r : HttpRequest)
    → Lacks 13 line
    → Holds b (line ++ 13 ∷ 10 ∷ rest)
    → process_request_line http_request line ≡ some (false, r)
    → parse_request (suc fuel) http_context b
      ≡ done false (record { state = k_expect_request_line; request = r }) b
unfolding parse_request parse_loop
parse_request-refused fuel b line rest r solid h e = rw (
  parse_line-refused (record { is_ok = true; has_more = true; context = http_context; buffer = b })
      line rest solid h r e,
  parse_loop,
)
