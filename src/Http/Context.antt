-- ===== src/Http/Context.antt =====
-- rpc/http/http_context.h and http_context.cpp: the incremental request parser.
pub mod RequestLine
pub mod Acceptance
pub mod Rounds
pub mod Termination
pub mod Request
use yamq.Prelude.{
  ℕ, zero, suc, ◌+◌, ◌≡◌, Bool, true, false, not, ◌&&◌, Option, none, some, List, [], ◌∷◌, ◌==◌,
  if◌then◌else◌, str_eq, codes, length, take, drop, get_or, index_of, ◌>>=◌, ◌>>◌, guard,
}
use yamq.IoBuffer.{IoBuffer, peek, find_crlf, get_until}
use yamq.Http.Request.{
  HttpRequest, http_request, set_method, set_path, set_query, set_version, add_header, k_http10,
  k_http11,
}

pub data HttpRequestParseState : Type 0 where
  k_expect_request_line k_expect_headers k_expect_body k_got_all : HttpRequestParseState

pub record HttpContext : Type 0 where
  pub state : HttpRequestParseState
  pub request : HttpRequest

abbrev pub http_context : HttpContext
http_context = record { state = k_expect_request_line; request = http_request }

unfoldable pub got_all : HttpContext → Bool
got_all c = elim c.state [ k_got_all ↦ true | _ ↦ false ]

unfoldable pub reset : HttpContext → HttpContext
reset c = record { state = k_expect_request_line; request = http_request }

-- What stands between the two spaces: the path, and the query from its question mark on.
unfoldable pub process_target : HttpRequest → List ℕ → HttpRequest
process_target r target =
    let question = index_of 63 target in
    if not (question == length target)
    then set_query (set_path r (take question target)) (drop question target)
    else set_path r target

-- What follows the second space.
unfoldable pub process_version : HttpRequest → List ℕ → Bool × HttpRequest
process_version r tail =
    if length tail == 8 && str_eq (take 7 tail) (codes "HTTP/1.")
    then (let last = get_or tail 7 0 in
        if last == 49
        then (true, set_version r k_http11)
        else if last == 48
        then (true, set_version r k_http10)
        else (false, r))
    else (false, r)

-- `rest` is what follows the first space.
unfoldable pub process_rest : HttpRequest → List ℕ → Bool × HttpRequest
process_rest r rest =
    let space = index_of 32 rest in
    if not (space == length rest)
    then process_version (process_target r (take space rest)) (drop (space + 1) rest)
    else (false, r)

unfoldable pub process_request_line : HttpRequest → List ℕ → Option (Bool × HttpRequest)
process_request_line r line =
    let space = index_of 32 line in
    if not (space == length line)
    then (do
      (known, r') ← set_method r (take space line)
      some (if known then process_rest r' (drop (space + 1) line) else (false, r')))
    else some (false, r)

-- The variables of the loop of `parseRequest`.
pub record Parse : Type 0 where
  pub is_ok : Bool
  pub has_more : Bool
  pub context : HttpContext
  pub buffer : IoBuffer

-- What a round does with a request line that ends at index `i`.
pub accept_line : Parse → ℕ → Bool → HttpRequest → Option Parse
accept_line p i true r = do
  buffer ← get_until p.buffer (i + 2)
  some (record p {
    is_ok = true;
    context = record { state = k_expect_headers; request = r };
    buffer = buffer;
  })
accept_line p i false r =
    some
      (record p { is_ok = false; has_more = false; context = record (p.context) { request = r } })

-- One round of the loop, by the state. The two states that no branch of the source changes leave
-- everything as it is.
pub parse_line : HttpRequestParseState → Parse → Option Parse
parse_line k_expect_request_line p = do
  crlf ← find_crlf p.buffer
  elim crlf [
    | none ↦ some (record p { has_more = false })
    | some i ↦ do
      (accepted, r) ← process_request_line p.context.request (peek p.buffer i)
      accept_line p i accepted r
  ]
parse_line k_expect_headers p = do
  crlf ← find_crlf p.buffer
  elim crlf [
    | none ↦ some (record p { has_more = false })
    | some i ↦
        let line = peek p.buffer i in
        let colon = index_of 58 line in
        do
          buffer ← get_until p.buffer (i + 2)
          some (
              if not (colon == length line)
              then record p {
                context = record (p.context) { request = add_header p.context.request line colon };
                buffer = buffer;
              }
              else record p {
                has_more = false;
                context = record (p.context) { state = k_got_all };
                buffer = buffer;
              })
  ]
parse_line k_expect_body p = some p
parse_line k_got_all p = some p

-- The outcome of the loop on fuel: its results, the end of defined behaviour, or still running.
pub data Outcome : Type 0 where
  done : Bool → HttpContext → IoBuffer → Outcome
  fault running : Outcome

pub parse_loop : ℕ → Parse → Outcome
parse_loop zero p = running
parse_loop (suc fuel) p = elim (parse_line p.context.state p) [
  | none ↦ fault
  | some p' ↦ elim p'.has_more [
    | true ↦ parse_loop fuel p'
    | false ↦ done p'.is_ok p'.context p'.buffer
  ]
]

pub parse_request : ℕ → HttpContext → IoBuffer → Outcome
parse_request fuel context buffer =
    parse_loop fuel (record { is_ok = true; has_more = true; context = context; buffer = buffer })
