-- ===== src/Http/Tests.antt =====
-- Runs of the parser at fixed inputs, and the theorems at inputs that meet their hypotheses.
use yamq.Prelude.{
  ℕ, ◌≡◌, ◌≢◌, refl, true, some, List, [], ◌∷◌, ◌++◌, arith, codes, str_eq, if◌then◌else◌,
}
use yamq.IoBuffer.{IoBuffer}
use yamq.IoBuffer.Queue.{Holds}
use yamq.Http.HeaderMap.{
  HeaderMap, IsOrdered, set_header, find_header, find_header-set_header, set_header-IsOrdered,
}
use yamq.Http.Request.{
  HttpRequest, k_get, k_invalid, k_http11, http_request, is_space, method_string,
}
use yamq.Http.Context.{done, running, parse_request, process_request_line, http_context, k_got_all}
use yamq.Http.Context.RequestLine.{request_line, version_string, process_request_line-print}
use yamq.Http.Context.Acceptance.{Accepted, process_request_line_sound}
use yamq.Http.Context.Termination.{parse_request-ends, parse_request-hangs}
use yamq.Http.Context.Request.{
  request_text, AreHeaders, header_lines, set_headers, parse_request-request_text,
}

abbrev path_a : List ℕ
path_a = codes "/a"

abbrev query_b : List ℕ
query_b = codes "?b"

abbrev host : HeaderMap
host = (codes "Host", codes "x") ∷ []

-- "GET /a?b HTTP/1.1", "Host: x", the empty line, and the first byte of the next request.
abbrev waiting : IoBuffer
waiting = record {
  buf =
      0
      ∷ 0
      ∷ 0
      ∷ 0
      ∷ 0
      ∷ 0
      ∷ 0
      ∷ 0
      ∷ (codes "GET /a?b HTTP/1.1"
          ++ 13 ∷ 10 ∷ (codes "Host: x" ++ 13 ∷ 10 ∷ 13 ∷ 10 ∷ 71 ∷ 0 ∷ []));
  reader_index = 8;
  writer_index = 39;
}

waiting-Holds : Holds waiting (request_text k_get path_a query_b k_http11 host ++ 71 ∷ [])
unfolding method_string version_string header_lines
waiting-Holds = record { valid = omega arith; bytes = refl }

find_header-set_header_example :
    find_header (codes "Host") (set_header (codes "Accept") (codes "y") host) ≡ (
      if str_eq (codes "Accept") (codes "Host")
      then some (codes "y")
      else find_header (codes "Host") host)
find_header-set_header_example =
    find_header-set_header (codes "Host") (codes "Accept") (codes "y") host

set_header-IsOrdered_example : IsOrdered (set_header (codes "Accept") (codes "y") host)
set_header-IsOrdered_example = set_header-IsOrdered (codes "Accept") (codes "y") host (tt, tt)

get_line_read :
    process_request_line http_request (request_line k_get path_a query_b k_http11)
    ≡ some (
      true,
      record { method = k_get; version = k_http11; path = path_a; query = query_b; headers = [] },
    )
get_line_read =
    process_request_line-print http_request k_get path_a query_b k_http11 refl refl (λ e. cc)
      (omega arith) refl (omega arith) (λ e. cc)

read_line : HttpRequest
read_line = record {
  method = k_get;
  version = k_http11;
  path = path_a;
  query = query_b;
  headers = [];
}

process_request_line_sound_example :
    (request_line k_get path_a query_b k_http11
      ≡ request_line read_line.method read_line.path read_line.query read_line.version)
    × (read_line.method ≢ k_invalid)
    × Accepted http_request read_line
unfolding read_line
process_request_line_sound_example =
    process_request_line_sound http_request read_line (request_line k_get path_a query_b k_http11)
      refl get_line_read

parse_request-ends_example : parse_request 40 http_context waiting ≢ running
unfolding method_string version_string header_lines
parse_request-ends_example =
    parse_request-ends 40 http_context waiting tt waiting-Holds (omega arith)

parse_request-hangs_example :
    parse_request 9 (record { state = k_got_all; request = http_request }) waiting ≡ running
parse_request-hangs_example =
    parse_request-hangs 9 (record { state = k_got_all; request = http_request }) waiting (λ e. e)

host-AreHeaders : AreHeaders host
unfolding is_space
host-AreHeaders = (omega arith, omega arith, omega arith, (refl, refl), tt)

parse_request-request_text_example :
    (b' : IoBuffer) × (parse_request 9 http_context waiting
      ≡ done true
          (record {
            state = k_got_all;
            request = record {
              method = k_get;
              version = k_http11;
              path = path_a;
              query = query_b;
              headers = set_headers host [];
            };
          })
          b')
    × Holds b' (71 ∷ [])
parse_request-request_text_example =
    parse_request-request_text 9 waiting k_get path_a query_b k_http11 host (71 ∷ [])
      (record {
        named = λ e. cc;
        known = λ e. cc;
        plain = omega arith;
        marked = refl;
        solid = omega arith;
        one_line = omega arith;
        headed = host-AreHeaders;
      })
      waiting-Holds (omega arith)
