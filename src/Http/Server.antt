-- ===== src/Http/Server.antt =====
-- rpc/http/http_server.cpp: what the handlers send and close. The application's callback is a
-- parameter; the calls on the connection are returned in their order.
pub mod Serving
mod Tests
use yamq.Prelude.{
  ℕ, ◌≡◌, Bool, true, false, not, ◌&&◌, ◌||◌, Option, none, some, List, [], ◌∷◌, ◌++◌,
  if◌then◌else◌, str_eq, codes, ◌>>=◌,
}
use yamq.IoBuffer.{IoBuffer, io_buffer, k_initial_size, peek, readable_bytes}
use yamq.Http.Request.{HttpRequest, Version, k_unknown, k_http10, k_http11, get_header}
use yamq.Http.Context.{HttpContext, Outcome, done, fault, running, parse_request, got_all, reset}
use yamq.Http.Response.{
  HttpResponse, http_response, k_404_not_found, set_status_code, set_status_message,
  set_close_connection, append_to_buffer,
}

pub data Action : Type 0 where
  send : List ℕ → Action
  force_close : Action

abbrev pub HttpCallback : Type 0
HttpCallback = HttpRequest → HttpResponse → HttpResponse

pub default_http_callback : HttpCallback
default_http_callback req resp =
    set_close_connection
      (set_status_message (set_status_code resp k_404_not_found) (codes "Not Found")) true

abbrev is_http10 : Version → Bool
is_http10 k_http10 = true
is_http10 _ = false

-- The `close` of `onRequest`.
pub wants_close : HttpRequest → Bool
wants_close req =
    let connection = get_header req (codes "Connection") in
    str_eq connection (codes "close")
    || is_http10 req.version && not (str_eq connection (codes "Keep-Alive"))

pub on_request : HttpCallback → HttpRequest → Option (List Action)
on_request http_callback req =
    let response = http_callback req (http_response (wants_close req)) in
    do
      buf ← append_to_buffer response (io_buffer k_initial_size)
      some (
          send (peek buf (readable_bytes buf))
          ∷ (if response.close_connection then force_close ∷ [] else []))

-- What a call of `onMessage` did: its calls on the connection, and the context and buffer after it.
pub data Handled : Type 0 where
  handled : List Action → HttpContext → IoBuffer → Handled
  undefined waiting : Handled

pub bad_request : List ℕ
bad_request = codes "HTTP/1.1 400 Bad Request" ++ 13 ∷ 10 ∷ 13 ∷ 10 ∷ []

-- The part behind the parser.
pub after_parse : HttpCallback → Bool → HttpContext → IoBuffer → Handled
after_parse http_callback ok context buf =
    let refusal = if ok then [] else send bad_request ∷ force_close ∷ [] in
    elim (got_all context) [
      | true ↦ elim (on_request http_callback context.request) [
        | some actions ↦ handled (refusal ++ actions) (reset context) buf
        | none ↦ undefined
      ]
      | false ↦ handled refusal context buf
    ]

pub on_message : HttpCallback → ℕ → HttpContext → IoBuffer → Handled
on_message http_callback fuel context buf = elim (parse_request fuel context buf) [
  | done ok context' buf' ↦ after_parse http_callback ok context' buf'
  | fault ↦ undefined
  | running ↦ waiting
]
