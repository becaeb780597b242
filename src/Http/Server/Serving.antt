-- ===== src/Http/Server/Serving.antt =====
-- What a client gets for a request.
use yamq.Prelude.{
  ℕ, ◌+◌, ◌≤◌, ◌<◌, ◌≡◌, some, List, [], ◌∷◌, ◌++◌, arith, length, if◌then◌else◌, int_max,
}
use yamq.IoBuffer.{IoBuffer, k_initial_size}
use yamq.IoBuffer.Queue.{Holds, io_buffer-Holds, io_buffer-writer_index}
use yamq.Http.HeaderMap.{HeaderMap}
use yamq.Http.Request.{HttpRequest, Method, Version}
use yamq.Http.Context.{http_context, got_all, reset}
use yamq.Http.Context.Request.{request_text, set_headers, IsRequest, parse_request-request_text}
use yamq.Http.Response.{HttpResponse, http_response}
use yamq.Http.Response.Text.{response_text, append_to_buffer-response_text}
use yamq.Http.Server.{
  Action, send, force_close, HttpCallback, wants_close, on_request, handled, after_parse,
  on_message,
}

-- The response of the callback.
abbrev pub answer : HttpCallback → HttpRequest → HttpResponse
answer http_callback req = http_callback req (http_response (wants_close req))

-- The calls on the connection for a response: it is sent, and the connection closed if it says so.
abbrev pub reply : HttpResponse → List Action
reply response =
    send (response_text response) ∷ (if response.close_connection then force_close ∷ [] else [])

-- The response is sent as it is printed.
pub on_request-reply :
    (http_callback : HttpCallback) (req : HttpRequest)
    → 8 + length (response_text (answer http_callback req)) ≤ int_max
    → on_request http_callback req ≡ some (reply (answer http_callback req))
unfolding on_request
on_request-reply http_callback req h =
    let response = answer http_callback req in
    let (b', e, hold) =
      append_to_buffer-response_text response (io_buffer-Holds k_initial_size (omega arith))
        (omega (arith, io_buffer-writer_index k_initial_size)) in
    rw (e, hold.bytes)

-- Where a valid buffer begins with the text of a well-formed request, the fuel is above the number
-- of headers and one, and the text of the response fits in an int, onMessage from the initial
-- context sends the response of the callback to just that request, closes if the response says so,
-- resets the context, and leaves in the buffer what follows the request.
pub on_message-reply :
    (http_callback : HttpCallback) (fuel : ℕ) (b : IoBuffer) (m : Method) (path query : List ℕ)
    (v : Version) (hs : HeaderMap) (rest : List ℕ)
    → let req : HttpRequest = record {
      method = m;
      version = v;
      path = path;
      query = query;
      headers = set_headers hs [];
    } in
      IsRequest m path query v hs
      → Holds b (request_text m path query v hs ++ rest)
      → length hs + 1 < fuel
      → 8 + length (response_text (answer http_callback req)) ≤ int_max
      → (b' : IoBuffer) × (on_message http_callback fuel http_context b
          ≡ handled (reply (answer http_callback req)) http_context b')
        × Holds b' rest
unfolding on_message after_parse got_all reset
on_message-reply http_callback fuel b m path query v hs rest q h k s =
    let (b', e, hold) = parse_request-request_text fuel b m path query v hs rest q h k in
    (b', rw (e, on_message, after_parse, on_request-reply http_callback _ s), hold)
