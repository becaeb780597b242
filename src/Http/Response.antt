-- ===== src/Http/Response.antt =====
-- rpc/http/http_response.h and http_response.cpp: a response and how it is written to a buffer.
pub mod Text
use yamq.Prelude.{
  ℕ, ◌+◌, ◌≡◌, Bool, true, false, Option, none, some, List, [], ◌∷◌, ◌++◌, length, take, codes,
  decimal, ◌>>=◌,
}
use yamq.IoBuffer.{IoBuffer, append}
use yamq.Http.HeaderMap.{HeaderMap, set_header}

pub data HttpStatusCode : Type 0 where
  k_unknown k_200_ok k_301_moved_permanently k_400_bad_request k_404_not_found : HttpStatusCode

-- The values of the enumeration.
unfoldable pub status_number : HttpStatusCode → ℕ
status_number k_unknown = 0
status_number k_200_ok = 200
status_number k_301_moved_permanently = 301
status_number k_400_bad_request = 400
status_number k_404_not_found = 404

pub record HttpResponse : Type 0 where
  pub headers : HeaderMap
  pub status_code : HttpStatusCode
  pub status_message : List ℕ
  pub close_connection : Bool
  pub body : List ℕ

abbrev pub http_response : Bool → HttpResponse
http_response close = record {
  headers = [];
  status_code = k_unknown;
  status_message = [];
  close_connection = close;
  body = [];
}

unfoldable pub set_status_code : HttpResponse → HttpStatusCode → HttpResponse
set_status_code r code = record r { status_code = code }

unfoldable pub set_status_message : HttpResponse → List ℕ → HttpResponse
set_status_message r message = record r { status_message = message }

unfoldable pub set_close_connection : HttpResponse → Bool → HttpResponse
set_close_connection r on = record r { close_connection = on }

pub add_response_header : HttpResponse → List ℕ → List ℕ → HttpResponse
add_response_header r key value = record r { headers = set_header key value r.headers }

pub set_content_type : HttpResponse → List ℕ → HttpResponse
set_content_type r content_type = add_response_header r (codes "Content-Type") content_type

pub set_body : HttpResponse → List ℕ → HttpResponse
set_body r body = record r { body = body }

abbrev pub crlf : List ℕ
crlf = 13 ∷ 10 ∷ []

-- `snprintf` into the 32 bytes of `buf` keeps 31 of the text.
abbrev pub snprintf_buf : List ℕ → List ℕ
snprintf_buf text = take 31 text

-- The number of bytes appended is the length of the text before `snprintf` cuts it; no status makes
-- it longer than the buffer.
append_status : HttpResponse → IoBuffer → Option IoBuffer
append_status r output = do
  output1 ←
      append output
        (snprintf_buf (codes "HTTP/1.1 " ++ decimal (status_number r.status_code) ++ codes " "))
  output2 ← append output1 r.status_message
  append output2 crlf

append_connection : HttpResponse → Bool → IoBuffer → Option IoBuffer
append_connection r true output = append output (codes "Connection: close" ++ crlf)
append_connection r false output = do
  output1 ←
      append output (snprintf_buf (codes "Content-Length: " ++ decimal (length r.body) ++ crlf))
  append output1 (codes "Connection: Keep-Alive" ++ crlf)

append_headers : HeaderMap → IoBuffer → Option IoBuffer
append_headers [] output = some output
append_headers ((key, value) ∷ headers) output = do
  output1 ← append output key
  output2 ← append output1 (codes ": ")
  output3 ← append output2 value
  output4 ← append output3 crlf
  append_headers headers output4

pub append_to_buffer : HttpResponse → IoBuffer → Option IoBuffer
append_to_buffer r output = do
  output1 ← append_status r output
  output2 ← append_connection r r.close_connection output1
  output3 ← append_headers r.headers output2
  output4 ← append output3 crlf
  append output4 r.body
