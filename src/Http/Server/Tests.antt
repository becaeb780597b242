-- ===== src/Http/Server/Tests.antt =====
-- Responses at fixed inputs, and the theorems on them at inputs that meet their hypotheses.
use yamq.Prelude.{◌≡◌, refl, false, some, [], ◌∷◌, ◌++◌, arith, codes, decimal}
use yamq.IoBuffer.{IoBuffer, io_buffer, k_initial_size}
use yamq.IoBuffer.Queue.{Holds, io_buffer-Holds, io_buffer-writer_index}
use yamq.Http.Request.{HttpRequest, k_get, k_http11, method_string}
use yamq.Http.Context.{http_context}
use yamq.Http.Context.RequestLine.{version_string}
use yamq.Http.Context.Request.{request_text, header_lines, set_headers}
use yamq.Http.Response.{
  HttpResponse, k_200_ok, set_status_code, set_status_message, set_close_connection,
  append_to_buffer, status_number,
}
use yamq.Http.Response.Text.{
  response_text, status_line, connection_lines, response_headers, append_to_buffer-response_text,
}
use yamq.Http.Server.{default_http_callback, on_request, handled, on_message}
use yamq.Http.Server.Serving.{answer, reply, on_request-reply, on_message-reply}

abbrev greeting : HttpResponse
greeting = record {
  headers = (codes "Server", codes "yamq") ∷ [];
  status_code = k_200_ok;
  status_message = codes "OK";
  close_connection = false;
  body = codes "hello";
}

greeting_text :
    response_text greeting
    ≡ codes "HTTP/1.1 200 OK"
      ++ 13
        ∷ 10
        ∷ (codes "Content-Length: 5"
            ++ 13
              ∷ 10
              ∷ (codes "Connection: Keep-Alive"
                  ++ 13 ∷ 10 ∷ (codes "Server: yamq" ++ 13 ∷ 10 ∷ 13 ∷ 10 ∷ codes "hello")))
unfolding status_line connection_lines response_headers status_number decimal
greeting_text = refl

append_to_buffer-response_text_example :
    (b' : IoBuffer) × (append_to_buffer greeting (io_buffer k_initial_size) ≡ some b')
    × Holds b' (response_text greeting)
unfolding status_line connection_lines response_headers status_number decimal
append_to_buffer-response_text_example =
    append_to_buffer-response_text greeting (io_buffer-Holds k_initial_size (omega arith))
      (omega (arith, io_buffer-writer_index k_initial_size))

abbrev asked : HttpRequest
asked = record { method = k_get; version = k_http11; path = codes "/"; query = []; headers = [] }

on_request-reply_example :
    on_request default_http_callback asked ≡ some (reply (answer default_http_callback asked))
unfolding default_http_callback set_status_code set_status_message set_close_connection status_line
    connection_lines response_headers status_number decimal
on_request-reply_example = on_request-reply default_http_callback asked (omega arith)

-- "GET / HTTP/1.1" and the empty line.
abbrev bare : IoBuffer
bare = record {
  buf = 0 ∷ 0 ∷ 0 ∷ 0 ∷ 0 ∷ 0 ∷ 0 ∷ 0 ∷ (codes "GET / HTTP/1.1" ++ 13 ∷ 10 ∷ 13 ∷ 10 ∷ []);
  reader_index = 8;
  writer_index = 26;
}

bare-Holds : Holds bare (request_text k_get (codes "/") [] k_http11 [] ++ [])
unfolding method_string version_string header_lines
bare-Holds = record { valid = omega arith; bytes = refl }

on_message-reply_example :
    (b' : IoBuffer) × (on_message default_http_callback 9 http_context bare
      ≡ handled (reply (answer default_http_callback asked)) http_context b')
    × Holds b' []
unfolding default_http_callback set_status_code set_status_message set_close_connection status_line
    connection_lines response_headers status_number decimal set_headers
on_message-reply_example =
    on_message-reply default_http_callback 9 bare k_get (codes "/") [] k_http11 [] []
      (record {
        named = λ e. cc;
        known = λ e. cc;
        plain = omega arith;
        marked = tt;
        solid = omega arith;
        one_line = omega arith;
        headed = tt;
      })
      bare-Holds (omega arith) (omega arith)

-- "GET" alone.
abbrev broken : IoBuffer
broken = record {
  buf = 0 ∷ 0 ∷ 0 ∷ 0 ∷ 0 ∷ 0 ∷ 0 ∷ 0 ∷ (codes "GET" ++ 13 ∷ 10 ∷ []);
  reader_index = 8;
  writer_index = 13;
}
