-- ===== src/Http/Response/Text.antt =====
-- The bytes that `appendToBuffer` writes.
use yamq.Prelude.{
  ℕ, ◌+◌, ◌≤◌, ◌≡◌, refl, sym, subst, Bool, true, false, Option, some, List, [], ◌∷◌, ◌++◌,
  append_assoc, append-nil, arith, length, length-append, take-ge, codes, decimal, length-decimal,
  ◌>>=◌, int_max,
}
use yamq.IoBuffer.{IoBuffer, append}
use yamq.IoBuffer.Queue.{Holds, append-Holds}
use yamq.Http.HeaderMap.{HeaderMap}
use yamq.Http.Response.{
  HttpResponse, HttpStatusCode, k_unknown, k_200_ok, k_301_moved_permanently, k_400_bad_request,
  k_404_not_found, status_number, crlf, snprintf_buf, append_status, append_connection,
  append_headers, append_to_buffer,
}

-- The action appends the text to what a buffer holds, while there is room for it in an `int`.
abbrev Appends : (IoBuffer → Option IoBuffer) → List ℕ → Type 0
Appends f text =
    (b : IoBuffer) (c : List ℕ)
    → Holds b c
    → b.writer_index + length text ≤ int_max
    → (b' : IoBuffer) × (f b ≡ some b')
      × Holds b' (c ++ text)
      × (b'.writer_index ≤ b.writer_index + length text)

append-Appends : (text : List ℕ) → Appends (λ b. append b text) text
append-Appends text b c h k = append-Holds text h k

-- So for a text that `snprintf` does not cut.
cut-Appends : {cut : List ℕ} (text : List ℕ) → cut ≡ text → Appends (λ b. append b cut) text
cut-Appends text e b c h k = rw e (append-Holds text h k)

>>=-Appends :
    (f g : IoBuffer → Option IoBuffer) (s t : List ℕ)
    → Appends f s
    → Appends g t
    → Appends (λ b. f b >>= g) (s ++ t)
>>=-Appends f g s t af ag b c h k =
    let (b1, e1, hold1, back1) = af b c h (omega (arith, length-append s t)) in
    let (b2, e2, hold2, back2) = ag b1 (c ++ s) hold1 (omega (arith, length-append s t)) in
    (b2, rw e1 e2, subst (Holds b2) (append_assoc c s t) hold2, omega (arith, length-append s t))

unfoldable pub status_line : HttpResponse → List ℕ
status_line r =
    (codes "HTTP/1.1 " ++ decimal (status_number r.status_code) ++ codes " ")
    ++ (r.status_message ++ crlf)

unfoldable pub connection_lines : HttpResponse → Bool → List ℕ
connection_lines r true = codes "Connection: close" ++ crlf
connection_lines r false =
    (codes "Content-Length: " ++ decimal (length r.body) ++ crlf)
    ++ (codes "Connection: Keep-Alive" ++ crlf)

unfoldable pub response_headers : HeaderMap → List ℕ
response_headers [] = []
response_headers ((key, value) ∷ hs) =
    key ++ (codes ": " ++ (value ++ (crlf ++ response_headers hs)))

-- A response as it goes over the wire. A length is given only where the connection is kept.
abbrev pub response_text : HttpResponse → List ℕ
response_text r =
    status_line r
    ++ (connection_lines r r.close_connection ++ (response_headers r.headers ++ (crlf ++ r.body)))

status-cut :
    (code : HttpStatusCode)
    → let text = codes "HTTP/1.1 " ++ decimal (status_number code) ++ codes " " in
      snprintf_buf text ≡ text
unfolding status_number decimal
status-cut k_unknown = refl
status-cut k_200_ok = refl
status-cut k_301_moved_permanently = refl
status-cut k_400_bad_request = refl
status-cut k_404_not_found = refl

append_status-Appends : (r : HttpResponse) → Appends (append_status r) (status_line r)
unfolding append_status status_line
append_status-Appends r =
    let text = codes "HTTP/1.1 " ++ decimal (status_number r.status_code) ++ codes " " in
    >>=-Appends (λ b. append b (snprintf_buf text)) _ text (r.status_message ++ crlf)
      (cut-Appends text (status-cut r.status_code))
      (>>=-Appends (λ b. append b r.status_message) (λ b. append b crlf) r.status_message crlf
        (append-Appends r.status_message) (append-Appends crlf))

length-cut :
    (n : ℕ)
    → n ≤ int_max
    → let text = codes "Content-Length: " ++ decimal n ++ crlf in snprintf_buf text ≡ text
length-cut n h =
    take-ge 31 (codes "Content-Length: " ++ decimal n ++ crlf)
      (omega (arith, length-append (decimal n) crlf, length-decimal 9 n (omega arith)))

append_connection-Appends :
    (r : HttpResponse) (close : Bool)
    → length r.body ≤ int_max
    → Appends (append_connection r close) (connection_lines r close)
unfolding append_connection connection_lines
append_connection-Appends r true h = append-Appends (codes "Connection: close" ++ crlf)
append_connection-Appends r false h =
    let text = codes "Content-Length: " ++ decimal (length r.body) ++ crlf in
    let alive = codes "Connection: Keep-Alive" ++ crlf in
    >>=-Appends (λ b. append b (snprintf_buf text)) (λ b. append b alive) text alive
      (cut-Appends text (length-cut (length r.body) h)) (append-Appends alive)

append_headers-Appends : (hs : HeaderMap) → Appends (append_headers hs) (response_headers hs)
unfolding append_headers response_headers
append_headers-Appends [] =
    λ b c h k. (b, refl, subst (Holds b) (sym (append-nil c)) h, omega arith)
append_headers-Appends ((key, value) ∷ hs) =
    >>=-Appends (λ b. append b key) _ key _ (append-Appends key)
      (>>=-Appends (λ b. append b (codes ": ")) _ (codes ": ") _ (append-Appends (codes ": "))
        (>>=-Appends (λ b. append b value) _ value _ (append-Appends value)
          (>>=-Appends (λ b. append b crlf) (append_headers hs) crlf (response_headers hs)
            (append-Appends crlf) (append_headers-Appends hs))))

-- Where the whole text fits in an int behind the writer index of a valid buffer, appendToBuffer
-- appends just the text of the response: the status line, the connection lines, the headers, the
-- empty line and the body.
pub append_to_buffer-response_text :
    (r : HttpResponse) {b : IoBuffer} {c : List ℕ}
    → Holds b c
    → b.writer_index + length (response_text r) ≤ int_max
    → (b' : IoBuffer) × (append_to_buffer r b ≡ some b') × Holds b' (c ++ response_text r)
unfolding append_to_buffer
append_to_buffer-response_text r {b} {c} h k =
    let (b', e, hold, _) =
      >>=-Appends (append_status r) _ (status_line r) _ (append_status-Appends r)
        (>>=-Appends (append_connection r r.close_connection) _
          (connection_lines r r.close_connection) _
          (append_connection-Appends r r.close_connection short)
          (>>=-Appends (append_headers r.headers) _ (response_headers r.headers) _
            (append_headers-Appends r.headers)
            (>>=-Appends (λ b. append b crlf) (λ b. append b r.body) crlf r.body
              (append-Appends crlf) (append-Appends r.body))))
        b c h k in
    (b', e, hold)
  where
    short : length r.body ≤ int_max
    short = omega (
      arith,
      length-append (status_line r) (
          connection_lines r r.close_connection
          ++ (response_headers r.headers ++ (crlf ++ r.body))),
      length-append (connection_lines r r.close_connection)
          (response_headers r.headers ++ (crlf ++ r.body)),
      length-append (response_headers r.headers) (crlf ++ r.body),
    )
