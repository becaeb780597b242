-- ===== src/Http/Context/RequestLine.antt =====
-- The request lines that a client writes, and how `processRequestLine` of rpc/http/http_context.cpp
-- reads them.
use yamq.Prelude.{
  ℕ, ◌+◌, ◌≡◌, ◌≢◌, refl, ap, ◌∙◌, true, false, some, List, [], ◌∷◌, ◌++◌, arith, length,
  length-append, take, drop, codes, Lacks, Lacks-append, Begins, index_of, index_of-append,
  index_of-Lacks, append-nil, take-append, drop-append, drop-append_ge, str_eq, ◌==◌,
}
use yamq.Http.Request.{
  HttpRequest, Method, Version, k_invalid, k_unknown, k_http10, k_http11, method_string, set_path,
  set_query, set_version,
}
use yamq.Http.Request.Methods.{set_method-method_string, method_string-Lacks}
use yamq.Http.Context.{process_target, process_version, process_rest, process_request_line}

unfoldable pub version_string : Version → List ℕ
version_string k_http10 = codes "HTTP/1.0"
version_string k_http11 = codes "HTTP/1.1"
version_string k_unknown = []

-- Empty, or a text that begins with a question mark.
abbrev pub IsQuery : List ℕ → Type 0
IsQuery = Begins 63

-- The line that a client writes.
abbrev pub request_line : Method → List ℕ → List ℕ → Version → List ℕ
request_line m path query v = method_string m ++ 32 ∷ ((path ++ query) ++ 32 ∷ version_string v)

process_version-version_string :
    (r : HttpRequest) (v : Version)
    → v ≢ k_unknown
    → process_version r (version_string v) ≡ (true, set_version r v)
unfolding process_version version_string str_eq
process_version-version_string r k_unknown h = absurd (h refl)
process_version-version_string r k_http10 h = refl
process_version-version_string r k_http11 h = refl

-- `xs` is all before the first `c`.
cut_before :
    (c : ℕ) (xs ys : List ℕ) → Lacks c xs → take (index_of c (xs ++ c ∷ ys)) (xs ++ c ∷ ys) ≡ xs
cut_before c xs ys h =
    ap (λ n. take n (xs ++ c ∷ ys)) (index_of-append c xs ys h) ∙ take-append xs (c ∷ ys)

cut_after :
    (c : ℕ) (xs ys : List ℕ) → Lacks c xs → drop (index_of c (xs ++ c ∷ ys) + 1) (xs ++ c ∷ ys) ≡ ys
cut_after c xs ys h =
    ap (λ n. drop (n + 1) (xs ++ c ∷ ys)) (index_of-append c xs ys h)
    ∙ drop-append_ge (length xs + 1) xs (c ∷ ys) (omega arith)
    ∙ ap (λ n. drop n (c ∷ ys)) {y = 1} (omega arith)

is_found :
    (c : ℕ) (xs ys : List ℕ)
    → Lacks c xs
    → (index_of c (xs ++ c ∷ ys) == length (xs ++ c ∷ ys)) ≡ false
is_found c xs ys h = ground (arith, index_of-append c xs ys h, length-append xs (c ∷ ys))

process_target-append :
    (r : HttpRequest) (path query : List ℕ)
    → r.query ≡ []
    → Lacks 63 path
    → IsQuery query
    → process_target r (path ++ query) ≡ set_query (set_path r path) query
unfolding process_target set_query set_path
process_target-append r path [] e h k = ground (arith, index_of-Lacks 63 path h, append-nil path)
process_target-append r path (c ∷ q) e h k = rw (
  k,
  is_found 63 path q h,
  index_of-append 63 path q h,
  take-append path (63 ∷ q),
  drop-append path (63 ∷ q),
)

process_rest-print :
    (r : HttpRequest) (path query : List ℕ) (v : Version)
    → r.query ≡ []
    → Lacks 63 path
    → IsQuery query
    → Lacks 32 (path ++ query)
    → v ≢ k_unknown
    → process_rest r ((path ++ query) ++ 32 ∷ version_string v)
      ≡ (true, set_version (set_query (set_path r path) query) v)
unfolding process_rest
process_rest-print r path query v blank plain marked solid known =
    let text = version_string v in
    rw
      (
        is_found 32 (path ++ query) text solid,
        cut_before 32 (path ++ query) text solid,
        cut_after 32 (path ++ query) text solid,
        process_target-append r path query blank plain marked,
      )
      (process_version-version_string (set_query (set_path r path) query) v known)

-- Into a request with no method and no query, processRequestLine accepts every well-formed line,
-- and stores its method, path, query and version.
pub process_request_line-print :
    (r : HttpRequest) (m : Method) (path query : List ℕ) (v : Version)
    → r.method ≡ k_invalid
    → r.query ≡ []
    → m ≢ k_invalid
    → Lacks 63 path
    → IsQuery query
    → Lacks 32 (path ++ query)
    → v ≢ k_unknown
    → process_request_line r (request_line m path query v)
      ≡ some (true, record r { method = m; version = v; path = path; query = query })
unfolding process_request_line set_path set_query set_version
process_request_line-print r m path query v fresh blank named plain marked solid known =
    let name = method_string m in
    let tail = (path ++ query) ++ 32 ∷ version_string v in
    let (name_solid, _) = method_string-Lacks m in
    rw
      (
        is_found 32 name tail name_solid,
        cut_before 32 name tail name_solid,
        cut_after 32 name tail name_solid,
        set_method-method_string r m fresh named,
      )
      (ap some
        (process_rest-print (record r { method = m }) path query v blank plain marked solid known))

version_string-Lacks : (v : Version) → Lacks 13 (version_string v)
unfolding version_string
version_string-Lacks k_unknown = tt
version_string-Lacks k_http10 = omega arith
version_string-Lacks k_http11 = omega arith

pub request_line-Lacks :
    (m : Method) (path query : List ℕ) (v : Version)
    → Lacks 13 (path ++ query)
    → Lacks 13 (request_line m path query v)
request_line-Lacks m path query v h =
    Lacks-append 13 (method_string m) (32 ∷ ((path ++ query) ++ 32 ∷ version_string v))
      (method_string-Lacks m).1
      (
        omega arith,
        Lacks-append 13 (path ++ query) (32 ∷ version_string v) h
            (omega arith, version_string-Lacks v),
      )
