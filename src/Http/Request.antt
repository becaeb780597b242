-- ===== src/Http/Request.antt =====
-- rpc/http/http_request.h: a request and its setters. A range of `char *` is the list of its bytes.
pub mod Methods
pub mod Headers
use yamq.Prelude.{
  ℕ, suc, ◌+◌, ◌≡◌, Bool, true, false, not, ◌&&◌, ◌||◌, Option, none, some, List, [], ◌∷◌, reverse,
  ltb, leb, ◌==◌, if◌then◌else◌, str_eq, codes, take, drop, ◌>>=◌, ◌>>◌, guard,
}
use yamq.Http.HeaderMap.{HeaderMap, set_header, find_header}

pub data Method : Type 0 where
  k_invalid k_get k_post k_head k_put k_delete : Method

pub data Version : Type 0 where
  k_unknown k_http10 k_http11 : Version

pub record HttpRequest : Type 0 where
  pub method : Method
  pub version : Version
  pub path : List ℕ
  pub query : List ℕ
  pub headers : HeaderMap

abbrev pub http_request : HttpRequest
http_request = record {
  method = k_invalid;
  version = k_unknown;
  path = [];
  query = [];
  headers = [];
}

abbrev is_invalid : Method → Bool
is_invalid k_invalid = true
is_invalid _ = false

-- The chain of comparisons of `setMethod`.
unfoldable pub method_of : List ℕ → Method
method_of m =
    if str_eq m (codes "GET")
    then k_get
    else if str_eq m (codes "POST")
    then k_post
    else if str_eq m (codes "HEAD")
    then k_head
    else if str_eq m (codes "PUT")
    then k_put
    else if str_eq m (codes "DELETE")
    then k_delete
    else k_invalid

unfoldable pub set_method : HttpRequest → List ℕ → Option (Bool × HttpRequest)
set_method r m = do
  guard (is_invalid r.method)
  some (not (is_invalid (method_of m)), record r { method = method_of m })

unfoldable pub method_string : Method → List ℕ
method_string k_get = codes "GET"
method_string k_post = codes "POST"
method_string k_head = codes "HEAD"
method_string k_put = codes "PUT"
method_string k_delete = codes "DELETE"
method_string k_invalid = codes "UNKNOWN"

unfoldable pub set_version : HttpRequest → Version → HttpRequest
set_version r v = record r { version = v }

unfoldable pub set_path : HttpRequest → List ℕ → HttpRequest
set_path r path = record r { path = path }

unfoldable pub set_query : HttpRequest → List ℕ → HttpRequest
set_query r query = record r { query = query }

-- `isspace` in the "C" locale: a space, or a byte from `\t` to `\r`.
unfoldable pub is_space : ℕ → Bool
is_space c = c == 32 || leb 9 c && leb c 13

pub drop_spaces : List ℕ → List ℕ
drop_spaces [] = []
drop_spaces (c ∷ cs) = if is_space c then drop_spaces cs else c ∷ cs

-- The last bytes go as long as they are spaces.
pub drop_last_spaces : List ℕ → List ℕ
drop_last_spaces value = reverse (drop_spaces (reverse value))

-- `line` is the range from `start` to `end`, in which `colon` points to index `i`.
pub add_header : HttpRequest → List ℕ → ℕ → HttpRequest
add_header r line i =
    let field = take i line in
    let value = drop_last_spaces (drop_spaces (drop (i + 1) line)) in
    record r { headers = set_header field value r.headers }

-- The empty string where the field is missing.
pub get_header : HttpRequest → List ℕ → List ℕ
get_header r field = elim (find_header field r.headers) [ none ↦ [] | some value ↦ value ]

-- `swap` leaves each object with the fields of the other.
pub swap : HttpRequest → HttpRequest → HttpRequest × HttpRequest
swap r that = (that, r)
