-- ===== src/Http/Request/Methods.antt =====
-- The names of the methods.
use yamq.Prelude.{ℕ, ◌≡◌, ◌≢◌, some, refl, List, arith, str_eq, str_eq-eq, codes, true, Lacks}
use yamq.Http.Request.{
  HttpRequest, set_method, Method, k_invalid, k_get, k_post, k_head, k_put, k_delete, method_of,
  method_string,
}

-- Each method is recognised by its name.
pub method_of-method_string : (m : Method) → method_of (method_string m) ≡ m
unfolding method_of method_string str_eq
method_of-method_string k_invalid = refl
method_of-method_string k_get = refl
method_of-method_string k_post = refl
method_of-method_string k_head = refl
method_of-method_string k_put = refl
method_of-method_string k_delete = refl

-- A text that setMethod recognises as a method is the name that methodString gives that method.
pub method_string-method_of :
    (s : List ℕ) → method_of s ≢ k_invalid → method_string (method_of s) ≡ s
unfolding method_of method_string
method_string-method_of s h = ground (
  arith,
  str_eq-eq s (codes "GET"),
  str_eq-eq s (codes "POST"),
  str_eq-eq s (codes "HEAD"),
  str_eq-eq s (codes "PUT"),
  str_eq-eq s (codes "DELETE"),
)

-- No name holds a space or a carriage return.
pub method_string-Lacks : (m : Method) → Lacks 32 (method_string m) × Lacks 13 (method_string m)
unfolding method_string
method_string-Lacks k_invalid = (omega arith, omega arith)
method_string-Lacks k_get = (omega arith, omega arith)
method_string-Lacks k_post = (omega arith, omega arith)
method_string-Lacks k_head = (omega arith, omega arith)
method_string-Lacks k_put = (omega arith, omega arith)
method_string-Lacks k_delete = (omega arith, omega arith)

-- A request that has no method yet takes the one that is named.
pub set_method-method_string :
    (r : HttpRequest) (m : Method)
    → r.method ≡ k_invalid
    → m ≢ k_invalid
    → set_method r (method_string m) ≡ some (true, record r { method = m })
unfolding set_method
set_method-method_string r m e h = ground (arith, method_of-method_string m)

-- What it says of any text: it is accepted if it names a method.
pub set_method-accepts :
    (r r' : HttpRequest) (s : List ℕ)
    → set_method r s ≡ some (true, r')
    → (s ≡ method_string r'.method)
      × (r'.method ≢ k_invalid)
      × (r' ≡ record r { method = r'.method })
unfolding set_method
set_method-accepts r r' s h = ground (arith, method_string-method_of s)
