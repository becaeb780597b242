-- ===== src/Http/Context/Acceptance.antt =====
-- What `processRequestLine` of rpc/http/http_context.cpp accepts is a request line.
use yamq.Prelude.{
  ℕ, ◌+◌, ◌≡◌, ◌≢◌, refl, sym, subst, Option, Bool, ◌>>=◌, ap, ap₂, ◌∙◌, true, false, none, some,
  List, [], ◌∷◌, ◌++◌, arith, length, take, drop, codes, Lacks, Lacks-of_end, index_of-Begins,
  index_of, index_of-split, index_of-take, take-get_or, take-append-drop, append-nil, str_eq-eq,
  inl, inr, Bool-cases, ◌==◌, if◌then◌else◌,
}
use yamq.Http.Request.{
  HttpRequest, k_invalid, k_unknown, method_string, set_method, set_path, set_query, set_version,
}
use yamq.Http.Request.Methods.{set_method-accepts}
use yamq.Http.Context.{process_target, process_version, process_rest, process_request_line}
use yamq.Http.Context.RequestLine.{version_string, IsQuery, request_line}

process_version-accepts :
    (r r' : HttpRequest) (tail : List ℕ)
    → process_version r tail ≡ (true, r')
    → (tail ≡ version_string r'.version)
      × (r'.version ≢ k_unknown)
      × (r' ≡ record r { version = r'.version })
unfolding process_version version_string set_version
process_version-accepts r r' tail h =
    ground (arith, take-get_or 7 tail 0, str_eq-eq (take 7 tail) (codes "HTTP/1."))

-- What the parser reads out of a target joins up to it again.
record Target (r : HttpRequest) (target : List ℕ) (r' : HttpRequest) : Type 0 where
  joined : target ≡ r'.path ++ r'.query
  plain : Lacks 63 r'.path
  marked : IsQuery r'.query
  rest : r' ≡ record r { path = r'.path; query = r'.query }

process_target-Target :
    (r : HttpRequest) (target : List ℕ) → r.query ≡ [] → Target r target (process_target r target)
unfolding process_target set_path set_query
process_target-Target r target e = elim (Bool-cases (index_of 63 target == length target)) [
  | inl absent ↦ rw absent (record {
    joined = rw (e, append-nil target);
    plain = Lacks-of_end 63 target (ground arith);
    marked = rw e tt;
    rest = refl;
  })
  | inr present ↦ rw present (record {
    joined = sym (take-append-drop (index_of 63 target) target);
    plain = index_of-take 63 target;
    marked = index_of-Begins 63 target;
    rest = refl;
  })
]

-- What the parts of an accepted line are like.
pub record Accepted (r : HttpRequest) (r' : HttpRequest) : Type 0 where
  pub plain : Lacks 63 r'.path
  pub marked : IsQuery r'.query
  pub solid : Lacks 32 (r'.path ++ r'.query)
  pub known : r'.version ≢ k_unknown
  pub kept : r'.headers ≡ r.headers

process_rest-accepts :
    (r r' : HttpRequest) (rest : List ℕ)
    → r.query ≡ []
    → process_rest r rest ≡ (true, r')
    → (rest ≡ (r'.path ++ r'.query) ++ 32 ∷ version_string r'.version)
      × Accepted r r'
      × (r'.method ≡ r.method)
unfolding process_rest
process_rest-accepts r r' rest e h = elim (Bool-cases (index_of 32 rest == length rest)) [
  | inl absent ↦ cc (rw (absent, process_rest) at h)
  | inr present ↦
      let target = take (index_of 32 rest) rest in
      let tail = drop (index_of 32 rest + 1) rest in
      let rt = process_target r target in
      let t = process_target-Target r target e in
      let (v, known, same) = process_version-accepts rt r' tail (rw (present, process_rest) at h) in
      let joined =
        t.joined
        ∙ ap₂ (λ a b. a ++ b) (sym (ap (λ q. q.path) same)) (sym (ap (λ q. q.query) same)) in
      (
        index_of-split 32 rest (ground arith) ∙ ap₂ (λ a b. a ++ 32 ∷ b) joined v,
        record {
          plain = subst (Lacks 63) (sym (ap (λ q. q.path) same)) t.plain;
          marked = subst IsQuery (sym (ap (λ q. q.query) same)) t.marked;
          solid = subst (Lacks 32) joined (index_of-take 32 rest);
          known = known;
          kept = ap (λ q. q.headers) same ∙ ap (λ q. q.headers) t.rest;
        },
        ap (λ q. q.method) same ∙ ap (λ q. q.method) t.rest,
      )
]

abbrev Sound : HttpRequest → HttpRequest → List ℕ → Type 0
Sound r r' line =
    (line ≡ request_line r'.method r'.path r'.query r'.version)
    × (r'.method ≢ k_invalid)
    × Accepted r r'

named_accepts :
    (r r' : HttpRequest) (name rest : List ℕ) (o : Option (Bool × HttpRequest))
    → r.query ≡ []
    → set_method r name ≡ o
    → (o >>= λ (known, r1). some (if known then process_rest r1 rest else (false, r1)))
      ≡ some (true, r')
    → Sound r r' (name ++ 32 ∷ rest)
named_accepts r r' name rest none e m h = cc
named_accepts r r' name rest (some (false, r1)) e m h = cc
named_accepts r r' name rest (some (true, r1)) e m h =
    let (named, valid, same) = set_method-accepts r r1 name m in
    let (read, a, kept) = process_rest-accepts r1 r' rest (ap (λ q. q.query) same ∙ e) (cc) in
    (
      ap₂ (λ a b. a ++ 32 ∷ b) (named ∙ ap method_string (sym kept)) read,
      λ w. valid (sym kept ∙ w),
      record {
        plain = a.plain;
        marked = a.marked;
        solid = a.solid;
        known = a.known;
        kept = a.kept ∙ ap (λ q. q.headers) same;
      },
    )

-- A line that processRequestLine accepts, the query being empty before, is the request line of the
-- request that results: its method, path, query and version spell the line, the path has no
-- question mark, the target no space, and the headers are those of before.
pub process_request_line_sound :
    (r r' : HttpRequest) (line : List ℕ)
    → r.query ≡ []
    → process_request_line r line ≡ some (true, r')
    → (line ≡ request_line r'.method r'.path r'.query r'.version)
      × (r'.method ≢ k_invalid)
      × Accepted r r'
unfolding process_request_line
process_request_line_sound r r' line e h = elim (Bool-cases (index_of 32 line == length line)) [
  | inl absent ↦ cc (rw (absent, process_request_line) at h)
  | inr present ↦ subst (Sound r r') (sym (index_of-split 32 line (ground arith))) (
      named_accepts r r' (take (index_of 32 line) line) (drop (index_of 32 line + 1) line) _ e refl
        (rw (present, process_request_line) at h))
]
