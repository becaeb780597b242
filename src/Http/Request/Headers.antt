-- ===== src/Http/Request/Headers.antt =====
-- What `addHeader` stores.
use mathlib.Core.List.{reverse-reverse}
use yamq.Prelude.{
  ℕ, ap₂, ◌+◌, ◌≡◌, refl, ap, ◌∙◌, List, [], ◌∷◌, ◌++◌, reverse, arith, length, drop, false,
  take-append, drop-append_ge,
}
use yamq.Http.HeaderMap.{set_header}
use yamq.Http.Request.{HttpRequest, add_header, drop_spaces, drop_last_spaces, is_space}

-- The text does not begin with a space.
abbrev pub StartsClean : List ℕ → Type 0
StartsClean [] = Unit {0}
StartsClean (c ∷ cs) = is_space c ≡ false

abbrev pub IsTrimmed : List ℕ → Type 0
IsTrimmed value = StartsClean value × StartsClean (reverse value)

drop_spaces-StartsClean : (value : List ℕ) → StartsClean value → drop_spaces value ≡ value
unfolding drop_spaces
drop_spaces-StartsClean [] h = refl
drop_spaces-StartsClean (c ∷ cs) h = ground arith

pub StartsClean-drop_spaces : (value : List ℕ) → StartsClean (drop_spaces value)
unfolding drop_spaces
StartsClean-drop_spaces [] = tt
StartsClean-drop_spaces (c ∷ cs) = ground (arith, StartsClean-drop_spaces cs)

pub add_header-field :
    (r : HttpRequest) (field value : List ℕ)
    → IsTrimmed value
    → add_header r (field ++ 58 ∷ 32 ∷ value) (length field)
      ≡ record r { headers = set_header field value r.headers }
unfolding add_header drop_spaces drop_last_spaces is_space
add_header-field r field value h =
    ap₂ (λ f v. record r { headers = set_header f v r.headers })
      (take-append field (58 ∷ 32 ∷ value))
      (ap (λ l. drop_last_spaces (drop_spaces l)) cut ∙ trimmed)
  where
    cut : drop (length field + 1) (field ++ 58 ∷ 32 ∷ value) ≡ 32 ∷ value
    cut =
        drop-append_ge (length field + 1) field (58 ∷ 32 ∷ value) (omega arith)
        ∙ ap (λ n. drop n (58 ∷ 32 ∷ value)) {y = 1} (omega arith)

    trimmed : drop_last_spaces (drop_spaces (32 ∷ value)) ≡ value
    trimmed =
        ap drop_last_spaces (drop_spaces-StartsClean value h.0)
        ∙ ap reverse (drop_spaces-StartsClean (reverse value) h.1)
        ∙ reverse-reverse value
