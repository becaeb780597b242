-- ===== src/Any.antt =====
-- base/std/any.h: a value of any type behind a pointer. The types that are held are tags, with the
-- values of each; a holder lives at an address of the heap.
pub mod Casts
mod Tests
use yamq.Prelude.{ℕ, ◌≡◌, subst, Option, none, some, Bool, ◌==◌, if◌then◌else◌, ◌>>=◌}

-- The null pointer.
abbrev pub no_content : ℕ
no_content = 0

module _ {T : Type 0} (El : T → Type 0) where
  pub record Holder : Type 0 where
    pub type_ : T
    pub held : El type_

  abbrev pub Holders : Type 0
  Holders = ℕ → Option Holder

  abbrev pub store : Holders → ℕ → Option Holder → Holders
  store h p c a = if a == p then c else h a

  -- `Any(const value_type &)`: `fresh` is what `new` returns. An `Any` is its `_content`.
  abbrev pub any_of : Holders → ℕ → (t : T) → El t → ℕ × Holders
  any_of h fresh t v = (fresh, store h fresh (some (record { type_ = t; held = v })))

  -- `Any(const Any &)`: `none` where the content was deleted.
  unfoldable pub copy_any : Holders → ℕ → ℕ → Option (ℕ × Holders)
  copy_any h fresh p =
      let cloned = h p >>= λ x. some (fresh, store h fresh (some x)) in
      if p == no_content then some (no_content, h) else cloned

  -- `Any(Any &&)`: the new one, and what is left of the other.
  abbrev pub move_any : ℕ → ℕ × ℕ
  move_any p = (p, no_content)

  -- `~Any`.
  unfoldable pub delete_any : Holders → ℕ → Option Holders
  delete_any h p =
      let freed = h p >>= λ x. some (store h p none) in if p == no_content then some h else freed

  -- `operator=` of an `Any`: a copy is swapped with the old content, which is deleted.
  unfoldable pub assign_any : Holders → ℕ → ℕ → ℕ → Option (ℕ × Holders)
  unfolding copy_any delete_any
  assign_any h fresh this rhs = do
    (copy, h₁) ← copy_any h fresh rhs
    h₂ ← delete_any h₁ this
    some (copy, h₂)

  -- `operator=` of a value.
  unfoldable pub assign_value : Holders → ℕ → ℕ → (t : T) → El t → Option (ℕ × Holders)
  unfolding delete_any
  assign_value h fresh this t v = do
    let (content, h₁) = any_of h fresh t v
    h₂ ← delete_any h₁ this
    some (content, h₂)

  -- `GetType`: the inner `none` is `typeid(void)`.
  unfoldable pub get_type : Holders → ℕ → Option (Option T)
  get_type h p =
      let typed = h p >>= λ x. some (some x.type_) in if p == no_content then some none else typed

  abbrev pub is_empty : ℕ → Bool
  is_empty p = p == no_content

  -- `any_cast` of a pointer: the inner `none` is the null pointer.
  module _ (same : Discrete T) where
    unfoldable pub held_as : (t : T) → Holder → Option (El t)
    held_as t x = elim (same x.type_ t) [ yes q ↦ some (subst El q x.held) | no q ↦ none ]

    unfoldable pub any_cast : Holders → (t : T) → ℕ → Option (Option (El t))
    unfolding held_as
    any_cast h t p =
        let cast = h p >>= λ x. some (held_as t x) in if p == no_content then some none else cast
