-- ===== src/Any/Tests.antt =====
-- Runs of the casts of base/std/any.h, and the theorem at an input that meets its hypotheses.

use yamq.Prelude.{ℕ, ◌≡◌, refl, inr, Bool, true, false, none, some, List, [], ◌∷◌, arith, ◌>>=◌}
use yamq.Any.{Holder, Holders, store, assign_any, assign_value, get_type, delete_any}
use yamq.Any.Casts.{Assigned, assign_any-Assigned}

kinds : Discrete Bool
kinds true true = yes refl
kinds false false = yes refl
kinds true false = no (λ e. cc)
kinds false true = no (λ e. cc)

-- Two types: numbers, and texts.
abbrev El : Bool → Type 0
El true = ℕ
El false = List ℕ

abbrev five : Holder El
five = record { type_ = true; held = 5 }

abbrev text : Holder El
text = record { type_ = false; held = 97 ∷ [] }

-- A number at 1, a text at 2.
abbrev two_held : Holders El
two_held = store El (store El (λ a. none) 1 (some five)) 2 (some text)

assign_any-Assigned_example : Assigned El kinds (assign_any El two_held 3 2 1) 2 1 true 5
assign_any-Assigned_example =
    assign_any-Assigned El kinds two_held 3 2 1 true 5 (omega arith) refl
      (inr (text, omega arith, refl)) (omega arith) (omega arith) refl

value_assigned :
    (assign_value El two_held 3 2 true 7 >>= λ (p, h). get_type El h p) ≡ some (some true)
unfolding assign_value get_type delete_any
value_assigned = refl
