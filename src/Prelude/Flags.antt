-- ===== src/Prelude/Flags.antt =====
-- `&` and `|` of an integer with one bit.
use Prim.Native.Nat.{ℕ, ◌+◌, ◌/◌, ◌%◌}
use mathlib.Core.Bool.{Bool}
use yamq.Prelude.Tests.{◌==◌, if◌then◌else◌}

-- `(n & bit) != 0`.
abbrev pub has : ℕ → ℕ → Bool
has n bit = n / bit % 2 == 1

-- `on ? bit : 0`, added to `n` by `|`.
abbrev pub or_if : ℕ → Bool → ℕ → ℕ
or_if n on bit = if on then (if has n bit then n else n + bit) else n
