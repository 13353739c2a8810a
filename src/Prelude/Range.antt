-- ===== src/Prelude/Range.antt =====
-- Python's `range`.
use Prim.Native.Nat.{ℕ, zero, suc, ◌+◌, ◌-◌, ◌/◌}
use mathlib.Core.List.{List, [], ◌∷◌}

abbrev pub range_from : ℕ → ℕ → ℕ → List ℕ
range_from zero start step = []
range_from (suc n) start step = start ∷ range_from n (start + step) step

-- `range(start, stop, step)` for a positive step.
unfoldable pub range : ℕ → ℕ → ℕ → List ℕ
range start stop step = range_from ((stop - start + (step - 1)) / step) start step
