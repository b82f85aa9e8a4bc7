-- ===== src/Base/Ranges.antt =====
-- A Boolean property of every number below a bound, by evaluation.
use Prim.Native.Nat.{ℕ, zero, suc, ◌<◌}
use mathlib.Core.Path.{◌≡◌}
use mathlib.Core.Bool.{Bool, true, false}
use native.Mathlib.Omega.{arith}
use native.Mathlib.Decide.{ℕ_discrete}
use learn_os.Base.Tests.{if◌then◌else◌}

unfoldable pub check_below : ℕ → (ℕ → Bool) → Bool
check_below zero test = true
check_below (suc top) test = if check_below top test then test top else false

pub check_below-at :
    (bound : ℕ) (test : ℕ → Bool) (i : ℕ)
    → check_below bound test ≡ true
    → i < bound
    → test i ≡ true
unfolding check_below
check_below-at zero test i all lt = absurd (omega arith)
check_below-at (suc top) test i all lt = elim (ℕ_discrete i top) [
  | yes here ↦ rw here (ground arith)
  | no other ↦ check_below-at top test i (ground arith) (omega arith)
]
