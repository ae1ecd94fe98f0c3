-- ===== src/Base/Bits.antt =====
-- Facts about all values of a byte, by evaluation.
use Prim.Native.Nat.{ℕ, zero, suc, ◌<◌}
use mathlib.Core.Path.{◌≡◌}
use mathlib.Core.Bool.{Bool, true, ◌&&◌}
use native.Mathlib.Omega.{arith}

-- Does the test hold of every number under the bound?
unfoldable pub holds_under : (ℕ → Bool) → ℕ → Bool
holds_under test zero = true
holds_under test (suc bound) = holds_under test bound && test bound

pub holds_under_get :
    (test : ℕ → Bool) (bound n : ℕ) → n < bound → holds_under test bound ≡ true → test n ≡ true
unfolding holds_under
holds_under_get test zero n small all = absurd (omega arith)
holds_under_get test (suc bound) n small all = ground (arith, holds_under_get test bound n)
