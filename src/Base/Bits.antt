-- ===== src/Base/Bits.antt =====
-- Facts about bit operations on bytes, each by a table of all values.
use Prim.Native.Nat.{ℕ, zero, suc, ◌<◌}
use mathlib.Core.Path.{◌≡◌}
use mathlib.Core.Bool.{Bool, true, ◌&&◌}
use native.Mathlib.Omega.{arith}

-- Whether a test holds of every number under a bound.
unfoldable pub holds_under : (test : ℕ → Bool) (bound : ℕ) → Bool
holds_under test zero = true
holds_under test (suc top) = holds_under test top && test top

pub from_table :
    (test : ℕ → Bool) (bound : ℕ) {value : ℕ}
    → holds_under test bound ≡ true
    → value < bound
    → test value ≡ true
unfolding holds_under
from_table test zero all small = absurd (omega arith)
from_table test (suc top) {value} all small = ground (arith, from_table test top {value = value})
