-- ===== src/Base/Tables.antt =====
-- Facts on small ranges, checked at every value.
use Prim.Native.Nat.{ℕ, zero, suc, ◌<◌}
use mathlib.Core.Path.{◌≡◌}
use mathlib.Core.Bool.{Bool, true, ◌&&◌}
use native.Mathlib.Omega.{arith}

unfoldable pub holds_below : (ℕ → Bool) → ℕ → Bool
holds_below test zero = true
holds_below test (suc n) = holds_below test n && test n

-- What holds below a bound holds at each number below it.
pub holds_below_at :
    (test : ℕ → Bool) (n : ℕ) → holds_below test n ≡ true → (x : ℕ) → x < n → test x ≡ true
unfolding holds_below
holds_below_at test zero h x l = absurd (omega arith)
holds_below_at test (suc n) h x l = ground (arith, holds_below_at test n (ground arith) x)
