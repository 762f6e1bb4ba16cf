-- ===== src/Base/Count.antt =====
-- How many numbers below a bound pass a test.
use Prim.Native.Nat.{ℕ, zero, suc, ◌+◌, ◌<◌, ◌≤◌}
use mathlib.Core.Path.{◌≡◌, refl}
use mathlib.Core.Logic.{◌≢◌}
use mathlib.Core.Bool.{Bool, true, false}
use native.Mathlib.Omega.{arith}
use native.Mathlib.Decide.{ℕ_discrete}
use core_os.Base.Tests.{if◌then◌else◌}

unfoldable pub count : (ℕ → Bool) → ℕ → ℕ
count p zero = 0
count p (suc n) = (if p n then 1 else 0) + count p n

pub count-le : (p : ℕ → Bool) (n : ℕ) → count p n ≤ n
unfolding count
count-le p zero = omega arith
count-le p (suc n) = ground (arith, count-le p n)

pub count_ext : (p q : ℕ → Bool) (n : ℕ) → ((g : ℕ) → g < n → p g ≡ q g) → count p n ≡ count q n
unfolding count
count_ext p q zero h = refl
count_ext p q (suc n) h =
    ground (arith, h n (omega arith), count_ext p q n (λ g l. h g (omega arith)))

-- A count of none finds nothing.
pub count_none : (p : ℕ → Bool) (n : ℕ) → ((g : ℕ) → g < n → p g ≡ false) → count p n ≡ 0
unfolding count
count_none p zero h = refl
count_none p (suc n) h =
    ground (arith, h n (omega arith), count_none p n (λ g l. h g (omega arith)))

-- Switching one number off takes one away.
pub count_flip :
    (p q : ℕ → Bool) (n f : ℕ)
    → f < n
    → p f ≡ true
    → q f ≡ false
    → ((g : ℕ) → g ≢ f → p g ≡ q g)
    → count p n ≡ suc (count q n)
unfolding count
count_flip p q zero f l a b h = absurd (omega arith)
count_flip p q (suc n) f l a b h = elim (ℕ_discrete n f) [
  | yes e ↦ rw (e, a, b) (omega (arith, count_ext p q f (λ g m. h g (λ c. omega arith))))
  | no ne ↦ ground (arith, h n ne, count_flip p q n f (omega arith) a b h)
]

-- Where only 0 can pass, at most one number does.
pub count-le_one : (p : ℕ → Bool) (n : ℕ) → ((g : ℕ) → 0 < g → g < n → p g ≡ false) → count p n ≤ 1
unfolding count
count-le_one p zero h = omega arith
count-le_one p (suc zero) h = ground arith
count-le_one p (suc (suc n)) h = ground (
  arith,
  h (suc n) (omega arith) (omega arith),
  count-le_one p (suc n) (λ g a b. h g a (omega arith)),
)
