-- ===== src/Base/Totals.antt =====
-- Sums over the elements of an array.
use Prim.Native.Nat.{ℕ, zero, suc, ◌+◌, ◌≤◌, ◌<◌}
use mathlib.Core.Path.{◌≡◌, refl}
use mathlib.Core.List.{List, [], ◌∷◌}
use native.Mathlib.Omega.{arith}
use core_os.Base.Lists.{length, get_or, set, replicate}

module _ {ℓ} {A : Type ℓ} (w : A → ℕ) where
  unfoldable pub total : List A → ℕ
  total [] = 0
  total (x ∷ xs) = w x + total xs

  -- A write takes the weight of the old element away and adds that of the new one.
  pub total-set :
      (xs : List A) (i : ℕ) (v d : A)
      → i < length xs
      → total (set xs i v) + w (get_or xs i d) ≡ total xs + w v
  unfolding total
  total-set [] i v d h = absurd (omega arith)
  total-set (x ∷ xs) zero v d h = omega arith
  total-set (x ∷ xs) (suc i) v d h = omega (arith, total-set xs i v d (omega arith))

  pub get_or-total : (xs : List A) (i : ℕ) (d : A) → w d ≡ 0 → w (get_or xs i d) ≤ total xs
  unfolding total
  get_or-total [] i d z = omega (arith, z)
  get_or-total (x ∷ xs) zero d z = omega arith
  get_or-total (x ∷ xs) (suc i) d z = omega (arith, get_or-total xs i d z)

  pub total-replicate : (n : ℕ) (x : A) → w x ≡ 0 → total (replicate n x) ≡ 0
  unfolding total replicate
  total-replicate zero x z = refl
  total-replicate (suc n) x z = omega (arith, z, total-replicate n x z)
