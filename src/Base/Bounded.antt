-- ===== src/Base/Bounded.antt =====
-- A queue with a limit, which drops what comes when it is full: the specification of the rings.
use Prim.Native.Nat.{ℕ, zero, suc, ◌+◌}
use mathlib.Core.Path.{◌≡◌, refl, ◌∙◌}
use mathlib.Core.Option.{Option, none, some}
use mathlib.Core.List.{List, [], ◌∷◌, ◌++◌, append-nil, append_assoc}
use native.Mathlib.Omega.{arith}
use core_os.Base.Tests.{if◌then◌else◌, ltb}
use core_os.Base.Lists.{length, length-append, take}

module _ {ℓ} {A : Type ℓ} where
  unfoldable pub dequeue : List A → Option A × List A
  dequeue [] = (none, [])
  dequeue (c ∷ q) = (some c, q)

  unfoldable pub enqueue : ℕ → List A → A → List A
  enqueue limit q c = if ltb (length q) limit then q ++ c ∷ [] else q

  unfoldable pub enqueue_all : ℕ → List A → List A → List A
  enqueue_all limit q [] = q
  enqueue_all limit q (c ∷ cs) = enqueue_all limit (enqueue limit q c) cs

  pub enqueue_all-append :
      (limit : ℕ) (xs ys q : List A)
      → enqueue_all limit q (xs ++ ys) ≡ enqueue_all limit (enqueue_all limit q xs) ys
  unfolding enqueue_all
  enqueue_all-append limit [] ys q = refl
  enqueue_all-append limit (x ∷ xs) ys q = enqueue_all-append limit xs ys (enqueue limit q x)

  -- With room for `k` more, the first `k` of what is offered go in.
  pub enqueue_all_lem :
      (limit : ℕ) (cs : List A) (k : ℕ) (q : List A)
      → length q + k ≡ limit
      → enqueue_all limit q cs ≡ q ++ take k cs
  unfolding enqueue_all
  enqueue_all_lem limit [] zero q h = simp append-nil
  enqueue_all_lem limit [] (suc k) q h = simp append-nil
  enqueue_all_lem limit (c ∷ cs) zero q h = rw full (enqueue_all_lem limit cs zero q h)
    where
      full : enqueue limit q c ≡ q
      full = unfold enqueue in ground arith
  enqueue_all_lem limit (c ∷ cs) (suc k) q h = rw room (
      enqueue_all_lem limit cs k (q ++ c ∷ []) (omega (arith, length-append q (c ∷ [])))
      ∙ append_assoc q (c ∷ []) (take k cs))
    where
      room : enqueue limit q c ≡ q ++ c ∷ []
      room = unfold enqueue in ground arith
