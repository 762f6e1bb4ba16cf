-- ===== src/Scheduler/Pick.antt =====
-- The search finds the nearest runnable task after the current one.
use core_os.Base.{
  ℕ, zero, suc, ◌+◌, ◌%◌, ◌≤◌, ◌<◌, ◌≡◌, refl, Bool, true, false, List, Option, none, some, arith,
  get_or, inl, inr, Bool-cases, ℕ_discrete,
}
use core_os.Proc.Process.{Task, max_tasks}
use core_os.Scheduler.{is_runnable, pick}

-- Whether the slot at a distance from the current one can be chosen.
abbrev pub runnable_at : List (Option Task) → ℕ → ℕ → Bool
runnable_at tasks cur i = is_runnable (get_or tasks ((cur + i) % max_tasks) none)

-- The distance of the choice: nothing nearer is runnable.
pub record Nearest (tasks : List (Option Task)) (cur i n idx : ℕ) : Type 0 where
  pub distance : ℕ
  pub lower : i ≤ distance
  pub upper : distance < i + n
  pub place : idx ≡ (cur + distance) % max_tasks
  pub runnable : is_runnable (get_or tasks idx none) ≡ true
  pub nearest : (j : ℕ) → i ≤ j → j < distance → runnable_at tasks cur j ≡ false

pub data Picked (tasks : List (Option Task)) (cur i n : ℕ) : Option ℕ → Type 0 where
  found : (idx : ℕ) → Nearest tasks cur i n idx → Picked tasks cur i n (some idx)
  nothing :
      ((j : ℕ) → i ≤ j → j < i + n → runnable_at tasks cur j ≡ false) → Picked tasks cur i n none

further :
    (tasks : List (Option Task)) (cur i n : ℕ) (r : Option ℕ)
    → runnable_at tasks cur i ≡ false
    → Picked tasks cur (i + 1) n r
    → Picked tasks cur i (suc n) r
further tasks cur i n _ none_here (found idx d) = found idx (record {
  distance = d.distance;
  lower = omega (arith, d.lower);
  upper = omega (arith, d.upper);
  place = d.place;
  runnable = d.runnable;
  nearest = λ j a b. elim (ℕ_discrete j i) [
    | yes e ↦ rw e none_here
    | no ne ↦ d.nearest j (omega arith) b
  ];
})
further tasks cur i n _ none_here (nothing d) = nothing (λ j a b. elim (ℕ_discrete j i) [
  | yes e ↦ rw e none_here
  | no ne ↦ d j (omega arith) (omega arith)
])

pub pick-Picked :
    (n i : ℕ) (tasks : List (Option Task)) (cur : ℕ) → Picked tasks cur i n (pick n i tasks cur)
unfolding pick
pick-Picked zero i tasks cur = nothing (λ j a b. absurd (omega arith))
pick-Picked (suc n) i tasks cur = elim (Bool-cases (runnable_at tasks cur i)) [
  | inl here ↦ rw here (
      found _ (record {
        distance = i;
        lower = omega arith;
        upper = omega arith;
        place = refl;
        runnable = here;
        nearest = λ j a b. absurd (omega arith);
      }))
  | inr none_here ↦
      rw none_here (further tasks cur i n _ none_here (pick-Picked n (i + 1) tasks cur))
]
