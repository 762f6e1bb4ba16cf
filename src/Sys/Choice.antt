-- ===== src/Sys/Choice.antt =====
-- The search for the next signal finds the lowest one that can be delivered.
use core_os.Base.{
  ℕ, zero, suc, ◌+◌, ◌≤◌, ◌<◌, ◌≡◌, refl, Bool, true, false, not, ◌&&◌, ◌||◌, Option, none, some,
  arith, if◌then◌else◌, ℕ_discrete,
}
use core_os.Proc.State.{SigSet}
use core_os.Sys.{sigset_contains}
use core_os.Sys.Signals.{pick_signal}

-- A signal that is pending for the thread or its process, and not masked.
unfoldable pub deliverable : SigSet → SigSet → SigSet → ℕ → Bool
deliverable own shared mask sig =
    (sigset_contains own sig || sigset_contains shared sig) && not (sigset_contains mask sig)

-- What the search finds.
pub record Chosen (own shared mask : SigSet) (first n : ℕ) (c : ℕ × Bool) : Type 0 where
  pub lower : first ≤ c.0
  pub upper : c.0 < first + n
  pub ready : deliverable own shared mask c.0 ≡ true
  pub lowest : (i : ℕ) → first ≤ i → i < c.0 → deliverable own shared mask i ≡ false
  pub directed : sigset_contains own c.0 ≡ c.1

pub data Choice (own shared mask : SigSet) (first n : ℕ) : Option (ℕ × Bool) → Type 0 where
  chosen :
      (c : ℕ × Bool) → Chosen own shared mask first n c → Choice own shared mask first n (some c)
  nothing :
      ((i : ℕ) → first ≤ i → i < first + n → deliverable own shared mask i ≡ false)
      → Choice own shared mask first n none

later :
    (own shared mask : SigSet) (first n : ℕ) (r : Option (ℕ × Bool))
    → deliverable own shared mask first ≡ false
    → Choice own shared mask (suc first) n r
    → Choice own shared mask first (suc n) r
later own shared mask first n _ none_here (chosen c d) = chosen c (record {
  lower = omega (arith, d.lower);
  upper = omega (arith, d.upper);
  ready = d.ready;
  lowest = λ i a b. elim (ℕ_discrete i first) [
    | yes e ↦ rw e none_here
    | no ne ↦ d.lowest i (omega arith) b
  ];
  directed = d.directed;
})
later own shared mask first n _ none_here (nothing d) = nothing (λ i a b.
    elim (ℕ_discrete i first) [ yes e ↦ rw e none_here | no ne ↦ d i (omega arith) (omega arith) ])

choose :
    (own shared mask : SigSet) (first n : ℕ) (r : Option (ℕ × Bool)) (a b m : Bool)
    → sigset_contains own first ≡ a
    → sigset_contains shared first ≡ b
    → sigset_contains mask first ≡ m
    → Choice own shared mask (suc first) n r
    → Choice own shared mask first
        (suc n)
        (if a && not m then some (first, true) else if b && not m then some (first, false) else r)
unfolding deliverable
choose own shared mask first n r true b false x y z rest = chosen _ (record {
  lower = omega arith;
  upper = omega arith;
  ready = rw (deliverable, x, z) refl;
  lowest = λ i l u. absurd (omega arith);
  directed = x;
})
choose own shared mask first n r true true true x y z rest =
    later own shared mask first n r (rw (deliverable, x, z) refl) rest
choose own shared mask first n r true false true x y z rest =
    later own shared mask first n r (rw (deliverable, x, z) refl) rest
choose own shared mask first n r false true false x y z rest = chosen _ (record {
  lower = omega arith;
  upper = omega arith;
  ready = rw (deliverable, x, y, z) refl;
  lowest = λ i l u. absurd (omega arith);
  directed = x;
})
choose own shared mask first n r false true true x y z rest =
    later own shared mask first n r (rw (deliverable, x, y, z) refl) rest
choose own shared mask first n r false false m x y z rest =
    later own shared mask first n r (rw (deliverable, x, y) refl) rest

pub pick_signal-Choice :
    (n first : ℕ) (own shared mask : SigSet)
    → Choice own shared mask first n (pick_signal n first own shared mask)
unfolding pick_signal
pick_signal-Choice zero first own shared mask = nothing (λ i a b. absurd (omega arith))
pick_signal-Choice (suc n) first own shared mask =
    choose own shared mask first n (pick_signal n (suc first) own shared mask) _ _ _ refl refl refl
      (pick_signal-Choice n (suc first) own shared mask)
