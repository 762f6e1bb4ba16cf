-- ===== src/Pmm/Runs.antt =====
-- Runs of adjacent frames: what `alloc_frames` looks for and marks.
use core_os.Base.{
  ℕ, zero, suc, ◌+◌, ◌≤◌, ◌<◌, ◌≡◌, refl, true, false, ◌&&◌, arith, if◌then◌else◌, leb, ltb,
}
use core_os.Base.Count.{count}
use core_os.Pmm.{Pmm, max_frames, set_used, is_free, set_used_run}
use core_os.Pmm.Bitmap.{IsBitmap, set_used-IsBitmap, is_free-set_used}
use core_os.Pmm.Accounting.{count-set_used}

-- The `n` frames from `s` on are free.
abbrev pub FreeRun : Pmm → ℕ → ℕ → Type 0
FreeRun p s n = (g : ℕ) → s ≤ g → g < s + n → is_free p g ≡ true

-- From `p` to `q` exactly the `n` frames from `f` on have become used.
abbrev pub Marks : Pmm → ℕ → ℕ → Pmm → Type 0
Marks p f n q = (g : ℕ) → is_free q g ≡ (if leb f g && ltb g (f + n) then false else is_free p g)

pub set_used_run-IsBitmap :
    (n f : ℕ) (p : Pmm) → IsBitmap p.bitmap → IsBitmap (set_used_run n f p).bitmap
unfolding set_used_run
set_used_run-IsBitmap zero f p v = v
set_used_run-IsBitmap (suc n) f p v =
    set_used_run-IsBitmap n (f + 1) (set_used p f) (set_used-IsBitmap p f v)

pub set_used_run-Marks :
    (n f : ℕ) (p : Pmm) → IsBitmap p.bitmap → f + n ≤ max_frames → Marks p f n (set_used_run n f p)
unfolding set_used_run
set_used_run-Marks zero f p v h g = ground arith
set_used_run-Marks (suc n) f p v h g = ground (
  arith,
  is_free-set_used p f g v,
  set_used_run-Marks n (f + 1) (set_used p f) (set_used-IsBitmap p f v) (omega arith) g,
)

pub count-set_used_run :
    (n f : ℕ) (p : Pmm)
    → IsBitmap p.bitmap
    → f + n ≤ max_frames
    → FreeRun p f n
    → count (is_free p) max_frames ≡ n + count (is_free (set_used_run n f p)) max_frames
unfolding set_used_run
count-set_used_run zero f p v h free = omega arith
count-set_used_run (suc n) f p v h free = omega (
  arith,
  count-set_used p f v (omega arith) (free f (omega arith) (omega arith)),
  count-set_used_run n (f + 1) (set_used p f) (set_used-IsBitmap p f v) (omega arith)
      (λ g a b. ground (arith, is_free-set_used p f g v, free g)),
)

pub counters-set_used_run :
    (n f : ℕ) (p : Pmm)
    → ((set_used_run n f p).free_frames ≡ p.free_frames)
      × ((set_used_run n f p).total_frames ≡ p.total_frames)
unfolding set_used_run set_used
counters-set_used_run zero f p = (refl, refl)
counters-set_used_run (suc n) f p = counters-set_used_run n (f + 1) (set_used p f)
