-- ===== src/Pmm/Alloc.antt =====
-- `alloc_frame` and `alloc_frames`: first fit, exact accounting, and out of memory exactly when
-- there is no run of frames.
use core_os.Base.{
  ℕ, zero, suc, ◌+◌, ◌-◌, ◌*◌, ◌≤◌, ◌<◌, ◌≡◌, ◌≢◌, refl, true, false, arith, if◌then◌else◌, ◌==◌,
  Bool-cases, ==_iff, dec_lt, ℕ_discrete, ◌⊎◌, inl, inr,
}
use core_os.Pmm.{
  Pmm, Memory, Allocated, page_size, max_frames, set_used, is_free, set_used_run, zero_fill,
  alloc_scan, alloc_frame, grab_run, run_scan, alloc_frames,
}
use core_os.Pmm.Accounting.{IsCounted}
use core_os.Pmm.Runs.{
  FreeRun, Marks, set_used_run-IsBitmap, set_used_run-Marks, count-set_used_run,
  counters-set_used_run,
}

-- The call took the first run of `n` frames.
pub record Served (p : Pmm) (m : Memory) (n : ℕ) (r : Allocated) : Type 0 where
  pub start : ℕ
  pub not_zero : 0 < start
  pub inside : start + n ≤ max_frames
  pub run : FreeRun p start n
  pub first : (s : ℕ) → 0 < s → s < start → ¬ FreeRun p s n
  pub addr : r.addr ≡ start * page_size
  pub marks : Marks p start n r.pmm
  pub counter : r.pmm.free_frames + n ≡ p.free_frames
  pub total : r.pmm.total_frames ≡ p.total_frames
  pub zeroed : r.mem ≡ zero_fill m (start * page_size) (n * page_size)

-- There is no run of `n` frames, and the call changed nothing.
pub record Exhausted (p : Pmm) (m : Memory) (n : ℕ) (r : Allocated) : Type 0 where
  pub no_run : (s : ℕ) → 0 < s → s + n ≤ max_frames → ¬ FreeRun p s n
  pub addr : r.addr ≡ 0
  pub pmm : r.pmm ≡ p
  pub mem : r.mem ≡ m

abbrev pub Outcome : Pmm → Memory → ℕ → Allocated → Type 0
Outcome p m n r = IsCounted r.pmm × (Served p m n r ⊎ Exhausted p m n r)

module _ (p : Pmm) (m : Memory) (valid : IsCounted p) where
  grab_run-IsCounted :
      (n s : ℕ) → s + n ≤ max_frames → FreeRun p s n → IsCounted (grab_run n s p m).pmm
  unfolding grab_run is_free
  grab_run-IsCounted n s h run = record {
    whole = set_used_run-IsBitmap n s p valid.whole;
    counted = omega (
      arith,
      count-set_used_run n s p valid.whole h run,
      valid.counted,
      counters-set_used_run n s p,
    );
  }

  grab_run-Served :
      (n s : ℕ)
      → 0 < s
      → s + n ≤ max_frames
      → FreeRun p s n
      → ((t : ℕ) → 0 < t → t < s → ¬ FreeRun p t n)
      → Served p m n (grab_run n s p m)
  unfolding grab_run is_free
  grab_run-Served n s pos h run none = record {
    start = s;
    not_zero = pos;
    inside = h;
    run = run;
    first = none;
    addr = refl;
    marks = set_used_run-Marks n s p valid.whole h;
    counter = omega (
      arith,
      count-set_used_run n s p valid.whole h run,
      valid.counted,
      counters-set_used_run n s p,
    );
    total = (counters-set_used_run n s p).1;
    zeroed = refl;
  }

  -- `c` free frames end before `f`, the last of them runs is too short, and none before fits.
  run_scan-Outcome :
      (k n f c start : ℕ)
      → f + n ≡ max_frames
      → c < f
      → c < k
      → FreeRun p (f - c) c
      → (c ≢ 0 → start + c ≡ f)
      → ((s : ℕ) → 0 < s → s < f - c → ¬ FreeRun p s k)
      → Outcome p m k (run_scan k n f c start p m)
  unfolding run_scan
  run_scan-Outcome k zero f c start e hc hk run here none = (
    valid,
    inr (record { no_run = λ s a b. none s a (omega arith); addr = refl; pmm = refl; mem = refl }),
  )
  run_scan-Outcome k (suc n) f c start e hc hk run here none = elim (Bool-cases (is_free p f)) [
    | inl free ↦
        (let first : (if c == 0 then f else start) ≡ f - c = ground arith in
          let longer : FreeRun p (f - c) (c + 1) = λ g a b. elim (ℕ_discrete g f) [
            | yes same ↦ rw same free
            | no other ↦ run g a (omega arith)
          ] in
          elim (Bool-cases (c + 1 == k)) [
            | inl full ↦
                (let size : c + 1 ≡ k = (==_iff (c + 1) k).0 full in
                  rw (free, full, first, run_scan)
                    (
                      grab_run-IsCounted k (f - c) (omega arith) (rw (← size) longer),
                      inl (
                          grab_run-Served k (f - c) (omega arith) (omega arith) (rw (← size) longer)
                            none),
                    ))
            | inr short ↦
                rw (free, short, first, run_scan)
                  (run_scan-Outcome k n (f + 1) (c + 1) (f - c) (omega arith) (omega arith)
                    (ground arith) (λ g a b. longer g (omega arith) (omega arith))
                    (λ _. omega arith) (λ s a b. none s a (omega arith)))
          ])
    | inr used ↦
        rw (used, run_scan)
          (run_scan-Outcome k n (f + 1) 0 start (omega arith) (omega arith) (omega arith)
            (λ g a b. absurd (omega arith)) (λ h. absurd (h refl))
            (λ s a b fits. elim (dec_lt s (f - c)) [
              | yes before ↦ none s a before fits
              | no inside ↦ cc (fits f (omega arith) (omega arith))
            ]))
  ]

  single_free : (f : ℕ) → is_free p f ≡ true → FreeRun p f 1
  single_free f free g a b = let same : g ≡ f = omega arith in rw same free

  alloc_scan-Outcome :
      (n f : ℕ)
      → 0 < f
      → f + n ≡ max_frames
      → ((s : ℕ) → 0 < s → s < f → is_free p s ≡ false)
      → Outcome p m 1 (alloc_scan n f p m)
  unfolding alloc_scan grab_run set_used_run set_used
  alloc_scan-Outcome zero f pos e none = (
    valid,
    inr (record {
      no_run = λ s a b run. cc (run s (omega arith) (omega arith), none s a (omega arith));
      addr = refl;
      pmm = refl;
      mem = refl;
    }),
  )
  alloc_scan-Outcome (suc n) f pos e none = elim (Bool-cases (is_free p f)) [
    | inl free ↦
        rw (free, alloc_scan)
          (
            grab_run-IsCounted 1 f (omega arith) (single_free f free),
            inl (
                grab_run-Served 1 f pos (omega arith) (single_free f free)
                  (λ s a b run. cc (run s (omega arith) (omega arith), none s a b))),
          )
    | inr used ↦
        rw (used, alloc_scan)
          (alloc_scan-Outcome n (f + 1) (omega arith) (omega arith) (λ s a b.
            elim (ℕ_discrete s f) [ yes same ↦ rw same used | no other ↦ none s a (omega arith) ]))
  ]

-- On an allocator whose counter is right alloc_frame takes the lowest free frame above 0 and
-- zeroes it, or reports 0 exactly when there is none.
pub alloc_frame-Outcome : (p : Pmm) (m : Memory) → IsCounted p → Outcome p m 1 (alloc_frame p m)
unfolding alloc_frame
alloc_frame-Outcome p m v =
    alloc_scan-Outcome p m v (max_frames - 1) 1 (omega arith) (omega arith)
      (λ s a b. absurd (omega arith))

-- On an allocator whose counter is right, alloc_frames takes the lowest run of the wanted length
-- and zeroes it, or reports 0 exactly when there is no such run; the counter stays right.
pub alloc_frames-Outcome :
    (n : ℕ) (p : Pmm) (m : Memory)
    → IsCounted p
    → (n ≡ 0) × (alloc_frames n p m ≡ record { addr = 0; pmm = p; mem = m })
      ⊎ Outcome p m n (alloc_frames n p m)
unfolding alloc_frames
alloc_frames-Outcome zero p m v = inl (refl, refl)
alloc_frames-Outcome (suc zero) p m v = inr (alloc_frame-Outcome p m v)
alloc_frames-Outcome (suc (suc n)) p m v = inr (
    run_scan-Outcome p m v (suc (suc n)) (max_frames - 1) 1 0 0 (omega arith) (omega arith)
      (omega arith) (λ g a b. absurd (omega arith)) (λ h. absurd (h refl))
      (λ s a b. absurd (omega arith)))
