-- ===== src/Pmm/Tests.antt =====
-- Runs of the frame allocator, and the theorems about it at concrete states.
use core_os.Base.{
  ℕ, zero, suc, length, true, ◌↔◌, ◌*◌, ◌+◌, ◌<◌, ◌≤◌, ◌≡◌, refl, false, not, ◌&&◌, List, [], ◌∷◌,
  ◌⊎◌, arith, ◌==◌,
}
use core_os.Base.Count.{count}
use core_os.Pmm.{
  Pmm, Memory, BootInfo, page_size, max_frames, new, init, is_free, set_used, set_free, alloc_frame,
  alloc_scan, alloc_frames, run_scan, grab_run, set_used_run, free_frame,
}
use core_os.Pmm.Accounting.{IsCounted}
use core_os.Pmm.Alloc.{Outcome, alloc_frame-Outcome, alloc_frames-Outcome}
use core_os.Pmm.Free.{Refused, Returned, free_frame_lem}
use core_os.Pmm.History.{Machine, Call, allocs, frees, run, run-IsCounted, run-disjoint}
use core_os.Pmm.Validate.{
  Fits, entry_at, IsUsable, validate_mmap, validate_entries, no_overlap, region_end,
  validate_mmap_iff,
}
use core_os.Pmm.Init.{init_lem, offered, kernel_image}

-- Frames 0 to 15; 3, 5, 6, 7 and 9 are free. (The real bitmap is longer.)
abbrev small : Pmm
small = record { bitmap = 23 ∷ 253 ∷ []; total_frames = 5; free_frames = 5 }

abbrev blank : Memory
blank a = 7

alloc_frame_first : (alloc_frame small blank).addr ≡ 3 * 4096
unfolding alloc_frame alloc_scan is_free
alloc_frame_first = refl

alloc_frames_three :
    ((alloc_frames 3 small blank).addr ≡ 5 * 4096)
    × ((alloc_frames 3 small blank).pmm
        ≡ record { bitmap = 247 ∷ 253 ∷ []; total_frames = 5; free_frames = 2 })
unfolding alloc_frames run_scan grab_run set_used_run set_used is_free
alloc_frames_three = (refl, refl)

free_frame_back :
    free_frame (alloc_frames 3 small blank).pmm (6 * 4096 + 12)
    ≡ record { bitmap = 183 ∷ 253 ∷ []; total_frames = 5; free_frames = 3 }
unfolding free_frame alloc_frames run_scan grab_run set_used_run set_used set_free is_free
free_frame_back = refl

-- A machine with 64 MB from 1 MB on, whose kernel lies at 2 MB, and a reserved region.
abbrev boot : BootInfo
boot = record {
  mmap =
      record { mem_type = 7; physical_start = 0x100000; num_pages = 16384 }
      ∷ record { mem_type = 0; physical_start = 0x8000000; num_pages = 64 }
      ∷ [];
  kernel_phys_base = 0x200000;
  kernel_alloc_size = 0x30001;
}

abbrev booted : Pmm
booted = init new boot

abbrev start_machine : Machine
start_machine = record { pmm = booted; mem = blank }

init_lem_example :
    IsCounted (init new boot)
    × ((f : ℕ)
        → f < max_frames
        → is_free (init new boot) f
          ≡ (not (f == 0) && (not (kernel_image boot f) && offered boot.mmap f)))
    × ((init new boot).total_frames ≡ count (offered boot.mmap) max_frames)
init_lem_example = init_lem boot

alloc_frame-Outcome_example : Outcome booted blank 1 (alloc_frame booted blank)
alloc_frame-Outcome_example = alloc_frame-Outcome booted blank (init_lem boot).0

alloc_frames-Outcome_example :
    (◌≡◌ {A = ℕ} 4 0)
      × (alloc_frames 4 booted blank ≡ record { addr = 0; pmm = booted; mem = blank })
    ⊎ Outcome booted blank 4 (alloc_frames 4 booted blank)
alloc_frames-Outcome_example = alloc_frames-Outcome 4 booted blank (init_lem boot).0

free_frame_lem_example :
    IsCounted (free_frame booted 0x200000)
    × (Refused booted 512 × (free_frame booted 0x200000 ≡ booted)
        ⊎ Returned booted 512 (free_frame booted 0x200000))
free_frame_lem_example = free_frame_lem booted 0x200000 (init_lem boot).0

abbrev calls : List Call
calls = allocs 1 ∷ allocs 4 ∷ frees 0x100000 ∷ allocs 0 ∷ []

run-IsCounted_example : IsCounted (run start_machine calls).pmm
run-IsCounted_example = run-IsCounted calls start_machine (init_lem boot).0

-- Frame 512 belongs to the kernel.
kernel_frame_used : is_free booted 512 ≡ false
kernel_frame_used = (init_lem boot).1 512 (omega arith)

run-disjoint_example :
    let t = run start_machine calls in
    let r = alloc_frames 2 t.pmm t.mem in
    (r.addr ≡ 0)
    ⊎ (512 * page_size + page_size ≤ r.addr)
    ⊎ (r.addr + 2 * page_size ≤ 512 * page_size)
run-disjoint_example =
    run-disjoint calls start_machine 512 2 (init_lem boot).0 (omega arith) kernel_frame_used

boot-Fits : (i : ℕ) → i < length boot.mmap → Fits (entry_at boot.mmap i)
boot-Fits zero l = omega arith
boot-Fits (suc zero) l = omega arith
boot-Fits (suc (suc i)) l = absurd (omega arith)

validate_mmap_run : validate_mmap boot.mmap ≡ true
unfolding validate_mmap validate_entries no_overlap region_end
validate_mmap_run = refl

validate_mmap_iff_example :
    (validate_mmap boot.mmap ≡ true)
    ↔ ((0 < length boot.mmap) × (length boot.mmap ≤ 256) × IsUsable boot.mmap)
validate_mmap_iff_example = validate_mmap_iff boot.mmap boot-Fits
