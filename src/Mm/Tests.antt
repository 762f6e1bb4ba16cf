-- ===== src/Mm/Tests.antt =====
-- Runs of the memory calls, and the theorems about them at a concrete process.
use core_os.Base.{
  ℕ, zero, suc, ◌≡◌, refl, true, false, List, [], ◌∷◌, Option, none, some, arith, replicate,
  get_or-replicate, get_or_past, length-replicate, dec_lt,
}
use core_os.Pmm.{new}
use core_os.Proc.State.{VmRegion, empty_region, new_leader_thread, max_vmas}
use core_os.Proc.Process.{
  Kernel, Process, boot_tables, new_leader, current_process, current_thread, process_of,
  put_process, put_process_of,
}
use core_os.Proc.Fd.{get_fd_target, descriptor_info, target_of}
use core_os.Mm.{
  overlaps, conflicts, place_vma, find_exact, region_conflicts, put_vmas, alloc_vma, find_vma_exact,
  round_up, reserve_mmap_base, current_brk, set_brk, err, ret, errno, error_code, no_mem,
}
use core_os.Mm.Calls.{
  Vm, brk_impl, check_mmap, mmap_start, file_seed, file_seed_of, mmap_at, mmap_impl, munmap_impl,
}
use core_os.Mm.Regions.{Disjoint, AllDisjoint, region_at}
use core_os.Mm.Reserve.{vmas_of}
use core_os.Mm.Outcome.{MmapOutcome, mmap_impl-MmapOutcome}
use core_os.Mm.History.{Call, brk, mmap, munmap, switch, call, run, run-AllDisjoint}

abbrev init_process : Process
init_process = new_leader 1 0 []

abbrev start_kernel : Kernel
start_kernel = record boot_tables {
  processes = some init_process ∷ replicate 7 none;
  threads = some (new_leader_thread 1 0 0 0) ∷ replicate 7 none;
}

abbrev start : Vm
start = record {
  kernel = start_kernel;
  machine = record { pmm = new; mem = λ a. 0 };
  files = none;
  kernel_pml4 = 0x1000;
}

overlaps_runs :
    (overlaps 0x1000 0x2000 0x2000 0x1000 ≡ true) × (overlaps 0x1000 0x1000 0x2000 0x1000 ≡ false)
unfolding overlaps
overlaps_runs = (refl, refl)

errno_run : ret (err no_mem) ≡ 0xffff_ffff_ffff_fff4
unfolding ret errno error_code
errno_run = refl

empty_regions-Disjoint : Disjoint (replicate max_vmas empty_region)
empty_regions-Disjoint = record {
  apart = λ i j ne u w. absurd (cc (u, ap_use i));
  spare = λ i u. all_empty i;
}
  where
    all_empty : (i : ℕ) → region_at (replicate max_vmas empty_region) i ≡ empty_region
    all_empty i = elim (dec_lt i max_vmas) [
      | yes l ↦ get_or-replicate max_vmas i empty_region empty_region l
      | no far ↦
          get_or_past (replicate max_vmas empty_region) i empty_region
            (omega (arith, length-replicate {A = VmRegion} max_vmas empty_region))
    ]

    ap_use : (i : ℕ) → (region_at (replicate max_vmas empty_region) i).in_use ≡ false
    ap_use i = rw (all_empty i) refl

start-AllDisjoint : AllDisjoint start.kernel
unfolding new_leader
start-AllDisjoint zero p h =
    let same : init_process ≡ p = cc h in rw (← same) empty_regions-Disjoint
start-AllDisjoint (suc s) p h = elim (dec_lt s 7) [
  | yes l ↦ absurd (cc (h, get_or-replicate {A = Option Process} 7 s none none l))
  | no far ↦ absurd (
      cc (
        h,
        get_or_past (replicate {A = Option Process} 7 none) s none
            (omega (arith, length-replicate {A = Option Process} 7 none)),
      ))
]

-- The break goes down, a mapping has a bad descriptor, and a region is given back.
abbrev calls : List Call
calls = brk 0x3000_0000 ∷ mmap 0 0x1800 3 2 9 0 ∷ munmap 0x2000 0x1000 ∷ switch 3 ∷ brk 0 ∷ []

abbrev or_start : Option Vm → Vm
or_start none = start
or_start (some v) = v

abbrev finish : Vm
finish = or_start (run calls start)

run_ends : run calls start ≡ some finish
unfolding run call brk_impl mmap_impl munmap_impl set_brk current_brk boot_tables current_process
    current_thread process_of put_process put_process_of check_mmap mmap_start reserve_mmap_base
    round_up mmap_at region_conflicts conflicts alloc_vma place_vma put_vmas new_leader file_seed
    file_seed_of descriptor_info get_fd_target target_of find_vma_exact find_exact new_leader_thread
    replicate core_os.Proc.Fd.is_empty_fd
run_ends = refl

run-AllDisjoint_example : AllDisjoint finish.kernel
run-AllDisjoint_example = run-AllDisjoint calls start finish start-AllDisjoint run_ends

start-Disjoint : Disjoint (vmas_of start.kernel)
unfolding vmas_of new_leader boot_tables current_process current_thread process_of new_leader_thread
    replicate
start-Disjoint = empty_regions-Disjoint

-- A mapping of a file whose descriptor is not open.
mmap_impl-MmapOutcome_example : MmapOutcome start 0x1800 3 2 (mmap_impl 0 0x1800 3 2 9 0 start)
mmap_impl-MmapOutcome_example =
    mmap_impl-MmapOutcome 0 0x1800 3 2 9 0 start (omega arith) start-Disjoint
