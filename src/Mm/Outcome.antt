-- ===== src/Mm/Outcome.antt =====
-- Every answer of `mmap_impl`, and the regions after it.
use core_os.Base.{
  ℕ, ◌/◌, ◌%◌, ◌^◌, ◌<◌, ◌≡◌, refl, false, List, Option, none, some, arith, inl, inr, Bool-cases,
  Option-cases,
}
use core_os.Proc.Process.{Kernel, Process, current_process}
use core_os.Mm.{
  region_conflicts, alloc_vma, find_vma_exact, round_up, SysError, bad_fd, invalid, no_mem, ok, err,
}
use core_os.Mm.Calls.{
  Vm, Answer, Pages, panics, out_of_frames, done, has, map_anonymous, map_flags_from_prot,
  current_pml4, grow_pages, fill_page, check_mmap, mmap_start, file_seed, unmap_pages, clear_vma,
  mmap_pages, mmap_at, mmap_impl,
}
use core_os.Mm.Regions.{Disjoint}
use core_os.Mm.Reserve.{
  vmas_of, Reserved, clear_vma-Reserved, grow_pages-out, alloc_vma-vmas_of, mmap_start-vmas_of,
}

-- What a call of `mmap_impl` does to the regions: nothing when it fails, unless the descriptor of a
-- mapping of a file turns out bad after the region was reserved.
pub data MmapOutcome (v : Vm) (len prot flags : ℕ) : Answer → Type 0 where
  panicked : MmapOutcome v len prot flags none
  refused :
      (e : SysError) (v1 : Vm)
      → vmas_of v1.kernel ≡ vmas_of v.kernel
      → MmapOutcome v len prot flags (some (err e, v1))
  bad_file :
      (start : ℕ) (v1 : Vm)
      → has flags map_anonymous ≡ false
      → Reserved v.kernel start (round_up len) prot flags v1.kernel
      → MmapOutcome v len prot flags (some (err bad_fd, v1))
  mapped :
      (start : ℕ) (v1 : Vm)
      → Reserved v.kernel start (round_up len) prot flags v1.kernel
      → MmapOutcome v len prot flags (some (ok start, v1))

mmap_pages-MmapOutcome :
    (v v1 : Vm) (start len prot prot1 flags : ℕ) (seed : Option (List ℕ)) (p : Process)
    → Disjoint (vmas_of v.kernel)
    → Reserved v.kernel start (round_up len) prot flags v1.kernel
    → current_process v1.kernel ≡ some p
    → MmapOutcome v len prot flags (mmap_pages v1 start (round_up len) prot1 seed)
unfolding mmap_pages
mmap_pages-MmapOutcome v v1 start len prot prot1 flags seed p d r e =
    go (grow_pages _ _ start (round_up len / 4096) 0 (map_flags_from_prot prot1) v1.machine) refl
  where
    go :
        (x : Pages)
        → grow_pages
            (fill_page (current_pml4 v1) start seed)
            (current_pml4 v1)
            start
            (round_up len / 4096)
            0
            (map_flags_from_prot prot1)
            v1.machine
          ≡ x
        → MmapOutcome v len prot flags (elim x [
          | panics ↦ none
          | out_of_frames i s ↦ some (
            err no_mem,
            record v1 {
              kernel = clear_vma v1.kernel (find_vma_exact v1.kernel start (round_up len));
              machine = unmap_pages (current_pml4 v1) start i 0 s;
            },
          )
          | done s ↦ some (ok start, record v1 { machine = s })
        ])
    go panics h = panicked
    go (out_of_frames i s) h = refused no_mem _ (
        clear_vma-Reserved v.kernel v1.kernel start (round_up len) prot flags p d r e
          (omega (arith, grow_pages-out _ _ start (round_up len / 4096) 0 _ v1.machine i s h)))
    go (done s) h = mapped start _ r

mmap_at-MmapOutcome :
    (v : Vm) (k : Kernel) (start len prot flags fd off : ℕ)
    → Disjoint (vmas_of v.kernel)
    → vmas_of k ≡ vmas_of v.kernel
    → start % 4096 ≡ 0
    → start < 2 ^ 64
    → MmapOutcome v len prot flags
        (mmap_at (record v { kernel = k }) start (round_up len) prot flags fd off)
unfolding mmap_at file_seed
mmap_at-MmapOutcome v k start len prot flags fd off d same page small =
    elim (Bool-cases (region_conflicts k start (round_up len))) [
      | inl taken ↦ rw (mmap_at, taken) (refused invalid _ same)
      | inr free ↦ elim (alloc_vma-vmas_of k start (round_up len) prot flags free) [
        | inr full ↦ rw (mmap_at, free, full) (refused invalid _ same)
        | inl (placed, at, clear, (p, now)) ↦
            (let after = (alloc_vma k start (round_up len) prot flags).1 in
              let r : Reserved v.kernel start (round_up len) prot flags after = record {
                placed = rw (← same) at;
                free = rw (← same) clear;
                page = page;
                fits = small;
              } in
              rw (mmap_at, free, placed) (go after p r now))
      ]
    ]
  where
    go :
        (after : Kernel) (p : Process)
        → Reserved v.kernel start (round_up len) prot flags after
        → current_process after ≡ some p
        → MmapOutcome v len prot flags
            (elim (file_seed
              (record v { kernel = after })
              (has flags map_anonymous)
              fd
              off
              (round_up len)) [
                | none ↦ some (err bad_fd, record v { kernel = after })
                | some seed ↦
                    mmap_pages (record v { kernel = after }) start (round_up len) prot seed
              ])
    go after p r now = elim (Bool-cases (has flags map_anonymous)) [
      | inl anonymous ↦
          rw (anonymous, file_seed)
            (mmap_pages-MmapOutcome v (record v { kernel = after }) start len prot prot flags none p
              d r now)
      | inr of_file ↦
          elim (Option-cases (
            file_seed (record v { kernel = after }) (has flags map_anonymous) fd off
              (round_up len))) [
                | inl bad ↦ rw bad (bad_file start _ of_file r)
                | inr (seed, good) ↦ rw good (
                    mmap_pages-MmapOutcome v (record v { kernel = after }) start len prot prot flags
                      seed p d r now)
              ]
    ]

-- For an address below 2 ^ 64 and regions of the current process that do not overlap and whose
-- unused slots are empty, every answer of mmap_impl is of one of these kinds: a failure that
-- leaves the table of regions as it was, success with exactly one new region of the rounded length
-- at a multiple of 4096 that overlaps no region in use, or the failure with a bad descriptor of a
-- mapping that is not anonymous, which leaves such a new region behind.
pub mmap_impl-MmapOutcome :
    (addr len prot flags fd off : ℕ) (v : Vm)
    → addr < 2 ^ 64
    → Disjoint (vmas_of v.kernel)
    → MmapOutcome v len prot flags (mmap_impl addr len prot flags fd off v)
unfolding mmap_impl
mmap_impl-MmapOutcome addr len prot flags fd off v l d =
    elim (Option-cases (check_mmap len flags fd off)) [
      | inr (e, bad) ↦ rw (mmap_impl, bad) (refused e v refl)
      | inl good ↦ elim (Option-cases (mmap_start v.kernel addr (round_up len) flags)) [
        | inl nowhere ↦ rw (mmap_impl, good, nowhere) (refused invalid v refl)
        | inr ((start, k), somewhere) ↦
            (let s = mmap_start-vmas_of v.kernel k addr (round_up len) flags start l somewhere in
              rw (mmap_impl, good, somewhere)
                (mmap_at-MmapOutcome v k start len prot flags fd off d s.0 s.1 s.2))
      ]
    ]
