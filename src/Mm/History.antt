-- ===== src/Mm/History.antt =====
-- Histories of the memory calls keep the regions of every process disjoint.
use core_os.Base.{
  ℕ, ◌%◌, ◌^◌, ◌/◌, ◌*◌, ◌≡◌, not, ◌||◌, ◌&&◌, List, [], ◌∷◌, Option, none, some, arith, ◌==◌, leb,
  inl, inr, Bool-cases, Option-cases,
}
use core_os.Proc.Process.{Kernel}
use core_os.Mm.{
  region_conflicts, alloc_vma, find_vma_exact, round_up, current_brk, set_brk, bad_fd, invalid,
  no_mem, SysResult, ok, err,
}
use core_os.Mm.Calls.{
  Vm, Answer, Pages, panics, out_of_frames, done, has, map_fixed, map_anonymous,
  map_flags_from_prot, current_pml4, grow_pages, brk_flags, brk_impl, check_mmap, mmap_start,
  file_seed, unmap_pages, clear_vma, mmap_pages, mmap_at, mmap_impl, munmap_impl, protect_pages,
  mprotect_impl,
}
use core_os.Mm.Regions.{AllDisjoint}
use core_os.Mm.Tables.{
  alloc_vma-AllDisjoint, clear_vma-AllDisjoint, protect_vma-AllDisjoint, set_brk-AllDisjoint,
  reserve_mmap_base-AllDisjoint,
}

-- A call with an answer leaves the regions disjoint.
pub data Sound : Answer → Type 0 where
  no_answer : Sound none
  answered : (r : SysResult) (v : Vm) → AllDisjoint v.kernel → Sound (some (r, v))

brk_impl-Sound : (addr : ℕ) (v : Vm) → AllDisjoint v.kernel → Sound (brk_impl addr v)
unfolding brk_impl
brk_impl-Sound addr v all = elim (Bool-cases (addr == 0)) [
  | inl zero_addr ↦ rw (brk_impl, zero_addr) (answered _ _ all)
  | inr some_addr ↦ elim (Bool-cases (leb addr (current_brk v.kernel))) [
    | inl down ↦
        rw (brk_impl, some_addr, down) (answered _ _ (set_brk-AllDisjoint v.kernel addr all))
    | inr up ↦ rw (brk_impl, some_addr, up) (grown (grow_pages _ _ _ _ 0 brk_flags v.machine))
  ]
]
  where
    grown :
        (r : Pages)
        → Sound (elim r [
          | panics ↦ none
          | out_of_frames i s ↦ some (ok (current_brk v.kernel), record v { machine = s })
          | done s ↦ some (ok addr, record v { kernel = set_brk v.kernel addr; machine = s })
        ])
    grown panics = no_answer
    grown (out_of_frames i s) = answered _ _ all
    grown (done s) = answered _ _ (set_brk-AllDisjoint v.kernel addr all)

mmap_pages-Sound :
    (v : Vm) (start len prot : ℕ) (seed : Option (List ℕ))
    → AllDisjoint v.kernel
    → Sound (mmap_pages v start len prot seed)
unfolding mmap_pages
mmap_pages-Sound v start len prot seed all =
    go (grow_pages _ _ start (len / 4096) 0 (map_flags_from_prot prot) v.machine)
  where
    go :
        (r : Pages)
        → Sound (elim r [
          | panics ↦ none
          | out_of_frames i s ↦ some (
            err no_mem,
            record v {
              kernel = clear_vma v.kernel (find_vma_exact v.kernel start len);
              machine = unmap_pages (current_pml4 v) start i 0 s;
            },
          )
          | done s ↦ some (ok start, record v { machine = s })
        ])
    go panics = no_answer
    go (out_of_frames i s) = answered _ _ (clear_vma-AllDisjoint v.kernel _ all)
    go (done s) = answered _ _ all

mmap_at-Sound :
    (v : Vm) (start len prot flags fd off : ℕ)
    → AllDisjoint v.kernel
    → Sound (mmap_at v start len prot flags fd off)
unfolding mmap_at
mmap_at-Sound v start len prot flags fd off all =
    elim (Bool-cases (region_conflicts v.kernel start len)) [
      | inl taken ↦ rw (mmap_at, taken) (answered _ _ all)
      | inr free ↦
          (let after = alloc_vma-AllDisjoint v.kernel start len prot flags all free in
            elim (Bool-cases (alloc_vma v.kernel start len prot flags).0) [
              | inr full ↦ rw (mmap_at, free, full) (answered _ _ all)
              | inl placed ↦
                  rw (mmap_at, free, placed)
                    (go after (file_seed _ (has flags map_anonymous) fd off len))
            ])
    ]
  where
    go :
        AllDisjoint (alloc_vma v.kernel start len prot flags).1
        → (seed : Option (Option (List ℕ)))
        → Sound (elim seed [
          | none ↦
              some (err bad_fd, record v { kernel = (alloc_vma v.kernel start len prot flags).1 })
          | some seed ↦
              mmap_pages
                (record v { kernel = (alloc_vma v.kernel start len prot flags).1 })
                start
                len
                prot
                seed
        ])
    go after none = answered _ _ after
    go after (some seed) = mmap_pages-Sound _ start len prot seed after

mmap_start-AllDisjoint :
    (k k1 : Kernel) (addr len flags start : ℕ)
    → AllDisjoint k
    → mmap_start k addr len flags ≡ some (start, k1)
    → AllDisjoint k1
unfolding mmap_start
mmap_start-AllDisjoint k k1 addr len flags start all h = elim (Bool-cases (addr == 0)) [
  | inl any ↦ reserve_mmap_base-AllDisjoint k k1 len start all (rw (mmap_start, any) at h)
  | inr fixed ↦
      elim (Bool-cases (has flags map_fixed && not (region_conflicts k (addr / 4096 * 4096) len))) [
        | inr bad ↦ absurd (ground (arith, h, fixed, bad))
        | inl good ↦
            (let made : some (addr / 4096 * 4096, k) ≡ some (start, k1) =
                rw (mmap_start, fixed, good) at h in
              let same : k ≡ k1 = cc made in rw (← same) all)
      ]
]

mmap_impl-Sound :
    (addr len prot flags fd off : ℕ) (v : Vm)
    → AllDisjoint v.kernel
    → Sound (mmap_impl addr len prot flags fd off v)
unfolding mmap_impl
mmap_impl-Sound addr len prot flags fd off v all =
    elim (Option-cases (check_mmap len flags fd off)) [
      | inr (e, bad) ↦ rw (mmap_impl, bad) (answered _ _ all)
      | inl good ↦ elim (Option-cases (mmap_start v.kernel addr (round_up len) flags)) [
        | inl nowhere ↦ rw (mmap_impl, good, nowhere) (answered _ _ all)
        | inr ((start, k), somewhere) ↦
            rw (mmap_impl, good, somewhere)
              (mmap_at-Sound (record v { kernel = k }) start (round_up len) prot flags fd off
                (mmap_start-AllDisjoint v.kernel k addr (round_up len) flags start all somewhere))
      ]
    ]

munmap_impl-Sound : (addr len : ℕ) (v : Vm) → AllDisjoint v.kernel → Sound (munmap_impl addr len v)
unfolding munmap_impl
munmap_impl-Sound addr len v all = elim (Bool-cases (addr == 0 || len == 0)) [
  | inl bad ↦ rw (munmap_impl, bad) (answered _ _ all)
  | inr good ↦
      rw (munmap_impl, good) (go (find_vma_exact v.kernel (addr / 4096 * 4096) (round_up len)))
]
  where
    go :
        (r : Option ℕ)
        → Sound (elim r [
          | none ↦ some (err invalid, v)
          | some i ↦ some (
            ok 0,
            record v {
              kernel = clear_vma v.kernel (some i);
              machine =
                  unmap_pages
                    (current_pml4 v)
                    (addr / 4096 * 4096)
                    (round_up len / 4096)
                    0
                    v.machine;
            },
          )
        ])
    go none = answered _ _ all
    go (some i) = answered _ _ (clear_vma-AllDisjoint v.kernel (some i) all)

mprotect_impl-Sound :
    (addr len prot : ℕ) (v : Vm) → AllDisjoint v.kernel → Sound (mprotect_impl addr len prot v)
unfolding mprotect_impl
mprotect_impl-Sound addr len prot v all = elim (Bool-cases (addr == 0 || len == 0)) [
  | inl bad ↦ rw (mprotect_impl, bad) (answered _ _ all)
  | inr good ↦ elim (Option-cases (find_vma_exact v.kernel (addr / 4096 * 4096) (round_up len))) [
    | inl e ↦ rw (mprotect_impl, good, e) (answered _ _ all)
    | inr (i, e) ↦
        (let r =
            protect_pages (current_pml4 v) (addr / 4096 * 4096) (round_up len / 4096) 0
              (map_flags_from_prot (prot % 2 ^ 32)) v.machine.mem in
          elim (Bool-cases r.0) [
            | inl whole ↦
                rw (mprotect_impl, good, e, whole)
                  (answered _ _ (protect_vma-AllDisjoint v.kernel _ _ i (prot % 2 ^ 32) all e))
            | inr broken ↦ rw (mprotect_impl, good, e, broken) (answered _ _ all)
          ])
  ]
]

-- The calls with their arguments, and a switch to the thread of another slot.
pub data Call : Type 0 where
  brk : ℕ → Call
  mmap : ℕ → ℕ → ℕ → ℕ → ℕ → ℕ → Call
  munmap : ℕ → ℕ → Call
  mprotect : ℕ → ℕ → ℕ → Call
  switch : ℕ → Call

unfoldable pub call : Call → Vm → Answer
call (brk addr) v = brk_impl addr v
call (mmap addr len prot flags fd off) v = mmap_impl addr len prot flags fd off v
call (munmap addr len) v = munmap_impl addr len v
call (mprotect addr len prot) v = mprotect_impl addr len prot v
call (switch slot) v = some (ok 0, record v { kernel = record v.kernel { current = slot } })

unfoldable pub run : List Call → Vm → Option Vm
run [] v = some v
run (c ∷ cs) v = elim (call c v) [ none ↦ none | some (r, v1) ↦ run cs v1 ]

call-Sound : (c : Call) (v : Vm) → AllDisjoint v.kernel → Sound (call c v)
unfolding call
call-Sound (brk addr) v all = brk_impl-Sound addr v all
call-Sound (mmap addr len prot flags fd off) v all =
    mmap_impl-Sound addr len prot flags fd off v all
call-Sound (munmap addr len) v all = munmap_impl-Sound addr len v all
call-Sound (mprotect addr len prot) v all = mprotect_impl-Sound addr len prot v all
call-Sound (switch slot) v all = answered _ _ all

-- When no two regions in use of any process overlap and every unused slot is empty, this still
-- holds after every sequence of brk, mmap, munmap and mprotect, with failures, and of switches
-- between threads, that does not panic.
pub run-AllDisjoint :
    (cs : List Call) (v v1 : Vm) → AllDisjoint v.kernel → run cs v ≡ some v1 → AllDisjoint v1.kernel
unfolding run
run-AllDisjoint [] v v1 all h = let same : v ≡ v1 = cc h in rw (← same) all
run-AllDisjoint (c ∷ cs) v v1 all h =
    go (λ w after e. run-AllDisjoint cs w v1 after e) (call-Sound c v all) h
  where
    go :
        {r : Answer}
        → ((w : Vm) → AllDisjoint w.kernel → run cs w ≡ some v1 → AllDisjoint v1.kernel)
        → Sound r
        → elim r [ none ↦ none | some (r, v1) ↦ run cs v1 ] ≡ some v1
        → AllDisjoint v1.kernel
    go rest no_answer e = absurd (cc e)
    go rest (answered r w after) e = rest w after e
