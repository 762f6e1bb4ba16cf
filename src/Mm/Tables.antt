-- ===== src/Mm/Tables.antt =====
-- The operations of kernel/src/proc/vm.rs keep the regions of every process disjoint.
use core_os.Base.{
  ℕ, ◌+◌, ◌^◌, ◌≡◌, ap, ◌∙◌, true, false, Option, none, some, arith, ltb, inl, inr, Bool-cases,
  Option-cases,
}
use core_os.Proc.State.{new_region}
use core_os.Proc.Process.{Kernel, current_process, put_process}
use core_os.Mm.{
  conflicts, place_vma, region_conflicts, put_vmas, alloc_vma, find_vma_exact, put_vma,
  reserve_mmap_base, set_brk, round_up,
}
use core_os.Mm.Calls.{clear_vma}
use core_os.Mm.Regions.{
  AllDisjoint, region_at, current-Disjoint, put_process-AllDisjoint, place_vma-Disjoint,
  clear-Disjoint, protect-Disjoint, find_exact-Exact,
}

pub alloc_vma-AllDisjoint :
    (k : Kernel) (start len prot flags : ℕ)
    → AllDisjoint k
    → region_conflicts k start len ≡ false
    → AllDisjoint (alloc_vma k start len prot flags).1
unfolding alloc_vma region_conflicts put_vmas
alloc_vma-AllDisjoint k start len prot flags all free = elim (Option-cases (current_process k)) [
  | inl e ↦ rw (alloc_vma, e) all
  | inr (p, e) ↦ elim (Option-cases (place_vma (new_region start len prot flags) p.vmas)) [
    | inl full ↦ rw (alloc_vma, e, full) all
    | inr (ws, placed) ↦
        (let no_conflict : conflicts start len p.vmas ≡ false = rw (region_conflicts, e) at free in
          rw (alloc_vma, e, placed)
            (put_process-AllDisjoint k p (record p { vmas = ws }) all e
              (place_vma-Disjoint start len prot flags p.vmas ws (current-Disjoint k p all e)
                no_conflict placed)))
  ]
]

pub clear_vma-AllDisjoint :
    (k : Kernel) (i : Option ℕ) → AllDisjoint k → AllDisjoint (clear_vma k i)
unfolding clear_vma put_vma put_vmas
clear_vma-AllDisjoint k none all = all
clear_vma-AllDisjoint k (some i) all = elim (Option-cases (current_process k)) [
  | inl e ↦ rw (put_vma, e) all
  | inr (p, e) ↦
      rw (put_vma, e)
        (put_process-AllDisjoint k p _ all e (clear-Disjoint p.vmas i (current-Disjoint k p all e)))
]

pub protect_vma-AllDisjoint :
    (k : Kernel) (start len i prot : ℕ)
    → AllDisjoint k
    → find_vma_exact k start len ≡ some i
    → AllDisjoint (put_vma k i (λ vma. record vma { prot = prot }))
unfolding put_vma put_vmas find_vma_exact
protect_vma-AllDisjoint k start len i prot all h = elim (Option-cases (current_process k)) [
  | inl e ↦ rw (put_vma, e) all
  | inr (p, e) ↦
      (let hit = find_exact-Exact start len 0 p.vmas i (rw (find_vma_exact, e) at h) in
        let place : i ≡ hit.offset = omega (arith, hit.place) in
        let used : (region_at p.vmas i).in_use ≡ true =
          ap (λ j. (region_at p.vmas j).in_use) place ∙ hit.used in
        rw (put_vma, e)
          (put_process-AllDisjoint k p _ all e
            (protect-Disjoint p.vmas i prot (current-Disjoint k p all e) used)))
]

pub set_brk-AllDisjoint : (k : Kernel) (b : ℕ) → AllDisjoint k → AllDisjoint (set_brk k b)
unfolding set_brk
set_brk-AllDisjoint k b all = elim (Option-cases (current_process k)) [
  | inl e ↦ rw (set_brk, e) all
  | inr (p, e) ↦ rw (set_brk, e) (put_process-AllDisjoint k p _ all e (current-Disjoint k p all e))
]

pub reserve_mmap_base-AllDisjoint :
    (k k1 : Kernel) (len start : ℕ)
    → AllDisjoint k
    → reserve_mmap_base k len ≡ some (start, k1)
    → AllDisjoint k1
unfolding reserve_mmap_base
reserve_mmap_base-AllDisjoint k k1 len start all h = elim (Option-cases (current_process k)) [
  | inl e ↦ absurd (ground (arith, h, e))
  | inr (p, e) ↦
      (let base = round_up p.next_mmap_base in
        let moved = put_process k (record p { next_mmap_base = base + len }) in
        elim (Bool-cases (ltb (base + len) (2 ^ 64))) [
          | inr past ↦ absurd (ground (arith, h, e, past))
          | inl fits ↦
              (let made : some (base, moved) ≡ some (start, k1) =
                  rw (reserve_mmap_base, e, fits) at h in
                let same : moved ≡ k1 = cc made in
                rw (← same) (put_process-AllDisjoint k p _ all e (current-Disjoint k p all e)))
        ])
]
