-- ===== src/Mm/Reserve.antt =====
-- What `mmap_impl` does to the regions of the current process.
use core_os.Base.{
  ℕ, zero, suc, ◌+◌, ◌*◌, ◌/◌, ◌%◌, ◌^◌, ◌<◌, ◌≡◌, ◌≢◌, refl, sym, ap, ◌∙◌, true, false, not, ◌&&◌,
  List, [], ◌∷◌, Option, none, some, arith, get_or, set, length, ltb, ◌==◌, ◌⊎◌, inl, inr,
  Bool-cases, ℕ_discrete, ==_iff, get_or-set, Option-cases,
}
use core_os.Proc.State.{VmRegion, empty_region, new_region}
use core_os.Proc.Process.{Kernel, Process, current_process, put_process, process_of}
use core_os.Proc.Placed.{current_process-Current, put_process-Placed, stored-in_range}
use core_os.Proc.Owners.{SameOwners-refl}
use core_os.Mm.{
  overlaps, conflicts, place_vma, find_exact, region_conflicts, put_vmas, alloc_vma, find_vma_exact,
  put_vma, reserve_mmap_base, round_up,
}
use core_os.Mm.Calls.{out_of_frames, has, map_fixed, grow_pages, mmap_start, clear_vma}
use core_os.Mm.Regions.{
  Disjoint, region_at, conflicts-overlaps, PlacedAt, place_vma-PlacedAt, find_exact-Exact,
}

-- The regions of the current process.
unfoldable pub vmas_of : Kernel → List VmRegion
vmas_of k = elim (current_process k) [ none ↦ [] | some p ↦ p.vmas ]

current_process-put_process :
    (k : Kernel) (p q : Process)
    → current_process k ≡ some p
    → current_process (put_process k q) ≡ some q
unfolding current_process process_of
current_process-put_process k p q h =
    let at = current_process-Current k p h in
    let placed = put_process-Placed at.thread q at.here (SameOwners-refl k) in
    let size = stored-in_range k.processes at.thread.group_slot p at.stored in
    ap (process_of (put_process k q)) placed.here
    ∙ ap (λ (ps : List (Option Process)). get_or ps at.thread.group_slot none) placed.processes
    ∙ ground (
      arith,
      get_or-set k.processes at.thread.group_slot at.thread.group_slot (some q) none,
      size,
    )

pub vmas_of-put_process :
    (k : Kernel) (p q : Process) → current_process k ≡ some p → vmas_of (put_process k q) ≡ q.vmas
unfolding vmas_of
vmas_of-put_process k p q h = rw (vmas_of, current_process-put_process k p q h) refl

find_exact-none :
    (start len i : ℕ) (vs : List VmRegion)
    → find_exact start len i vs ≡ none
    → (j : ℕ) → (region_at vs j).in_use ≡ true
    → (region_at vs j).start ≡ start
    → (region_at vs j).len ≢ len
unfolding find_exact
find_exact-none start len i [] h j used at_start at_len = absurd (cc used)
find_exact-none start len i (v ∷ vs) h zero used at_start at_len =
    absurd (ground (arith, h, used, (==_iff v.start start).1 at_start, (==_iff v.len len).1 at_len))
find_exact-none start len i (v ∷ vs) h (suc j) used at_start at_len =
    find_exact-none start len (suc i) vs (ground (arith, h)) j used at_start at_len

set-set_back :
    (vs : List VmRegion) (i : ℕ) (r : VmRegion)
    → i < length vs
    → region_at vs i ≡ empty_region
    → set (set vs i r) i empty_region ≡ vs
set-set_back [] i r l e = absurd (omega arith)
set-set_back (v ∷ vs) zero r l e = ap (λ w. w ∷ vs) (sym e)
set-set_back (v ∷ vs) (suc i) r l e = ap (◌∷◌ v) (set-set_back vs i r (omega arith) e)

-- A new region is the only one of its start and length.
find_exact-PlacedAt :
    (start len prot flags : ℕ) (vs ws : List VmRegion)
    → conflicts start len vs ≡ false
    → overlaps start len start len ≡ true
    → (p : PlacedAt (new_region start len prot flags) vs ws) → find_exact start len 0 ws ≡ some p.at
find_exact-PlacedAt start len prot flags vs ws free own p =
    elim (Option-cases (find_exact start len 0 ws)) [
      | inl e ↦ absurd (
          find_exact-none start len 0 ws e p.at (ap (λ (v : VmRegion). v.in_use) here)
            (ap (λ (v : VmRegion). v.start) here) (ap (λ (v : VmRegion). v.len) here))
      | inr (j, e) ↦
          (let x = find_exact-Exact start len 0 ws j e in
            elim (ℕ_discrete x.offset p.at) [
              | yes same ↦ e ∙ ap some (omega (arith, x.place, same))
              | no ne ↦
                  (let old : region_at ws x.offset ≡ region_at vs x.offset = there x.offset ne in
                    absurd (
                      cc (
                        own,
                        conflicts-overlaps start len vs free x.offset
                            (ap (λ (v : VmRegion). v.in_use) (sym old) ∙ x.used),
                        old,
                        x.start_is,
                        x.len_is,
                      )))
            ])
    ]
  where
    here : region_at ws p.at ≡ new_region start len prot flags
    here =
        ap (λ vs. region_at vs p.at) p.is
        ∙ ground (
          arith,
          get_or-set vs p.at p.at (new_region start len prot flags) empty_region,
          p.inside,
        )

    there : (i : ℕ) → i ≢ p.at → region_at ws i ≡ region_at vs i
    there i ne =
        ap (λ vs. region_at vs i) p.is
        ∙ ground (arith, get_or-set vs p.at i (new_region start len prot flags) empty_region, ne)

-- The table of regions once a region is reserved, and the address that was free before.
pub record Reserved (k : Kernel) (start len prot flags : ℕ) (k1 : Kernel) : Type 0 where
  pub placed : PlacedAt (new_region start len prot flags) (vmas_of k) (vmas_of k1)
  pub free : conflicts start len (vmas_of k) ≡ false
  pub page : start % 4096 ≡ 0
  pub fits : start < 2 ^ 64

pub grow_pages-out :
    (fill : ℕ → _) (pml4 start n i : ℕ) (flags : _) (s : _) (j : ℕ) (s1 : _)
    → grow_pages fill pml4 start n i flags s ≡ out_of_frames j s1
    → 0 < n
unfolding grow_pages
grow_pages-out fill pml4 start zero i flags s j s1 h = absurd (cc h)
grow_pages-out fill pml4 start (suc n) i flags s j s1 h = omega arith

pub alloc_vma-vmas_of :
    (k : Kernel) (start len prot flags : ℕ)
    → region_conflicts k start len ≡ false
    → ((alloc_vma k start len prot flags).0 ≡ true)
        × PlacedAt
            (new_region start len prot flags)
            (vmas_of k)
            (vmas_of (alloc_vma k start len prot flags).1)
        × (conflicts start len (vmas_of k) ≡ false)
        × ((p : Process) × (current_process (alloc_vma k start len prot flags).1 ≡ some p))
      ⊎ ((alloc_vma k start len prot flags).0 ≡ false)
unfolding alloc_vma region_conflicts put_vmas vmas_of
alloc_vma-vmas_of k start len prot flags free = elim (Option-cases (current_process k)) [
  | inl e ↦ absurd (ground (arith, free, e))
  | inr (p, e) ↦ elim (Option-cases (place_vma (new_region start len prot flags) p.vmas)) [
    | inl full ↦ inr (rw (alloc_vma, e, full) refl)
    | inr (ws, placed) ↦
        (let at = place_vma-PlacedAt (new_region start len prot flags) p.vmas ws placed in
          let q = record p { vmas = ws } in
          let now = current_process-put_process k p q e in
          inl (
            rw (alloc_vma, e, placed) refl,
            rw (alloc_vma, vmas_of, e, placed, now) at,
            rw (vmas_of, e) (rw (region_conflicts, e) at free),
            (q, rw (alloc_vma, e, placed) now),
          ))
  ]
]

own_overlap :
    (start len : ℕ)
    → start % 4096 ≡ 0
    → start < 2 ^ 64
    → 0 < len
    → overlaps start len start len ≡ true
unfolding overlaps
own_overlap start len a b c = ground arith

-- Giving the region back leaves the table as it was before.
pub clear_vma-Reserved :
    (k k1 : Kernel) (start len prot flags : ℕ) (p : Process)
    → Disjoint (vmas_of k)
    → Reserved k start len prot flags k1
    → current_process k1 ≡ some p
    → 0 < len
    → vmas_of (clear_vma k1 (find_vma_exact k1 start len)) ≡ vmas_of k
unfolding clear_vma put_vma put_vmas find_vma_exact vmas_of
clear_vma-Reserved k k1 start len prot flags p d r e some_len =
    let regions : vmas_of k1 ≡ p.vmas = rw (vmas_of, e) refl in
    let hit : find_vma_exact k1 start len ≡ some r.placed.at =
      rw (find_vma_exact, e)
        (ap (find_exact start len 0) (sym regions)
          ∙ find_exact-PlacedAt start len prot flags (vmas_of k) (vmas_of k1) r.free
              (own_overlap start len r.page r.fits some_len) r.placed) in
    let ws : p.vmas ≡ set (vmas_of k) r.placed.at (new_region start len prot flags) =
      sym regions ∙ r.placed.is in
    rw (hit, clear_vma, put_vma, e)
      (vmas_of-put_process k1 p _ e
        ∙ ap (λ vs. set vs r.placed.at empty_region) ws
        ∙ set-set_back (vmas_of k) r.placed.at (new_region start len prot flags) r.placed.inside
            (d.spare r.placed.at r.placed.free))

pub mmap_start-vmas_of :
    (k k1 : Kernel) (addr len flags start : ℕ)
    → addr < 2 ^ 64
    → mmap_start k addr len flags ≡ some (start, k1)
    → (vmas_of k1 ≡ vmas_of k) × (start % 4096 ≡ 0) × (start < 2 ^ 64)
unfolding mmap_start reserve_mmap_base round_up vmas_of
mmap_start-vmas_of k k1 addr len flags start l h = elim (Bool-cases (addr == 0)) [
  | inr fixed ↦
      elim (Bool-cases (has flags map_fixed && not (region_conflicts k (addr / 4096 * 4096) len))) [
        | inr bad ↦ absurd (ground (arith, h, fixed, bad))
        | inl good ↦
            (let made : some (addr / 4096 * 4096, k) ≡ some (start, k1) =
                rw (mmap_start, fixed, good) at h in
              let same : k ≡ k1 = cc made in
              let place : addr / 4096 * 4096 ≡ start = cc made in
              (ap vmas_of (sym same), omega (arith, place), omega (arith, place)))
      ]
  | inl any ↦ elim (Option-cases (current_process k)) [
    | inl e ↦ absurd (ground (arith, h, any, e))
    | inr (p, e) ↦
        (let base = round_up p.next_mmap_base in
          let moved = put_process k (record p { next_mmap_base = base + len }) in
          elim (Bool-cases (ltb (base + len) (2 ^ 64))) [
            | inr past ↦ absurd (ground (arith, h, any, e, past))
            | inl fits ↦
                (let made : some (base, moved) ≡ some (start, k1) =
                    rw (mmap_start, reserve_mmap_base, any, e, fits) at h in
                  let same : moved ≡ k1 = cc made in
                  let place : base ≡ start = cc made in
                  let small : base + len < 2 ^ 64 = ground (arith, fits) in
                  (
                    ap vmas_of (sym same) ∙ vmas_of-put_process k p _ e ∙ rw (vmas_of, e) refl,
                    omega (arith, place),
                    omega (arith, place, small),
                  ))
          ])
  ]
]
