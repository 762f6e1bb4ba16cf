-- ===== src/Mm/Regions.antt =====
-- The table of regions: no two regions in use overlap, and a slot that is not in use is empty.
use core_os.Base.{
  ℕ, zero, suc, ◌+◌, ◌≤◌, ◌<◌, ◌≡◌, ◌≢◌, refl, sym, ap, ◌∙◌, true, false, ◌&&◌, List, [], ◌∷◌,
  Option, none, some, arith, get_or, set, length, ◌==◌, inl, inr, Bool-cases, ℕ_discrete,
  get_or-set, Option-cases, dec_lt,
}
use core_os.Proc.State.{VmRegion, empty_region, new_region}
use core_os.Proc.Process.{Kernel, Process, current_process, put_process}
use core_os.Proc.Placed.{current_process-Current, put_process-Placed, stored-in_range}
use core_os.Proc.Owners.{SameOwners-refl}
use core_os.Mm.{overlaps, conflicts, place_vma, find_exact}

abbrev pub region_at : List VmRegion → ℕ → VmRegion
region_at vs i = get_or vs i empty_region

pub record Disjoint (vs : List VmRegion) : Type 0 where
  pub apart :
      (i j : ℕ)
      → i ≢ j
      → (region_at vs i).in_use ≡ true
      → (region_at vs j).in_use ≡ true
      → overlaps
          (region_at vs i).start
          (region_at vs i).len
          (region_at vs j).start
          (region_at vs j).len
        ≡ false
  pub spare : (i : ℕ) → (region_at vs i).in_use ≡ false → region_at vs i ≡ empty_region

overlaps_sym : (a b c d : ℕ) → overlaps a b c d ≡ overlaps c d a b
unfolding overlaps
overlaps_sym a b c d = ground arith

-- A region that conflicts with none overlaps none.
pub conflicts-overlaps :
    (start len : ℕ) (vs : List VmRegion)
    → conflicts start len vs ≡ false
    → (i : ℕ) → (region_at vs i).in_use ≡ true
    → overlaps start len (region_at vs i).start (region_at vs i).len ≡ false
unfolding conflicts
conflicts-overlaps start len [] h i used = absurd (cc used)
conflicts-overlaps start len (v ∷ vs) h zero used = ground (arith, h, used)
conflicts-overlaps start len (v ∷ vs) h (suc i) used =
    conflicts-overlaps start len vs (ground (arith, h)) i used

-- Where `place_vma` puts a region.
pub record PlacedAt (r : VmRegion) (vs ws : List VmRegion) : Type 0 where
  pub at : ℕ
  pub inside : at < length vs
  pub free : (region_at vs at).in_use ≡ false
  pub is : ws ≡ set vs at r

pub place_vma-PlacedAt :
    (r : VmRegion) (vs ws : List VmRegion) → place_vma r vs ≡ some ws → PlacedAt r vs ws
unfolding place_vma
place_vma-PlacedAt r [] ws h = absurd (cc h)
place_vma-PlacedAt r (v ∷ vs) ws h = elim (Bool-cases v.in_use) [
  | inr free ↦
      (let e : some (r ∷ vs) ≡ some ws = rw free at h in
        record { at = 0; inside = omega arith; free = free; is = cc e })
  | inl used ↦ elim (Option-cases (place_vma r vs)) [
    | inl full ↦ absurd (ground (arith, h, used, full))
    | inr (xs, e) ↦
        (let rest = place_vma-PlacedAt r vs xs e in
          let made : some (v ∷ xs) ≡ some ws = (rw (used, e) at h) in
          record {
            at = suc rest.at;
            inside = omega (arith, rest.inside);
            free = rest.free;
            is = cc (made, rest.is);
          })
  ]
]

-- The region that `find_exact` finds.
pub record Exact (start len i : ℕ) (vs : List VmRegion) (j : ℕ) : Type 0 where
  pub offset : ℕ
  pub place : j ≡ i + offset
  pub inside : offset < length vs
  pub used : (region_at vs offset).in_use ≡ true
  pub start_is : (region_at vs offset).start ≡ start
  pub len_is : (region_at vs offset).len ≡ len

some_inj : {i j : ℕ} → some i ≡ some j → i ≡ j
some_inj e = cc e

pub find_exact-Exact :
    (start len i : ℕ) (vs : List VmRegion) (j : ℕ)
    → find_exact start len i vs ≡ some j
    → Exact start len i vs j
unfolding find_exact
find_exact-Exact start len i [] j h = absurd (cc h)
find_exact-Exact start len i (v ∷ vs) j h =
    elim (Bool-cases (v.in_use && v.start == start && v.len == len)) [
      | inl hit ↦
          (let e : some i ≡ some j = rw hit at h in
            record {
              offset = 0;
              place = omega (arith, some_inj e);
              inside = omega arith;
              used = ground (arith, hit);
              start_is = ground (arith, hit);
              len_is = ground (arith, hit);
            })
      | inr miss ↦
          (let rest = find_exact-Exact start len (suc i) vs j (rw miss at h) in
            record {
              offset = suc rest.offset;
              place = omega (arith, rest.place);
              inside = omega (arith, rest.inside);
              used = rest.used;
              start_is = rest.start_is;
              len_is = rest.len_is;
            })
    ]

set_past : (vs : List VmRegion) (i : ℕ) (v : VmRegion) → length vs ≤ i → set vs i v ≡ vs
set_past [] i v l = refl
set_past (w ∷ vs) zero v l = absurd (omega arith)
set_past (w ∷ vs) (suc i) v l = ap (◌∷◌ w) (set_past vs i v (omega arith))

-- Setting a slot to a region that overlaps no other.
set-Disjoint :
    (vs : List VmRegion) (at : ℕ) (r : VmRegion)
    → Disjoint vs
    → at < length vs
    → (r.in_use ≡ false → r ≡ empty_region)
    → ((i : ℕ)
        → i ≢ at
        → (region_at vs i).in_use ≡ true
        → r.in_use ≡ true
        → overlaps r.start r.len (region_at vs i).start (region_at vs i).len ≡ false)
    → Disjoint (set vs at r)
set-Disjoint vs at r d l spare apart = record { apart = pairs; spare = unused }
  where
    here : (i : ℕ) → i ≡ at → region_at (set vs at r) i ≡ r
    here i e = ground (arith, get_or-set vs at i r empty_region, l, e)

    there : (i : ℕ) → i ≢ at → region_at (set vs at r) i ≡ region_at vs i
    there i ne = ground (arith, get_or-set vs at i r empty_region, ne)

    pairs :
        (i j : ℕ)
        → i ≢ j
        → (region_at (set vs at r) i).in_use ≡ true
        → (region_at (set vs at r) j).in_use ≡ true
        → overlaps
            (region_at (set vs at r) i).start
            (region_at (set vs at r) i).len
            (region_at (set vs at r) j).start
            (region_at (set vs at r) j).len
          ≡ false
    pairs i j ne = elim (ℕ_discrete i at) [
      | yes a ↦ elim (ℕ_discrete j at) [
        | yes b ↦ absurd (ne (a ∙ sym b))
        | no b ↦ rw (here i a, there j b) (λ u w. apart j b w u)
      ]
      | no a ↦ elim (ℕ_discrete j at) [
        | yes b ↦
            rw (there i a, here j b)
              (λ u w.
                overlaps_sym (region_at vs i).start (region_at vs i).len r.start r.len
                ∙ apart i a u w)
        | no b ↦ rw (there i a, there j b) (λ u w. d.apart i j ne u w)
      ]
    ]

    unused :
        (i : ℕ)
        → (region_at (set vs at r) i).in_use ≡ false
        → region_at (set vs at r) i ≡ empty_region
    unused i = elim (ℕ_discrete i at) [
      | yes a ↦ rw (here i a) spare
      | no a ↦ rw (there i a) (d.spare i)
    ]

-- A new region that conflicts with none, and a region that is emptied or keeps its place.
pub place_vma-Disjoint :
    (start len prot flags : ℕ) (vs ws : List VmRegion)
    → Disjoint vs
    → conflicts start len vs ≡ false
    → place_vma (new_region start len prot flags) vs ≡ some ws
    → Disjoint ws
place_vma-Disjoint start len prot flags vs ws d c h =
    let p = place_vma-PlacedAt (new_region start len prot flags) vs ws h in
    rw p.is (
      set-Disjoint vs p.at (new_region start len prot flags) d p.inside (λ e. absurd (cc e))
        (λ i ne u w. conflicts-overlaps start len vs c i u))

pub clear-Disjoint : (vs : List VmRegion) (i : ℕ) → Disjoint vs → Disjoint (set vs i empty_region)
clear-Disjoint vs i d = elim (dec_lt i (length vs)) [
  | yes l ↦ set-Disjoint vs i empty_region d l (λ e. refl) (λ j ne u w. absurd (cc w))
  | no far ↦ rw (set_past vs i empty_region (omega arith)) d
]

pub protect-Disjoint :
    (vs : List VmRegion) (i prot : ℕ)
    → Disjoint vs
    → (region_at vs i).in_use ≡ true
    → Disjoint (set vs i (record (region_at vs i) { prot = prot }))
protect-Disjoint vs i prot d used = elim (dec_lt i (length vs)) [
  | yes l ↦
      set-Disjoint vs i _ d l (λ e. absurd (cc (e, used)))
        (λ j ne u w. d.apart i j (λ e. ne (sym e)) used u)
  | no far ↦ rw (set_past vs i _ (omega arith)) d
]

-- The regions of every process are disjoint.
abbrev pub AllDisjoint : Kernel → Type 0
AllDisjoint k = (s : ℕ) (p : Process) → get_or k.processes s none ≡ some p → Disjoint p.vmas

pub current-Disjoint :
    (k : Kernel) (p : Process) → AllDisjoint k → current_process k ≡ some p → Disjoint p.vmas
current-Disjoint k p all h =
    let at = current_process-Current k p h in all at.thread.group_slot p at.stored

pub put_process-AllDisjoint :
    (k : Kernel) (p q : Process)
    → AllDisjoint k
    → current_process k ≡ some p
    → Disjoint q.vmas
    → AllDisjoint (put_process k q)
put_process-AllDisjoint k p q all h d s r stored =
    let at = current_process-Current k p h in
    let placed = put_process-Placed at.thread q at.here (SameOwners-refl k) in
    let size = stored-in_range k.processes at.thread.group_slot p at.stored in
    let slot = get_or-set k.processes at.thread.group_slot s (some q) none in
    let now : get_or (set k.processes at.thread.group_slot (some q)) s none ≡ some r =
      ap (λ (ps : List (Option Process)). get_or ps s none) (sym placed.processes) ∙ stored in
    elim (ℕ_discrete s at.thread.group_slot) [
      | yes e ↦
          (let hit : get_or (set k.processes at.thread.group_slot (some q)) s none ≡ some q =
              ground (arith, slot, size, e) in
            let same : q ≡ r = cc (now, hit) in rw (← same) d)
      | no ne ↦
          (let miss : get_or (set k.processes at.thread.group_slot (some q)) s none
                ≡ get_or k.processes s none =
              ground (arith, slot, ne) in
            all s r (sym miss ∙ now))
    ]
