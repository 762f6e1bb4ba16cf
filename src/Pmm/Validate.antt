-- ===== src/Pmm/Validate.antt =====
-- kernel/src/mem/validate.rs: the checks of the memory map at boot. The result is false where the
-- code panics; sums and products of 64-bit words wrap.
use core_os.Base.{
  ℕ, zero, suc, ◌+◌, ◌*◌, ◌%◌, ◌^◌, ◌≤◌, ◌<◌, ◌≡◌, refl, ◌↔◌, Bool, true, false, not, ◌&&◌, ◌||◌,
  List, [], ◌∷◌, arith, get_or, length, if◌then◌else◌, ltb, ◌==◌, dec_lt,
}
use core_os.Pmm.{MemMapEntry}

-- `physical_start + num_pages * 4096`
unfoldable pub region_end : MemMapEntry → ℕ
region_end e = (e.physical_start + e.num_pages * 4096 % 2 ^ 64) % 2 ^ 64

-- The loop over the later entries: none overlaps.
unfoldable pub no_overlap : MemMapEntry → List MemMapEntry → Bool
no_overlap e [] = true
no_overlap e (o ∷ os) =
    not (ltb e.physical_start (region_end o) && ltb o.physical_start (region_end e))
    && no_overlap e os

unfoldable pub validate_entries : List MemMapEntry → Bool
validate_entries [] = true
validate_entries (e ∷ es) =
    e.physical_start % 4096 == 0 && not (e.num_pages == 0) && no_overlap e es && validate_entries es

unfoldable pub validate_mmap : List MemMapEntry → Bool
validate_mmap es =
    let count = length es in if count == 0 || ltb 256 count then false else validate_entries es

-- An address lies in a region.
abbrev pub Covers : MemMapEntry → ℕ → Type 0
Covers e a = (e.physical_start ≤ a) × (a < e.physical_start + e.num_pages * 4096)

-- No region reaches past the last address.
abbrev pub Fits : MemMapEntry → Type 0
Fits e = e.physical_start + e.num_pages * 4096 < 2 ^ 64

abbrev no_entry : MemMapEntry
no_entry = record { mem_type = 0; physical_start = 0; num_pages = 0 }

abbrev pub entry_at : List MemMapEntry → ℕ → MemMapEntry
entry_at es i = get_or es i no_entry

-- A memory map that the frame allocator can use.
pub record IsUsable (es : List MemMapEntry) : Type 0 where
  pub whole :
      (i : ℕ)
      → i < length es
      → ((entry_at es i).physical_start % 4096 ≡ 0) × (0 < (entry_at es i).num_pages)
  pub apart :
      (i j a : ℕ) → i < j → j < length es → Covers (entry_at es i) a → ¬ Covers (entry_at es j) a

no_overlap_apart :
    (e : MemMapEntry) (os : List MemMapEntry)
    → Fits e
    → ((i : ℕ) → i < length os → Fits (entry_at os i))
    → no_overlap e os ≡ true
    → (j a : ℕ) → j < length os
    → Covers e a
    → ¬ Covers (entry_at os j) a
unfolding no_overlap region_end
no_overlap_apart e [] f g h j a l c d = omega arith
no_overlap_apart e (o ∷ os) f g h zero a l c d = ground (arith, h, f, g 0 (omega arith), c, d)
no_overlap_apart e (o ∷ os) f g h (suc j) a l c d =
    no_overlap_apart e os f (λ i k. g (suc i) (omega arith)) (ground (arith, h)) j a (omega arith) c
      d

-- Two regions that overlap share the larger of their first addresses.
apart_pair :
    (e o : MemMapEntry)
    → Fits e
    → Fits o
    → 0 < e.num_pages
    → 0 < o.num_pages
    → ((a : ℕ) → Covers e a → ¬ Covers o a)
    → not (ltb e.physical_start (region_end o) && ltb o.physical_start (region_end e)) ≡ true
unfolding region_end
apart_pair e o f g p q h = elim (dec_lt e.physical_start o.physical_start) [
  | yes l ↦ elim (dec_lt o.physical_start (e.physical_start + e.num_pages * 4096)) [
    | yes k ↦ absurd (h o.physical_start (omega arith, k) (omega arith, omega arith))
    | no k ↦ ground (arith, f, g)
  ]
  | no l ↦ elim (dec_lt e.physical_start (o.physical_start + o.num_pages * 4096)) [
    | yes k ↦ absurd (h e.physical_start (omega arith, omega arith) (omega arith, k))
    | no k ↦ ground (arith, f, g)
  ]
]

apart_no_overlap :
    (e : MemMapEntry) (os : List MemMapEntry)
    → Fits e
    → 0 < e.num_pages
    → ((i : ℕ) → i < length os → Fits (entry_at os i) × (0 < (entry_at os i).num_pages))
    → ((j a : ℕ) → j < length os → Covers e a → ¬ Covers (entry_at os j) a)
    → no_overlap e os ≡ true
unfolding no_overlap region_end
apart_no_overlap e [] f p g h = refl
apart_no_overlap e (o ∷ os) f p g h =
    let rest =
      apart_no_overlap e os f p (λ i k. g (suc i) (omega arith))
        (λ j a l. h (suc j) a (omega arith)) in
    let first : not (ltb e.physical_start (region_end o) && ltb o.physical_start (region_end e))
        ≡ true =
      apart_pair e o f (g 0 (omega arith)).0 p (g 0 (omega arith)).1 (λ a. h 0 a (omega arith)) in
    rw (no_overlap, first) rest

IsUsable-cons :
    (e : MemMapEntry) (es : List MemMapEntry)
    → ((i : ℕ) → i < length (e ∷ es) → Fits (entry_at (e ∷ es) i))
    → e.physical_start % 4096 ≡ 0
    → 0 < e.num_pages
    → no_overlap e es ≡ true
    → IsUsable es
    → IsUsable (e ∷ es)
IsUsable-cons e es f page some_pages h rest = record { whole = first; apart = pairs }
  where
    first :
        (i : ℕ)
        → i < length (e ∷ es)
        → ((entry_at (e ∷ es) i).physical_start % 4096 ≡ 0) × (0 < (entry_at (e ∷ es) i).num_pages)
    first zero l = (page, some_pages)
    first (suc i) l = rest.whole i (omega arith)

    pairs :
        (i j a : ℕ)
        → i < j
        → j < length (e ∷ es)
        → Covers (entry_at (e ∷ es) i) a
        → ¬ Covers (entry_at (e ∷ es) j) a
    pairs i zero a l k = absurd (omega arith)
    pairs zero (suc j) a l k =
        no_overlap_apart e es (f 0 (omega arith)) (λ i l. f (suc i) (omega arith)) h j a
          (omega arith)
    pairs (suc i) (suc j) a l k = rest.apart i j a (omega arith) (omega arith)

validate_entries-IsUsable :
    (es : List MemMapEntry)
    → ((i : ℕ) → i < length es → Fits (entry_at es i))
    → validate_entries es ≡ true
    → IsUsable es
unfolding validate_entries
validate_entries-IsUsable [] f h = record {
  whole = λ i l. absurd (omega arith);
  apart = λ i j a l k. absurd (omega arith);
}
validate_entries-IsUsable (e ∷ es) f h =
    IsUsable-cons e es f (ground (arith, h)) (ground (arith, h)) (ground (arith, h))
      (validate_entries-IsUsable es (λ i l. f (suc i) (omega arith)) (ground (arith, h)))

IsUsable-validate_entries :
    (es : List MemMapEntry)
    → ((i : ℕ) → i < length es → Fits (entry_at es i))
    → IsUsable es
    → validate_entries es ≡ true
unfolding validate_entries
IsUsable-validate_entries [] f u = refl
IsUsable-validate_entries (e ∷ es) f u =
    let rest =
      IsUsable-validate_entries es (λ i l. f (suc i) (omega arith))
        (record {
          whole = λ i l. u.whole (suc i) (omega arith);
          apart = λ i j a l k. u.apart (suc i) (suc j) a (omega arith) (omega arith);
        }) in
    let here = u.whole 0 (omega arith) in
    let first =
      apart_no_overlap e es (f 0 (omega arith)) here.1
        (λ i l. (f (suc i) (omega arith), (u.whole (suc i) (omega arith)).1))
        (λ j a l. u.apart 0 (suc j) a (omega arith) (omega arith)) in
    ground (arith, rest, here.0, here.1, first)

-- For a memory map whose regions end below 2 ^ 64, validate_mmap accepts it exactly when it has
-- between 1 and 256 entries, every region is not empty and starts at a multiple of 4096, and no
-- address lies in two regions.
pub validate_mmap_iff :
    (es : List MemMapEntry)
    → ((i : ℕ) → i < length es → Fits (entry_at es i))
    → (validate_mmap es ≡ true) ↔ ((0 < length es) × (length es ≤ 256) × IsUsable es)
unfolding validate_mmap
validate_mmap_iff es f = (there, back)
  where
    there : validate_mmap es ≡ true → (0 < length es) × (length es ≤ 256) × IsUsable es
    there h =
        (ground (arith, h), ground (arith, h), validate_entries-IsUsable es f (ground (arith, h)))

    back : (0 < length es) × (length es ≤ 256) × IsUsable es → validate_mmap es ≡ true
    back h = let entries = IsUsable-validate_entries es f h.2 in ground (arith, h.0, h.1, entries)
