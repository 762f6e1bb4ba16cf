-- ===== src/Pmm/Init.antt =====
-- `init`: which frames the boot memory map makes free.
use core_os.Base.{
  ℕ, zero, suc, ◌+◌, ◌-◌, ◌/◌, ◌<◌, ◌≡◌, refl, ◌∙◌, Bool, true, false, not, ◌&&◌, ◌||◌, List, [],
  ◌∷◌, arith, if◌then◌else◌, ◌==◌, leb, ltb, Bool-cases, inl, inr,
}
use core_os.Base.Count.{count, count_ext}
use core_os.Pmm.{
  Pmm, MemMapEntry, BootInfo, page_size, max_frames, efi_conventional_memory, add_usize, new,
  is_free, set_free, set_used, release_frame, release_range, add_region, add_regions, reserve_frame,
  reserve_range, init,
}
use core_os.Pmm.Bitmap.{is_free-new, is_free-set_free, is_free-set_used}
use core_os.Pmm.Accounting.{IsCounted, new-IsCounted, take-IsCounted, give-IsCounted}

-- `f` lies in the `n` frames from `s` on.
abbrev pub within : ℕ → ℕ → ℕ → Bool
within s n f = leb s f && ltb f (s + n)

-- The frames that the memory map offers: those of its regions of conventional memory.
abbrev pub offers : MemMapEntry → ℕ → Bool
offers e f =
    e.mem_type == efi_conventional_memory
    && within (e.physical_start / page_size)
        (add_usize (e.physical_start / page_size) e.num_pages - e.physical_start / page_size) f

abbrev pub offered : List MemMapEntry → ℕ → Bool
offered [] f = false
offered (e ∷ es) f = offers e f || offered es f

-- The frames of the kernel image.
abbrev pub kernel_image : BootInfo → ℕ → Bool
kernel_image b =
    let start = b.kernel_phys_base / page_size in
    let stop = (add_usize b.kernel_phys_base b.kernel_alloc_size + (page_size - 1)) / page_size in
    within start (stop - start)

-- A sound allocator whose free frames are those of `view`.
record Shows (p : Pmm) (view : ℕ → Bool) : Type 0 where
  valid : IsCounted p
  seen : (f : ℕ) → f < max_frames → is_free p f ≡ view f

Shows-give :
    (p : Pmm) (view : ℕ → Bool) (f total : ℕ)
    → Shows p view
    → f < max_frames
    → is_free p f ≡ false
    → Shows
        (record (set_free p f) { free_frames = p.free_frames + 1; total_frames = total })
        (λ g. f == g || view g)
unfolding is_free
Shows-give p view f total v h used = record {
  valid = give-IsCounted p f total v.valid h used;
  seen = λ g b. is_free-set_free p f g v.valid.whole h ∙ ground (arith, v.seen g b);
}

Shows-take :
    (p : Pmm) (view : ℕ → Bool) (f : ℕ)
    → Shows p view
    → f < max_frames
    → is_free p f ≡ true
    → Shows
        (record (set_used p f) { free_frames = p.free_frames - 1 })
        (λ g. not (f == g) && view g)
unfolding is_free
Shows-take p view f v h free = record {
  valid = take-IsCounted p f v.valid h free;
  seen = λ g b. is_free-set_used p f g v.valid.whole h ∙ ground (arith, v.seen g b);
}

Shows-ext :
    (p : Pmm) (view view' : ℕ → Bool)
    → Shows p view
    → ((f : ℕ) → f < max_frames → view f ≡ view' f)
    → Shows p view'
Shows-ext p view view' v same = record { valid = v.valid; seen = λ f b. v.seen f b ∙ same f b }

release_frame-Shows :
    (p : Pmm) (view : ℕ → Bool) (f : ℕ)
    → Shows p view
    → p.total_frames ≡ p.free_frames
    → let q = release_frame p f in
      Shows q (λ g. f == g || view g) × (q.total_frames ≡ q.free_frames)
unfolding release_frame set_free
release_frame-Shows p view f v e = elim (Bool-cases (ltb f max_frames && not (is_free p f))) [
  | inl moves ↦
      rw (moves, release_frame)
        (Shows-give p view f (p.total_frames + 1) v (ground arith) (ground arith), omega arith)
  | inr stays ↦
      rw (stays, release_frame)
        (Shows-ext p view (λ g. f == g || view g) v (λ g b. ground (arith, v.seen g b)), e)
]

release_range-Shows :
    (n f : ℕ) (p : Pmm) (view : ℕ → Bool)
    → Shows p view
    → p.total_frames ≡ p.free_frames
    → let q = release_range n f p in
      Shows q (λ g. within f n g || view g) × (q.total_frames ≡ q.free_frames)
unfolding release_range
release_range-Shows zero f p view v e =
    (Shows-ext p view (λ g. within f 0 g || view g) v (λ g b. ground arith), e)
release_range-Shows (suc n) f p view v e =
    let one = release_frame-Shows p view f v e in
    let rest =
      release_range-Shows n (f + 1) (release_frame p f) (λ g. f == g || view g) one.0 one.1 in
    (
      Shows-ext (release_range n (f + 1) (release_frame p f))
          (λ g. within (f + 1) n g || (f == g || view g)) (λ g. within f (suc n) g || view g) rest.0
          (λ g b. ground arith),
      rest.1,
    )

reserve_frame-Shows :
    (p : Pmm) (view : ℕ → Bool) (f : ℕ)
    → Shows p view
    → let q = reserve_frame p f in
      Shows q (λ g. not (f == g) && view g) × (q.total_frames ≡ p.total_frames)
unfolding reserve_frame set_used
reserve_frame-Shows p view f v = elim (Bool-cases (ltb f max_frames && is_free p f)) [
  | inl moves ↦
      rw (moves, reserve_frame) (Shows-take p view f v (ground arith) (ground arith), refl)
  | inr stays ↦
      rw (stays, reserve_frame)
        (Shows-ext p view (λ g. not (f == g) && view g) v (λ g b. ground (arith, v.seen g b)), refl)
]

reserve_range-Shows :
    (n f : ℕ) (p : Pmm) (view : ℕ → Bool)
    → Shows p view
    → let q = reserve_range n f p in
      Shows q (λ g. not (within f n g) && view g) × (q.total_frames ≡ p.total_frames)
unfolding reserve_range
reserve_range-Shows zero f p view v =
    (Shows-ext p view (λ g. not (within f 0 g) && view g) v (λ g b. ground arith), refl)
reserve_range-Shows (suc n) f p view v =
    let one = reserve_frame-Shows p view f v in
    let rest =
      reserve_range-Shows n (f + 1) (reserve_frame p f) (λ g. not (f == g) && view g) one.0 in
    (
      Shows-ext (reserve_range n (f + 1) (reserve_frame p f))
          (λ g. not (within (f + 1) n g) && (not (f == g) && view g))
          (λ g. not (within f (suc n) g) && view g) rest.0 (λ g b. ground arith),
      rest.1 ∙ one.1,
    )

add_region-Shows :
    (e : MemMapEntry) (p : Pmm) (view : ℕ → Bool)
    → Shows p view
    → p.total_frames ≡ p.free_frames
    → let q = add_region p e in
      Shows q (λ g. offers e g || view g) × (q.total_frames ≡ q.free_frames)
unfolding add_region
add_region-Shows e p view v t = elim (Bool-cases (e.mem_type == efi_conventional_memory)) [
  | inl usable ↦
      rw (usable, add_region)
        (release_range-Shows
          (add_usize (e.physical_start / page_size) e.num_pages - e.physical_start / page_size)
          (e.physical_start / page_size) p view v t)
  | inr other ↦ rw (other, add_region) (Shows-ext p view view v (λ g b. refl), t)
]

add_regions-Shows :
    (es : List MemMapEntry) (p : Pmm) (view : ℕ → Bool)
    → Shows p view
    → p.total_frames ≡ p.free_frames
    → let q = add_regions p es in
      Shows q (λ g. offered es g || view g) × (q.total_frames ≡ q.free_frames)
unfolding add_regions
add_regions-Shows [] p view v t = (v, t)
add_regions-Shows (e ∷ es) p view v t =
    let one = add_region-Shows e p view v t in
    let rest = add_regions-Shows es (add_region p e) (λ g. offers e g || view g) one.0 one.1 in
    (
      Shows-ext (add_regions (add_region p e) es) (λ g. offered es g || (offers e g || view g))
          (λ g. offered (e ∷ es) g || view g) rest.0
          (λ g b. either (offered es g) (offers e g) (view g)),
      rest.1,
    )
  where
    either : (a b c : Bool) → (a || (b || c)) ≡ ((b || a) || c)
    either a b c = ground arith

reserve_zero-Shows :
    (q : Pmm) (view : ℕ → Bool)
    → Shows q view
    → let r =
        if is_free q 0
        then record (set_used q 0) { free_frames = (set_used q 0).free_frames - 1 }
        else q in
      Shows r (λ g. not (g == 0) && view g) × (r.total_frames ≡ q.total_frames)
unfolding set_used
reserve_zero-Shows q view v = elim (Bool-cases (is_free q 0)) [
  | inl free ↦ rw free (
    Shows-ext _ (λ g. not (0 == g) && view g) _ (Shows-take q view 0 v (omega arith) free)
        (λ g b. ground arith),
    refl,
  )
  | inr used ↦ rw used (
    Shows-ext q view (λ g. not (g == 0) && view g) v
        (λ g b. ground (arith, v.seen 0 (omega arith))),
    refl,
  )
]

-- After init on the boot state the free frames are those the memory map offers less frame 0 and
-- the kernel image, and both counters are exact.
pub init_lem :
    (b : BootInfo)
    → let q = init new b in
      IsCounted q
      × ((f : ℕ)
          → f < max_frames
          → is_free q f ≡ (not (f == 0) && (not (kernel_image b f) && offered b.mmap f)))
      × (q.total_frames ≡ count (offered b.mmap) max_frames)
unfolding init new
init_lem b =
    let map = add_regions-Shows b.mmap new (λ g. false) new-Shows same in
    let image = reserve_range-Shows size start (add_regions new b.mmap) _ map.0 in
    let zero_out =
      reserve_zero-Shows (reserve_range size start (add_regions new b.mmap)) _ image.0 in
    (
      zero_out.0.valid,
      (λ f h. zero_out.0.seen f h ∙ last (not (f == 0)) (kernel_image b f) (offered b.mmap f)),
      zero_out.1
          ∙ image.1
          ∙ map.1
          ∙ map.0.valid.counted
          ∙ count_ext (is_free (add_regions new b.mmap)) (offered b.mmap) max_frames
              (λ g h. map.0.seen g h ∙ ground arith),
    )
  where
    start : ℕ
    start = b.kernel_phys_base / page_size

    size : ℕ
    size = (add_usize b.kernel_phys_base b.kernel_alloc_size + (page_size - 1)) / page_size - start

    new-Shows : Shows new (λ g. false)
    new-Shows = record { valid = new-IsCounted; seen = is_free-new }

    same : new.total_frames ≡ new.free_frames
    same = refl

    last : (a b c : Bool) → (a && (not b && (c || false))) ≡ (a && (not b && c))
    last a b c = ground arith
