-- ===== src/Pmm.antt =====
-- kernel/src/mem/pmm.rs, the bitmap allocator of physical frames, with the two records of
-- kernel/src/boot.rs that `init` reads. The spin lock makes each operation one step on the state.
pub mod Bitmap
pub mod Accounting
pub mod Runs
pub mod Alloc
pub mod Free
pub mod History
pub mod Init
pub mod Validate
mod Tests
use core_os.Base.{
  ℕ, zero, suc, ◌+◌, ◌-◌, ◌*◌, ◌/◌, ◌%◌, ◌^◌, Bool, true, false, not, ◌&&◌, ◌||◌, List, [], ◌∷◌,
  bit_and, bit_or, get_or, set, replicate, if◌then◌else◌, ◌==◌, leb, ltb,
}

abbrev pub page_size : ℕ
page_size = 4096

abbrev pub max_frames : ℕ
max_frames = 1024 * 1024

abbrev pub bitmap_bytes : ℕ
bitmap_bytes = max_frames / 8

-- The physical memory behind the direct map: the word at each address that is a multiple of 8.
abbrev pub Memory : Type 0
Memory = ℕ → ℕ

-- `write_bytes(p2v(addr), 0, len)`
unfoldable pub zero_fill : Memory → ℕ → ℕ → Memory
zero_fill m addr len a = if leb addr a && ltb a (addr + len) then 0 else m a

-- `PMMState`; `usize` and `u8` values are numbers, kept in range by the operations.
pub record Pmm : Type 0 where
  pub bitmap : List ℕ
  pub total_frames : ℕ
  pub free_frames : ℕ

unfoldable pub new : Pmm
new = record { bitmap = replicate bitmap_bytes 0xFF; total_frames = 0; free_frames = 0 }

-- `!(1 << k)` on a `u8` is `0xFF - (1 << k)`.
pub set_used : Pmm → ℕ → Pmm
set_used p f = record p {
  bitmap = set p.bitmap (f / 8) (bit_or (get_or p.bitmap (f / 8) 0) (2 ^ (f % 8)));
}

pub set_free : Pmm → ℕ → Pmm
set_free p f = record p {
  bitmap = set p.bitmap (f / 8) (bit_and (get_or p.bitmap (f / 8) 0) (0xFF - 2 ^ (f % 8)));
}

unfoldable pub is_free : Pmm → ℕ → Bool
is_free p f = bit_and (get_or p.bitmap (f / 8) 0) (2 ^ (f % 8)) == 0

-- `MemMapEntry` of boot.rs, the fields that are read.
pub record MemMapEntry : Type 0 where
  pub mem_type : ℕ
  pub physical_start : ℕ
  pub num_pages : ℕ

-- `CoreOS_BootInfo` of boot.rs, the fields that are read; `mmap` holds `mmap_count` entries.
pub record BootInfo : Type 0 where
  pub mmap : List MemMapEntry
  pub kernel_phys_base : ℕ
  pub kernel_alloc_size : ℕ

abbrev pub efi_conventional_memory : ℕ
efi_conventional_memory = 7

-- `usize` addition wraps.
abbrev pub add_usize : ℕ → ℕ → ℕ
add_usize a b = (a + b) % 2 ^ 64

-- The body of the loop over the frames of a usable region.
pub release_frame : Pmm → ℕ → Pmm
release_frame p f =
    if ltb f max_frames && not (is_free p f)
    then (let q = set_free p f in
        record q { free_frames = q.free_frames + 1; total_frames = q.total_frames + 1 })
    else p

-- The first number counts the rounds left, the second is `f`.
pub release_range : ℕ → ℕ → Pmm → Pmm
release_range zero f p = p
release_range (suc n) f p = release_range n (f + 1) (release_frame p f)

pub add_region : Pmm → MemMapEntry → Pmm
add_region p entry =
    if entry.mem_type == efi_conventional_memory
    then (let start = entry.physical_start / page_size in
        release_range (add_usize start entry.num_pages - start) start p)
    else p

pub add_regions : Pmm → List MemMapEntry → Pmm
add_regions p [] = p
add_regions p (e ∷ es) = add_regions (add_region p e) es

-- The body of the loop over the frames of the kernel image.
pub reserve_frame : Pmm → ℕ → Pmm
reserve_frame p f =
    if ltb f max_frames && is_free p f
    then (let q = set_used p f in record q { free_frames = q.free_frames - 1 })
    else p

pub reserve_range : ℕ → ℕ → Pmm → Pmm
reserve_range zero f p = p
reserve_range (suc n) f p = reserve_range n (f + 1) (reserve_frame p f)

pub init : Pmm → BootInfo → Pmm
init p b =
    let start = b.kernel_phys_base / page_size in
    let stop = (add_usize b.kernel_phys_base b.kernel_alloc_size + (page_size - 1)) / page_size in
    let q = reserve_range (stop - start) start (add_regions p b.mmap) in
    if is_free q 0
    then (let r = set_used q 0 in record r { free_frames = r.free_frames - 1 })
    else q

-- What an allocation leaves: the address (0 when out of memory), the allocator and the memory.
pub record Allocated : Type 0 where
  pub addr : ℕ
  pub pmm : Pmm
  pub mem : Memory

-- The loop of `alloc_frame`: rounds left and `f`. `saturating_sub` is the subtraction of ℕ.
pub alloc_scan : ℕ → ℕ → Pmm → Memory → Allocated
alloc_scan zero f p m = record { addr = 0; pmm = p; mem = m }
alloc_scan (suc n) f p m = elim (is_free p f) [
  | true ↦ record {
    addr = f * page_size;
    pmm = record (set_used p f) { free_frames = p.free_frames - 1 };
    mem = zero_fill m (f * page_size) page_size;
  }
  | false ↦ alloc_scan n (f + 1) p m
]

pub alloc_frame : Pmm → Memory → Allocated
alloc_frame p m = alloc_scan (max_frames - 1) 1 p m

pub set_used_run : ℕ → ℕ → Pmm → Pmm
set_used_run zero f p = p
set_used_run (suc n) f p = set_used_run n (f + 1) (set_used p f)

-- What the loop of `alloc_frames` does with the run that it has found.
pub grab_run : ℕ → ℕ → Pmm → Memory → Allocated
grab_run count start p m =
    let q = set_used_run count start p in
    record {
      addr = start * page_size;
      pmm = record q { free_frames = q.free_frames - count };
      mem = zero_fill m (start * page_size) (count * page_size);
    }

-- The loop of `alloc_frames`: rounds left, `f`, `consecutive` and `start_frame`.
pub run_scan : ℕ → ℕ → ℕ → ℕ → ℕ → Pmm → Memory → Allocated
run_scan count zero f consecutive start p m = record { addr = 0; pmm = p; mem = m }
run_scan count (suc n) f consecutive start p m = elim (is_free p f) [
  | true ↦
      (let start' = if consecutive == 0 then f else start in
        elim (consecutive + 1 == count) [
          | true ↦ grab_run count start' p m
          | false ↦ run_scan count n (f + 1) (consecutive + 1) start' p m
        ])
  | false ↦ run_scan count n (f + 1) 0 start p m
]

pub alloc_frames : ℕ → Pmm → Memory → Allocated
alloc_frames zero p m = record { addr = 0; pmm = p; mem = m }
alloc_frames (suc zero) p m = alloc_frame p m
alloc_frames (suc (suc n)) p m = run_scan (suc (suc n)) (max_frames - 1) 1 0 0 p m

pub free_frame : Pmm → ℕ → Pmm
free_frame p phys_addr =
    let f = phys_addr / page_size in
    if f == 0 || leb max_frames f
    then p
    else (if is_free p f
        then p
        else (let q = set_free p f in record q { free_frames = q.free_frames + 1 }))

pub free_bytes : Pmm → ℕ
free_bytes p = p.free_frames * page_size

pub total_bytes : Pmm → ℕ
total_bytes p = p.total_frames * page_size
