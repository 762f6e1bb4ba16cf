-- ===== src/Mm.antt =====
-- The regions of a process in kernel/src/proc/vm.rs, and the calls that change its memory in
-- kernel/src/syscall/mm.rs with their results in kernel/src/syscall/result.rs. Sums of addresses
-- wrap at 2 ^ 64, and a signed argument is its bit pattern.
pub mod Regions
pub mod Calls
pub mod Tables
pub mod History
pub mod Reserve
pub mod Outcome
mod Tests
use core_os.Base.{
  ℕ, zero, suc, ◌+◌, ◌-◌, ◌*◌, ◌/◌, ◌%◌, ◌^◌, min, Bool, true, false, not, ◌&&◌, ◌||◌, List, [],
  ◌∷◌, Option, none, some, get_or, set, if◌then◌else◌, ltb, leb, ◌==◌, bit_and, drop, take,
}
use core_os.Pmm.{Memory, alloc_frame, free_frame, zero_fill}
use core_os.Fs.{Filesystem, read_range}
use core_os.Paging.{
  Machine, MapFlags, map_page_in, unmap_page_in, protect_page_in, translate_page, write,
}
use core_os.Proc.State.{
  VmRegion, empty_region, new_region, DescriptorInfo, file, stdio, char_device, pipe,
}
use core_os.Proc.Process.{Kernel, Process, current_process, put_process}
use core_os.Proc.Fd.{descriptor_info}

abbrev pub last_address : ℕ
last_address = 2 ^ 64 - 1

-- `overlaps`, with sums that stop at the last address.
unfoldable pub overlaps : ℕ → ℕ → ℕ → ℕ → Bool
overlaps a_start a_len b_start b_len =
    ltb a_start (min (b_start + b_len) last_address)
    && ltb b_start (min (a_start + a_len) last_address)

unfoldable pub conflicts : ℕ → ℕ → List VmRegion → Bool
conflicts start len [] = false
conflicts start len (v ∷ vs) =
    v.in_use && overlaps start len v.start v.len || conflicts start len vs

-- The first region that is not in use takes the new one.
unfoldable pub place_vma : VmRegion → List VmRegion → Option (List VmRegion)
place_vma r [] = none
place_vma r (v ∷ vs) =
    let rest = place_vma r vs in
    if v.in_use then elim rest [ none ↦ none | some ws ↦ some (v ∷ ws) ] else some (r ∷ vs)

-- The index of the first region in use of this start and length, from `i` on.
unfoldable pub find_exact : ℕ → ℕ → ℕ → List VmRegion → Option ℕ
find_exact start len i [] = none
find_exact start len i (v ∷ vs) =
    let rest = find_exact start len (suc i) vs in
    if v.in_use && v.start == start && v.len == len then some i else rest

unfoldable pub region_conflicts : Kernel → ℕ → ℕ → Bool
region_conflicts k start len = elim (current_process k) [
  | none ↦ true
  | some p ↦ conflicts start len p.vmas
]

unfoldable pub put_vmas : Kernel → Process → List VmRegion → Kernel
put_vmas k p vmas = put_process k (record p { vmas = vmas })

unfoldable pub alloc_vma : Kernel → ℕ → ℕ → ℕ → ℕ → Bool × Kernel
alloc_vma k start len prot flags = elim (current_process k) [
  | none ↦ (false, k)
  | some p ↦ elim (place_vma (new_region start len prot flags) p.vmas) [
    | none ↦ (false, k)
    | some vmas ↦ (true, put_vmas k p vmas)
  ]
]

-- `find_vma_exact_mut`, as the place of the region.
unfoldable pub find_vma_exact : Kernel → ℕ → ℕ → Option ℕ
find_vma_exact k start len = elim (current_process k) [
  | none ↦ none
  | some p ↦ find_exact start len 0 p.vmas
]

-- A write through the reference that it returns.
unfoldable pub put_vma : Kernel → ℕ → (VmRegion → VmRegion) → Kernel
put_vma k i change = elim (current_process k) [
  | none ↦ k
  | some p ↦ put_vmas k p (set p.vmas i (change (get_or p.vmas i empty_region)))
]

-- `(n + 0xFFF) & !0xFFF`.
unfoldable pub round_up : ℕ → ℕ
round_up n = (n + 0xFFF) % 2 ^ 64 / 4096 * 4096

unfoldable pub reserve_mmap_base : Kernel → ℕ → Option (ℕ × Kernel)
reserve_mmap_base k len = elim (current_process k) [
  | none ↦ none
  | some p ↦
      (let start = round_up p.next_mmap_base in
        if ltb (start + len) (2 ^ 64)
        then some (start, put_process k (record p { next_mmap_base = start + len }))
        else none)
]

unfoldable pub current_brk : Kernel → ℕ
current_brk k = elim (current_process k) [ none ↦ 0 | some p ↦ p.program_break ]

unfoldable pub set_brk : Kernel → ℕ → Kernel
set_brk k new_brk = elim (current_process k) [
  | none ↦ k
  | some p ↦ put_process k (record p { program_break = new_brk })
]

pub data SysError : Type 0 where
  again bad_fd child fault invalid no_entry no_mem no_sys : SysError
  addr_family_not_supported access not_seekable not_tty range timed_out unsupported : SysError

pub data SysResult : Type 0 where
  ok : ℕ → SysResult
  err : SysError → SysResult

unfoldable pub error_code : SysError → ℕ
error_code bad_fd = 9
error_code again = 11
error_code child = 10
error_code fault = 14
error_code invalid = 22
error_code no_entry = 2
error_code no_mem = 12
error_code no_sys = 38
error_code addr_family_not_supported = 97
error_code access = 13
error_code not_seekable = 29
error_code not_tty = 25
error_code range = 34
error_code timed_out = 110
error_code unsupported = 95

unfoldable pub errno : SysError → ℕ
errno error = 2 ^ 64 - error_code error

unfoldable pub ret : SysResult → ℕ
ret (ok value) = value
ret (err error) = errno error
