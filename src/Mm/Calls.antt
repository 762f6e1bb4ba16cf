-- ===== src/Mm/Calls.antt =====
-- brk, mmap, munmap and mprotect of kernel/src/syscall/mm.rs. The arguments are 64-bit words; a loop
-- over the pages of a range is recursion on the number of pages.
use core_os.Base.{
  ℕ, zero, suc, ◌+◌, ◌-◌, ◌*◌, ◌/◌, ◌%◌, ◌^◌, Bool, true, false, not, ◌&&◌, ◌||◌, List, [], ◌∷◌,
  Option, none, some, get_or, if◌then◌else◌, ltb, leb, ◌==◌, bit_and, drop, take,
}
use core_os.Pmm.{Memory, alloc_frame, free_frame, zero_fill}
use core_os.Fs.{Filesystem, read_range}
use core_os.Paging.{
  Machine, MapFlags, map_page_in, unmap_page_in, protect_page_in, translate_page, write,
}
use core_os.Proc.State.{empty_region, DescriptorInfo, file}
use core_os.Proc.Process.{Kernel}
use core_os.Proc.Fd.{descriptor_info}
use core_os.Mm.{
  region_conflicts, alloc_vma, find_vma_exact, put_vma, round_up, reserve_mmap_base, current_brk,
  set_brk, SysError, bad_fd, invalid, no_mem, unsupported, SysResult, ok, err, ret,
}

-- What the calls read and write: the tables, the files, the memory, and the kernel's page table.
pub record Vm : Type 0 where
  pub kernel : Kernel
  pub machine : Machine
  pub files : Filesystem
  pub kernel_pml4 : ℕ

-- A call that panics, or faults in the kernel, has no result.
abbrev pub Answer : Type 0
Answer = Option (SysResult × Vm)

abbrev pub prot_exec : ℕ
prot_exec = 1

abbrev pub prot_write : ℕ
prot_write = 2

abbrev pub map_shared : ℕ
map_shared = 1

abbrev pub map_private : ℕ
map_private = 2

abbrev pub map_fixed : ℕ
map_fixed = 0x10

abbrev pub map_anonymous : ℕ
map_anonymous = 0x20

-- `(x & bits) != 0`
abbrev pub has : ℕ → ℕ → Bool
has x bits = not (bit_and x bits == 0)

unfoldable pub map_flags_from_prot : ℕ → MapFlags
map_flags_from_prot prot = record {
  writable = has prot prot_write;
  user = true;
  executable = has prot prot_exec;
}

-- `task::current_pml4`
unfoldable pub current_pml4 : Vm → ℕ
current_pml4 v = elim (get_or v.kernel.tasks v.kernel.current none) [
  | none ↦ v.kernel_pml4
  | some t ↦ t.pml4
]

-- How a loop over pages ends: a panic, no frame for the page at an index, or done.
pub data Pages : Type 0 where
  panics : Pages
  out_of_frames : ℕ → Machine → Pages
  done : Machine → Pages

-- A new frame of zeroes for the page at an index, of which `fill` does the rest.
unfoldable pub grow_page : (Memory → Option Memory) → ℕ → ℕ → ℕ → MapFlags → Machine → Pages
grow_page fill pml4 page i flags s =
    let r = alloc_frame s.pmm s.mem in
    let s0 : Machine = record { pmm = r.pmm; mem = r.mem } in
    if r.addr == 0 then out_of_frames i s0 else elim (map_page_in pml4 page r.addr flags s0) [
      | none ↦ panics
      | some s1 ↦ elim (fill (zero_fill s1.mem r.addr 4096)) [
        | none ↦ panics
        | some m ↦ done (record s1 { mem = m })
      ]
    ]

-- The loops of `brk_impl` and `mmap_impl`, with the pages left and the index of the next one.
unfoldable pub grow_pages :
    (ℕ → Memory → Option Memory) → ℕ → ℕ → ℕ → ℕ → MapFlags → Machine → Pages
grow_pages fill pml4 start zero i flags s = done s
grow_pages fill pml4 start (suc n) i flags s =
    elim (grow_page (fill i) pml4 ((start + i * 4096) % 2 ^ 64) i flags s) [
      | panics ↦ panics
      | out_of_frames j s1 ↦ out_of_frames j s1
      | done s1 ↦ grow_pages fill pml4 start n (suc i) flags s1
    ]

abbrev pub brk_flags : MapFlags
brk_flags = record { writable = true; user = true; executable = false }

unfoldable pub brk_impl : ℕ → Vm → Answer
brk_impl addr v =
    let old = current_brk v.kernel in
    let page = round_up old in
    let pages = (round_up addr - page) / 4096 in
    if addr == 0
    then some (ok old, v)
    else if leb addr old
    then some (ok addr, record v { kernel = set_brk v.kernel addr })
    else elim (grow_pages (λ i m. some m) (current_pml4 v) page pages 0 brk_flags v.machine) [
      | panics ↦ none
      | out_of_frames i s ↦ some (ok old, record v { machine = s })
      | done s ↦ some (ok addr, record v { kernel = set_brk v.kernel addr; machine = s })
    ]

-- The checks of the arguments; `fd` and `off` are bit patterns of 32 and 64 bits.
unfoldable pub check_mmap : ℕ → ℕ → ℕ → ℕ → Option SysError
check_mmap len flags fd off =
    if len == 0
    then some invalid
    else if not (has flags (map_private + map_shared))
    then some invalid
    else if has flags map_shared
    then some unsupported
    else if has flags map_anonymous
    then (if fd == 2 ^ 32 - 1 && off == 0 then none else some invalid)
    else if not (ltb fd (2 ^ 31))
    then some bad_fd
    else if ltb off (2 ^ 63) && off % 4096 == 0
    then none
    else some invalid

-- The address: the next free one, or a fixed one that is free.
unfoldable pub mmap_start : Kernel → ℕ → ℕ → ℕ → Option (ℕ × Kernel)
mmap_start k addr len flags =
    let start = addr / 4096 * 4096 in
    if addr == 0
    then reserve_mmap_base k len
    else if has flags map_fixed && not (region_conflicts k start len)
    then some (start, k)
    else none

-- The bytes of a file for a mapping; the outer none is a bad descriptor.
unfoldable pub file_seed_of : Vm → ℕ → ℕ → Option DescriptorInfo → Option (Option (List ℕ))
file_seed_of v off len (some (file file_idx size)) = elim (read_range file_idx off len v.files) [
  | none ↦ some (some [])
  | some bytes ↦ some (some bytes)
]
file_seed_of v off len _ = none

unfoldable pub file_seed : Vm → Bool → ℕ → ℕ → ℕ → Option (Option (List ℕ))
file_seed v anonymous fd off len =
    if anonymous then some none else file_seed_of v off len (descriptor_info v.kernel v.files fd)

-- A byte of a word in memory.
unfoldable pub put_byte : Memory → ℕ → ℕ → Memory
put_byte m a b =
    let word = a / 8 * 8 in
    let unit = 256 ^ (a % 8) in write m word (m word - m word / unit % 256 * unit + b * unit)

pub put_bytes : Memory → ℕ → List ℕ → Memory
put_bytes m a [] = m
put_bytes m a (b ∷ bs) = put_bytes (put_byte m a b) (a + 1) bs

-- The copy of the part of the file for a page, through the page's own address; none for a fault.
unfoldable pub fill_page : ℕ → ℕ → Option (List ℕ) → ℕ → Memory → Option Memory
fill_page pml4 start none i m = some m
fill_page pml4 start (some bytes) i m = elim (take 4096 (drop (i * 4096) bytes)) [
  | [] ↦ some m
  | b ∷ bs ↦ elim (translate_page m pml4 ((start + i * 4096) % 2 ^ 64)) [
    | none ↦ none
    | some p ↦ some (put_bytes m p (b ∷ bs))
  ]
]

-- The loop that takes the pages out again and gives their frames back.
unfoldable pub unmap_pages : ℕ → ℕ → ℕ → ℕ → Machine → Machine
unmap_pages pml4 start zero i s = s
unmap_pages pml4 start (suc n) i s =
    let r = unmap_page_in pml4 ((start + i * 4096) % 2 ^ 64) s.mem in
    unmap_pages pml4 start n (suc i) (elim r.0 [
      | none ↦ record s { mem = r.1 }
      | some frame ↦ record { pmm = free_frame s.pmm frame; mem = r.1 }
    ])

unfoldable pub clear_vma : Kernel → Option ℕ → Kernel
clear_vma k none = k
clear_vma k (some i) = put_vma k i (λ v. empty_region)

-- What is left to do once the region is in the table.
unfoldable pub mmap_pages : Vm → ℕ → ℕ → ℕ → Option (List ℕ) → Answer
mmap_pages v start len prot seed =
    let pml4 = current_pml4 v in
    elim (grow_pages (fill_page pml4 start seed) pml4 start (len / 4096) 0
      (map_flags_from_prot prot) v.machine) [
        | panics ↦ none
        | out_of_frames i s ↦ some (
          err no_mem,
          record v {
            kernel = clear_vma v.kernel (find_vma_exact v.kernel start len);
            machine = unmap_pages pml4 start i 0 s;
          },
        )
        | done s ↦ some (ok start, record v { machine = s })
      ]

unfoldable pub mmap_at : Vm → ℕ → ℕ → ℕ → ℕ → ℕ → ℕ → Answer
mmap_at v start len prot flags fd off =
    let placed = alloc_vma v.kernel start len prot flags in
    let v1 = record v { kernel = placed.1 } in
    if region_conflicts v.kernel start len
    then some (err invalid, v)
    else if not placed.0
    then some (err invalid, v)
    else elim (file_seed v1 (has flags map_anonymous) fd off len) [
      | none ↦ some (err bad_fd, v1)
      | some seed ↦ mmap_pages v1 start len prot seed
    ]

unfoldable pub mmap_impl : ℕ → ℕ → ℕ → ℕ → ℕ → ℕ → Vm → Answer
mmap_impl addr len prot flags fd off v = elim (check_mmap len flags fd off) [
  | some e ↦ some (err e, v)
  | none ↦ elim (mmap_start v.kernel addr (round_up len) flags) [
    | none ↦ some (err invalid, v)
    | some (start, k) ↦ mmap_at (record v { kernel = k }) start (round_up len) prot flags fd off
  ]
]

unfoldable pub munmap_impl : ℕ → ℕ → Vm → Answer
munmap_impl addr len v =
    let start = addr / 4096 * 4096 in
    let size = round_up len in
    if addr == 0 || len == 0
    then some (err invalid, v)
    else elim (find_vma_exact v.kernel start size) [
      | none ↦ some (err invalid, v)
      | some i ↦ some (
        ok 0,
        record v {
          kernel = clear_vma v.kernel (some i);
          machine = unmap_pages (current_pml4 v) start (size / 4096) 0 v.machine;
        },
      )
    ]

-- The loop of `mprotect_impl`, which stops at a page that is not there.
unfoldable pub protect_pages : ℕ → ℕ → ℕ → ℕ → MapFlags → Memory → Bool × Memory
protect_pages pml4 start zero i flags m = (true, m)
protect_pages pml4 start (suc n) i flags m =
    let r = protect_page_in pml4 ((start + i * 4096) % 2 ^ 64) flags m in
    let rest = protect_pages pml4 start n (suc i) flags r.1 in if r.0 then rest else (false, r.1)

unfoldable pub mprotect_impl : ℕ → ℕ → ℕ → Vm → Answer
mprotect_impl addr len prot v =
    let start = addr / 4096 * 4096 in
    let size = round_up len in
    if addr == 0 || len == 0
    then some (err invalid, v)
    else elim (find_vma_exact v.kernel start size) [
      | none ↦ some (err invalid, v)
      | some i ↦
          (let r =
              protect_pages (current_pml4 v) start (size / 4096) 0
                (map_flags_from_prot (prot % 2 ^ 32)) v.machine.mem in
            let v1 = record v { machine = record v.machine { mem = r.1 } } in
            if r.0
            then some (
              ok 0,
              record v1 {
                kernel = put_vma v.kernel i (λ vma. record vma { prot = prot % 2 ^ 32 });
              },
            )
            else some (err invalid, v1))
    ]

-- The calls as the dispatcher makes them: the result is a word.
abbrev answer : Answer → Option (ℕ × Vm)
answer none = none
answer (some (r, v)) = some (ret r, v)

pub brk : ℕ → Vm → Option (ℕ × Vm)
brk addr v = answer (brk_impl addr v)

pub mmap : ℕ → ℕ → ℕ → ℕ → ℕ → ℕ → Vm → Option (ℕ × Vm)
mmap addr len prot flags fd off v =
    answer (mmap_impl addr len (prot % 2 ^ 32) (flags % 2 ^ 32) (fd % 2 ^ 32) off v)

pub munmap : ℕ → ℕ → Vm → Option (ℕ × Vm)
munmap addr len v = answer (munmap_impl addr len v)

pub mprotect : ℕ → ℕ → ℕ → Vm → Option (ℕ × Vm)
mprotect addr len prot v = answer (mprotect_impl addr len prot v)
