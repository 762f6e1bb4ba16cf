-- ===== src/Paging.antt =====
-- kernel/src/arch/amd64/paging.rs: the four-level page tables. Tables are read and written through
-- the direct map, which takes a physical address to its word, so memory is that of the frame
-- allocator. The flush of the translation cache has no effect on memory.
pub mod Entries
pub mod Space
pub mod Ensure
pub mod Leaf
pub mod Mapping
pub mod MapPage
pub mod MapResult
pub mod Unmap
pub mod Protect
pub mod RoundTrip
mod Tests
use core_os.Base.{
  ℕ, zero, suc, ◌+◌, ◌-◌, ◌*◌, ◌/◌, ◌%◌, ◌^◌, Bool, true, false, not, ◌&&◌, ◌||◌, Option, none,
  some, if◌then◌else◌, ◌==◌, leb, ltb,
}
use core_os.Pmm.{Pmm, Memory, alloc_frame, Allocated}

-- `x | w` for a power of two `w`, and `x & !w`.
unfoldable pub set_bit : ℕ → ℕ → ℕ
set_bit x w = if x / w % 2 == 0 then x + w else x

unfoldable pub clear_bit : ℕ → ℕ → ℕ
clear_bit x w = if x / w % 2 == 0 then x else x - w

abbrev pub pte_present : ℕ
pte_present = 1

abbrev pub pte_writable : ℕ
pte_writable = 2

abbrev pub pte_user : ℕ
pte_user = 4

abbrev pub pte_huge : ℕ
pte_huge = 0x80

abbrev pub pte_nx : ℕ
pte_nx = 0x8000_0000_0000_0000

-- `(e & PTE_PRESENT) != 0` and `(e & PTE_HUGE) != 0`.
unfoldable pub is_present : ℕ → Bool
is_present e = not (e % 2 == 0)

unfoldable pub is_huge : ℕ → Bool
is_huge e = not (e / pte_huge % 2 == 0)

-- `e & !0xFFF` and `e & PTE_ADDR_MASK`.
unfoldable pub table_of : ℕ → ℕ
table_of e = e / 4096 * 4096

unfoldable pub frame_of : ℕ → ℕ
frame_of e = e % 2 ^ 52 / 4096 * 4096

-- The four indices of a virtual address.
abbrev pub pml4_index : ℕ → ℕ
pml4_index virt = virt / 2 ^ 39 % 512

abbrev pub pdpt_index : ℕ → ℕ
pdpt_index virt = virt / 2 ^ 30 % 512

abbrev pub pd_index : ℕ → ℕ
pd_index virt = virt / 2 ^ 21 % 512

abbrev pub pt_index : ℕ → ℕ
pt_index virt = virt / 2 ^ 12 % 512

-- The address of an entry of a table.
abbrev pub slot : ℕ → ℕ → ℕ
slot table i = table + i * 8

unfoldable pub write : Memory → ℕ → ℕ → Memory
write m a value b = if b == a then value else m b

pub record MapFlags : Type 0 where
  pub writable : Bool
  pub user : Bool
  pub executable : Bool

-- The allocator and the memory.
pub record Machine : Type 0 where
  pub pmm : Pmm
  pub mem : Memory

-- An entry for a new table, and one for a page.
unfoldable pub table_entry : ℕ → Bool → ℕ
table_entry table user =
    let entry = set_bit (set_bit table pte_present) pte_writable in
    if user then set_bit entry pte_user else entry

unfoldable pub page_flags : ℕ → MapFlags → ℕ
page_flags entry flags =
    let writable = if flags.writable then set_bit entry pte_writable else entry in
    let user = if flags.user then set_bit writable pte_user else writable in
    if flags.executable then user else set_bit user pte_nx

unfoldable pub page_entry : ℕ → MapFlags → ℕ
page_entry phys flags = page_flags (set_bit phys pte_present) flags

-- `alloc_table`; none where it panics.
pub alloc_table : Machine → Option (ℕ × Machine)
alloc_table s =
    let r = alloc_frame s.pmm s.mem in
    if r.addr == 0 then none else some (r.addr, record { pmm = r.pmm; mem = r.mem })

-- One level of `map_page_in`: an entry that is 0 gets a new table.
unfoldable pub ensure_table : Bool → ℕ → Machine → Option Machine
ensure_table user entry_at s =
    if s.mem entry_at == 0
    then elim (alloc_table s) [
      | none ↦ none
      | some (t, s1) ↦ some (record s1 { mem = write s1.mem entry_at (table_entry t user) })
    ]
    else some s

-- The last level, unless a huge page is in the way.
unfoldable pub map_in_table : ℕ → ℕ → ℕ → MapFlags → Machine → Machine
map_in_table pd virt phys flags s =
    let pde = s.mem (slot pd (pd_index virt)) in
    if is_huge pde then s else record s {
      mem = write s.mem (slot (table_of pde) (pt_index virt)) (page_entry phys flags);
    }

-- `map_page_in`; none where the allocation of a table panics.
unfoldable pub map_page_in : ℕ → ℕ → ℕ → MapFlags → Machine → Option Machine
map_page_in pml4 virt phys flags s =
    elim (ensure_table flags.user (slot pml4 (pml4_index virt)) s) [
      | none ↦ none
      | some s1 ↦
          (let pdpt = table_of (s1.mem (slot pml4 (pml4_index virt))) in
            elim (ensure_table flags.user (slot pdpt (pdpt_index virt)) s1) [
              | none ↦ none
              | some s2 ↦
                  (let pd = table_of (s2.mem (slot pdpt (pdpt_index virt))) in
                    elim (ensure_table flags.user (slot pd (pd_index virt)) s2) [
                      | none ↦ none
                      | some s3 ↦ some (map_in_table pd virt phys flags s3)
                    ])
            ])
    ]

-- `pte_ptr`: the address of the entry of a page, where there is a table for it.
unfoldable pub pte_ptr : Memory → ℕ → ℕ → Option ℕ
pte_ptr m pml4 virt =
    let pml4e = m (slot pml4 (pml4_index virt)) in
    let pdpte = m (slot (table_of pml4e) (pdpt_index virt)) in
    let pde = m (slot (table_of pdpte) (pd_index virt)) in
    if not (is_present pml4e)
    then none
    else if not (is_present pdpte)
    then none
    else if not (is_present pde) || is_huge pde
    then none
    else some (slot (table_of pde) (pt_index virt))

unfoldable pub translate_page : Memory → ℕ → ℕ → Option ℕ
translate_page m pml4 virt =
    let pml4e = m (slot pml4 (pml4_index virt)) in
    let pdpte = m (slot (table_of pml4e) (pdpt_index virt)) in
    let pde = m (slot (table_of pdpte) (pd_index virt)) in
    if not (is_present pml4e)
    then none
    else if not (is_present pdpte)
    then none
    else if not (is_present pde)
    then none
    else if is_huge pde
    then some (frame_of pde + virt % 0x20_0000)
    else elim (pte_ptr m pml4 virt) [
      | none ↦ none
      | some p ↦ (if is_present (m p) then some (frame_of (m p)) else none)
    ]

unfoldable pub unmap_page_in : ℕ → ℕ → Memory → Option ℕ × Memory
unmap_page_in pml4 virt m = elim (pte_ptr m pml4 virt) [
  | none ↦ (none, m)
  | some p ↦ (if is_present (m p) then (some (frame_of (m p)), write m p 0) else (none, m))
]

-- `protect_page_in`: the three permission bits are written anew.
unfoldable pub protect_page_in : ℕ → ℕ → MapFlags → Memory → Bool × Memory
protect_page_in pml4 virt flags m = elim (pte_ptr m pml4 virt) [
  | none ↦ (false, m)
  | some p ↦
      (let bare = clear_bit (clear_bit (clear_bit (m p) pte_writable) pte_user) pte_nx in
        if is_present (m p) then (true, write m p (page_flags bare flags)) else (false, m))
]
