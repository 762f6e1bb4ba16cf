-- ===== src/Paging/Tests.antt =====
-- Runs of the page tables, and the theorems about them at a concrete address space: an empty table
-- in frame 1, and five free frames from frame 2 on.
use core_os.Base.{
  ℕ, ◌+◌, ◌<◌, ◌≡◌, refl, sym, ◌∙◌, true, false, List, [], ◌∷◌, Option, none, some, arith, inl,
  ◌==◌,
}
use core_os.Pmm.{Pmm, Memory, max_frames, new, set_free, is_free}
use core_os.Pmm.Bitmap.{is_free-new, is_free-set_free}
use core_os.Pmm.Accounting.{IsCounted, new-IsCounted, give-IsCounted}
use core_os.Paging.{
  pte_ptr, is_huge, table_of, frame_of, write, page_flags, set_bit, clear_bit, Machine, MapFlags,
  slot, is_present, map_page_in, translate_page, unmap_page_in, protect_page_in,
}
use core_os.Paging.Entries.{is_present-zero}
use core_os.Paging.Space.{Table, top, below, Space}
use core_os.Paging.MapResult.{MapOutcome, no_room, map_page_in-MapOutcome}
use core_os.Paging.Unmap.{UnmapOutcome, unmap_page_in-UnmapOutcome}
use core_os.Paging.Protect.{ProtectOutcome, protect_page_in-ProtectOutcome}
use core_os.Paging.RoundTrip.{unmap_page_in-map_page_in}

abbrev give : Pmm → ℕ → Pmm
give p f = record (set_free p f) { free_frames = p.free_frames + 1; total_frames = 5 }

abbrev free_2 : Pmm
free_2 = give new 2

abbrev free_3 : Pmm
free_3 = give free_2 3

abbrev free_4 : Pmm
free_4 = give free_3 4

abbrev free_5 : Pmm
free_5 = give free_4 5

abbrev start_pmm : Pmm
start_pmm = give free_5 6

free_2-IsCounted : IsCounted free_2
free_2-IsCounted = give-IsCounted new 2 5 new-IsCounted (omega arith) (is_free-new 2 (omega arith))

-- A frame stays used when another one is given back.
still_used :
    (p : Pmm) (f g : ℕ)
    → IsCounted p
    → f < max_frames
    → (f == g) ≡ false
    → is_free p g ≡ false
    → is_free (give p f) g ≡ false
unfolding is_free
still_used p f g c l ne used = is_free-set_free p f g c.whole l ∙ rw ne used

used_2 : (g : ℕ) → (2 == g) ≡ false → g < max_frames → is_free free_2 g ≡ false
used_2 g ne l = still_used new 2 g new-IsCounted (omega arith) ne (is_free-new g l)

free_3-IsCounted : IsCounted free_3
free_3-IsCounted =
    give-IsCounted free_2 3 5 free_2-IsCounted (omega arith) (used_2 3 refl (omega arith))

used_3 : (g : ℕ) → (3 == g) ≡ false → (2 == g) ≡ false → g < max_frames → is_free free_3 g ≡ false
used_3 g a b l = still_used free_2 3 g free_2-IsCounted (omega arith) a (used_2 g b l)

free_4-IsCounted : IsCounted free_4
free_4-IsCounted =
    give-IsCounted free_3 4 5 free_3-IsCounted (omega arith) (used_3 4 refl refl (omega arith))

used_4 :
    (g : ℕ)
    → (4 == g) ≡ false
    → (3 == g) ≡ false
    → (2 == g) ≡ false
    → g < max_frames
    → is_free free_4 g ≡ false
used_4 g z a b l = still_used free_3 4 g free_3-IsCounted (omega arith) z (used_3 g a b l)

free_5-IsCounted : IsCounted free_5
free_5-IsCounted =
    give-IsCounted free_4 5 5 free_4-IsCounted (omega arith) (used_4 5 refl refl refl (omega arith))

start-IsCounted : IsCounted start_pmm
start-IsCounted = give-IsCounted free_5 6 5 free_5-IsCounted (omega arith) (
    still_used free_4 5 6 free_4-IsCounted (omega arith) refl
      (used_4 6 refl refl refl (omega arith)))

root_used : is_free start_pmm 1 ≡ false
root_used = still_used free_5 6 1 free_5-IsCounted (omega arith) refl (
    still_used free_4 5 1 free_4-IsCounted (omega arith) refl
      (used_4 1 refl refl refl (omega arith)))

abbrev no_memory : Memory
no_memory a = 0

abbrev root : ℕ
root = 4096

abbrev start : Machine
start = record { pmm = start_pmm; mem = no_memory }

only_root : (p : List ℕ) (t : ℕ) → Table no_memory root p t → (p ≡ []) × (t ≡ root)
only_root [] t (top _ e) = (refl, e)
only_root (i ∷ p) t (below _ _ _ _ _ _ _ present _ _) = absurd (cc (present, is_present-zero))

start-Space : Space start root
start-Space = record {
  unique = λ p q t a b. (only_root p t a).0 ∙ sym (only_root q t b).0;
  owned = λ p t a. rw (only_root p t a).1 (record { aligned = refl; used = root_used });
  filled = λ p t i a l k. inl refl;
  counted = start-IsCounted;
}

abbrev virt : ℕ
virt = 0x4000_1234

abbrev flags : MapFlags
flags = record { writable = true; user = true; executable = false }

abbrev or_start : Option Machine → Machine
or_start none = start
or_start (some s) = s

abbrev filled_space : Machine
filled_space = or_start (map_page_in root virt 0x7000 flags start)

-- There is room for the tables.
has_room : (r : Option Machine) → MapOutcome start root virt 0x7000 r → r ≡ some (or_start r)
has_room none (no_room h) = absurd (omega (arith, h))
has_room (some s) o = refl

absent : translate_page no_memory root virt ≡ none
unfolding translate_page pte_ptr is_present
absent = refl

-- One page at 0x40001000, its frame at 0x7000, and a huge page at 0x200000.
abbrev two_pages : Memory
two_pages =
    write
      (write
        (write (write (write no_memory (slot root 0) 0x2007) (slot 0x2000 1) 0x3007) (slot 0x3000 0)
          0x4007)
        (slot 0x4000 1) 0x7007)
      (slot 0x2000 0) 0x5007

translate_page_runs :
    (translate_page two_pages root virt ≡ some 0x7000)
    × (translate_page two_pages root 0x4000_2000 ≡ none)
    × (translate_page (write two_pages (slot 0x5000 1) 0x60_0087) root 0x20_1234 ≡ some 0x60_1234)
unfolding translate_page pte_ptr is_present is_huge table_of frame_of write
translate_page_runs = (refl, refl, refl)

unmap_page_in_run :
    ((unmap_page_in root virt two_pages).0 ≡ some 0x7000)
    × ((unmap_page_in root virt two_pages).1 (slot 0x4000 1) ≡ 0)
unfolding unmap_page_in pte_ptr is_present is_huge table_of frame_of write
unmap_page_in_run = (refl, refl)

protect_page_in_run :
    (protect_page_in root virt flags two_pages).1 (slot 0x4000 1) ≡ 0x8000_0000_0000_7007
unfolding protect_page_in pte_ptr is_present is_huge table_of write page_flags set_bit clear_bit
protect_page_in_run = refl

map_page_in-MapOutcome_example :
    MapOutcome start root virt 0x7000 (map_page_in root virt 0x7000 flags start)
map_page_in-MapOutcome_example =
    map_page_in-MapOutcome start root virt 0x7000 flags start-Space refl (omega arith)

unmap_page_in-UnmapOutcome_example :
    UnmapOutcome start root virt (unmap_page_in root virt no_memory)
unmap_page_in-UnmapOutcome_example = unmap_page_in-UnmapOutcome start root virt start-Space

protect_page_in-ProtectOutcome_example :
    ProtectOutcome start root virt flags (protect_page_in root virt flags no_memory)
protect_page_in-ProtectOutcome_example =
    protect_page_in-ProtectOutcome start root virt flags start-Space

unmap_page_in-map_page_in_example :
    ((unmap_page_in root virt filled_space.mem).0 ≡ some 0x7000)
    × ((v : ℕ)
        → translate_page (unmap_page_in root virt filled_space.mem).1 root v
          ≡ translate_page no_memory root v)
unmap_page_in-map_page_in_example =
    unmap_page_in-map_page_in start filled_space root virt 0x7000 flags start-Space refl
      (omega arith) absent
      (has_room (map_page_in root virt 0x7000 flags start)
        (map_page_in-MapOutcome start root virt 0x7000 flags start-Space refl (omega arith)))
