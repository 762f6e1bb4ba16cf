-- ===== src/Paging/MapResult.antt =====
-- The whole of `map_page_in`: three calls of `ensure_table`, and the write of the page's entry.
use core_os.Base.{
  ℕ, ◌+◌, ◌%◌, ◌^◌, ◌<◌, ◌≡◌, refl, sym, ◌∙◌, true, [], ◌∷◌, Option, none, some, arith, ◌⊎◌, inl,
  inr, Bool-cases,
}
use core_os.Paging.{
  Machine, slot, is_present, is_huge, table_of, frame_of, pml4_index, pdpt_index, pd_index,
  MapFlags, page_entry, map_in_table, map_page_in, translate_page,
}
use core_os.Paging.Entries.{page_entry_lem}
use core_os.Paging.Space.{
  Table, top, below, Space, path, walk, walk_pdpt, walk_pd, translate_page-walk,
}
use core_os.Paging.Mapping.{ensure_table-Ensured}
use core_os.Paging.MapPage.{
  Mapped, Blocked, NoRoom, out_of_frames, next_table, set_page-Space, set_page-Table, set_page-here,
  set_page-elsewhere,
}

-- The tables on the way to a page, down to the third level.
record Way (s0 : Machine) (root virt pd : ℕ) (s : Machine) : Type 0 where
  space : Space s root
  walks : (v : ℕ) → walk s.mem root v ≡ walk s0.mem root v
  third : Table s.mem root (pdpt_index virt ∷ pml4_index virt ∷ []) pd
  present : is_present (s.mem (slot pd (pd_index virt))) ≡ true

Way-translate :
    (s0 : Machine) (root virt pd : ℕ) (s : Machine)
    → Way s0 root virt pd s
    → (v : ℕ) → translate_page s.mem root v ≡ translate_page s0.mem root v
Way-translate s0 root virt pd s w v =
    translate_page-walk s.mem root v ∙ w.walks v ∙ sym (translate_page-walk s0.mem root v)

-- A huge page on the way is what the walk finds.
walk-huge :
    (s0 : Machine) (root virt pd : ℕ) (s : Machine)
    → Way s0 root virt pd s
    → is_huge (s.mem (slot pd (pd_index virt))) ≡ true
    → walk s.mem root virt ≡ some (frame_of (s.mem (slot pd (pd_index virt))) + virt % 0x20_0000)
unfolding walk walk_pdpt walk_pd
walk-huge s0 root virt pd s w huge = elim w.third [
  | below _ pdpt _ _ (below _ r _ _ (top _ e0) _ _ p1 _ e1) _ _ p2 _ e2 ↦
      rw (← e0, p1, ← e1, p2, ← e2, w.present, huge) refl
]

-- The write of the entry, or a huge page.
map_in_table-cases :
    (s0 : Machine) (root virt pd phys : ℕ) (flags : MapFlags) (s : Machine)
    → Way s0 root virt pd s
    → phys % 4096 ≡ 0
    → phys < 2 ^ 52
    → Mapped s0 root virt phys (map_in_table pd virt phys flags s)
      ⊎ Blocked s0 root virt (map_in_table pd virt phys flags s)
unfolding map_in_table
map_in_table-cases s0 root virt pd phys flags s w aligned small =
    let pde = s.mem (slot pd (pd_index virt)) in
    elim (Bool-cases (is_huge pde)) [
      | inl huge ↦ inr (
          rw huge (record {
            space = w.space;
            huge = (
              pde,
              sym (Way-translate s0 root virt pd s w virt)
                  ∙ translate_page-walk s.mem root virt
                  ∙ walk-huge s0 root virt pd s w huge,
            );
            walks = Way-translate s0 root virt pd s w;
          }))
      | inr no_huge ↦
          (let t = table_of pde in
            let here : Table s.mem root (path virt) t =
              below _ pd _ _ w.third (omega arith) (omega arith) w.present (λ _. no_huge) refl in
            let e = page_entry phys flags in
            let entry = page_entry_lem phys flags aligned small in
            inl (
              rw no_huge (record {
                space = set_page-Space s root virt t w.space here e;
                table = (t, set_page-Table s root virt t w.space here e);
                here = λ v h.
                    set_page-here s root virt t w.space here e v h ∙ rw (entry.0, entry.1) refl;
                elsewhere = λ v h.
                    set_page-elsewhere s root virt t w.space here e v h
                    ∙ Way-translate s0 root virt pd s w v;
              })))
    ]

-- What a call of `map_page_in` does.
pub data MapOutcome (s : Machine) (root virt phys : ℕ) : Option Machine → Type 0 where
  mapped : (s1 : Machine) → Mapped s root virt phys s1 → MapOutcome s root virt phys (some s1)
  blocked : (s1 : Machine) → Blocked s root virt s1 → MapOutcome s root virt phys (some s1)
  no_room : NoRoom s → MapOutcome s root virt phys none

finish :
    (s0 : Machine) (root virt pd phys : ℕ) (flags : MapFlags) (s : Machine)
    → Way s0 root virt pd s
    → phys % 4096 ≡ 0
    → phys < 2 ^ 52
    → MapOutcome s0 root virt phys (some (map_in_table pd virt phys flags s))
finish s0 root virt pd phys flags s w aligned small =
    elim (map_in_table-cases s0 root virt pd phys flags s w aligned small) [
      | inl m ↦ mapped _ m
      | inr b ↦ blocked _ b
    ]

-- In an address space whose tables are all distinct, owned and made of entries that are 0 or
-- present, and for a frame address below 2 ^ 52 that is a multiple of 4096, map_page_in gives the
-- page of the address its frame and leaves every other translation alone, or changes no
-- translation because a huge page is in the way, or panics when fewer than 4 frames are free; what
-- it leaves is again such an address space.
pub map_page_in-MapOutcome :
    (s : Machine) (root virt phys : ℕ) (flags : MapFlags)
    → Space s root
    → phys % 4096 ≡ 0
    → phys < 2 ^ 52
    → MapOutcome s root virt phys (map_page_in root virt phys flags s)
unfolding map_page_in
map_page_in-MapOutcome s root virt phys flags space aligned small =
    elim (ensure_table-Ensured s root [] root (pml4_index virt) flags.user space (top root refl)
      (omega arith) (omega arith)) [
        | inr (n1, out) ↦
            rw (map_page_in, n1) (no_room (omega (arith, out_of_frames s.pmm space.counted out)))
        | inl (s1, d1, e1) ↦
            (let t1 =
                next_table s root [] root (pml4_index virt) s1 e1 (top root refl) (omega arith)
                  (omega arith) (λ h. absurd (omega arith)) in
              let pdpt = table_of (s1.mem (slot root (pml4_index virt))) in
              rw (map_page_in, d1)
                (elim (ensure_table-Ensured s1 root _ pdpt (pdpt_index virt) flags.user e1.space t1
                  (omega arith) (omega arith)) [
                    | inr (n2, out) ↦ rw n2 (
                        no_room
                          (omega (arith, out_of_frames s1.pmm e1.space.counted out, e1.frames)))
                    | inl (s2, d2, e2) ↦
                        (let t2 =
                            next_table s1 root _ pdpt (pdpt_index virt) s2 e2 t1 (omega arith)
                              (omega arith) (λ h. absurd (omega arith)) in
                          let pd = table_of (s2.mem (slot pdpt (pdpt_index virt))) in
                          rw d2
                            (elim (ensure_table-Ensured s2 root _ pd (pd_index virt) flags.user
                              e2.space t2 (omega arith) (omega arith)) [
                                | inr (n3, out) ↦ rw n3 (
                                    no_room (
                                      omega (
                                        arith,
                                        out_of_frames s2.pmm e2.space.counted out,
                                        e1.frames,
                                        e2.frames,
                                      )))
                                | inl (s3, d3, e3) ↦ rw d3 (
                                    finish s root virt pd phys flags s3
                                      (record {
                                        space = e3.space;
                                        walks = λ v. e3.walks v ∙ e2.walks v ∙ e1.walks v;
                                        third = e3.keeps _ pd t2;
                                        present = e3.present;
                                      })
                                      aligned small)
                              ]))
                  ]))
      ]
