-- ===== src/Paging/Unmap.antt =====
-- `unmap_page_in`, through the entry that `pte_ptr` finds.
use core_os.Base.{
  ℕ, ◌+◌, ◌%◌, ◌≡◌, refl, ◌∙◌, true, false, Option, none, some, arith, ◌⊎◌, inl, inr, Bool-cases,
}
use core_os.Pmm.{Memory}
use core_os.Paging.{
  Machine, slot, is_present, is_huge, table_of, frame_of, pml4_index, pdpt_index, pd_index,
  pt_index, pte_ptr, translate_page, unmap_page_in,
}
use core_os.Paging.Entries.{is_present-zero}
use core_os.Paging.Space.{
  Table, top, below, Space, path, walk, walk_pdpt, walk_pd, walk_pt, walk_Table,
  translate_page-walk,
}
use core_os.Paging.Leaf.{page_of}
use core_os.Paging.MapPage.{
  same_page, same_page-path, set_page-Space, set_page-here, set_page-elsewhere,
}

-- The address is in no page of 4096 bytes: it is not mapped, or in a huge page.
abbrev pub NoPage : Memory → ℕ → ℕ → Type 0
NoPage m root virt =
    (translate_page m root virt ≡ none)
    ⊎ ((e : ℕ) × (translate_page m root virt ≡ some (frame_of e + virt % 0x20_0000))
        × (pte_ptr m root virt ≡ none))

-- What `pte_ptr` finds.
pub data Entry (m : Memory) (root virt : ℕ) : Option ℕ → Type 0 where
  found : (t : ℕ) → Table m root (path virt) t → Entry m root virt (some (slot t (pt_index virt)))
  missing : NoPage m root virt → Entry m root virt none

walk-none : (m : Memory) (root virt : ℕ) → walk m root virt ≡ none → NoPage m root virt
walk-none m root virt h = inl (translate_page-walk m root virt ∙ h)

pub pte_ptr-Entry : (m : Memory) (root virt : ℕ) → Entry m root virt (pte_ptr m root virt)
unfolding pte_ptr walk walk_pdpt walk_pd
pte_ptr-Entry m root virt =
    let pml4e = m (slot root (pml4_index virt)) in
    let pdpte = m (slot (table_of pml4e) (pdpt_index virt)) in
    let pde = m (slot (table_of pdpte) (pd_index virt)) in
    elim (Bool-cases (is_present pml4e)) [
      | inr absent ↦ rw (pte_ptr, absent) (missing (walk-none m root virt (rw (walk, absent) refl)))
      | inl p1 ↦ elim (Bool-cases (is_present pdpte)) [
        | inr absent ↦
            rw (pte_ptr, p1, absent) (missing (walk-none m root virt (rw (walk, p1, absent) refl)))
        | inl p2 ↦ elim (Bool-cases (is_present pde)) [
          | inr absent ↦
              rw (pte_ptr, p1, p2, absent)
                (missing (walk-none m root virt (rw (walk, p1, p2, absent) refl)))
          | inl p3 ↦ elim (Bool-cases (is_huge pde)) [
            | inl huge ↦
                rw (pte_ptr, p1, p2, p3, huge)
                  (missing (
                    inr (
                      pde,
                      translate_page-walk m root virt ∙ rw (walk, p1, p2, p3, huge) refl,
                      rw (pte_ptr, p1, p2, p3, huge) refl,
                    )))
            | inr small ↦
                rw (pte_ptr, p1, p2, p3, small)
                  (found (table_of pde) (
                    below _ (table_of pdpte) _ _
                      (below _ (table_of pml4e) _ _
                        (below _ root _ _ (top root refl) (omega arith) (omega arith) p1
                          (λ h. absurd (omega arith)) refl)
                        (omega arith) (omega arith) p2 (λ h. absurd (omega arith)) refl)
                      (omega arith) (omega arith) p3 (λ _. small) refl))
          ]
        ]
      ]
    ]

-- A page with a table has the entry's frame.
pub translate_page-Table :
    (m : Memory) (root virt t : ℕ)
    → Table m root (path virt) t
    → translate_page m root virt ≡ page_of (m (slot t (pt_index virt)))
unfolding walk_pt
translate_page-Table m root virt t b = translate_page-walk m root virt ∙ walk_Table m root virt t b

-- Two addresses of one page are translated alike, where the page has a table.
pub same_page-translate :
    (m : Memory) (root virt t v : ℕ)
    → Table m root (path virt) t
    → same_page v virt ≡ true
    → translate_page m root v ≡ page_of (m (slot t (pt_index virt)))
same_page-translate m root virt t v here same =
    let at = same_page-path v virt same in
    translate_page-Table m root v t (rw at.0 here) ∙ rw at.1 refl

pub pte_ptr-Table :
    (m : Memory) (root virt t : ℕ)
    → Table m root (path virt) t
    → pte_ptr m root virt ≡ some (slot t (pt_index virt))
unfolding pte_ptr
pte_ptr-Table m root virt t
      (below _ pd _ _
        (below _ pdpt _ _ (below _ r _ _ (top _ e0) _ _ p1 _ e1) _ _ p2 _ e2)
        _
        _
        p3
        small
        e3) =
    rw (← e0, p1, ← e1, p2, ← e2, p3, small refl, ← e3) refl

-- What `unmap_page_in` does: the page is gone and no other has changed, or there was no page.
pub data UnmapOutcome (s : Machine) (root virt : ℕ) : Option ℕ × Memory → Type 0 where
  unmapped :
      (f : ℕ) (m : Memory)
      → translate_page s.mem root virt ≡ some f
      → Space (record s { mem = m }) root
      → ((v : ℕ) → same_page v virt ≡ true → translate_page m root v ≡ none)
      → ((v : ℕ) → same_page v virt ≡ false → translate_page m root v ≡ translate_page s.mem root v)
      → UnmapOutcome s root virt (some f, m)
  no_page : NoPage s.mem root virt → UnmapOutcome s root virt (none, s.mem)

-- In an address space whose tables are all distinct, owned and made of entries that are 0 or
-- present, unmap_page_in returns the frame of the page, after which the page has no translation
-- and every other one is as before, or it changes nothing because the address is untranslated or
-- in a huge page.
pub unmap_page_in-UnmapOutcome :
    (s : Machine) (root virt : ℕ)
    → Space s root
    → UnmapOutcome s root virt (unmap_page_in root virt s.mem)
unfolding unmap_page_in
unmap_page_in-UnmapOutcome s root virt space =
    go (pte_ptr s.mem root virt) refl (pte_ptr-Entry s.mem root virt)
  where
    go :
        (r : Option ℕ)
        → pte_ptr s.mem root virt ≡ r
        → Entry s.mem root virt r
        → UnmapOutcome s root virt (unmap_page_in root virt s.mem)
    go _ e (missing n) = rw (unmap_page_in, e) (no_page n)
    go _ e (found t here) = elim (Bool-cases (is_present (s.mem (slot t (pt_index virt))))) [
      | inr absent ↦
          rw (unmap_page_in, e, absent)
            (no_page (inl (translate_page-Table s.mem root virt t here ∙ rw absent refl)))
      | inl present ↦
          rw (unmap_page_in, e, present)
            (unmapped _ _ (translate_page-Table s.mem root virt t here ∙ rw present refl)
              (set_page-Space s root virt t space here 0)
              (λ v h. set_page-here s root virt t space here 0 v h ∙ rw is_present-zero refl)
              (set_page-elsewhere s root virt t space here 0))
    ]
