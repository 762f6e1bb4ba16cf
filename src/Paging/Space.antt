-- ===== src/Paging/Space.antt =====
-- An address space as a tree of tables, and the walk through it.
use core_os.Base.{
  ℕ, ◌+◌, ◌/◌, ◌%◌, ◌<◌, ◌≡◌, refl, true, false, List, [], ◌∷◌, Option, none, some, arith,
  if◌then◌else◌, length, ◌⊎◌,
}
use core_os.Pmm.{Pmm, Memory, is_free}
use core_os.Pmm.Accounting.{IsCounted}
use core_os.Paging.{
  Machine, slot, is_present, is_huge, table_of, frame_of, pml4_index, pdpt_index, pd_index,
  pt_index, pte_ptr, translate_page,
}

-- The table at the end of a path of indices, the last index first. A huge page at the third level
-- is no table.
pub data Table (m : Memory) (root : ℕ) : List ℕ → ℕ → Type 0 where
  top : (u : ℕ) → u ≡ root → Table m root [] u
  below :
      (p : List ℕ) (t i u : ℕ)
      → Table m root p t
      → length p < 3
      → i < 512
      → is_present (m (slot t i)) ≡ true
      → (length p ≡ 2 → is_huge (m (slot t i)) ≡ false)
      → u ≡ table_of (m (slot t i))
      → Table m root (i ∷ p) u

-- A frame that the allocator has handed out.
pub record Owned (p : Pmm) (t : ℕ) : Type 0 where
  pub aligned : t % 4096 ≡ 0
  pub used : is_free p (t / 4096) ≡ false

-- No table is used twice, all tables are owned, an entry of a table of tables is 0 or present, and
-- the allocator's counter is right.
pub record Space (s : Machine) (root : ℕ) : Type 0 where
  pub unique : (p q : List ℕ) (t : ℕ) → Table s.mem root p t → Table s.mem root q t → p ≡ q
  pub owned : (p : List ℕ) (t : ℕ) → Table s.mem root p t → Owned s.pmm t
  pub filled :
      (p : List ℕ) (t i : ℕ)
      → Table s.mem root p t
      → length p < 3
      → i < 512
      → (s.mem (slot t i) ≡ 0) ⊎ (is_present (s.mem (slot t i)) ≡ true)
  pub counted : IsCounted s.pmm

-- The translation from each level on.
unfoldable pub walk_pt : Memory → ℕ → ℕ → Option ℕ
walk_pt m pt virt =
    let e = m (slot pt (pt_index virt)) in if is_present e then some (frame_of e) else none

unfoldable pub walk_pd : Memory → ℕ → ℕ → Option ℕ
walk_pd m pd virt =
    let e = m (slot pd (pd_index virt)) in
    if is_present e
    then (if is_huge e then some (frame_of e + virt % 0x20_0000) else walk_pt m (table_of e) virt)
    else none

unfoldable pub walk_pdpt : Memory → ℕ → ℕ → Option ℕ
walk_pdpt m pdpt virt =
    let e = m (slot pdpt (pdpt_index virt)) in
    if is_present e then walk_pd m (table_of e) virt else none

unfoldable pub walk : Memory → ℕ → ℕ → Option ℕ
walk m root virt =
    let e = m (slot root (pml4_index virt)) in
    if is_present e then walk_pdpt m (table_of e) virt else none

-- `translate_page` walks twice; once is the same.
pub translate_page-walk :
    (m : Memory) (root virt : ℕ) → translate_page m root virt ≡ walk m root virt
unfolding translate_page pte_ptr walk walk_pdpt walk_pd walk_pt
translate_page-walk m root virt = ground arith

-- The path of a page through the three upper levels.
abbrev pub path : ℕ → List ℕ
path virt = pd_index virt ∷ pdpt_index virt ∷ pml4_index virt ∷ []

-- Where there is a table for a page, the walk reads the page's entry in it.
pub walk_Table :
    (m : Memory) (root virt t : ℕ)
    → Table m root (path virt) t
    → walk m root virt ≡ walk_pt m t virt
unfolding walk walk_pdpt walk_pd
walk_Table m root virt t
      (below _ pd _ _
        (below _ pdpt _ _ (below _ r _ _ (top _ e0) _ _ p1 _ e1) _ _ p2 _ e2)
        _
        _
        p3
        small
        e3) =
    rw (← e0, p1, ← e1, p2, ← e2, p3, small refl, ← e3) refl
