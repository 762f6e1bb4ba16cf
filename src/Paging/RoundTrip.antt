-- ===== src/Paging/RoundTrip.antt =====
-- A page that is mapped and unmapped again.
use core_os.Base.{
  ℕ, ◌%◌, ◌^◌, ◌<◌, ◌≡◌, refl, sym, ◌∙◌, true, Option, none, some, arith, inl, inr, Bool-cases, ◌/◌,
  ==_iff,
}
use mathlib.Core.Path.{subst}
use core_os.Paging.{
  Machine, pml4_index, pdpt_index, pd_index, MapFlags, map_page_in, translate_page, unmap_page_in,
}
use core_os.Pmm.{Memory}
use core_os.Paging.Space.{Space, walk, walk_pdpt, walk_pd, walk_pt, translate_page-walk}
use core_os.Paging.MapPage.{same_page, same_page-path, Mapped}
use core_os.Paging.MapResult.{MapOutcome, mapped, blocked, map_page_in-MapOutcome}
use core_os.Paging.Unmap.{
  UnmapOutcome, unmapped, no_page, pte_ptr-Table, unmap_page_in-UnmapOutcome,
}

same_page_refl : (v : ℕ) → same_page v v ≡ true
same_page_refl v = (==_iff _ _).1 refl

-- A page without a frame has none at any of its addresses.
walk-same_page :
    (m : Memory) (root v w : ℕ) → same_page v w ≡ true → walk m root w ≡ none → walk m root v ≡ none
unfolding walk walk_pdpt walk_pd walk_pt
walk-same_page m root v w same absent =
    let page : v / 4096 % 2 ^ 36 ≡ w / 4096 % 2 ^ 36 = (==_iff _ _).0 same in
    let a : pml4_index v ≡ pml4_index w = omega arith in
    let b : pdpt_index v ≡ pdpt_index w = omega arith in
    let c : pd_index v ≡ pd_index w = omega arith in
    rw (a, b, c, (same_page-path v w same).1) (ground (arith, absent))

-- After the call that maps the page, unmapping it undoes it.
unmap_page_in-Mapped :
    (s s1 : Machine) (root virt phys : ℕ)
    → translate_page s.mem root virt ≡ none
    → Mapped s root virt phys s1
    → ((unmap_page_in root virt s1.mem).0 ≡ some phys)
      × ((v : ℕ)
          → translate_page (unmap_page_in root virt s1.mem).1 root v ≡ translate_page s.mem root v)
unmap_page_in-Mapped s s1 root virt phys absent d =
    go (unmap_page_in-UnmapOutcome s1 root virt d.space)
  where
    go :
        {r : Option ℕ × Memory}
        → UnmapOutcome s1 root virt r
        → (r.0 ≡ some phys) × ((v : ℕ) → translate_page r.1 root v ≡ translate_page s.mem root v)
    go (no_page (inl gone)) = absurd (cc (gone, d.here virt (same_page_refl virt)))
    go (no_page (inr (_, _, gone))) =
        absurd (cc (gone, pte_ptr-Table s1.mem root virt d.table.0 d.table.1))
    go (unmapped f m frame space here elsewhere) = (
      sym frame ∙ d.here virt (same_page_refl virt),
      λ v. elim (Bool-cases (same_page v virt)) [
        | inr other ↦ elsewhere v other ∙ d.elsewhere v other
        | inl same ↦
            here v same
            ∙ sym (
                translate_page-walk s.mem root v
                ∙ walk-same_page s.mem root v virt same
                    (sym (translate_page-walk s.mem root virt) ∙ absent))
      ],
    )

-- In an address space whose tables are all distinct, owned and made of entries that are 0 or
-- present, when map_page_in of an aligned frame below 2 ^ 52 at an untranslated address does not
-- panic, unmap_page_in returns the frame and every translation is again what it was.
pub unmap_page_in-map_page_in :
    (s s1 : Machine) (root virt phys : ℕ) (flags : MapFlags)
    → Space s root
    → phys % 4096 ≡ 0
    → phys < 2 ^ 52
    → translate_page s.mem root virt ≡ none
    → map_page_in root virt phys flags s ≡ some s1
    → ((unmap_page_in root virt s1.mem).0 ≡ some phys)
      × ((v : ℕ)
          → translate_page (unmap_page_in root virt s1.mem).1 root v ≡ translate_page s.mem root v)
unmap_page_in-map_page_in s s1 root virt phys flags space aligned small absent made = go (
    subst (MapOutcome s root virt phys) made
      (map_page_in-MapOutcome s root virt phys flags space aligned small))
  where
    go :
        MapOutcome s root virt phys (some s1)
        → ((unmap_page_in root virt s1.mem).0 ≡ some phys)
          × ((v : ℕ)
              → translate_page (unmap_page_in root virt s1.mem).1 root v
                ≡ translate_page s.mem root v)
    go (mapped s1 d) = unmap_page_in-Mapped s s1 root virt phys absent d
    go (blocked s1 d) = absurd (cc (absent, d.huge.1))
