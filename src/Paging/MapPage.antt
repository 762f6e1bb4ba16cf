-- ===== src/Paging/MapPage.antt =====
-- `map_page_in` gives one page its frame and leaves every other translation alone.
use core_os.Base.{
  ℕ, ◌+◌, ◌/◌, ◌%◌, ◌^◌, ◌≤◌, ◌<◌, ◌≡◌, ◌≢◌, refl, sym, ap, ◌∙◌, Bool, true, false, List, ◌∷◌, some,
  arith, length, ◌⊎◌, inl, inr, ℕ_discrete, ◌==◌, ==_iff, get_or,
}
use core_os.Base.Count.{count-le_one}
use core_os.Pmm.{Pmm, is_free, max_frames}
use core_os.Pmm.Accounting.{IsCounted}
use core_os.Paging.{
  Machine, slot, is_huge, table_of, frame_of, write, pml4_index, pdpt_index, pd_index, pt_index,
  translate_page,
}
use core_os.Paging.Space.{Table, below, Space, path, translate_page-walk}
use core_os.Paging.Mapping.{Ensured, OutOfFrames}
use core_os.Paging.Leaf.{page_of, Table-written, written-Table, walk-here, walk-elsewhere, shallow}

-- The two addresses lie in one page, of the 48 bits that are translated.
abbrev pub same_page : ℕ → ℕ → Bool
same_page v w = v / 4096 % 2 ^ 36 == w / 4096 % 2 ^ 36

pub same_page-path :
    (v w : ℕ) → same_page v w ≡ true → (path v ≡ path w) × (pt_index v ≡ pt_index w)
same_page-path v w h =
    let e : v / 4096 % 2 ^ 36 ≡ w / 4096 % 2 ^ 36 = (==_iff _ _).0 h in
    let a : pml4_index v ≡ pml4_index w = omega arith in
    let b : pdpt_index v ≡ pdpt_index w = omega arith in
    let c : pd_index v ≡ pd_index w = omega arith in
    let d : pt_index v ≡ pt_index w = omega arith in (cc, d)

other_page-path : (v w : ℕ) → same_page v w ≡ false → (path v ≢ path w) ⊎ (pt_index v ≢ pt_index w)
other_page-path v w h = elim (ℕ_discrete (pt_index v) (pt_index w)) [
  | no ne ↦ inr ne
  | yes d ↦ inl (λ e.
      let a : pml4_index v ≡ pml4_index w = ap (λ l. get_or l 2 0) e in
      let b : pdpt_index v ≡ pdpt_index w = ap (λ l. get_or l 1 0) e in
      let c : pd_index v ≡ pd_index w = ap (λ l. get_or l 0 0) e in
      let same : v / 4096 % 2 ^ 36 ≡ w / 4096 % 2 ^ 36 = omega arith in cc (h, (==_iff _ _).1 same))
]

-- The page has its frame, and every other page is translated as before.
pub record Mapped (s : Machine) (root virt phys : ℕ) (s1 : Machine) : Type 0 where
  pub space : Space s1 root
  pub table : (t : ℕ) × Table s1.mem root (path virt) t
  pub here : (v : ℕ) → same_page v virt ≡ true → translate_page s1.mem root v ≡ some phys
  pub elsewhere :
      (v : ℕ)
      → same_page v virt ≡ false
      → translate_page s1.mem root v ≡ translate_page s.mem root v

-- A huge page is in the way, and every page is translated as before.
pub record Blocked (s : Machine) (root virt : ℕ) (s1 : Machine) : Type 0 where
  pub space : Space s1 root
  pub huge : (e : ℕ) × (translate_page s.mem root virt ≡ some (frame_of e + virt % 0x20_0000))
  pub walks : (v : ℕ) → translate_page s1.mem root v ≡ translate_page s.mem root v

-- Nothing was mapped, because the tables would take more frames than were free.
abbrev pub NoRoom : Machine → Type 0
NoRoom s = s.pmm.free_frames < 4

pub out_of_frames : (p : Pmm) → IsCounted p → OutOfFrames p → p.free_frames ≤ 1
out_of_frames p c out = omega (arith, c.counted, count-le_one (is_free p) max_frames out)

-- The tables above a page: each of the three levels is there once the calls of `ensure_table` are done.
module _ (s : Machine) (root : ℕ) (p : List ℕ) (t i : ℕ) (s1 : Machine) (e : Ensured s root t i s1)
    (here : Table s.mem root p t) (index : i < 512) where
  pub next_table :
      length p < 3
      → (length p ≡ 2 → is_huge (s1.mem (slot t i)) ≡ false)
      → Table s1.mem root (i ∷ p) (table_of (s1.mem (slot t i)))
  next_table short small = below p t i _ (e.keeps p t here) short index e.present small refl

-- The last level, where the table of the page is there: the state after the write is a space.
module _ (s : Machine) (root virt t : ℕ) (space : Space s root)
    (here : Table s.mem root (path virt) t) (e : ℕ) where
  abbrev pub set_page : Machine
  set_page = record s { mem = write s.mem (slot t (pt_index virt)) e }

  aligned_tables : (q : List ℕ) (u : ℕ) → Table s.mem root q u → u % 4096 ≡ 0
  aligned_tables q u b = (space.owned q u b).aligned

  back : (q : List ℕ) (u : ℕ) → Table set_page.mem root q u → Table s.mem root q u
  back =
      written-Table s.mem root (path virt) t (pt_index virt) e here refl (omega arith) space.unique
        aligned_tables

  pub set_page-Table : Table set_page.mem root (path virt) t
  set_page-Table =
      Table-written s.mem root (path virt) t (pt_index virt) e here refl (omega arith) space.unique
        aligned_tables (path virt) t here

  pub set_page-Space : Space set_page root
  set_page-Space = record {
    unique = λ p q u a b. space.unique p q u (back p u a) (back q u b);
    owned = λ p u a. space.owned p u (back p u a);
    filled = λ p u j a short l.
        let old = back p u a in
        let same =
          shallow s.mem root (path virt) t (pt_index virt) e here refl (omega arith) space.unique
            aligned_tables p u j old l short in
        rw same (space.filled p u j old short l);
    counted = space.counted;
  }

  pub set_page-here :
      (v : ℕ) → same_page v virt ≡ true → translate_page set_page.mem root v ≡ page_of e
  set_page-here v h =
      let at = same_page-path v virt h in
      translate_page-walk set_page.mem root v
      ∙ walk-here s.mem root (path virt) t (pt_index virt) e here refl (omega arith) space.unique
          aligned_tables v at.0 at.1

  pub set_page-elsewhere :
      (v : ℕ)
      → same_page v virt ≡ false
      → translate_page set_page.mem root v ≡ translate_page s.mem root v
  set_page-elsewhere v h =
      translate_page-walk set_page.mem root v
      ∙ walk-elsewhere s.mem root (path virt) t (pt_index virt) e here refl (omega arith)
          space.unique aligned_tables v (other_page-path v virt h)
      ∙ sym (translate_page-walk s.mem root v)
