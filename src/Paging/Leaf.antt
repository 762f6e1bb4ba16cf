-- ===== src/Paging/Leaf.antt =====
-- Writing the entry of one page: no table moves, and only the translation of that page changes.
use core_os.Base.{
  ℕ, ◌%◌, ◌<◌, ◌≡◌, ◌≢◌, refl, sym, ap, ◌∙◌, List, [], ◌∷◌, Option, none, some, arith,
  if◌then◌else◌, length, ◌⊎◌, inl, inr, Bool-cases,
}
use core_os.Pmm.{Memory}
use core_os.Paging.{
  slot, is_present, is_huge, table_of, frame_of, write, pml4_index, pdpt_index, pd_index, pt_index,
}
use core_os.Paging.Entries.{slot_inj, write_same, write_other}
use core_os.Paging.Space.{path, walk_Table, Table, top, below, walk_pt, walk_pd, walk_pdpt, walk}

-- What an entry of a page says.
abbrev pub page_of : ℕ → Option ℕ
page_of e = if is_present e then some (frame_of e) else none

module _ (m : Memory) (root : ℕ) (p : List ℕ) (t i e : ℕ) (here : Table m root p t)
    (deep : length p ≡ 3) (index : i < 512)
    (unique : (p q : List ℕ) (t : ℕ) → Table m root p t → Table m root q t → p ≡ q)
    (aligned : (q : List ℕ) (u : ℕ) → Table m root q u → u % 4096 ≡ 0) where
  abbrev pub written : Memory
  written = write m (slot t i) e

  untouched :
      (q : List ℕ) (u j : ℕ)
      → Table m root q u
      → j < 512
      → q ≢ p
      → written (slot u j) ≡ m (slot u j)
  untouched q u j b l ne = write_other m (slot t i) (slot u j) e (λ h.
      ne (
        unique q p u b (rw (slot_inj u t j i (aligned q u b) (aligned p t here) l index h).0 here)))

  pub shallow :
      (q : List ℕ) (u j : ℕ)
      → Table m root q u
      → j < 512
      → length q < 3
      → written (slot u j) ≡ m (slot u j)
  shallow q u j b l k = untouched q u j b l (λ h. omega (arith, ap length h))

  pub Table-written : (q : List ℕ) (u : ℕ) → Table m root q u → Table written root q u
  Table-written [] u (top _ h) = top u h
  Table-written (j ∷ q) u (below _ v _ _ b l k present small h) =
      let same = shallow q v j b k l in
      below q v j u (Table-written q v b) l k (rw same present) (λ d. rw same (small d))
        (h ∙ ap table_of (sym same))

  pub written-Table : (q : List ℕ) (u : ℕ) → Table written root q u → Table m root q u
  written-Table [] u (top _ h) = top u h
  written-Table (j ∷ q) u (below _ v _ _ b l k present small h) =
      let old = written-Table q v b in
      let same = shallow q v j old k l in
      below q v j u old l k (rw (← same) present) (λ d. rw (← same) (small d))
        (h ∙ ap table_of same)

  -- The three upper levels read what they read before.
  pub walk_pt-written :
      (q : List ℕ) (u v : ℕ)
      → Table m root q u
      → (q ≢ p) ⊎ (pt_index v ≢ i)
      → walk_pt written u v ≡ walk_pt m u v
  unfolding walk_pt
  walk_pt-written q u v b (inl ne) = rw (untouched q u (pt_index v) b (omega arith) ne) refl
  walk_pt-written q u v b (inr ne) =
      rw
        (write_other m (slot t i) (slot u (pt_index v)) e (λ h.
          ne
            (slot_inj u t (pt_index v) i (aligned q u b) (aligned p t here) (omega arith) index
              h).1))
        refl

  pub walk_pt-here : (v : ℕ) → pt_index v ≡ i → walk_pt written t v ≡ page_of e
  unfolding walk_pt
  walk_pt-here v h = rw (h, write_same m (slot t i) e) refl

  -- The page whose entry was written.
  pub walk-here : (v : ℕ) → path v ≡ p → pt_index v ≡ i → walk written root v ≡ page_of e
  walk-here v h k =
      walk_Table written root v t (Table-written (path v) t (rw h here)) ∙ walk_pt-here v k

  walk_pd-elsewhere :
      (q : List ℕ) (u v : ℕ)
      → Table m root q u
      → length q ≡ 2
      → (pd_index v ∷ q ≢ p) ⊎ (pt_index v ≢ i)
      → walk_pd written u v ≡ walk_pd m u v
  unfolding walk_pd
  walk_pd-elsewhere q u v b two ne =
      let same = shallow q u (pd_index v) b (omega arith) (omega arith) in
      rw same (elim (Bool-cases (is_present (m (slot u (pd_index v))))) [
        | inr absent ↦ rw absent refl
        | inl present ↦ elim (Bool-cases (is_huge (m (slot u (pd_index v))))) [
          | inl huge ↦ rw (present, huge) refl
          | inr small ↦
              rw (present, small)
                (walk_pt-written (pd_index v ∷ q) (table_of (m (slot u (pd_index v)))) v
                  (below q u (pd_index v) _ b (omega arith) (omega arith) present (λ _. small) refl)
                  ne)
        ]
      ])

  walk_pdpt-elsewhere :
      (q : List ℕ) (u v : ℕ)
      → Table m root q u
      → length q ≡ 1
      → (pd_index v ∷ pdpt_index v ∷ q ≢ p) ⊎ (pt_index v ≢ i)
      → walk_pdpt written u v ≡ walk_pdpt m u v
  unfolding walk_pdpt
  walk_pdpt-elsewhere q u v b one ne =
      let same = shallow q u (pdpt_index v) b (omega arith) (omega arith) in
      rw same (elim (Bool-cases (is_present (m (slot u (pdpt_index v))))) [
        | inr absent ↦ rw absent refl
        | inl present ↦ rw present (
            walk_pd-elsewhere (pdpt_index v ∷ q) (table_of (m (slot u (pdpt_index v)))) v
              (below q u (pdpt_index v) _ b (omega arith) (omega arith) present
                (λ h. absurd (omega arith)) refl)
              (omega arith) ne)
      ])

  -- Every other page.
  pub walk-elsewhere :
      (v : ℕ) → (path v ≢ p) ⊎ (pt_index v ≢ i) → walk written root v ≡ walk m root v
  unfolding walk
  walk-elsewhere v ne =
      let same = shallow [] root (pml4_index v) (top root refl) (omega arith) (omega arith) in
      rw same (elim (Bool-cases (is_present (m (slot root (pml4_index v))))) [
        | inr absent ↦ rw absent refl
        | inl present ↦ rw present (
            walk_pdpt-elsewhere (pml4_index v ∷ []) (table_of (m (slot root (pml4_index v)))) v
              (below [] root (pml4_index v) _ (top root refl) (omega arith) (omega arith) present
                (λ h. absurd (omega arith)) refl)
              refl ne)
      ])
