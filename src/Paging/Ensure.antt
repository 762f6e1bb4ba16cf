-- ===== src/Paging/Ensure.antt =====
-- A new table in an empty entry: the space stays a space, and no translation changes.
use core_os.Base.{
  ℕ, ◌/◌, ◌%◌, ◌<◌, ◌≡◌, ◌≢◌, refl, sym, ap, ◌∙◌, List, [], ◌∷◌, none, arith, length, ◌⊎◌, inl, inr,
  ℕ_discrete, Bool-cases,
}
use core_os.Pmm.{Memory}
use core_os.Paging.{slot, is_present, is_huge, table_of, pml4_index, pdpt_index, pd_index, pt_index}
use core_os.Paging.Entries.{TableEntry, is_present-zero, slot_inj}
use core_os.Paging.Space.{Table, top, below, walk_pt, walk_pd, walk_pdpt, walk}

-- Memory `n` is `m` with a table of zeroes at `f`, to which the entry at `a` points.
pub record Grown (m n : Memory) (a f : ℕ) : Type 0 where
  pub aligned : f % 4096 ≡ 0
  pub was : m a ≡ 0
  pub entry : TableEntry f (n a)
  pub fresh : (j : ℕ) → j < 512 → n (slot f j) ≡ 0
  pub same : (b : ℕ) → b ≢ a → b / 4096 ≢ f / 4096 → n b ≡ m b

module _ (m n : Memory) (root : ℕ) (p : List ℕ) (t i f : ℕ) (here : Table m root p t)
    (short : length p < 3) (index : i < 512) (g : Grown m n (slot t i) f)
    (unique : (p q : List ℕ) (t : ℕ) → Table m root p t → Table m root q t → p ≡ q)
    (aligned : (q : List ℕ) (u : ℕ) → Table m root q u → u % 4096 ≡ 0)
    (apart : (q : List ℕ) (u : ℕ) → Table m root q u → u ≢ f) where
  -- An entry of an old table is as it was, unless it is the one that was written.
  old_entry :
      (q : List ℕ) (u j : ℕ)
      → Table m root q u
      → j < 512
      → (n (slot u j) ≡ m (slot u j)) ⊎ ((q ≡ p) × (u ≡ t) × (j ≡ i))
  old_entry q u j b l = elim (ℕ_discrete (slot u j) (slot t i)) [
    | yes e ↦
        (let parts = slot_inj u t j i (aligned q u b) (aligned p t here) l index e in
          inr (unique q p u b (rw parts.0 here), parts.0, parts.1))
    | no ne ↦
        inl (g.same (slot u j) ne (λ e. apart q u b (omega (arith, aligned q u b, g.aligned, e))))
  ]

  pub Table-old : (q : List ℕ) (u : ℕ) → Table m root q u → Table n root q u
  Table-old [] u (top _ e) = top u e
  Table-old (j ∷ q) u (below _ v _ _ b l k present small e) = elim (old_entry q v j b k) [
    | inl same ↦
        below q v j u (Table-old q v b) l k (rw same present) (λ h. rw same (small h))
          (e ∙ ap table_of (sym same))
    | inr (_, a, c) ↦ cc (present, is_present-zero, g.was, a, c)
  ]

  -- A table is an old one or the new one.
  pub Table-new :
      (q : List ℕ) (u : ℕ) → Table n root q u → (Table m root q u) ⊎ ((q ≡ i ∷ p) × (u ≡ f))
  Table-new [] u (top _ e) = inl (top u e)
  Table-new (j ∷ q) u (below _ v _ _ b l k present small e) = elim (Table-new q v b) [
    | inl old ↦ elim (old_entry q v j old k) [
      | inl same ↦ inl (
          below q v j u old l k (rw (← same) present) (λ h. rw (← same) (small h))
            (e ∙ ap table_of same))
      | inr (a, c, d) ↦ inr (cc (a, d), e ∙ cc (c, d, g.entry.table))
    ]
    | inr (_, c) ↦ cc (present, is_present-zero, g.fresh j k, c)
  ]

  -- What the walk finds behind an entry of an old table.
  same_or_new :
      (q : List ℕ) (u j : ℕ)
      → Table m root q u
      → j < 512
      → (n (slot u j) ≡ m (slot u j)) ⊎ ((m (slot u j) ≡ 0) × TableEntry f (n (slot u j)) × (q ≡ p))
  same_or_new q u j b l = elim (old_entry q u j b l) [
    | inl same ↦ inl same
    | inr (a, c, d) ↦ inr (rw (c, d) (g.was, g.entry, a))
  ]

  walk_pt-fresh : (v : ℕ) → walk_pt n f v ≡ none
  unfolding walk_pt
  walk_pt-fresh v = rw (g.fresh (pt_index v) (omega arith), is_present-zero) refl

  walk_pd-fresh : (v : ℕ) → walk_pd n f v ≡ none
  unfolding walk_pd
  walk_pd-fresh v = rw (g.fresh (pd_index v) (omega arith), is_present-zero) refl

  walk_pdpt-fresh : (v : ℕ) → walk_pdpt n f v ≡ none
  unfolding walk_pdpt
  walk_pdpt-fresh v = rw (g.fresh (pdpt_index v) (omega arith), is_present-zero) refl

  walk_pt-Grown :
      (q : List ℕ) (u v : ℕ) → Table m root q u → length q ≡ 3 → walk_pt n u v ≡ walk_pt m u v
  unfolding walk_pt
  walk_pt-Grown q u v b deep = elim (same_or_new q u (pt_index v) b (omega arith)) [
    | inl same ↦ rw same refl
    | inr (_, _, e) ↦ absurd (omega (arith, ap length e))
  ]

  walk_pd-Grown :
      (q : List ℕ) (u v : ℕ) → Table m root q u → length q ≡ 2 → walk_pd n u v ≡ walk_pd m u v
  unfolding walk_pd
  walk_pd-Grown q u v b deep = elim (same_or_new q u (pd_index v) b (omega arith)) [
    | inr (zero_entry, e, _) ↦
        rw (zero_entry, is_present-zero, e.present, e.small, e.table) (walk_pt-fresh v)
    | inl same ↦ rw same (elim (Bool-cases (is_present (m (slot u (pd_index v))))) [
      | inr absent ↦ rw absent refl
      | inl present ↦ elim (Bool-cases (is_huge (m (slot u (pd_index v))))) [
        | inl huge ↦ rw (present, huge) refl
        | inr small ↦
            rw (present, small)
              (walk_pt-Grown (pd_index v ∷ q) (table_of (m (slot u (pd_index v)))) v
                (below q u (pd_index v) _ b (omega arith) (omega arith) present (λ _. small) refl)
                (omega arith))
      ]
    ])
  ]

  walk_pdpt-Grown :
      (q : List ℕ) (u v : ℕ) → Table m root q u → length q ≡ 1 → walk_pdpt n u v ≡ walk_pdpt m u v
  unfolding walk_pdpt
  walk_pdpt-Grown q u v b deep = elim (same_or_new q u (pdpt_index v) b (omega arith)) [
    | inr (zero_entry, e, _) ↦
        rw (zero_entry, is_present-zero, e.present, e.table) (walk_pd-fresh v)
    | inl same ↦ rw same (elim (Bool-cases (is_present (m (slot u (pdpt_index v))))) [
      | inr absent ↦ rw absent refl
      | inl present ↦ rw present (
          walk_pd-Grown (pdpt_index v ∷ q) (table_of (m (slot u (pdpt_index v)))) v
            (below q u (pdpt_index v) _ b (omega arith) (omega arith) present
              (λ h. absurd (omega arith)) refl)
            (omega arith))
    ])
  ]

  pub walk-Grown : (v : ℕ) → walk n root v ≡ walk m root v
  unfolding walk
  walk-Grown v = elim (same_or_new [] root (pml4_index v) (top root refl) (omega arith)) [
    | inr (zero_entry, e, _) ↦
        rw (zero_entry, is_present-zero, e.present, e.table) (walk_pdpt-fresh v)
    | inl same ↦ rw same (elim (Bool-cases (is_present (m (slot root (pml4_index v))))) [
      | inr absent ↦ rw absent refl
      | inl present ↦ rw present (
          walk_pdpt-Grown (pml4_index v ∷ []) (table_of (m (slot root (pml4_index v)))) v
            (below [] root (pml4_index v) _ (top root refl) (omega arith) (omega arith) present
              (λ h. absurd (omega arith)) refl)
            refl)
    ])
  ]
