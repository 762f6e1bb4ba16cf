-- ===== src/Paging/Mapping.antt =====
-- `ensure_table` keeps an address space and all its translations.
use core_os.Base.{
  ℕ, ◌+◌, ◌*◌, ◌/◌, ◌%◌, ◌≤◌, ◌<◌, ◌≡◌, ◌≢◌, refl, sym, ap, ◌∙◌, Bool, true, false, List, ◌∷◌, none,
  some, arith, length, ◌⊎◌, inl, inr, ℕ_discrete, Bool-cases, ◌==◌,
}
use core_os.Pmm.{max_frames, Pmm, Memory, is_free, alloc_frame, zero_fill, Allocated}
use core_os.Pmm.Accounting.{IsCounted}
use core_os.Pmm.Alloc.{alloc_frame-Outcome, Served}
use core_os.Paging.{Machine, slot, is_present, write, table_entry, alloc_table, ensure_table}
use core_os.Paging.Entries.{
  table_entry-TableEntry, is_present-ne, slot_inj, write_same, write_other,
}
use core_os.Paging.Space.{Table, Owned, Space, walk}
use core_os.Paging.Ensure.{Grown, Table-old, Table-new, walk-Grown}

-- What a call of `ensure_table` at entry `i` of table `t` promises.
pub record Ensured (s : Machine) (root t i : ℕ) (s1 : Machine) : Type 0 where
  pub space : Space s1 root
  pub walks : (v : ℕ) → walk s1.mem root v ≡ walk s.mem root v
  pub keeps : (q : List ℕ) (u : ℕ) → Table s.mem root q u → Table s1.mem root q u
  pub present : is_present (s1.mem (slot t i)) ≡ true
  pub frames : s.pmm.free_frames ≤ s1.pmm.free_frames + 1

zero_fill_inside : (m : Memory) (f b : ℕ) → b / 4096 ≡ f → zero_fill m (f * 4096) 4096 b ≡ 0
unfolding zero_fill
zero_fill_inside m f b h = ground arith

zero_fill_outside : (m : Memory) (f b : ℕ) → b / 4096 ≢ f → zero_fill m (f * 4096) 4096 b ≡ m b
unfolding zero_fill
zero_fill_outside m f b h = ground arith

module _ (s : Machine) (root : ℕ) (p : List ℕ) (t i : ℕ) (w : Space s root)
    (here : Table s.mem root p t) (short : length p < 3) (index : i < 512) (user : Bool)
    (r : Allocated) (empty : s.mem (slot t i) ≡ 0) (e : Served s.pmm s.mem 1 r)
    (counted : IsCounted r.pmm) where
  abbrev after : Machine
  after = record { pmm = r.pmm; mem = write r.mem (slot t i) (table_entry r.addr user) }

  addr_aligned : r.addr % 4096 ≡ 0
  addr_aligned = omega (arith, e.addr)

  -- The new frame was free, so it is none of the tables.
  fresh_frame : (q : List ℕ) (u : ℕ) → Table s.mem root q u → u ≢ r.addr
  fresh_frame q u b h =
      let free = e.run e.start (omega arith) (omega arith) in
      let place : u / 4096 ≡ e.start = omega (arith, h, e.addr) in
      cc ((w.owned q u b).used, free, place)

  after-Grown : Grown s.mem after.mem (slot t i) r.addr
  after-Grown = record {
    aligned = addr_aligned;
    was = empty;
    entry =
        rw (write_same r.mem (slot t i) (table_entry r.addr user))
          (table_entry-TableEntry r.addr user addr_aligned);
    fresh = λ j l.
        write_other r.mem (slot t i) (slot r.addr j) (table_entry r.addr user) (λ h.
          fresh_frame p t here
            (sym (slot_inj r.addr t j i addr_aligned (w.owned p t here).aligned l index h).0))
        ∙ ap (λ (m : Memory). m (slot r.addr j)) e.zeroed
        ∙ zero_fill_inside s.mem e.start (slot r.addr j) (omega (arith, e.addr));
    same = λ b ne out.
        write_other r.mem (slot t i) b (table_entry r.addr user) ne
        ∙ ap (λ (m : Memory). m b) e.zeroed
        ∙ zero_fill_outside s.mem e.start b (omega (arith, out, e.addr));
  }

  old : (q : List ℕ) (u : ℕ) → Table s.mem root q u → Table after.mem root q u
  old =
      Table-old s.mem after.mem root p t i r.addr here short index after-Grown w.unique
        (λ q u b. (w.owned q u b).aligned) fresh_frame

  sort_table :
      (q : List ℕ) (u : ℕ)
      → Table after.mem root q u
      → (Table s.mem root q u) ⊎ ((q ≡ i ∷ p) × (u ≡ r.addr))
  sort_table =
      Table-new s.mem after.mem root p t i r.addr here short index after-Grown w.unique
        (λ q u b. (w.owned q u b).aligned) fresh_frame

  after_unique :
      (q q' : List ℕ) (u : ℕ) → Table after.mem root q u → Table after.mem root q' u → q ≡ q'
  after_unique q q' u a b = elim (sort_table q u a) [
    | inl a1 ↦ elim (sort_table q' u b) [
      | inl b1 ↦ w.unique q q' u a1 b1
      | inr (_, d) ↦ absurd (fresh_frame q u a1 d)
    ]
    | inr (c, d) ↦ elim (sort_table q' u b) [
      | inl b1 ↦ absurd (fresh_frame q' u b1 d)
      | inr (c', _) ↦ c ∙ sym c'
    ]
  ]

  -- What was used stays used, and the new frame is.
  used_after : (g : ℕ) → is_free s.pmm g ≡ false → is_free r.pmm g ≡ false
  used_after g h = ground (arith, e.marks g)

  new_used : is_free r.pmm (r.addr / 4096) ≡ false
  new_used =
      let place : r.addr / 4096 ≡ e.start = omega (arith, e.addr) in
      rw place (ground (arith, e.marks e.start))

  after-Owned : (q : List ℕ) (u : ℕ) → Table after.mem root q u → Owned r.pmm u
  after-Owned q u a = elim (sort_table q u a) [
    | inl old_one ↦ record {
      aligned = (w.owned q u old_one).aligned;
      used = used_after (u / 4096) (w.owned q u old_one).used;
    }
    | inr (_, d) ↦ rw d (record { aligned = addr_aligned; used = new_used })
  ]

  after_filled :
      (q : List ℕ) (u j : ℕ)
      → Table after.mem root q u
      → length q < 3
      → j < 512
      → (after.mem (slot u j) ≡ 0) ⊎ (is_present (after.mem (slot u j)) ≡ true)
  after_filled q u j a k l = elim (sort_table q u a) [
    | inr (_, d) ↦ inl (rw d (after-Grown.fresh j l))
    | inl old_one ↦ elim (ℕ_discrete (slot u j) (slot t i)) [
      | yes place ↦ inr (rw place after-Grown.entry.present)
      | no ne ↦
          (let same = after-Grown.same (slot u j) ne (λ h.
              fresh_frame q u old_one
                (omega (arith, (w.owned q u old_one).aligned, addr_aligned, h))) in
            elim (w.filled q u j old_one k l) [
              | inl z ↦ inl (same ∙ z)
              | inr z ↦ inr (ap is_present same ∙ z)
            ])
    ]
  ]

  served-Ensured : Ensured s root t i after
  served-Ensured = record {
    space = record {
      unique = after_unique;
      owned = after-Owned;
      filled = after_filled;
      counted = counted;
    };
    walks =
        walk-Grown s.mem after.mem root p t i r.addr here short index after-Grown w.unique
          (λ q u b. (w.owned q u b).aligned) fresh_frame;
    keeps = old;
    present = after-Grown.entry.present;
    frames = omega (arith, e.counter);
  }

-- No frame above frame 0 is free.
abbrev pub OutOfFrames : Pmm → Type 0
OutOfFrames p = (f : ℕ) → 0 < f → f < max_frames → is_free p f ≡ false

-- `ensure_table` gives a table, or there is no frame for one.
pub ensure_table-Ensured :
    (s : Machine) (root : ℕ) (p : List ℕ) (t i : ℕ) (user : Bool)
    → Space s root
    → Table s.mem root p t
    → length p < 3
    → i < 512
    → ((s1 : Machine) × (ensure_table user (slot t i) s ≡ some s1) × Ensured s root t i s1)
      ⊎ ((ensure_table user (slot t i) s ≡ none) × OutOfFrames s.pmm)
unfolding ensure_table alloc_table
ensure_table-Ensured s root p t i user w here short index = elim (w.filled p t i here short index) [
  | inr present ↦
      (let some_entry : (s.mem (slot t i) == 0) ≡ false =
          is_present-ne (s.mem (slot t i)) present in
        inl (
          s,
          rw some_entry refl,
          record {
            space = w;
            walks = λ v. refl;
            keeps = λ q u b. b;
            present = present;
            frames = omega arith;
          },
        ))
  | inl empty ↦
      (let r = alloc_frame s.pmm s.mem in
        let zero_entry : (s.mem (slot t i) == 0) ≡ true = rw empty refl in
        let out = alloc_frame-Outcome s.pmm s.mem w.counted in
        elim out.1 [
          | inl e ↦
              (let some_addr : (r.addr == 0) ≡ false = ground (arith, e.addr, e.not_zero) in
                inl (
                  _,
                  rw (zero_entry, some_addr) refl,
                  served-Ensured s root p t i w here short index user r empty e out.0,
                ))
          | inr e ↦
              (let no_addr : (r.addr == 0) ≡ true = rw e.addr refl in
                inr (
                  rw (zero_entry, no_addr) refl,
                  λ f a b. elim (Bool-cases (is_free s.pmm f)) [
                    | inr used ↦ used
                    | inl free ↦ absurd (
                        e.no_run f a (omega arith)
                          (λ g c d. let same : g ≡ f = omega arith in rw same free))
                  ],
                ))
        ])
]
