-- ===== src/Pmm/History.antt =====
-- Histories of calls of the allocator, as its clients make them one after another.
use core_os.Base.{
  ℕ, ◌+◌, ◌*◌, ◌/◌, ◌≤◌, ◌≡◌, ◌≢◌, refl, false, List, [], ◌∷◌, arith, ◌⊎◌, inl, inr, dec_lt,
}
use core_os.Pmm.{Pmm, Memory, page_size, is_free, alloc_frames, free_frame}
use core_os.Pmm.Accounting.{IsCounted}
use core_os.Pmm.Alloc.{alloc_frames-Outcome}
use core_os.Pmm.Free.{free_frame_lem}

-- A call of `alloc_frames` with its count, or of `free_frame` with its address.
pub data Call : Type 0 where
  allocs frees : ℕ → Call

-- The allocator and the memory after a call.
pub record Machine : Type 0 where
  pub pmm : Pmm
  pub mem : Memory

pub step : Machine → Call → Machine
step s (allocs n) = let r = alloc_frames n s.pmm s.mem in record { pmm = r.pmm; mem = r.mem }
step s (frees addr) = record s { pmm = free_frame s.pmm addr }

pub run : Machine → List Call → Machine
run s [] = s
run s (c ∷ cs) = run (step s c) cs

-- No call of the history gives frame `f` back.
abbrev pub Keeps : ℕ → List Call → Type 0
Keeps f [] = Unit {0}
Keeps f (allocs n ∷ cs) = Keeps f cs
Keeps f (frees addr ∷ cs) = (addr / page_size ≢ f) × Keeps f cs

step-IsCounted : (s : Machine) (c : Call) → IsCounted s.pmm → IsCounted (step s c).pmm
unfolding step
step-IsCounted s (allocs n) v = elim (alloc_frames-Outcome n s.pmm s.mem v) [
  | inl (_, same) ↦ rw same v
  | inr (kept, _) ↦ kept
]
step-IsCounted s (frees addr) v = (free_frame_lem s.pmm addr v).0

-- From an allocator whose counter is right, in every history of calls the counter of free frames
-- is the number of frames that the bitmap shows free.
pub run-IsCounted : (cs : List Call) (s : Machine) → IsCounted s.pmm → IsCounted (run s cs).pmm
unfolding run
run-IsCounted [] s v = v
run-IsCounted (c ∷ cs) s v = run-IsCounted cs (step s c) (step-IsCounted s c v)

allocs-used :
    (s : Machine) (n f : ℕ)
    → IsCounted s.pmm
    → is_free s.pmm f ≡ false
    → is_free (step s (allocs n)).pmm f ≡ false
unfolding step
allocs-used s n f v used = elim (alloc_frames-Outcome n s.pmm s.mem v) [
  | inl (_, same) ↦ rw same used
  | inr (_, inl got) ↦ ground (arith, got.marks f)
  | inr (_, inr out) ↦ rw out.pmm used
]

frees-used :
    (s : Machine) (addr f : ℕ)
    → IsCounted s.pmm
    → addr / page_size ≢ f
    → is_free s.pmm f ≡ false
    → is_free (step s (frees addr)).pmm f ≡ false
unfolding step
frees-used s addr f v other used = elim (free_frame_lem s.pmm addr v).1 [
  | inl (_, same) ↦ rw same used
  | inr back ↦ ground (arith, back.view f)
]

-- A frame that is in use stays in use until a call gives it back.
run-used :
    (cs : List Call) (s : Machine) (f : ℕ)
    → IsCounted s.pmm
    → Keeps f cs
    → is_free s.pmm f ≡ false
    → is_free (run s cs).pmm f ≡ false
unfolding run
run-used [] s f v k used = used
run-used (allocs n ∷ cs) s f v k used =
    run-used cs (step s (allocs n)) f (step-IsCounted s (allocs n) v) k (allocs-used s n f v used)
run-used (frees addr ∷ cs) s f v k used =
    run-used cs (step s (frees addr)) f (step-IsCounted s (frees addr) v) k.1
      (frees-used s addr f v k.0 used)

-- From an allocator whose counter is right, through any history that does not give a used frame
-- back, no later allocation overlaps that frame.
pub run-disjoint :
    (cs : List Call) (s : Machine) (f n : ℕ)
    → IsCounted s.pmm
    → Keeps f cs
    → is_free s.pmm f ≡ false
    → let t = run s cs in
      let r = alloc_frames n t.pmm t.mem in
      (r.addr ≡ 0) ⊎ (f * page_size + page_size ≤ r.addr) ⊎ (r.addr + n * page_size ≤ f * page_size)
run-disjoint cs s f n v k used =
    elim (alloc_frames-Outcome n (run s cs).pmm (run s cs).mem (run-IsCounted cs s v)) [
      | inl (_, same) ↦ inl (rw same refl)
      | inr (_, inr out) ↦ inl out.addr
      | inr (_, inl got) ↦ inr (elim (dec_lt f got.start) [
        | yes below ↦ inl (omega (arith, got.addr))
        | no past ↦ elim (dec_lt f (got.start + n)) [
          | yes inside ↦ cc (got.run f (omega arith) inside, run-used cs s f v k used)
          | no above ↦ inr (omega (arith, got.addr))
        ]
      ])
    ]
