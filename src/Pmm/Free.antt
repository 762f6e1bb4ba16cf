-- ===== src/Pmm/Free.antt =====
-- `free_frame`, and histories of calls of the allocator.
use core_os.Base.{
  ℕ, ◌+◌, ◌/◌, ◌≤◌, ◌<◌, ◌≡◌, refl, true, false, arith, if◌then◌else◌, ◌==◌, leb, Bool-cases, ◌⊎◌,
  inl, inr,
}
use core_os.Pmm.{Pmm, page_size, max_frames, set_free, is_free, free_frame}
use core_os.Pmm.Bitmap.{is_free-set_free}
use core_os.Pmm.Accounting.{IsCounted, give-IsCounted}

-- The frame `f` has been given back.
pub record Returned (p : Pmm) (f : ℕ) (q : Pmm) : Type 0 where
  pub not_zero : 0 < f
  pub inside : f < max_frames
  pub was_used : is_free p f ≡ false
  pub view : (g : ℕ) → is_free q g ≡ (if f == g then true else is_free p g)
  pub counter : q.free_frames ≡ p.free_frames + 1
  pub total : q.total_frames ≡ p.total_frames

-- Frame 0, a frame past the end and a frame that is free already.
abbrev pub Refused : Pmm → ℕ → Type 0
Refused p f = (f ≡ 0) ⊎ (max_frames ≤ f) ⊎ (is_free p f ≡ true)

free_cases : (p : Pmm) (f : ℕ) → Refused p f ⊎ (0 < f) × (f < max_frames) × (is_free p f ≡ false)
free_cases p f = elim (Bool-cases (is_free p f)) [
  | inl free ↦ inl (inr (inr free))
  | inr used ↦ elim (Bool-cases (f == 0)) [
    | inl z ↦ inl (inl (ground arith))
    | inr pos ↦ elim (Bool-cases (leb max_frames f)) [
      | inl past ↦ inl (inr (inl (ground arith)))
      | inr inside ↦ inr (ground arith, ground arith, used)
    ]
  ]
]

pub free_frame-Refused : (p : Pmm) (addr : ℕ) → Refused p (addr / page_size) → free_frame p addr ≡ p
unfolding free_frame
free_frame-Refused p addr h = ground arith

-- The state after a frame has been given back, as `free_frame` writes it.
abbrev give_back : Pmm → ℕ → Pmm
give_back p f = record (set_free p f) { free_frames = (set_free p f).free_frames + 1 }

free_frame-eq :
    (p : Pmm) (addr : ℕ)
    → 0 < addr / page_size
    → addr / page_size < max_frames
    → is_free p (addr / page_size) ≡ false
    → free_frame p addr ≡ give_back p (addr / page_size)
unfolding free_frame
free_frame-eq p addr pos h used = ground arith

give_back-Returned :
    (p : Pmm) (f : ℕ)
    → IsCounted p
    → 0 < f
    → f < max_frames
    → is_free p f ≡ false
    → IsCounted (give_back p f) × Returned p f (give_back p f)
unfolding is_free set_free
give_back-Returned p f v pos h used = (
  give-IsCounted p f p.total_frames v h used,
  record {
    not_zero = pos;
    inside = h;
    was_used = used;
    view = λ g. is_free-set_free p f g v.whole h;
    counter = refl;
    total = refl;
  },
)

-- On an allocator whose counter is right free_frame ignores frame 0, frames past the end and free
-- frames, and gives any other frame back.
pub free_frame_lem :
    (p : Pmm) (addr : ℕ)
    → IsCounted p
    → IsCounted (free_frame p addr)
      × (Refused p (addr / page_size) × (free_frame p addr ≡ p)
          ⊎ Returned p (addr / page_size) (free_frame p addr))
free_frame_lem p addr v = elim (free_cases p (addr / page_size)) [
  | inl no_frame ↦
      (let same = free_frame-Refused p addr no_frame in rw same (v, inl (no_frame, refl)))
  | inr (pos, h, used) ↦
      (let done = give_back-Returned p (addr / page_size) v pos h used in
        rw (free_frame-eq p addr pos h used) (done.0, inr done.1))
]
