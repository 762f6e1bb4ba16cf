-- ===== src/Proc/Dest.antt =====
-- The descriptor that `dup_fd` of kernel/src/proc/fd.rs writes, and why there is none.
use core_os.Base.{
  ℕ, zero, suc, ◌+◌, ◌-◌, ◌≤◌, ◌<◌, ◌≡◌, ◌≢◌, refl, sym, ap, ◌∙◌, true, false, ◌||◌, List, Option,
  none, some, arith, leb, get_or, Bool-cases, inl, inr, Option-cases, ℕ_discrete,
}
use core_os.Proc.State.{FdTarget, max_fds, fd_cloexec}
use core_os.Proc.State
use core_os.Proc.Process.{Process}
use core_os.Proc.Fd.{is_empty_fd, first_empty, dup_dest}
use core_os.Proc.Placed.{some_inj}

-- The first empty descriptor is in range, is empty, and nothing before it is.
pub record FirstEmpty (fds : List FdTarget) (start stop fd : ℕ) : Type 0 where
  pub from : start ≤ fd
  pub below : fd < stop
  pub free : is_empty_fd (get_or fds fd State.empty) ≡ true
  pub lowest : (j : ℕ) → start ≤ j → j < fd → is_empty_fd (get_or fds j State.empty) ≡ false

pub first_empty-FirstEmpty :
    (n start : ℕ) (fds : List FdTarget) (fd : ℕ)
    → first_empty n start fds ≡ some fd
    → FirstEmpty fds start (start + n) fd
unfolding first_empty
first_empty-FirstEmpty zero start fds fd e = absurd (ground (arith, e))
first_empty-FirstEmpty (suc n) start fds fd e =
    elim (Bool-cases (is_empty_fd (get_or fds start State.empty))) [
      | inl free ↦
          (let same : start ≡ fd = some_inj (sym (rw free refl) ∙ e) in
            record {
              from = omega arith;
              below = omega arith;
              free = rw (sym same) free;
              lowest = λ j a b. absurd (omega arith);
            })
      | inr taken ↦
          (let rest = first_empty-FirstEmpty n (start + 1) fds fd (sym (rw taken refl) ∙ e) in
            record {
              from = omega (arith, rest.from);
              below = omega (arith, rest.below);
              free = rest.free;
              lowest = λ j a b. elim (ℕ_discrete start j) [
                | yes same ↦ rw (sym same) taken
                | no apart ↦ rest.lowest j (omega arith) b
              ];
            })
    ]

-- A search that finds nothing: no descriptor in the range is empty.
first_empty-full :
    (n start : ℕ) (fds : List FdTarget)
    → first_empty n start fds ≡ none
    → (j : ℕ) → start ≤ j
    → j < start + n
    → is_empty_fd (get_or fds j State.empty) ≡ false
unfolding first_empty
first_empty-full zero start fds e j a b = absurd (omega arith)
first_empty-full (suc n) start fds e j a b =
    elim (Bool-cases (is_empty_fd (get_or fds start State.empty))) [
      | inl free ↦
          (let at : first_empty (suc n) start fds ≡ some start = rw free refl in
            absurd (cc (sym at ∙ e)))
      | inr taken ↦ elim (ℕ_discrete start j) [
        | yes same ↦ rw (sym same) taken
        | no apart ↦
            first_empty-full n (start + 1) fds (sym (rw taken refl) ∙ e) j (omega arith)
              (omega arith)
      ]
    ]

-- What `dup_fd` answers for a process.
pub data DupAnswer (p : Process) (old_fd min_fd : ℕ) : Option ℕ → Option ℕ → Type 0 where
  out_of_range : (new_fd : Option ℕ) → max_fds ≤ old_fd → DupAnswer p old_fd min_fd new_fd none
  closed :
      (new_fd : Option ℕ)
      → get_or p.fds old_fd State.empty ≡ State.empty
      → DupAnswer p old_fd min_fd new_fd none
  too_large : (fd : ℕ) → max_fds ≤ fd → DupAnswer p old_fd min_fd (some fd) none
  full :
      ((j : ℕ) → min_fd ≤ j → j < max_fds → get_or p.fds j State.empty ≢ State.empty)
      → DupAnswer p old_fd min_fd none none
  asked :
      (fd : ℕ)
      → old_fd < max_fds
      → get_or p.fds old_fd State.empty ≢ State.empty
      → fd < max_fds
      → DupAnswer p old_fd min_fd (some fd) (some fd)
  found :
      (fd : ℕ)
      → old_fd < max_fds
      → get_or p.fds old_fd State.empty ≢ State.empty
      → FirstEmpty p.fds min_fd max_fds fd
      → DupAnswer p old_fd min_fd none (some fd)

-- A destination is in range, and one that `dup_fd` searches for is empty.
pub dup_dest-in_range :
    (p : Process) (min_fd : ℕ) (new_fd : Option ℕ) (dest : ℕ)
    → dup_dest p min_fd new_fd ≡ some dest
    → dest < max_fds
unfolding dup_dest
dup_dest-in_range p min_fd (some fd) dest e = ground (arith, e)
dup_dest-in_range p min_fd none dest e =
    let found = first_empty-FirstEmpty (max_fds - min_fd) min_fd p.fds dest e in
    omega (arith, found.below, found.from)

is_empty_fd_iff : (t : FdTarget) → (is_empty_fd t ≡ true) → t ≡ State.empty
unfolding is_empty_fd
is_empty_fd_iff State.empty e = refl
is_empty_fd_iff State.tty e = cc
is_empty_fd_iff State.null e = cc
is_empty_fd_iff State.zeroes e = cc
is_empty_fd_iff (State.stdio i) e = cc
is_empty_fd_iff (State.open_file i) e = cc
is_empty_fd_iff (State.pipe_read i) e = cc
is_empty_fd_iff (State.pipe_write i) e = cc

pub not_empty : (t : FdTarget) → is_empty_fd t ≡ false → t ≢ State.empty
unfolding is_empty_fd
not_empty t e same = cc (sym e ∙ ap is_empty_fd same)

first_empty-in :
    (p : Process) (min_fd fd : ℕ)
    → first_empty (max_fds - min_fd) min_fd p.fds ≡ some fd
    → FirstEmpty p.fds min_fd max_fds fd
first_empty-in p min_fd fd e =
    let at = first_empty-FirstEmpty (max_fds - min_fd) min_fd p.fds fd e in
    record {
      from = at.from;
      below = omega (arith, at.below, at.from);
      free = at.free;
      lowest = at.lowest;
    }

pub dup_dest-DupAnswer :
    (p : Process) (old_fd min_fd : ℕ) (new_fd : Option ℕ)
    → old_fd < max_fds
    → get_or p.fds old_fd State.empty ≢ State.empty
    → DupAnswer p old_fd min_fd new_fd (dup_dest p min_fd new_fd)
unfolding dup_dest
dup_dest-DupAnswer p old_fd min_fd (some fd) l o = elim (Bool-cases (leb max_fds fd)) [
  | inl past ↦ rw past (too_large fd (ground arith))
  | inr inside ↦ rw inside (asked fd l o (ground arith))
]
dup_dest-DupAnswer p old_fd min_fd none l o =
    elim (Option-cases (first_empty (max_fds - min_fd) min_fd p.fds)) [
      | inl e ↦ rw e (
          full (λ j a b.
            not_empty _ (first_empty-full (max_fds - min_fd) min_fd p.fds e j a (omega arith))))
      | inr (fd, e) ↦ rw e (found fd l o (first_empty-in p min_fd fd e))
    ]

-- The two reasons for which an old descriptor is refused.
pub refused_old :
    (p : Process) (old_fd min_fd : ℕ) (new_fd : Option ℕ)
    → (leb max_fds old_fd || is_empty_fd (get_or p.fds old_fd State.empty)) ≡ true
    → DupAnswer p old_fd min_fd new_fd none
refused_old p old_fd min_fd new_fd bad = elim (Bool-cases (leb max_fds old_fd)) [
  | inl past ↦ out_of_range new_fd (ground arith)
  | inr inside ↦ closed new_fd (is_empty_fd_iff _ (ground arith))
]
