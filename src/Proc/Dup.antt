-- ===== src/Proc/Dup.antt =====
-- What `dup_fd` answers.
use core_os.Base.{
  ℕ, ◌≡◌, ◌≢◌, refl, sym, ap, Bool, false, ◌||◌, Option, none, some, arith, if◌then◌else◌, ◌==◌,
  leb, get_or, Bool-cases, inl, inr, Option-cases, ==_iff, set, get_or-set,
}
use mathlib.Core.Path.{subst}
use core_os.Proc.State.{FdTarget, max_fds, fd_cloexec}
use core_os.Proc.State
use core_os.Proc.Process.{Process, Kernel, current_process}
use core_os.Proc.Fd.{is_empty_fd, dup_fd, dup_dest, dup_onto}
use core_os.Proc.Placed.{WellFormed, some_inj, current_process-Current}
use core_os.Proc.Balance.{dup_onto-lem}
use core_os.Proc.Dest.{DupAnswer, dup_dest-in_range, dup_dest-DupAnswer, not_empty, refused_old}

-- The current process has one more descriptor for what an old one refers to, and the others as
-- they were.
pub record Duplicated (p : Process) (old_fd fd : ℕ) (l : Kernel) : Type 0 where
  pub now : Process
  pub here : current_process l ≡ some now
  pub copied : get_or now.fds fd State.empty ≡ get_or p.fds old_fd State.empty
  pub others : (j : ℕ) → j ≢ fd → get_or now.fds j State.empty ≡ get_or p.fds j State.empty

pub record DupOutcome (k : Kernel) (p : Process) (old_fd min_fd : ℕ) (new_fd : Option ℕ)
    (r : Option ℕ × Kernel) : Type 0 where
  pub answer : DupAnswer p old_fd min_fd new_fd r.0
  pub failed : r.0 ≡ none → r.1 ≡ k
  pub made : (fd : ℕ) → r.0 ≡ some fd → Duplicated p old_fd fd r.1
  pub well_formed : WellFormed r.1

fails :
    (k : Kernel) (p : Process) (old_fd min_fd : ℕ) (new_fd : Option ℕ)
    → DupAnswer p old_fd min_fd new_fd none
    → WellFormed k
    → DupOutcome k p old_fd min_fd new_fd (none, k)
fails k p old_fd min_fd new_fd a w = record {
  answer = a;
  failed = λ e. refl;
  made = λ fd e. absurd (cc e);
  well_formed = w;
}

succeeds :
    (k l : Kernel) (p : Process) (old_fd min_fd : ℕ) (new_fd : Option ℕ) (dest : ℕ)
    → DupAnswer p old_fd min_fd new_fd (some dest)
    → Duplicated p old_fd dest l
    → WellFormed l
    → DupOutcome k p old_fd min_fd new_fd (some dest, l)
succeeds k l p old_fd min_fd new_fd dest a d w = record {
  answer = a;
  failed = λ e. absurd (cc e);
  made = λ fd e. subst (λ i. Duplicated p old_fd i l) (some_inj e) d;
  well_formed = w;
}

-- In a state with exact counters every outcome of dup_fd: it fails, and changes nothing, exactly
-- when the old descriptor is out of range or empty, when the wanted one is out of range, or when
-- none from the least one on is empty; or else it answers the wanted one or the first empty one,
-- which refers to what the old one does while the others stay; and the counters stay exact.
pub dup_fd-DupOutcome :
    (k : Kernel) (p : Process) (old_fd min_fd : ℕ) (new_fd : Option ℕ) (cloexec : Bool)
    → WellFormed k
    → current_process k ≡ some p
    → DupOutcome k p old_fd min_fd new_fd (dup_fd k old_fd min_fd new_fd cloexec)
unfolding dup_fd
dup_fd-DupOutcome k p old_fd min_fd new_fd cloexec w h =
    elim (Bool-cases (leb max_fds old_fd || is_empty_fd (get_or p.fds old_fd State.empty))) [
      | inl bad ↦
          rw (h, dup_fd, bad)
            (fails k p old_fd min_fd new_fd (refused_old p old_fd min_fd new_fd bad) w)
      | inr good ↦
          (let answer : DupAnswer p old_fd min_fd new_fd (dup_dest p min_fd new_fd) =
              dup_dest-DupAnswer p old_fd min_fd new_fd (ground arith)
                (not_empty _ (ground arith)) in
            elim (Option-cases (dup_dest p min_fd new_fd)) [
              | inl e ↦
                  rw (h, dup_fd, good, e)
                    (fails k p old_fd min_fd new_fd
                      (subst (DupAnswer p old_fd min_fd new_fd) e answer) w)
              | inr (dest, e) ↦
                  rw (h, dup_fd, good, e)
                    (to_dest dest e (ground arith)
                      (subst (DupAnswer p old_fd min_fd new_fd) e answer))
            ])
    ]
  where
    target : FdTarget
    target = get_or p.fds old_fd State.empty

    to_dest :
        (dest : ℕ)
        → dup_dest p min_fd new_fd ≡ some dest
        → is_empty_fd target ≡ false
        → DupAnswer p old_fd min_fd new_fd (some dest)
        → DupOutcome k p old_fd min_fd new_fd
            (if dest == old_fd then (some dest, k) else dup_onto k p dest target cloexec)
    to_dest dest e nonempty a = elim (Bool-cases (dest == old_fd)) [
      | inl same ↦
          (let at : dest ≡ old_fd = (==_iff dest old_fd).0 same in
            rw same (
              succeeds k k p old_fd min_fd new_fd dest a
                (record { now = p; here = h; copied = rw at refl; others = λ j n. refl }) w))
      | inr apart ↦
          (let at = current_process-Current k p h in
            let range = dup_dest-in_range p min_fd new_fd dest e in
            let l : Kernel = (dup_onto k p dest target cloexec).1 in
            let done = dup_onto-lem k p old_fd dest cloexec w h range (ground arith) nonempty in
            let size = w.fds_size at.thread.group_slot p at.stored in
            let shape : (some dest, l) ≡ dup_onto k p dest target cloexec =
              ap (λ (x : Option ℕ). (x, l)) (sym done.0) in
            let copy : Duplicated p old_fd dest l = record {
              now = record p {
                fds = set p.fds dest target;
                fd_flags = set p.fd_flags dest (if cloexec then fd_cloexec else 0);
              };
              here = done.2;
              copied = ground (arith, get_or-set p.fds dest dest target State.empty, range, size);
              others = λ j n. ground (arith, get_or-set p.fds dest j target State.empty, n);
            } in
            rw apart (
              subst (DupOutcome k p old_fd min_fd new_fd) shape
                (succeeds k l p old_fd min_fd new_fd dest a copy done.1)))
    ]
