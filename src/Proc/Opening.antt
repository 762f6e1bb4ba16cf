-- ===== src/Proc/Opening.antt =====
-- Opening a file or a device keeps the counters exact.
use core_os.Base.{
  ℕ, suc, ◌+◌, ◌-◌, ◌≤◌, ◌<◌, ◌≡◌, refl, sym, ◌∙◌, false, List, [], ◌∷◌, some, arith, get_or, set,
  length, length-set, Bool-cases, inl, inr, Option-cases,
}
use mathlib.Core.Path.{subst}
use core_os.Proc.State.{
  FdTarget, OpenFile, Pipe, max_fds, max_open_files, max_pipes, empty_open_file, empty_pipe,
  new_open_file, new_pipe,
}
use core_os.Proc.State
use core_os.Proc.Process.{Process, Kernel, current_process}
use core_os.Proc.Tables.{open_file_used, put_open_file, free_file, alloc_open_file}
use core_os.Proc.Fd.{first_empty, open_file, open_char_device, alloc_specific_fd, put_fd}
use core_os.Proc.Tally.{Counter, points, tally, tally-put_open_file, tally-unused}
use core_os.Proc.Holders.{tally-release_fd_target}
use core_os.Proc.Owners.{
  SameOwners, SameOwners-refl, SameOwners-trans, put_open_file-SameOwners,
  release_fd_target-SameOwners, current_process-SameOwners,
}
use core_os.Proc.Placed.{
  WellFormed, current_process-Current, put_process-Placed, tally-put_process, Placed-WellFormed,
  some_inj,
}
use core_os.Proc.Balance.{fds-exchange, is_empty_fd-points}
use core_os.Proc.Dest.{first_empty-FirstEmpty}

record FreeFile (fs : List OpenFile) (i : ℕ) : Type 0 where
  in_range : i < length fs
  unused : (get_or fs i empty_open_file).in_use ≡ false

free_file-FreeFile :
    (fs : List OpenFile) (start i : ℕ)
    → free_file fs start ≡ some i
    → (start ≤ i) × FreeFile fs (i - start)
unfolding free_file
free_file-FreeFile [] start i e = absurd (ground (arith, e))
free_file-FreeFile (f ∷ fs) start i e = elim (Bool-cases f.in_use) [
  | inl used ↦
      (let rest = free_file-FreeFile fs (start + 1) i (sym (rw used refl) ∙ e) in
        let place : i - start ≡ suc (i - (start + 1)) = omega (arith, rest.0) in
        (
          omega (arith, rest.0),
          rw place
              (record { in_range = omega (arith, (rest.1).in_range); unused = (rest.1).unused }),
        ))
  | inr free ↦
      (let same : start ≡ i = some_inj (sym (rw free refl) ∙ e) in
        let place : i - start ≡ 0 = omega (arith, same) in
        (omega (arith, same), rw place (record { in_range = omega arith; unused = free })))
]

-- Nothing but the counters of the tables decides whether a state is well formed, when the
-- processes stay.
pub SameOwners-WellFormed :
    {k l : Kernel}
    → WellFormed k
    → SameOwners k l
    → ((c : Counter) (i : ℕ) → tally c i l ≡ tally c i k)
    → WellFormed l
SameOwners-WellFormed w s same = record {
  files_size = s.files_size ∙ w.files_size;
  pipes_size = s.pipes_size ∙ w.pipes_size;
  fds_size = rw s.processes w.fds_size;
  exact = λ c i. same c i ∙ w.exact c i ∙ rw s.processes refl;
}

-- A new descriptor for an entry that has just been counted.
pub install-WellFormed :
    (k l : Kernel) (p : Process) (n fd flags : ℕ) (t : FdTarget)
    → WellFormed k
    → current_process k ≡ some p
    → SameOwners k l
    → first_empty n 3 p.fds ≡ some fd
    → 3 + n ≤ max_fds
    → ((c : Counter) (i : ℕ) → tally c i l ≡ tally c i k + points c i t)
    → WellFormed (put_fd l p fd t flags)
unfolding put_fd
install-WellFormed k l p n fd flags t w h s e room counted =
    let at = current_process-Current k p h in
    let found = first_empty-FirstEmpty n 3 p.fds fd e in
    let q = record p { fds = set p.fds fd t; fd_flags = set p.fd_flags fd flags } in
    let size = w.fds_size at.thread.group_slot p at.stored in
    Placed-WellFormed {q = q} at w (put_process-Placed at.thread q at.here s)
      (length-set p.fds fd t ∙ size)
      (λ c i. omega (
        arith,
        tally-put_process l q c i,
        counted c i,
        fds-exchange p fd t c i size (omega (arith, found.below)),
        is_empty_fd-points (get_or p.fds fd State.empty) c i found.free,
      ))

alloc_specific_fd-WellFormed :
    (k : Kernel) (t : FdTarget) (flags : ℕ)
    → WellFormed k
    → ((c : Counter) (i : ℕ) → points c i t ≡ 0)
    → WellFormed (alloc_specific_fd k t flags).1
unfolding alloc_specific_fd
alloc_specific_fd-WellFormed k t flags w z = elim (Option-cases (current_process k)) [
  | inl e ↦ rw (e, alloc_specific_fd) w
  | inr e ↦ elim (Option-cases (first_empty (max_fds - 3) 3 (e.0).fds)) [
    | inl f ↦ rw (e.1, alloc_specific_fd, f) w
    | inr f ↦
        rw (e.1, alloc_specific_fd, f.1)
          (install-WellFormed k k e.0 13 f.0 flags t w e.1 (SameOwners-refl k) f.1 (omega arith)
            (λ c i. omega (arith, z c i)))
  ]
]

pub open_char_device-WellFormed :
    (k : Kernel) (t : FdTarget) → WellFormed k → WellFormed (open_char_device k t).1
unfolding open_char_device points
open_char_device-WellFormed k State.empty w = w
open_char_device-WellFormed k State.tty w =
    alloc_specific_fd-WellFormed k State.tty 0 w (λ c i. refl)
open_char_device-WellFormed k State.null w =
    alloc_specific_fd-WellFormed k State.null 0 w (λ c i. refl)
open_char_device-WellFormed k State.zeroes w =
    alloc_specific_fd-WellFormed k State.zeroes 0 w (λ c i. refl)
open_char_device-WellFormed k (State.stdio j) w = w
open_char_device-WellFormed k (State.open_file j) w = w
open_char_device-WellFormed k (State.pipe_read j) w = w
open_char_device-WellFormed k (State.pipe_write j) w = w

-- A fresh entry counts one reference more.
fresh_file :
    (k : Kernel) (j f s : ℕ) (c : Counter) (i : ℕ)
    → WellFormed k
    → free_file k.open_files 0 ≡ some j
    → tally c i (put_open_file k j (new_open_file f s))
      ≡ tally c i k + points c i (State.open_file j)
unfolding points
fresh_file k j f s c i w e =
    let zero : j - 0 ≡ j = omega arith in
    let found : FreeFile k.open_files j =
      subst (FreeFile k.open_files) zero (free_file-FreeFile k.open_files 0 j e).1 in
    let unused : open_file_used k j ≡ false = ground (arith, found.unused) in
    ground (
      arith,
      tally-put_open_file k j (new_open_file f s) c i (omega (arith, found.in_range, w.files_size))
          found.in_range,
      tally-unused k j i c unused,
    )

-- While there is a current process, `open_file` leaks no entry, whether it succeeds or not.
pub open_file-WellFormed :
    (k : Kernel) (p : Process) (f s : ℕ)
    → WellFormed k
    → current_process k ≡ some p
    → WellFormed (open_file k f s).1
unfolding open_file alloc_open_file
open_file-WellFormed k p f s w h = elim (Option-cases (free_file k.open_files 0)) [
  | inl e ↦ rw (open_file, alloc_open_file, e) w
  | inr e ↦
      (let l = put_open_file k e.0 (new_open_file f s) in
        let same = put_open_file-SameOwners k e.0 (new_open_file f s) in
        let made : alloc_open_file k f s ≡ (some e.0, l) = rw (e.1, alloc_open_file) refl in
        let now : current_process l ≡ some p = current_process-SameOwners same ∙ h in
        elim (Option-cases (first_empty (max_fds - 3) 3 p.fds)) [
          | inl full ↦
              rw (open_file, made, made, now, full, made)
                (SameOwners-WellFormed w
                  (SameOwners-trans same (release_fd_target-SameOwners (State.open_file e.0) l))
                  (λ c i. omega (
                    arith,
                    tally-release_fd_target (State.open_file e.0) l c i,
                    fresh_file k e.0 f s c i w e.1,
                  )))
          | inr fd ↦
              rw (open_file, made, made, now, fd.1, made)
                (install-WellFormed k l p 13 fd.0 0 (State.open_file e.0) w h same fd.1
                  (omega arith) (λ c i. fresh_file k e.0 f s c i w e.1))
        ])
]
