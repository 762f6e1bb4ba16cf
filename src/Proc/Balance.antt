-- ===== src/Proc/Balance.antt =====
-- Every operation on the descriptors of the current process keeps the counters of the tables
-- exact.
use core_os.Base.{
  ℕ, ◌+◌, ◌-◌, ◌≤◌, ◌<◌, ◌≡◌, ◌≢◌, refl, ap, ◌∙◌, Bool, true, false, not, ◌&&◌, none, some, arith,
  if◌then◌else◌, ltb, get_or, set, length, length-set, Bool-cases, inl, inr, Option-cases,
  get_or-set,
}
use core_os.Base.Totals.{total, total-set, get_or-total}
use core_os.Proc.State.{FdTarget, Thread, max_fds, fd_cloexec}
use core_os.Proc.State
use core_os.Proc.Process.{Process, Kernel, current_process, put_process}
use core_os.Proc.Fd.{retain_fd_target, release_fd_target, is_empty_fd, close_fd, put_fd, dup_onto}
use core_os.Proc.Tally.{Counter, points, tally}
use core_os.Proc.Holders.{process_points, tally-release_fd_target, retain_fd_target-Retained}
use core_os.Proc.Owners.{SameOwners-refl, release_fd_target-SameOwners, retain_fd_target-SameOwners}
use core_os.Proc.Placed.{
  WellFormed, Current, Placed, current_process-Current, current_process-Placed, put_process-Placed,
  put_process-again, Placed-SameOwners, tally-put_process, Placed-WellFormed,
}

pub points-empty : (c : Counter) (i : ℕ) → points c i State.empty ≡ 0
unfolding points
points-empty c i = refl

-- A descriptor exchanged for another.
pub fds-exchange :
    (p : Process) (fd : ℕ) (t : FdTarget) (c : Counter) (i : ℕ)
    → length p.fds ≡ max_fds
    → fd < max_fds
    → total (points c i) (set p.fds fd t) + points c i (get_or p.fds fd State.empty)
      ≡ total (points c i) p.fds + points c i t
fds-exchange p fd t c i s h = total-set (points c i) p.fds fd t State.empty (omega (arith, s, h))

-- What a process holds is recorded.
held-tally :
    (k : Kernel) (p : Process) (fd : ℕ) (c : Counter) (i : ℕ)
    → WellFormed k
    → Current k p
    → points c i (get_or p.fds fd State.empty) ≤ tally c i k
unfolding process_points
held-tally k p fd c i w at =
    let one = get_or-total (points c i) p.fds fd State.empty (points-empty c i) in
    let all = get_or-total (process_points c i) k.processes at.thread.group_slot none refl in
    let held = ap (process_points c i) at.stored in omega (arith, one, all, held, w.exact c i)

close-WellFormed :
    (k : Kernel) (p : Process) (fd : ℕ)
    → WellFormed k
    → current_process k ≡ some p
    → fd < max_fds
    → WellFormed (release_fd_target (put_fd k p fd State.empty 0) (get_or p.fds fd State.empty))
unfolding put_fd
close-WellFormed k p fd w h l =
    let at = current_process-Current k p h in
    let q = record p { fds = set p.fds fd State.empty; fd_flags = set p.fd_flags fd 0 } in
    let target = get_or p.fds fd State.empty in
    let size = w.fds_size at.thread.group_slot p at.stored in
    Placed-WellFormed {q = q} at w
      (Placed-SameOwners (put_process-Placed at.thread q at.here (SameOwners-refl k))
        (release_fd_target-SameOwners target (put_process k q)))
      (length-set p.fds fd State.empty ∙ size)
      (λ c i. omega (
        arith,
        tally-release_fd_target target (put_process k q) c i,
        tally-put_process k q c i,
        fds-exchange p fd State.empty c i size l,
        points-empty c i,
        held-tally k p fd c i w at,
      ))

pub close_fd-WellFormed : (k : Kernel) (fd : ℕ) → WellFormed k → WellFormed (close_fd k fd).1
unfolding close_fd
close_fd-WellFormed k fd w = elim (Option-cases (current_process k)) [
  | inl e ↦ rw (e, close_fd) w
  | inr e ↦
      elim (Bool-cases (ltb fd max_fds && not (is_empty_fd (get_or (e.0).fds fd State.empty)))) [
        | inl full ↦ rw (e.1, close_fd) (rw full (close-WellFormed k e.0 fd w e.1 (ground arith)))
        | inr shut ↦ rw (e.1, close_fd) (rw shut w)
      ]
]

-- Two descriptors of a process hold a reference each.
held-both :
    (k : Kernel) (p : Process) (from dest : ℕ) (c : Counter) (i : ℕ)
    → WellFormed k
    → Current k p
    → dest ≢ from
    → dest < max_fds
    → points c i (get_or p.fds from State.empty) + points c i (get_or p.fds dest State.empty)
      ≤ tally c i k
unfolding process_points
held-both k p from dest c i w at ne l =
    let size = w.fds_size at.thread.group_slot p at.stored in
    let kept : get_or (set p.fds dest State.empty) from State.empty
        ≡ get_or p.fds from State.empty =
      ground (arith, get_or-set p.fds dest from State.empty State.empty) in
    let one =
      get_or-total (points c i) (set p.fds dest State.empty) from State.empty (points-empty c i) in
    let all = get_or-total (process_points c i) k.processes at.thread.group_slot none refl in
    omega (
      arith,
      ap (points c i) kept,
      one,
      fds-exchange p dest State.empty c i size l,
      points-empty c i,
      all,
      ap (process_points c i) at.stored,
      w.exact c i,
    )

-- The end of `dup_fd` from the state in which the old target has been released.
dup_finish :
    (k l : Kernel) (p : Process) (from dest flags : ℕ)
    → WellFormed k
    → (at : Current k p) → dest < max_fds
    → dest ≢ from
    → is_empty_fd (get_or p.fds from State.empty) ≡ false
    → ((c : Counter) (i : ℕ)
        → tally c i l ≡ tally c i k - points c i (get_or p.fds dest State.empty))
    → ((q : Process)
        → Placed k at.thread q
            (put_process (retain_fd_target l (get_or p.fds from State.empty)).1 q))
    → ((retain_fd_target l (get_or p.fds from State.empty)).0 ≡ true)
      × WellFormed (
          put_fd
            (retain_fd_target l (get_or p.fds from State.empty)).1
            p
            dest
            (get_or p.fds from State.empty)
            flags)
      × (current_process (
            put_fd
              (retain_fd_target l (get_or p.fds from State.empty)).1
              p
              dest
              (get_or p.fds from State.empty)
              flags)
          ≡ some (record p {
            fds = set p.fds dest (get_or p.fds from State.empty);
            fd_flags = set p.fd_flags dest flags;
          }))
unfolding put_fd
dup_finish k l p from dest flags w at h ne full released place =
    let target = get_or p.fds from State.empty in
    let q = record p { fds = set p.fds dest target; fd_flags = set p.fd_flags dest flags } in
    let size = w.fds_size at.thread.group_slot p at.stored in
    let kept =
      retain_fd_target-Retained target l
        (λ c i. omega (arith, released c i, held-both k p from dest c i w at ne h)) in
    (
      kept.answer ∙ ap not full,
      Placed-WellFormed {q = q} at w (place q) (length-set p.fds dest target ∙ size) (λ c i. omega (
        arith,
        tally-put_process (retain_fd_target l target).1 q c i,
        kept.counted c i,
        released c i,
        held-both k p from dest c i w at ne h,
        fds-exchange p dest target c i size h,
      )),
      current_process-Placed at (place q),
    )

pub is_empty_fd-points :
    (t : FdTarget) (c : Counter) (i : ℕ) → is_empty_fd t ≡ true → points c i t ≡ 0
unfolding is_empty_fd points
is_empty_fd-points State.empty c i h = refl
is_empty_fd-points State.tty c i h = refl
is_empty_fd-points State.null c i h = refl
is_empty_fd-points State.zeroes c i h = refl
is_empty_fd-points (State.stdio j) c i h = refl
is_empty_fd-points (State.open_file j) c i h = ground (arith, h)
is_empty_fd-points (State.pipe_read j) c i h = ground (arith, h)
is_empty_fd-points (State.pipe_write j) c i h = ground (arith, h)

-- The end of `dup_fd`: it succeeds, and the counters stay exact.
pub dup_onto-lem :
    (k : Kernel) (p : Process) (from dest : ℕ) (cloexec : Bool)
    → WellFormed k
    → current_process k ≡ some p
    → dest < max_fds
    → dest ≢ from
    → is_empty_fd (get_or p.fds from State.empty) ≡ false
    → ((dup_onto k p dest (get_or p.fds from State.empty) cloexec).0 ≡ some dest)
      × WellFormed (dup_onto k p dest (get_or p.fds from State.empty) cloexec).1
      × (current_process (dup_onto k p dest (get_or p.fds from State.empty) cloexec).1
          ≡ some (record p {
            fds = set p.fds dest (get_or p.fds from State.empty);
            fd_flags = set p.fd_flags dest (if cloexec then fd_cloexec else 0);
          }))
unfolding dup_onto
dup_onto-lem k p from dest cloexec w h l ne full =
    let at = current_process-Current k p h in
    let target = get_or p.fds from State.empty in
    let old = get_or p.fds dest State.empty in
    let q = record p { fds = set p.fds dest State.empty } in
    let flags = if cloexec then fd_cloexec else 0 in
    elim (Bool-cases (is_empty_fd old)) [
      | inl free ↦
          (let done =
              dup_finish k k p from dest flags w at l ne full
                (λ c i. omega (arith, is_empty_fd-points old c i free))
                (λ r.
                  put_process-Placed at.thread r at.here (retain_fd_target-SameOwners target k)) in
            rw (dup_onto, free, done.0) (refl, done.1, done.2))
      | inr taken ↦
          (let k1 = release_fd_target (put_process k q) old in
            let done =
              dup_finish k k1 p from dest flags w at l ne full
                (λ c i. omega (
                  arith,
                  tally-release_fd_target old (put_process k q) c i,
                  tally-put_process k q c i,
                ))
                (λ r. put_process-again {p = q} r (
                  Placed-SameOwners
                    (Placed-SameOwners (put_process-Placed at.thread q at.here (SameOwners-refl k))
                      (release_fd_target-SameOwners old (put_process k q)))
                    (retain_fd_target-SameOwners target k1))) in
            rw (dup_onto, taken, done.0) (refl, done.1, done.2))
    ]
