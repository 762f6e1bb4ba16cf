-- ===== src/Proc/Piping.antt =====
-- `alloc_pipe` keeps the counters exact, whether it succeeds or not.
use core_os.Base.{
  ℕ, suc, ◌+◌, ◌-◌, ◌≤◌, ◌<◌, ◌≡◌, refl, sym, ap, ◌∙◌, true, false, List, [], ◌∷◌, none, some,
  arith, ltb, get_or, set, length, length-set, get_or-set, Bool-cases, inl, inr, Option-cases,
}
use mathlib.Core.Path.{subst}
use core_os.Proc.State.{FdTarget, Pipe, Thread, max_fds, max_pipes, empty_pipe, new_pipe}
use core_os.Proc.State
use core_os.Proc.Process.{Process, Kernel, current_process, put_process}
use core_os.Proc.Tables.{pipe_used, put_pipe, free_pipe, alloc_pipe_entry, clear_pipe}
use core_os.Proc.Fd.{
  is_empty_fd, first_empty, release_fd_target, alloc_specific_fd, put_fd, close_fd, alloc_pipe,
  pipe_ends, read_end, write_end,
}
use core_os.Proc.Tally.{
  Counter, points, tally, tally-put_pipe, tally-readers, tally-writers, writers-not_readers,
}
use core_os.Proc.Holders.{tally-release_fd_target}
use core_os.Proc.Owners.{
  SameOwners-trans, put_pipe-SameOwners, clear_pipe-SameOwners, release_fd_target-SameOwners,
  current_process-SameOwners,
}
use core_os.Proc.Placed.{
  WellFormed, current_process-Current, current_process-Placed, put_process-Placed,
  put_process-again, Placed-SameOwners, tally-put_process, Placed-WellFormed, some_inj,
}
use core_os.Proc.Balance.{fds-exchange, is_empty_fd-points}
use core_os.Proc.Dest.{first_empty-FirstEmpty}
use core_os.Proc.Opening.{SameOwners-WellFormed}

record FreePipe (ps : List Pipe) (i : ℕ) : Type 0 where
  in_range : i < length ps
  unused : (get_or ps i empty_pipe).in_use ≡ false

free_pipe-FreePipe :
    (ps : List Pipe) (start i : ℕ)
    → free_pipe ps start ≡ some i
    → (start ≤ i) × FreePipe ps (i - start)
unfolding free_pipe
free_pipe-FreePipe [] start i e = absurd (ground (arith, e))
free_pipe-FreePipe (p ∷ ps) start i e = elim (Bool-cases p.in_use) [
  | inl used ↦
      (let rest = free_pipe-FreePipe ps (start + 1) i (sym (rw used refl) ∙ e) in
        let place : i - start ≡ suc (i - (start + 1)) = omega (arith, rest.0) in
        (
          omega (arith, rest.0),
          rw place
              (record { in_range = omega (arith, (rest.1).in_range); unused = (rest.1).unused }),
        ))
  | inr free ↦
      (let same : start ≡ i = some_inj (sym (rw free refl) ∙ e) in
        let place : i - start ≡ 0 = omega (arith, same) in
        (omega (arith, same), rw place (record { in_range = omega arith; unused = free })))
]

-- Before a pipe is made its entry counts nothing, and after that one reader and one writer.
record Fresh (k : Kernel) (j : ℕ) : Type 0 where
  below : j < max_pipes
  in_range : j < length k.pipes
  cleared :
      (m : Kernel) (c : Counter) (i : ℕ)
      → length m.pipes ≡ length k.pipes
      → tally c i k ≤ tally c i m
      → tally c i m ≤ tally c i k + points c i (State.pipe_read j) + points c i (State.pipe_write j)
      → tally c i (clear_pipe m j) ≡ tally c i k
  now :
      (c : Counter) (i : ℕ)
      → tally c i (put_pipe k j new_pipe)
        ≡ tally c i k + points c i (State.pipe_read j) + points c i (State.pipe_write j)

free_pipe-Fresh : (k : Kernel) (j : ℕ) → WellFormed k → free_pipe k.pipes 0 ≡ some j → Fresh k j
unfolding points clear_pipe
free_pipe-Fresh k j w e =
    let zero : j - 0 ≡ j = omega arith in
    let found : FreePipe k.pipes j =
      subst (FreePipe k.pipes) zero (free_pipe-FreePipe k.pipes 0 j e).1 in
    let unused : pipe_used k j ≡ false = ground (arith, found.unused) in
    let below : j < max_pipes = omega (arith, found.in_range, w.pipes_size) in
    record {
      below = below;
      in_range = found.in_range;
      cleared = λ m c i size low high. ground (
        arith,
        tally-put_pipe m j empty_pipe c i below (omega (arith, size, found.in_range)),
        tally-readers k j i c,
        tally-writers k j i c,
        writers-not_readers c,
      );
      now = λ c i. ground (
        arith,
        tally-put_pipe k j new_pipe c i below found.in_range,
        tally-readers k j i c,
        tally-writers k j i c,
        writers-not_readers c,
      );
    }

-- A pipe whose read end found no descriptor is taken back.
no_read_end :
    (k : Kernel) (j : ℕ)
    → WellFormed k
    → Fresh k j
    → WellFormed (clear_pipe (put_pipe k j new_pipe) j)
no_read_end k j w f =
    let l = put_pipe k j new_pipe in
    let same = put_pipe-SameOwners k j new_pipe in
    SameOwners-WellFormed w (SameOwners-trans same (clear_pipe-SameOwners l j))
      (λ c i. f.cleared l c i same.pipes_size (omega (arith, f.now c i)) (omega (arith, f.now c i)))

-- The process with one descriptor changed.
abbrev with_fd : Process → ℕ → FdTarget → Process
with_fd p fd t = record p { fds = set p.fds fd t; fd_flags = set p.fd_flags fd 0 }

-- Both ends in place.
both_ends :
    (k : Kernel) (p : Process) (j r w : ℕ)
    → WellFormed k
    → current_process k ≡ some p
    → Fresh k j
    → first_empty 13 3 p.fds ≡ some r
    → first_empty 13 3 (with_fd p r (State.pipe_read j)).fds ≡ some w
    → WellFormed (
        put_process
          (put_process (put_pipe k j new_pipe) (with_fd p r (State.pipe_read j)))
          (with_fd (with_fd p r (State.pipe_read j)) w (State.pipe_write j)))
both_ends k p j r w v h f er ew =
    let at = current_process-Current k p h in
    let size = v.fds_size at.thread.group_slot p at.stored in
    let l = put_pipe k j new_pipe in
    let q = with_fd p r (State.pipe_read j) in
    let q2 = with_fd q w (State.pipe_write j) in
    let size_q : length q.fds ≡ max_fds = length-set p.fds r (State.pipe_read j) ∙ size in
    let fr = first_empty-FirstEmpty 13 3 p.fds r er in
    let fw = first_empty-FirstEmpty 13 3 q.fds w ew in
    Placed-WellFormed {q = q2} at v
      (put_process-again {p = q} q2
        (put_process-Placed at.thread q at.here (put_pipe-SameOwners k j new_pipe)))
      (length-set q.fds w (State.pipe_write j) ∙ size_q)
      (λ c i. omega (
        arith,
        tally-put_process (put_process l q) q2 c i,
        tally-put_process l q c i,
        f.now c i,
        fds-exchange p r (State.pipe_read j) c i size fr.below,
        fds-exchange q w (State.pipe_write j) c i size_q fw.below,
        is_empty_fd-points (get_or p.fds r State.empty) c i fr.free,
        is_empty_fd-points (get_or q.fds w State.empty) c i fw.free,
      ))

close_step :
    (k : Kernel) (q : Process) (fd : ℕ) (t : FdTarget)
    → current_process k ≡ some q
    → get_or q.fds fd State.empty ≡ t
    → is_empty_fd t ≡ false
    → fd < max_fds
    → (close_fd k fd).1 ≡ release_fd_target (put_process k (with_fd q fd State.empty)) t
unfolding close_fd put_fd
close_step k q fd t h there full below =
    let range : ltb fd max_fds ≡ true = ground arith in rw (h, close_fd, there, range, full) refl

-- A pipe whose write end found no descriptor: the read end is closed, and the pipe taken back.
no_write_end :
    (k : Kernel) (p : Process) (j r : ℕ)
    → WellFormed k
    → current_process k ≡ some p
    → Fresh k j
    → first_empty 13 3 p.fds ≡ some r
    → WellFormed (
        clear_pipe
          (close_fd (put_process (put_pipe k j new_pipe) (with_fd p r (State.pipe_read j))) r).1
          j)
unfolding is_empty_fd
no_write_end k p j r v h f er =
    let at = current_process-Current k p h in
    let size = v.fds_size at.thread.group_slot p at.stored in
    let l = put_pipe k j new_pipe in
    let q = with_fd p r (State.pipe_read j) in
    let q2 = with_fd q r State.empty in
    let size_q : length q.fds ≡ max_fds = length-set p.fds r (State.pipe_read j) ∙ size in
    let fr = first_empty-FirstEmpty 13 3 p.fds r er in
    let place = put_process-Placed at.thread q at.here (put_pipe-SameOwners k j new_pipe) in
    let m = release_fd_target (put_process (put_process l q) q2) (State.pipe_read j) in
    let there : get_or q.fds r State.empty ≡ State.pipe_read j =
      ground (arith, get_or-set p.fds r r (State.pipe_read j) State.empty, size, fr.below) in
    let closed : (close_fd (put_process l q) r).1 ≡ m =
      close_step (put_process l q) q r (State.pipe_read j) (current_process-Placed at place) there
        refl fr.below in
    let placed_m =
      Placed-SameOwners (put_process-again {p = q} q2 place)
        (release_fd_target-SameOwners (State.pipe_read j) (put_process (put_process l q) q2)) in
    let count : (c : Counter) (i : ℕ)
        → tally c i m ≡ tally c i k + points c i (State.pipe_write j) =
      λ c i. omega (
        arith,
        tally-release_fd_target (State.pipe_read j) (put_process (put_process l q) q2) c i,
        tally-put_process (put_process l q) q2 c i,
        tally-put_process l q c i,
        f.now c i,
      ) in
    rw closed (
      Placed-WellFormed {q = q2} at v (Placed-SameOwners placed_m (clear_pipe-SameOwners m j))
        (length-set q.fds r State.empty ∙ size_q)
        (λ c i. omega (
          arith,
          f.cleared m c i placed_m.pipes_size (omega (arith, count c i)) (omega (arith, count c i)),
          fds-exchange p r (State.pipe_read j) c i size fr.below,
          fds-exchange q r State.empty c i size_q fr.below,
          ap (points c i) there,
          is_empty_fd-points (get_or p.fds r State.empty) c i fr.free,
          is_empty_fd-points State.empty c i refl,
        )))

alloc_specific_fd-full :
    (k : Kernel) (p : Process) (t : FdTarget)
    → current_process k ≡ some p
    → first_empty 13 3 p.fds ≡ none
    → alloc_specific_fd k t 0 ≡ (none, k)
unfolding alloc_specific_fd
alloc_specific_fd-full k p t h full = rw (h, alloc_specific_fd, full) refl

alloc_specific_fd-found :
    (k : Kernel) (p : Process) (t : FdTarget) (fd : ℕ)
    → current_process k ≡ some p
    → first_empty 13 3 p.fds ≡ some fd
    → alloc_specific_fd k t 0 ≡ (some fd, put_process k (with_fd p fd t))
unfolding alloc_specific_fd put_fd
alloc_specific_fd-found k p t fd h found = rw (h, alloc_specific_fd, found) refl

pub alloc_pipe-WellFormed :
    (k : Kernel) (p : Process)
    → WellFormed k
    → current_process k ≡ some p
    → WellFormed (alloc_pipe k).1
unfolding alloc_pipe pipe_ends read_end write_end alloc_pipe_entry
alloc_pipe-WellFormed k p v h = elim (Option-cases (free_pipe k.pipes 0)) [
  | inl e ↦
      (let made : alloc_pipe_entry k ≡ (none, k) = rw (e, alloc_pipe_entry) refl in
        rw (alloc_pipe, made) v)
  | inr e ↦
      (let j = e.0 in
        let l = put_pipe k j new_pipe in
        let f = free_pipe-Fresh k j v e.1 in
        let made : alloc_pipe_entry k ≡ (some j, l) = rw (e.1, alloc_pipe_entry) refl in
        let now : current_process l ≡ some p =
          current_process-SameOwners (put_pipe-SameOwners k j new_pipe) ∙ h in
        rw (alloc_pipe, made)
          (elim (Option-cases (first_empty 13 3 p.fds)) [
            | inl full ↦
                rw (alloc_specific_fd-full l p (State.pipe_read j) now full) (no_read_end k j v f)
            | inr r ↦
                (let q = with_fd p r.0 (State.pipe_read j) in
                  let m = put_process l q in
                  let at = current_process-Current k p h in
                  let then_now : current_process m ≡ some q =
                    current_process-Placed at
                      (put_process-Placed at.thread q at.here (put_pipe-SameOwners k j new_pipe)) in
                  rw (alloc_specific_fd-found l p (State.pipe_read j) r.0 now r.1)
                    (elim (Option-cases (first_empty 13 3 q.fds)) [
                      | inl full ↦
                          rw (alloc_specific_fd-full m q (State.pipe_write j) then_now full)
                            (no_write_end k p j r.0 v h f r.1)
                      | inr w ↦
                          rw (alloc_specific_fd-found m q (State.pipe_write j) w.0 then_now w.1)
                            (both_ends k p j r.0 w.0 v h f r.1 w.1)
                    ]))
          ]))
]
