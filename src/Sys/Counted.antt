-- ===== src/Sys/Counted.antt =====
-- The calls on descriptors keep the counters of open files and pipes exact.
use core_os.Base.{
  ℕ, ◌+◌, ◌≡◌, refl, Bool, true, false, ◌||◌, List, [], ◌∷◌, Option, none, some, arith, get_or, set,
  if◌then◌else◌, ◌==◌, leb, Bool-cases, Option-cases, inl, inr,
}
use core_os.Base.Words.{and_not_word}
use core_os.Proc.State.{FdTarget, OpenFile, Pipe, max_fds, fd_cloexec}
use core_os.Proc.State
use core_os.Proc.Process.{Kernel, Process, current_process}
use core_os.Proc.Tables.{
  open_file_at, pipe_at, open_file_used, pipe_used, put_pipe, set_open_file_flags,
}
use core_os.Proc.Tally.{
  tally-put_open_file, tally-put_pipe, used-in_range, pipe_used-in_range, tally-used, tally-readers,
  tally-writers, writers-not_readers,
}
use core_os.Proc.Owners.{SameOwners-refl, put_open_file-SameOwners, put_pipe-SameOwners}
use core_os.Proc.Placed.{
  WellFormed, current_process-Current, put_process-Placed, Placed-WellFormed, tally-put_process,
}
use core_os.Proc.Opening.{SameOwners-WellFormed}
use core_os.Proc.Fd.{
  is_empty_fd, get_fd_target, dup_fd, dup_min, dup_exact, get_fd_flags, set_fd_flags, set_cloexec,
  alloc_pipe,
}
use core_os.Proc.FileIo.{get_status_flags, set_status_flags, set_flags_of}
use core_os.Proc.Balance.{close_fd-WellFormed}
use core_os.Proc.Dup.{dup_fd-DupOutcome}
use core_os.Proc.Piping.{alloc_pipe-WellFormed}
use core_os.Mm.{ok, err}
use core_os.Mm.Calls.{has}
use core_os.Usercopy.{user_range_ok, copy_from_user, copy_to_user}
use core_os.Sys.{Sys}
use core_os.Sys.Kill.{Result, with_kernel}
use core_os.Sys.Files.{
  fd_answer, done_answer, close, dup, dup3, fcntl, pipe_bytes, give_pipe, pipe, flag_fds, flag_pipe,
  pipe2, o_cloexec, o_nonblock,
}

set_fd_flags-WellFormed :
    (k : Kernel) (fd flags : ℕ) → WellFormed k → WellFormed (set_fd_flags k fd flags).1
unfolding set_fd_flags
set_fd_flags-WellFormed k fd flags w = elim (Option-cases (current_process k)) [
  | inl e ↦ rw (set_fd_flags, e) w
  | inr (p, e) ↦ elim (Bool-cases (leb max_fds fd || is_empty_fd (get_or p.fds fd State.empty))) [
    | inl bad ↦ rw (set_fd_flags, e, bad) w
    | inr good ↦
        (let at = current_process-Current k p e in
          let q = record p { fd_flags = set p.fd_flags fd flags } in
          rw (set_fd_flags, e, good)
            (Placed-WellFormed {q = q} at w
              (put_process-Placed at.thread q at.here (SameOwners-refl k))
              (w.fds_size at.thread.group_slot p at.stored)
              (λ c i. omega (arith, tally-put_process k q c i))))
  ]
]

set_pipe_flags-WellFormed :
    (k : Kernel) (j : ℕ) (p : Pipe)
    → pipe_used k j ≡ true
    → p.in_use ≡ (pipe_at k j).in_use
    → p.read_refs ≡ (pipe_at k j).read_refs
    → p.write_refs ≡ (pipe_at k j).write_refs
    → WellFormed k
    → WellFormed (put_pipe k j p)
set_pipe_flags-WellFormed k j p used a b d w =
    let range = pipe_used-in_range k j used in
    SameOwners-WellFormed w (put_pipe-SameOwners k j p) (λ c i. ground (
      arith,
      tally-put_pipe k j p c i range.0 range.1,
      tally-readers k j i c,
      tally-writers k j i c,
      writers-not_readers c,
    ))

set_flags_of-WellFormed :
    (k : Kernel) (t : FdTarget) (flags : ℕ) → WellFormed k → WellFormed (set_flags_of k t flags).1
unfolding set_flags_of set_open_file_flags
set_flags_of-WellFormed k State.empty flags w = w
set_flags_of-WellFormed k State.tty flags w = w
set_flags_of-WellFormed k State.null flags w = w
set_flags_of-WellFormed k State.zeroes flags w = w
set_flags_of-WellFormed k (State.stdio j) flags w = w
set_flags_of-WellFormed k (State.open_file j) flags w = elim (Bool-cases (open_file_used k j)) [
  | inr e ↦ rw (set_flags_of, set_open_file_flags, e) w
  | inl e ↦
      (let range = used-in_range k j e in
        let f = record (open_file_at k j) { status_flags = flags } in
        rw (set_flags_of, set_open_file_flags, e)
          (SameOwners-WellFormed w (put_open_file-SameOwners k j f) (λ c i.
            ground (arith, tally-put_open_file k j f c i range.0 range.1, tally-used k j i c e))))
]
set_flags_of-WellFormed k (State.pipe_read j) flags w = elim (Bool-cases (pipe_used k j)) [
  | inr e ↦ rw (set_flags_of, e) w
  | inl e ↦
      rw (set_flags_of, e)
        (set_pipe_flags-WellFormed k j (record (pipe_at k j) { read_flags = flags }) e refl refl
          refl w)
]
set_flags_of-WellFormed k (State.pipe_write j) flags w = elim (Bool-cases (pipe_used k j)) [
  | inr e ↦ rw (set_flags_of, e) w
  | inl e ↦
      rw (set_flags_of, e)
        (set_pipe_flags-WellFormed k j (record (pipe_at k j) { write_flags = flags }) e refl refl
          refl w)
]

set_status_flags-WellFormed :
    (k : Kernel) (fd flags : ℕ) → WellFormed k → WellFormed (set_status_flags k fd flags).1
unfolding set_status_flags
set_status_flags-WellFormed k fd flags w = elim (Option-cases (get_fd_target k fd)) [
  | inl e ↦ rw (set_status_flags, e) w
  | inr (t, e) ↦ rw (set_status_flags, e) (set_flags_of-WellFormed k t flags w)
]

fd_answer-kernel : (s : Sys) (r : Option ℕ × Kernel) → (fd_answer s r).1.kernel ≡ r.1
unfolding fd_answer
fd_answer-kernel s (none, k) = refl
fd_answer-kernel s (some fd, k) = refl

done_answer-kernel : (s : Sys) (r : Bool × Kernel) → (done_answer s r).1.kernel ≡ r.1
unfolding done_answer
done_answer-kernel s (true, k) = refl
done_answer-kernel s (false, k) = refl

cloexec-WellFormed :
    (b : Bool) (k : Kernel) (fd : ℕ)
    → WellFormed k
    → WellFormed (if◌then◌else◌ {A = Bool × Kernel} b (set_cloexec k fd true) (true, k)).1
unfolding set_cloexec
cloexec-WellFormed true k fd w = set_fd_flags-WellFormed k fd _ w
cloexec-WellFormed false k fd w = w

nonblock-WellFormed :
    (b : Bool) (k : Kernel) (fd : ℕ)
    → WellFormed k
    → WellFormed
        (if◌then◌else◌ {A = Bool × Kernel} b (set_status_flags k fd o_nonblock) (true, k)).1
nonblock-WellFormed true k fd w = set_status_flags-WellFormed k fd o_nonblock w
nonblock-WellFormed false k fd w = w

-- A state with exact counters.
record Exact (r : Result) : Type 0 where
  counters : WellFormed r.1.kernel

exact : (r : Result) → WellFormed r.1.kernel → Exact r
exact r w = record { counters = w }

flag_fds-Exact :
    (fds : List ℕ) (s : Sys) (cloexec nonblock : Bool)
    → WellFormed s.kernel
    → Exact (flag_fds s cloexec nonblock fds)
unfolding flag_fds
flag_fds-Exact [] s cloexec nonblock w = exact _ w
flag_fds-Exact (fd ∷ fds) s cloexec nonblock w =
    let a = cloexec-WellFormed cloexec s.kernel fd w in
    let b = nonblock-WellFormed nonblock _ fd a in
    let ka : Bool × Kernel = if cloexec then set_cloexec s.kernel fd true else (true, s.kernel) in
    let kb : Bool × Kernel =
      if nonblock then set_status_flags ka.1 fd o_nonblock else (true, ka.1) in
    elim (Bool-cases ka.0) [
      | inr e ↦ rw (flag_fds, e) (exact _ a)
      | inl e ↦ elim (Bool-cases kb.0) [
        | inr f ↦ rw (flag_fds, e, f) (exact _ b)
        | inl f ↦ rw (flag_fds, e, f) (flag_fds-Exact fds (with_kernel s kb.1) cloexec nonblock b)
      ]
    ]

give_pipe-WellFormed :
    (s : Sys) (ptr : ℕ) (r : Option (ℕ × ℕ) × Kernel)
    → WellFormed r.1
    → WellFormed (give_pipe s ptr r).1.kernel
unfolding give_pipe
give_pipe-WellFormed s ptr (none, k) w = w
give_pipe-WellFormed s ptr (some (read_fd, write_fd), k) w =
    elim (Option-cases (copy_to_user s.mem ptr (pipe_bytes read_fd write_fd))) [
      | inl e ↦ rw (give_pipe, e) (close_fd-WellFormed _ write_fd (close_fd-WellFormed k read_fd w))
      | inr (m, e) ↦ rw (give_pipe, e) w
    ]

flag_pipe-WellFormed :
    (r : Result) (ptr flags : ℕ)
    → WellFormed r.1.kernel
    → WellFormed (flag_pipe r ptr flags).1.kernel
unfolding flag_pipe
flag_pipe-WellFormed (err error, s) ptr flags w = w
flag_pipe-WellFormed (ok value, s) ptr flags w = elim (Option-cases (copy_from_user s.mem ptr 8)) [
  | inl e ↦ rw (flag_pipe, e) w
  | inr (bs, e) ↦ rw (flag_pipe, e) (flag_fds-Exact _ s _ _ w).counters
]

pipe-WellFormed :
    (s : Sys) (p : Process) (ptr : ℕ)
    → WellFormed s.kernel
    → current_process s.kernel ≡ some p
    → WellFormed (pipe s ptr).1.kernel
unfolding pipe
pipe-WellFormed s p ptr w h = elim (Bool-cases (user_range_ok ptr 8)) [
  | inr e ↦ rw (pipe, e) w
  | inl e ↦
      rw (pipe, e)
        (give_pipe-WellFormed s ptr (alloc_pipe s.kernel) (alloc_pipe-WellFormed s.kernel p w h))
]

-- The calls on descriptors, with their arguments.
pub data FdCall : Type 0 where
  closes : ℕ → FdCall
  dups : ℕ → FdCall
  dups_onto : ℕ → ℕ → ℕ → FdCall
  fcntls : ℕ → ℕ → ℕ → FdCall
  makes_pipe : ℕ → FdCall
  makes_flagged_pipe : ℕ → ℕ → FdCall

unfoldable pub run_call : FdCall → Sys → Result
run_call (closes fd) s = close s fd
run_call (dups fd) s = dup s fd
run_call (dups_onto old_fd new_fd flags) s = dup3 s old_fd new_fd flags
run_call (fcntls fd cmd arg) s = fcntl s fd cmd arg
run_call (makes_pipe ptr) s = pipe s ptr
run_call (makes_flagged_pipe ptr flags) s = pipe2 s ptr flags

dup_fd-Exact :
    (s : Sys) (p : Process) (old_fd min_fd : ℕ) (new_fd : Option ℕ) (cloexec : Bool)
    → WellFormed s.kernel
    → current_process s.kernel ≡ some p
    → Exact (fd_answer s (dup_fd s.kernel old_fd min_fd new_fd cloexec))
dup_fd-Exact s p old_fd min_fd new_fd cloexec w h = exact _ (
    rw (fd_answer-kernel s (dup_fd s.kernel old_fd min_fd new_fd cloexec))
      (dup_fd-DupOutcome s.kernel p old_fd min_fd new_fd cloexec w h).well_formed)

answer-Exact : (s : Sys) (r : Option ℕ) → WellFormed s.kernel → Exact (fd_answer s (r, s.kernel))
answer-Exact s r w = exact _ (rw (fd_answer-kernel s (r, s.kernel)) w)

done-Exact : (s : Sys) (r : Bool × Kernel) → WellFormed r.1 → Exact (done_answer s r)
done-Exact s r w = exact _ (rw (done_answer-kernel s r) w)

run_call-Exact :
    (c : FdCall) (s : Sys) (p : Process)
    → WellFormed s.kernel
    → current_process s.kernel ≡ some p
    → Exact (run_call c s)
unfolding run_call close dup dup3 fcntl pipe2 dup_min dup_exact set_cloexec
run_call-Exact (closes fd) s p w h = done-Exact s _ (close_fd-WellFormed s.kernel fd w)
run_call-Exact (dups fd) s p w h = dup_fd-Exact s p fd 0 none false w h
run_call-Exact (dups_onto old_fd new_fd flags) s p w h =
    elim (Bool-cases (and_not_word 64 flags o_cloexec == 0)) [
      | inr e ↦ rw (run_call, dup3, e) (exact _ w)
      | inl e ↦ elim (Bool-cases (old_fd == new_fd)) [
        | inl f ↦ rw (run_call, dup3, e, f) (exact _ w)
        | inr f ↦
            rw (run_call, dup3, e, f)
              (dup_fd-Exact s p old_fd 0 (some new_fd) (has flags o_cloexec) w h)
      ]
    ]
run_call-Exact (fcntls fd cmd arg) s p w h = elim (Bool-cases (cmd == 0)) [
  | inl a ↦ rw (run_call, fcntl, a) (dup_fd-Exact s p fd arg none false w h)
  | inr a ↦ elim (Bool-cases (cmd == 1030)) [
    | inl b ↦ rw (run_call, fcntl, a, b) (dup_fd-Exact s p fd arg none true w h)
    | inr b ↦ elim (Bool-cases (cmd == 1)) [
      | inl c ↦ rw (run_call, fcntl, a, b, c) (answer-Exact s (get_fd_flags s.kernel fd) w)
      | inr c ↦ elim (Bool-cases (cmd == 2)) [
        | inl d ↦
            rw (run_call, fcntl, a, b, c, d)
              (done-Exact s _ (set_fd_flags-WellFormed s.kernel fd _ w))
        | inr d ↦ elim (Bool-cases (cmd == 3)) [
          | inl e ↦
              rw (run_call, fcntl, a, b, c, d, e) (answer-Exact s (get_status_flags s.kernel fd) w)
          | inr e ↦ elim (Bool-cases (cmd == 4)) [
            | inl f ↦
                rw (run_call, fcntl, a, b, c, d, e, f)
                  (done-Exact s _ (set_status_flags-WellFormed s.kernel fd _ w))
            | inr f ↦ rw (run_call, fcntl, a, b, c, d, e, f) (exact _ w)
          ]
        ]
      ]
    ]
  ]
]
run_call-Exact (makes_pipe ptr) s p w h = exact _ (pipe-WellFormed s p ptr w h)
run_call-Exact (makes_flagged_pipe ptr flags) s p w h =
    elim (Bool-cases (and_not_word 64 flags (o_cloexec + o_nonblock) == 0)) [
      | inr e ↦ rw (run_call, pipe2, e) (exact _ w)
      | inl e ↦
          rw (run_call, pipe2, e)
            (exact _ (flag_pipe-WellFormed (pipe s ptr) ptr flags (pipe-WellFormed s p ptr w h)))
    ]

-- Each call on descriptors (close, dup, dup3, fcntl, pipe, pipe2) of a current process, whatever
-- its arguments and its result, keeps the tables at their sizes and each counter of an open file
-- or a pipe end at the number of descriptors that refer to it.
pub run_call-WellFormed :
    (c : FdCall) (s : Sys) (p : Process)
    → WellFormed s.kernel
    → current_process s.kernel ≡ some p
    → WellFormed (run_call c s).1.kernel
run_call-WellFormed c s p w h = (run_call-Exact c s p w h).counters
