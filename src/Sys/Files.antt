-- ===== src/Sys/Files.antt =====
-- The calls on descriptors in kernel/src/syscall/process.rs, and waitpid.
use core_os.Base.{
  ℕ, ◌+◌, ◌%◌, ◌^◌, Bool, true, false, not, List, [], ◌∷◌, ◌++◌, Option, none, some, get_or, take,
  drop, if◌then◌else◌, ◌==◌, bit_and,
}
use core_os.Base.Words.{and_not_word, to_bytes, of_bytes}
use core_os.Proc.State.{running, zombie, fd_cloexec}
use core_os.Proc.Process.{Kernel, Process}
use core_os.Proc.Life.{current_pid, find_slot_by_pid}
use core_os.Proc.Fd.{close_fd, dup_min, dup_exact, get_fd_flags, set_cloexec, alloc_pipe, reap_slot}
use core_os.Proc.FileIo.{get_status_flags, set_status_flags}
use core_os.Mm.{ok, err, invalid, bad_fd, no_entry, child, fault, unsupported}
use core_os.Mm.Calls.{has}
use core_os.Usercopy.{user_range_ok, copy_from_user, copy_to_user}
use core_os.Sys.{Sys}
use core_os.Sys.Kill.{Result, with_kernel}

abbrev pub o_cloexec : ℕ
o_cloexec = 0o2000000

abbrev pub o_nonblock : ℕ
o_nonblock = 0o4000

abbrev pub fcntl_status_mask : ℕ
fcntl_status_mask = 0o6000

-- An answer of the descriptor tables as the result of a call.
unfoldable pub fd_answer : Sys → Option ℕ × Kernel → Result
fd_answer s (none, k) = (err bad_fd, with_kernel s k)
fd_answer s (some fd, k) = (ok fd, with_kernel s k)

unfoldable pub done_answer : Sys → Bool × Kernel → Result
done_answer s (true, k) = (ok 0, with_kernel s k)
done_answer s (false, k) = (err bad_fd, with_kernel s k)

unfoldable pub close : Sys → ℕ → Result
close s fd = done_answer s (close_fd s.kernel fd)

unfoldable pub dup : Sys → ℕ → Result
dup s oldfd = fd_answer s (dup_min s.kernel oldfd 0 false)

unfoldable pub dup3 : Sys → ℕ → ℕ → ℕ → Result
dup3 s oldfd newfd flags =
    if not (and_not_word 64 flags o_cloexec == 0)
    then (err invalid, s)
    else if oldfd == newfd
    then (err invalid, s)
    else fd_answer s (dup_exact s.kernel oldfd newfd (has flags o_cloexec))

unfoldable pub fcntl : Sys → ℕ → ℕ → ℕ → Result
fcntl s fd cmd arg =
    if cmd == 0
    then fd_answer s (dup_min s.kernel fd arg false)
    else if cmd == 1030
    then fd_answer s (dup_min s.kernel fd arg true)
    else if cmd == 1
    then fd_answer s (get_fd_flags s.kernel fd, s.kernel)
    else if cmd == 2
    then done_answer s (set_cloexec s.kernel fd (has (arg % 2 ^ 32) fd_cloexec))
    else if cmd == 3
    then fd_answer s (get_status_flags s.kernel fd, s.kernel)
    else if cmd == 4
    then done_answer s (set_status_flags s.kernel fd (bit_and (arg % 2 ^ 32) fcntl_status_mask))
    else (err unsupported, s)

-- The two descriptors as the program gets them.
abbrev pub pipe_bytes : ℕ → ℕ → List ℕ
pipe_bytes read_fd write_fd = to_bytes 4 read_fd ++ to_bytes 4 write_fd

unfoldable pub give_pipe : Sys → ℕ → Option (ℕ × ℕ) × Kernel → Result
give_pipe s ptr (none, k) = (err invalid, with_kernel s k)
give_pipe s ptr (some (read_fd, write_fd), k) =
    elim (copy_to_user s.mem ptr (pipe_bytes read_fd write_fd)) [
      | none ↦ (err fault, with_kernel s (close_fd (close_fd k read_fd).1 write_fd).1)
      | some m ↦ (ok 0, record s { kernel = k; mem = m })
    ]

unfoldable pub pipe : Sys → ℕ → Result
pipe s ptr =
    if not (user_range_ok ptr 8) then (err fault, s) else give_pipe s ptr (alloc_pipe s.kernel)

-- The loop of `pipe2` over the two descriptors; as numbers below 16 they are the same after the
-- conversion from `i32`.
unfoldable pub flag_fds : Sys → Bool → Bool → List ℕ → Result
flag_fds s cloexec nonblock [] = (ok 0, s)
flag_fds s cloexec nonblock (fd ∷ fds) =
    let a : Bool × Kernel = if cloexec then set_cloexec s.kernel fd true else (true, s.kernel) in
    let b : Bool × Kernel = if nonblock then set_status_flags a.1 fd o_nonblock else (true, a.1) in
    let rest = flag_fds (with_kernel s b.1) cloexec nonblock fds in
    if not a.0
    then (err bad_fd, with_kernel s a.1)
    else if not b.0
    then (err bad_fd, with_kernel s b.1)
    else rest

unfoldable pub flag_pipe : Result → ℕ → ℕ → Result
flag_pipe (err error, s) ptr flags = (err error, s)
flag_pipe (ok value, s) ptr flags = elim (copy_from_user s.mem ptr 8) [
  | none ↦ (err fault, s)
  | some bs ↦
      flag_fds s (has flags o_cloexec) (has flags o_nonblock)
        (of_bytes (take 4 bs) ∷ of_bytes (take 4 (drop 4 bs)) ∷ [])
]

unfoldable pub pipe2 : Sys → ℕ → ℕ → Result
pipe2 s ptr flags =
    if not (and_not_word 64 flags (o_cloexec + o_nonblock) == 0)
    then (err invalid, s)
    else flag_pipe (pipe s ptr) ptr flags

-- `is_running_in_slot`
unfoldable pub is_running : Option Process → Bool
is_running none = false
is_running (some p) = elim p.state [ running ↦ true | zombie ↦ false ]

unfoldable pub reap_answer : Sys → Option ℕ × Kernel → Result
reap_answer s (none, k) = (err invalid, with_kernel s k)
reap_answer s (some code, k) = (ok code, with_kernel s k)

unfoldable pub reap : Sys → ℕ → Result
reap s slot = reap_answer s (reap_slot s.kernel slot)

-- The loop of `waitpid`, with what the other tasks do in each turn; none when the turns have ended
-- and the child still runs.
unfoldable pub wait_child : List (Sys → Sys) → Sys → ℕ → Option Result
wait_child [] s slot =
    if is_running (get_or s.kernel.processes slot none) then none else some (reap s slot)
wait_child (turn ∷ turns) s slot =
    let rest = wait_child turns (turn s) slot in
    if is_running (get_or s.kernel.processes slot none) then rest else some (reap s slot)

unfoldable pub waitpid : List (Sys → Sys) → Sys → ℕ → Option Result
waitpid turns s pid =
    if pid == 0 then some (err invalid, s) else elim (find_slot_by_pid pid s.kernel.processes 0) [
      | none ↦ some (err no_entry, s)
      | some slot ↦
          (if slot == s.kernel.current
            then some (err invalid, s)
            else elim (get_or s.kernel.processes slot none) [
              | none ↦ some (err no_entry, s)
              | some target ↦
                  (let rest = wait_child turns s slot in
                    if target.parent_pid == current_pid s.kernel then rest else some (err child, s))
            ])
    ]
