-- ===== src/Proc/Fd.antt =====
-- File descriptors of the current process: kernel/src/proc/fd.rs. A result of -1 that the callers
-- turn into `None` is `none`.
use core_os.Base.{
  ℕ, zero, suc, ◌+◌, ◌-◌, Bool, true, false, not, ◌&&◌, ◌||◌, List, [], ◌∷◌, Option, none, some,
  get_or, set, if◌then◌else◌, ◌==◌, ltb, leb,
}
use core_os.Proc.State.{
  FdTarget, DescriptorInfo, max_fds, fd_cloexec, RunState, running, zombie, new_group_member,
  Thread,
}
use core_os.Proc.State
use core_os.Proc.Process.{Process, Kernel, current_thread, current_process, put_process, fork_from}
use core_os.Proc.Tables.{
  alloc_open_file, retain_open_file, release_open_file, open_file_info, alloc_pipe_entry,
  clear_pipe, retain_read, retain_write, release_read, release_write,
}
use core_os.Fs.{Filesystem}

unfoldable pub is_empty_fd : FdTarget → Bool
is_empty_fd State.empty = true
is_empty_fd State.tty = false
is_empty_fd State.null = false
is_empty_fd State.zeroes = false
is_empty_fd (State.stdio i) = false
is_empty_fd (State.open_file i) = false
is_empty_fd (State.pipe_read i) = false
is_empty_fd (State.pipe_write i) = false

unfoldable pub retain_fd_target : Kernel → FdTarget → Bool × Kernel
retain_fd_target k State.empty = (false, k)
retain_fd_target k State.tty = (true, k)
retain_fd_target k State.null = (true, k)
retain_fd_target k State.zeroes = (true, k)
retain_fd_target k (State.stdio i) = (true, k)
retain_fd_target k (State.open_file i) = retain_open_file k i
retain_fd_target k (State.pipe_read i) = retain_read k i
retain_fd_target k (State.pipe_write i) = retain_write k i

unfoldable pub release_fd_target : Kernel → FdTarget → Kernel
release_fd_target k State.empty = k
release_fd_target k State.tty = k
release_fd_target k State.null = k
release_fd_target k State.zeroes = k
release_fd_target k (State.stdio i) = k
release_fd_target k (State.open_file i) = release_open_file k i
release_fd_target k (State.pipe_read i) = release_read k i
release_fd_target k (State.pipe_write i) = release_write k i

unfoldable pub release_fds : Kernel → List FdTarget → Kernel
release_fds k [] = k
release_fds k (t ∷ ts) = release_fds (release_fd_target k t) ts

-- The loop of `fork_current` over the descriptors of the parent.
unfoldable pub retain_fds : Kernel → List FdTarget → Kernel
retain_fds k [] = k
retain_fds k (t ∷ ts) = retain_fds (retain_fd_target k t).1 ts

-- `fork_current`; none where the `expect`s fail. The parent is read before the loop, which does not
-- write to the processes.
unfoldable pub fork_current : Kernel → ℕ → Option (ℕ × Kernel)
fork_current k task_slot = elim (current_process k) [
  | none ↦ none
  | some parent ↦ elim (current_thread k) [
    | none ↦ none
    | some thread ↦
        (let pid = k.next_pid in
          let k1 = retain_fds (record k { next_pid = k.next_pid + 1 }) parent.fds in
          some (
            pid,
            record k1 {
              processes = set k1.processes task_slot (some (fork_from parent pid));
              threads = set k1.threads task_slot (
                  some (
                    new_group_member pid thread.tid task_slot task_slot 0 thread.fs_base
                      thread.sig_mask));
            },
          ))
  ]
]

-- `reap_slot`
unfoldable pub reap_process : Kernel → ℕ → Process → RunState → Option ℕ × Kernel
reap_process k slot p running = (none, k)
reap_process k slot p zombie =
    let k1 = release_fds k p.fds in
    (
      some p.exit_code,
      record k1 { processes = set k1.processes slot none; threads = set k1.threads slot none },
    )

unfoldable pub reap_slot : Kernel → ℕ → Option ℕ × Kernel
reap_slot k slot = elim (get_or k.processes slot none) [
  | none ↦ (none, k)
  | some p ↦ reap_process k slot p p.state
]

-- A write to one descriptor of the current process and to its flags.
unfoldable pub put_fd : Kernel → Process → ℕ → FdTarget → ℕ → Kernel
put_fd k p fd target flags =
    put_process k (record p { fds = set p.fds fd target; fd_flags = set p.fd_flags fd flags })

-- The first empty descriptor from `fd` on, among the next `n`.
unfoldable pub first_empty : ℕ → ℕ → List FdTarget → Option ℕ
first_empty zero fd fds = none
first_empty (suc n) fd fds =
    let rest = first_empty n (fd + 1) fds in
    if is_empty_fd (get_or fds fd State.empty) then some fd else rest

abbrev first_fd : ℕ
first_fd = 3

-- `alloc_fd_with_flags`, which is `open_file`.
unfoldable pub open_file : Kernel → ℕ → ℕ → Option ℕ × Kernel
open_file k file_idx status_flags =
    let made = alloc_open_file k file_idx status_flags in
    elim made.0 [
      | none ↦ (none, k)
      | some open_idx ↦ elim (current_process made.1) [
        | none ↦ (none, made.1)
        | some p ↦ elim (first_empty (max_fds - first_fd) first_fd p.fds) [
          | none ↦ (none, release_fd_target made.1 (State.open_file open_idx))
          | some fd ↦ (some fd, put_fd made.1 p fd (State.open_file open_idx) 0)
        ]
      ]
    ]

-- `get_fd_target`
unfoldable pub target_of : Process → ℕ → Option FdTarget
target_of p fd =
    let target = get_or p.fds fd State.empty in
    if ltb fd max_fds && not (is_empty_fd target) then some target else none

unfoldable pub get_fd_target : Kernel → ℕ → Option FdTarget
get_fd_target k fd = elim (current_process k) [ none ↦ none | some p ↦ target_of p fd ]

unfoldable pub info_of : Kernel → Filesystem → FdTarget → Option DescriptorInfo
info_of k fs State.empty = none
info_of k fs State.tty = some State.char_device
info_of k fs State.null = some State.char_device
info_of k fs State.zeroes = some State.char_device
info_of k fs (State.stdio i) = some (State.stdio i)
info_of k fs (State.open_file i) = open_file_info k fs i
info_of k fs (State.pipe_read i) = some State.pipe
info_of k fs (State.pipe_write i) = some State.pipe

unfoldable pub descriptor_info : Kernel → Filesystem → ℕ → Option DescriptorInfo
descriptor_info k fs fd = elim (get_fd_target k fd) [ none ↦ none | some t ↦ info_of k fs t ]

-- `close_fd`, which `close_descriptor` calls.
unfoldable pub close_fd : Kernel → ℕ → Bool × Kernel
close_fd k fd = elim (current_process k) [
  | none ↦ (false, k)
  | some p ↦
      (let target = get_or p.fds fd State.empty in
        if ltb fd max_fds && not (is_empty_fd target)
        then (true, release_fd_target (put_fd k p fd State.empty 0) target)
        else (false, k))
]

-- The descriptor that `dup_fd` will write: `new_fd` if it is given, or else the first empty one
-- from `min_fd` on.
unfoldable pub dup_dest : Process → ℕ → Option ℕ → Option ℕ
dup_dest p min_fd (some fd) = if leb max_fds fd then none else some fd
dup_dest p min_fd none = first_empty (max_fds - min_fd) min_fd p.fds

-- The end of `dup_fd`, once the two descriptors differ.
unfoldable pub dup_onto : Kernel → Process → ℕ → FdTarget → Bool → Option ℕ × Kernel
dup_onto k p dest target cloexec =
    let old = get_or p.fds dest State.empty in
    let q = record p { fds = set p.fds dest State.empty } in
    let k1 = if is_empty_fd old then k else release_fd_target (put_process k q) old in
    let kept = retain_fd_target k1 target in
    if kept.0
    then (some dest, put_fd kept.1 p dest target (if cloexec then fd_cloexec else 0))
    else (none, kept.1)

-- A first empty descriptor is never `old_fd`, so the test for equality can follow both ways.
unfoldable pub dup_fd : Kernel → ℕ → ℕ → Option ℕ → Bool → Option ℕ × Kernel
dup_fd k old_fd min_fd new_fd cloexec = elim (current_process k) [
  | none ↦ (none, k)
  | some p ↦
      (let target = get_or p.fds old_fd State.empty in
        if leb max_fds old_fd || is_empty_fd target
        then (none, k)
        else elim (dup_dest p min_fd new_fd) [
          | none ↦ (none, k)
          | some dest ↦
              (if dest == old_fd then (some dest, k) else dup_onto k p dest target cloexec)
        ])
]

unfoldable pub dup_min : Kernel → ℕ → ℕ → Bool → Option ℕ × Kernel
dup_min k old_fd min_fd cloexec = dup_fd k old_fd min_fd none cloexec

unfoldable pub dup_exact : Kernel → ℕ → ℕ → Bool → Option ℕ × Kernel
dup_exact k old_fd new_fd cloexec = dup_fd k old_fd 0 (some new_fd) cloexec

pub get_fd_flags : Kernel → ℕ → Option ℕ
get_fd_flags k fd = elim (current_process k) [
  | none ↦ none
  | some p ↦
      (if leb max_fds fd || is_empty_fd (get_or p.fds fd State.empty)
        then none
        else some (get_or p.fd_flags fd 0))
]

unfoldable pub set_fd_flags : Kernel → ℕ → ℕ → Bool × Kernel
set_fd_flags k fd flags = elim (current_process k) [
  | none ↦ (false, k)
  | some p ↦
      (if leb max_fds fd || is_empty_fd (get_or p.fds fd State.empty)
        then (false, k)
        else (true, put_process k (record p { fd_flags = set p.fd_flags fd flags })))
]

unfoldable pub set_cloexec : Kernel → ℕ → Bool → Bool × Kernel
set_cloexec k fd cloexec = set_fd_flags k fd (if cloexec then fd_cloexec else 0)

-- `alloc_specific_fd`
unfoldable pub alloc_specific_fd : Kernel → FdTarget → ℕ → Option ℕ × Kernel
alloc_specific_fd k target flags = elim (current_process k) [
  | none ↦ (none, k)
  | some p ↦ elim (first_empty (max_fds - first_fd) first_fd p.fds) [
    | none ↦ (none, k)
    | some fd ↦ (some fd, put_fd k p fd target flags)
  ]
]

-- The two ends of `alloc_pipe`, each from the answer of the step before.
unfoldable pub write_end : ℕ → ℕ → Option ℕ × Kernel → Option (ℕ × ℕ) × Kernel
write_end pipe_idx read_fd (none, k) = (none, clear_pipe (close_fd k read_fd).1 pipe_idx)
write_end pipe_idx read_fd (some write_fd, k) = (some (read_fd, write_fd), k)

unfoldable pub read_end : ℕ → Option ℕ × Kernel → Option (ℕ × ℕ) × Kernel
read_end pipe_idx (none, k) = (none, clear_pipe k pipe_idx)
read_end pipe_idx (some read_fd, k) =
    write_end pipe_idx read_fd (alloc_specific_fd k (State.pipe_write pipe_idx) 0)

unfoldable pub pipe_ends : Option ℕ × Kernel → Option (ℕ × ℕ) × Kernel
pipe_ends (none, k) = (none, k)
pipe_ends (some pipe_idx, k) = read_end pipe_idx (alloc_specific_fd k (State.pipe_read pipe_idx) 0)

-- `alloc_pipe`, which `create_pipe_pair` calls.
unfoldable pub alloc_pipe : Kernel → Option (ℕ × ℕ) × Kernel
alloc_pipe k = pipe_ends (alloc_pipe_entry k)

unfoldable pub open_char_device : Kernel → FdTarget → Option ℕ × Kernel
open_char_device k State.empty = (none, k)
open_char_device k State.tty = alloc_specific_fd k State.tty 0
open_char_device k State.null = alloc_specific_fd k State.null 0
open_char_device k State.zeroes = alloc_specific_fd k State.zeroes 0
open_char_device k (State.stdio i) = (none, k)
open_char_device k (State.open_file i) = (none, k)
open_char_device k (State.pipe_read i) = (none, k)
open_char_device k (State.pipe_write i) = (none, k)
