-- ===== src/Sys/Ids.antt =====
-- The calls of kernel/src/syscall/process.rs that read and set the numbers of a process: its ids, its
-- group and session, its users and groups, and the mask of its files.
use core_os.Base.{ℕ, ◌%◌, ◌^◌, not, ◌||◌, none, some, get_or, if◌then◌else◌, ◌==◌, bit_and}
use core_os.Proc.Process.{Process, current_process, current_thread, put_process}
use core_os.Proc.Life.{current_pid, find_slot_by_pid}
use core_os.Mm.{SysResult, ok, err, invalid, no_entry, fault, unsupported}
use core_os.Usercopy.{copy_word_to_user}
use core_os.Sys.{Sys, put_thread}
use core_os.Sys.Kill.{Result, with_kernel}

-- A field of the current process, or 0.
abbrev of_process : Sys → (Process → ℕ) → ℕ
of_process s field = elim (current_process s.kernel) [ none ↦ 0 | some p ↦ field p ]

unfoldable pub getpid : Sys → ℕ
getpid s = current_pid s.kernel

unfoldable pub getppid : Sys → ℕ
getppid s = of_process s (λ p. p.parent_pid)

unfoldable pub gettid : Sys → ℕ
gettid s = elim (current_thread s.kernel) [ none ↦ 0 | some t ↦ t.tid ]

unfoldable pub getuid : Sys → ℕ
getuid s = of_process s (λ p. p.uid)

unfoldable pub geteuid : Sys → ℕ
geteuid s = of_process s (λ p. p.euid)

unfoldable pub getgid : Sys → ℕ
getgid s = of_process s (λ p. p.gid)

unfoldable pub getegid : Sys → ℕ
getegid s = of_process s (λ p. p.egid)

unfoldable pub getpgrp : Sys → ℕ
getpgrp s = of_process s (λ p. p.pgid)

-- A write to the current process.
abbrev on_process : Sys → (Process → SysResult × Process) → Result
on_process s f = elim (current_process s.kernel) [
  | none ↦ (err invalid, s)
  | some p ↦ ((f p).0, with_kernel s (put_process s.kernel (f p).1))
]

unfoldable pub setuid : Sys → ℕ → Result
setuid s uid = on_process s (λ p. (ok 0, record p { uid = uid % 2 ^ 32; euid = uid % 2 ^ 32 }))

unfoldable pub setgid : Sys → ℕ → Result
setgid s gid = on_process s (λ p. (ok 0, record p { gid = gid % 2 ^ 32; egid = gid % 2 ^ 32 }))

unfoldable pub umask : Sys → ℕ → Result
umask s mask = on_process s (λ p. (ok p.umask, record p { umask = bit_and (mask % 2 ^ 32) 0o777 }))

unfoldable pub set_tid_address : Sys → ℕ → Result
set_tid_address s tidptr = elim (current_thread s.kernel) [
  | none ↦ (err invalid, s)
  | some t ↦ (ok t.tid, with_kernel s (put_thread s.kernel (record t { clear_child_tid = tidptr })))
]

-- A field of the process with this id; 0 stands for the current one.
abbrev of_pid : Sys → ℕ → (Process → ℕ) → SysResult
of_pid s pid field =
    if pid == 0 then ok (of_process s field) else elim (find_slot_by_pid pid s.kernel.processes 0) [
      | none ↦ err no_entry
      | some slot ↦ elim (get_or s.kernel.processes slot none) [
        | none ↦ err no_entry
        | some p ↦ ok (field p)
      ]
    ]

unfoldable pub getpgid : Sys → ℕ → SysResult
getpgid s pid = of_pid s pid (λ p. p.pgid)

unfoldable pub getsid : Sys → ℕ → SysResult
getsid s pid = of_pid s pid (λ p. p.sid)

unfoldable pub setpgid : Sys → ℕ → ℕ → Result
setpgid s pid pgid =
    let target_pid = if pid == 0 then current_pid s.kernel else pid in
    if not (target_pid == current_pid s.kernel)
    then (err unsupported, s)
    else elim (current_process s.kernel) [
      | none ↦ (err invalid, s)
      | some p ↦
          (let new_pgid = if pgid == 0 then target_pid else pgid in
            if new_pgid == 0
            then (err invalid, s)
            else if new_pgid == target_pid || new_pgid == p.pgid
            then (ok 0, with_kernel s (put_process s.kernel (record p { pgid = new_pgid })))
            else (err unsupported, s))
    ]

-- The three copies of `getresuid` and `getresgid`, in order; the first that fails ends the call.
abbrev store_ids : Sys → ℕ → ℕ → ℕ → ℕ → ℕ → Result
store_ids s real_ptr effective_ptr saved_ptr real effective =
    elim (copy_word_to_user 4 s.mem real_ptr real) [
      | none ↦ (err fault, s)
      | some m ↦ elim (copy_word_to_user 4 m effective_ptr effective) [
        | none ↦ (err fault, record s { mem = m })
        | some m1 ↦ elim (copy_word_to_user 4 m1 saved_ptr effective) [
          | none ↦ (err fault, record s { mem = m1 })
          | some m2 ↦ (ok 0, record s { mem = m2 })
        ]
      ]
    ]

unfoldable pub getresuid : Sys → ℕ → ℕ → ℕ → Result
getresuid s ruid_ptr euid_ptr suid_ptr = elim (current_process s.kernel) [
  | none ↦ (err invalid, s)
  | some p ↦ store_ids s ruid_ptr euid_ptr suid_ptr p.uid p.euid
]

unfoldable pub getresgid : Sys → ℕ → ℕ → ℕ → Result
getresgid s rgid_ptr egid_ptr sgid_ptr = elim (current_process s.kernel) [
  | none ↦ (err invalid, s)
  | some p ↦ store_ids s rgid_ptr egid_ptr sgid_ptr p.gid p.egid
]
