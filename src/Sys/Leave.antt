-- ===== src/Sys/Leave.antt =====
-- The end of a thread and of a process: exit and exit_group of kernel/src/syscall/process.rs. The
-- state is the one in which the processor waits for the next interrupt.
use core_os.Base.{ℕ, true, false, none, some, if◌then◌else◌, ◌==◌}
use core_os.Proc.Process.{Kernel, current_thread}
use core_os.Proc.Life.{exit_thread, kill_task}
use core_os.Usercopy.{copy_word_to_user}
use core_os.Sys.{Sys, notify_parent_exit}
use core_os.Sys.Kill.{with_kernel}
use core_os.Sys.Ids.{getppid}
use core_os.Sys.Futex.{futex_wake, release_robust_list}

-- The write to `clear_child_tid` may fail; the waiters are woken all the same.
unfoldable pub clear_child_tid_and_wake : Sys → Sys
clear_child_tid_and_wake s =
    let s1 = release_robust_list s in
    elim (current_thread s1.kernel) [
      | none ↦ s1
      | some t ↦
          (if t.clear_child_tid == 0
            then s1
            else elim (copy_word_to_user 4 s1.mem t.clear_child_tid 0) [
              | none ↦ (futex_wake s1 t.clear_child_tid 1).1
              | some m ↦ (futex_wake (record s1 { mem = m }) t.clear_child_tid 1).1
            ])
    ]

abbrev kill_current : Kernel → Kernel
kill_current k = record k { tasks = kill_task k.tasks k.current }

unfoldable pub exit : Sys → ℕ → Sys
exit s code =
    let parent_pid = getppid s in
    let s1 = clear_child_tid_and_wake s in
    let r = exit_thread s1.kernel code false in
    with_kernel s1 (kill_current (if r.0 then notify_parent_exit r.1 parent_pid else r.1))

unfoldable pub exit_group : Sys → ℕ → Sys
exit_group s code =
    let parent_pid = getppid s in
    let s1 = clear_child_tid_and_wake s in
    with_kernel s1
      (kill_current (notify_parent_exit (exit_thread s1.kernel code true).1 parent_pid))
