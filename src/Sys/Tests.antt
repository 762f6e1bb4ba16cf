-- ===== src/Sys/Tests.antt =====
-- Runs of the system calls on processes, on small states.
use core_os.Base.{
  ℕ, zero, suc, ◌+◌, ◌-◌, ◌*◌, ◌^◌, ◌<◌, ◌≡◌, ◌≢◌, refl, Bool, true, false, List, [], ◌∷◌, Option,
  none, some, arith, get_or, set, replicate, take, min, if◌then◌else◌, ◌==◌, ltb, length, ◌||◌,
  ◌&&◌,
}
use core_os.Base.Words.{nth_bit, or_bit, to_bytes}
use core_os.Proc.State.{Thread, SigAction, new_leader_thread, empty_sigset, empty_action}
use core_os.Proc.Process.{
  Kernel, Process, boot_tables, new_leader, current_process, current_thread, process_of,
}
use core_os.Proc.Life.{spawn_named, current_pid, find_slot_by_pid, exit_thread, end_whole_group}
use core_os.Proc.Placed.{WellFormed}
use core_os.Proc.History.{Reachable, start, next, spawns, Reachable-WellFormed}
use core_os.Sys.Counted.{run_call, makes_flagged_pipe, run_call-WellFormed}
use core_os.Mm.{ok}
use core_os.Usercopy.{
  UserMem, user_range_ok, copy_to_user, copy_words_to_user, copy_words_from_user, store_bytes,
  bytes_of_words,
}
use core_os.Usercopy.Copy.{copy_words_from_user-copy_words_to_user, AllWords}
use core_os.Sys.{
  Sys, SyscallFrame, words_of_frame, FutexWaiter, empty_waiter, sigkill, sigset_contains,
  sigset_add, put_thread, sanitize_sigmask, sigset_remove, notify_parent_exit, queue_signal,
}
use core_os.Sys.Signals.{
  deliver_pending_signal, pick_signal, take_signal, act_on_signal, handler_stack, run_handler,
  push_frame, enter_handler, handler_frame, rt_sigreturn,
}
use core_os.Sys.Kill.{
  Result, block, setmask, rt_sigprocmask, report, change_mask, how_of, changed_mask, with_kernel,
}
use core_os.Sys.Masks.{changed_mask-contains}
use core_os.Sys.Return.{rt_sigreturn-deliver_pending_signal, resumed}
use core_os.Sys.History.{begin, after, spawned, stored, mask_set, Run-AllKillable}
use core_os.Sys.Futex.{futex_wake, release_robust_list}
use core_os.Sys.Wake.{futex_wake_lem, waiting}
use core_os.Sys.Files.{waitpid}
use core_os.Sys.Leave.{exit_group, clear_child_tid_and_wake}
use core_os.Sys.Reaping.{waitpid-exit_group}

abbrev no_memory : UserMem
no_memory = λ a. 0

abbrev two_words : List ℕ
two_words = 5 ∷ 0x1_0000_0002 ∷ []

copy_words_example :
    copy_words_from_user 2 (store_bytes no_memory 0x1000 (bytes_of_words two_words)) 0x1000
    ≡ some two_words
unfolding copy_words_to_user copy_to_user user_range_ok core_os.Usercopy.bytes_of_words to_bytes
copy_words_example =
    copy_words_from_user-copy_words_to_user no_memory _ 0x1000 two_words
      (omega arith, (omega arith, omega arith)) refl

-- A process with one thread, a handler for signal 10, and that signal pending.
abbrev own_action : SigAction
own_action = record {
  handler = 0x40_1000;
  flags = 0x0400_0000;
  restorer = 0x40_2000;
  mask = empty_sigset;
}

abbrev leader : Process
leader = record (new_leader 1 0 []) {
  sig_handlers = set (replicate 65 empty_action) 10 own_action;
  sig_pending = 512 ∷ replicate 15 0;
}

abbrev leader_thread : Thread
leader_thread = new_leader_thread 1 0 0 0

abbrev signalled : Sys
signalled = record {
  kernel = record boot_tables { processes = some leader ∷ []; threads = some leader_thread ∷ [] };
  mem = no_memory;
  waiters = [];
}

abbrev user_frame : SyscallFrame
user_frame = record {
  rbp = 1;
  r15 = 2;
  r14 = 3;
  r13 = 4;
  r12 = 5;
  r9 = 6;
  r8 = 7;
  rsi = 8;
  rdi = 9;
  rdx = 10;
  rbx = 11;
  rax = 12;
  rcx = 0x40_0000;
  r11 = 0x202;
  r10 = 0x7000_0000;
}

signalled-process : current_process signalled.kernel ≡ some leader
unfolding current_process process_of current_thread boot_tables new_leader_thread
signalled-process = refl

signalled-thread : current_thread signalled.kernel ≡ some leader_thread
unfolding current_thread boot_tables
signalled-thread = refl

abbrev in_handler : Sys
in_handler = (deliver_pending_signal signalled 0x9000 user_frame).1

abbrev first_frame : SyscallFrame
first_frame = handler_frame user_frame 10 own_action (0x7000_0000 - 128)

abbrev last_frame : SyscallFrame
last_frame = record first_frame { r10 = 0x7000_0000 - 120; rax = 99 }

user_frame-AllWords : AllWords (words_of_frame user_frame)
user_frame-AllWords = (
  omega arith,
  (
    omega arith,
    (
      omega arith,
      (
        omega arith,
        (
          omega arith,
          (
            omega arith,
            (
              omega arith,
              (
                omega arith,
                (
                  omega arith,
                  (
                    omega arith,
                    (omega arith, (omega arith, (omega arith, (omega arith, (omega arith, tt))))),
                  ),
                ),
              ),
            ),
          ),
        ),
      ),
    ),
  ),
)

abbrev handling_thread : Thread
handling_thread = enter_handler leader_thread 10 own_action

handler-runs : deliver_pending_signal signalled 0x9000 user_frame ≡ (ok 0, in_handler, first_frame)
unfolding deliver_pending_signal current_thread current_process process_of boot_tables
    new_leader_thread pick_signal sigset_contains nth_bit replicate act_on_signal run_handler
    handler_stack push_frame user_range_ok copy_words_to_user copy_to_user bytes_of_words
    take_signal put_thread to_bytes core_os.Base.Words.drop_bit core_os.Proc.Process.put_process
    core_os.Proc.Process.put_process_of enter_handler handler_frame
handler-runs = refl

handler-thread : current_thread in_handler.kernel ≡ some handling_thread
unfolding deliver_pending_signal current_thread current_process process_of boot_tables
    new_leader_thread pick_signal sigset_contains nth_bit replicate act_on_signal run_handler
    handler_stack push_frame user_range_ok copy_words_to_user copy_to_user bytes_of_words
    take_signal put_thread to_bytes core_os.Base.Words.drop_bit core_os.Proc.Process.put_process
    core_os.Proc.Process.put_process_of enter_handler handler_frame
handler-thread = refl

return_example : rt_sigreturn in_handler 0x9000 last_frame ≡ (
  ok 12,
  record in_handler {
    kernel = put_thread in_handler.kernel (resumed handling_thread leader_thread);
  },
  user_frame,
)
unfolding new_leader_thread enter_handler handler_frame
return_example =
    rt_sigreturn-deliver_pending_signal signalled in_handler in_handler 0x9000 0x9000 user_frame
      first_frame last_frame leader leader_thread handling_thread handling_thread signalled-process
      signalled-thread refl handler-runs handler-thread refl user_frame-AllWords handler-thread refl
      refl (λ i l. refl) (omega arith)

mask_example : sigset_contains (changed_mask block empty_sigset (0x1ff ∷ [])) 9 ≡ false
unfolding replicate
mask_example = changed_mask-contains block empty_sigset (0x1ff ∷ []) 9 (omega arith) (omega arith)

abbrev empty_sys : Sys
empty_sys = record { kernel = boot_tables; mem = no_memory; waiters = [] }

abbrev first_process : Sys
first_process = with_kernel empty_sys (spawn_named boot_tables 0 []).1

first_process-Reachable : Reachable first_process.kernel
unfolding boot_tables replicate
first_process-Reachable = next boot_tables _ start (spawns 0 [] (omega arith) refl)

first_process-current : current_process first_process.kernel ≡ some (new_leader 1 0 [])
unfolding current_process process_of current_thread spawn_named boot_tables replicate
    new_leader_thread current_pid new_leader
first_process-current = refl

run_call_example :
    WellFormed (run_call (makes_flagged_pipe 0x1000 0o2004000) first_process).1.kernel
run_call_example =
    run_call-WellFormed (makes_flagged_pipe 0x1000 0o2004000) first_process (new_leader 1 0 [])
      (Reachable-WellFormed first_process.kernel first_process-Reachable) first_process-current

-- Every bit of the mask that the program asks for is set.
abbrev all_ones : UserMem
all_ones = λ a. 255

abbrev masked_thread : Thread
masked_thread = record (new_leader_thread 1 0 0 0) {
  sig_mask = changed_mask setmask empty_sigset (replicate 16 (2 ^ 64 - 1));
}

abbrev ready : Sys
ready = record first_process { mem = all_ones }

abbrev masked : Sys
masked = (rt_sigprocmask ready 2 0x1000 0 128).1

masked-thread : get_or masked.kernel.threads 0 none ≡ some masked_thread
unfolding rt_sigprocmask how_of current_thread spawn_named boot_tables replicate report change_mask
    copy_words_from_user core_os.Usercopy.copy_from_user user_range_ok put_thread current_pid
    new_leader_thread core_os.Usercopy.words_of_bytes current_process core_os.Base.Words.of_bytes
    core_os.Usercopy.load_bytes
masked-thread = refl

unmaskable_example :
    (sigset_contains masked_thread.sig_mask sigkill ≡ false)
    × (sigset_contains masked_thread.saved_sig_mask sigkill ≡ false)
unmaskable_example =
    Run-AllKillable masked
      (after _ _ (after _ _ (after _ _ (begin no_memory []) (spawned 0 [])) (stored all_ones))
        (mask_set 2 0x1000 0 128))
      0 masked_thread masked-thread

abbrev two_waiters : Sys
two_waiters = record {
  kernel = boot_tables;
  mem = no_memory;
  waiters =
      record { in_use = true; addr = 16 }
      ∷ record { in_use = true; addr = 32 }
      ∷ record { in_use = true; addr = 16 }
      ∷ [];
}

wake_example : (futex_wake two_waiters 16 0).0 ≡ ok 2
unfolding waiting
wake_example = (futex_wake_lem two_waiters 16 0).0

-- A child in slot 1 whose parent is in slot 0.
abbrev family : Kernel
family = record (spawn_named (spawn_named boot_tables 0 []).1 1 []).1 { current = 1 }

abbrev child_runs : Sys
child_runs = with_kernel empty_sys family

child-thread : current_thread family ≡ some (new_leader_thread 2 1 1 1)
unfolding current_thread spawn_named boot_tables replicate current_pid current_process
    new_leader_thread new_leader
child-thread = refl

child-process : get_or family.processes 1 none ≡ some (new_leader 2 1 [])
unfolding spawn_named boot_tables replicate current_pid current_process new_leader_thread new_leader
child-process = refl

child-slot : find_slot_by_pid 2 family.processes 0 ≡ some 1
unfolding find_slot_by_pid spawn_named boot_tables replicate new_leader
child-slot = refl

child_runs-parent : current_pid (record (exit_group child_runs 3).kernel { current = 0 }) ≡ 1
unfolding exit_group clear_child_tid_and_wake release_robust_list exit_thread end_whole_group
    notify_parent_exit queue_signal current_process process_of current_thread spawn_named
    boot_tables replicate new_leader new_leader_thread find_slot_by_pid core_os.Sys.Ids.getppid
    core_os.Proc.Life.end_group current_pid
child_runs-parent = refl

waitpid_example :
    (r : Result) × (waitpid []
        (with_kernel
          (exit_group child_runs 3)
          (record (exit_group child_runs 3).kernel { current = 0 }))
        2
      ≡ some r)
    × (r.0 ≡ ok 3)
    × (get_or r.1.kernel.processes 1 none ≡ none)
unfolding new_leader_thread new_leader
waitpid_example =
    waitpid-exit_group child_runs [] (new_leader_thread 2 1 1 1) (new_leader 2 1 []) 3 0
      child-thread child-process (omega arith) child-slot (omega arith) child_runs-parent
