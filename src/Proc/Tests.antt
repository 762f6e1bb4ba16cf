-- ===== src/Proc/Tests.antt =====
-- Runs of the descriptor operations, and the theorems about them at concrete states.
use core_os.Base.{true, ◌≡◌, refl, false, List, [], ◌∷◌, none, some, arith, replicate}
use core_os.Proc.State.{FdTarget, new_leader_thread, new_pipe}
use core_os.Proc.State
use core_os.Proc.Process.{
  Process, Kernel, current_process, current_thread, process_of, boot_tables, new_leader,
  put_process, put_process_of,
}
use core_os.Proc.Tables.{alloc_pipe_entry, free_pipe}
use core_os.Proc.Fd.{
  dup_fd, alloc_pipe, pipe_ends, read_end, write_end, alloc_specific_fd, put_fd, first_empty,
  is_empty_fd,
}
use core_os.Proc.Life.{spawn_named, current_pid, exit_thread, end_group, end_whole_group}
use core_os.Proc.Exit.{GroupEnded, exit_thread-GroupEnded}
use core_os.Proc.Placed.{WellFormed}
use core_os.Proc.FileWrite.{Written, write_file-Written}
use core_os.Proc.FileIo.{write_offset}
use core_os.Proc.Fd.{
  reap_process, release_fds, release_fd_target, reap_slot, open_file, get_fd_target, target_of,
}
use core_os.Proc.Tables.{alloc_open_file, free_file}
use core_os.Fs.{Filesystem, fs_write_at, change_at}
use core_os.Proc.Family.{Forked, fork_current-WellFormed}
use core_os.Proc.PipeQueue.{
  Op, writes, reads, wrote, got, run, run_queue, contents, new_pipe-IsQueue, run_refines_queue,
}
use core_os.Proc.Dup.{DupOutcome, dup_fd-DupOutcome}
use core_os.Proc.History.{
  spawns, makes_pipe, switches, exits, reaps, start, next, Reachable, Reachable-WellFormed,
  Reachable-Live, Live,
}

-- The first process, and then the same with a pipe.
abbrev one_process : Kernel
one_process = (spawn_named boot_tables 0 []).1

abbrev first_process : Process
first_process = new_leader 1 0 []

abbrev with_pipe : Kernel
with_pipe = (alloc_pipe one_process).1

one_process-current : current_process one_process ≡ some first_process
unfolding current_process current_thread process_of spawn_named new_leader_thread boot_tables
    current_pid replicate new_leader
one_process-current = refl

one_process-Reachable : Reachable one_process
unfolding boot_tables replicate
one_process-Reachable = next boot_tables one_process start (spawns 0 [] (omega arith) refl)

with_pipe-Reachable : Reachable with_pipe
with_pipe-Reachable =
    next one_process with_pipe one_process-Reachable (makes_pipe first_process one_process-current)

alloc_pipe-one_process : (alloc_pipe one_process).0 ≡ some (3, 4)
unfolding alloc_pipe pipe_ends read_end write_end alloc_specific_fd alloc_pipe_entry free_pipe
    first_empty is_empty_fd put_fd put_process put_process_of current_process current_thread
    process_of spawn_named new_leader_thread boot_tables current_pid replicate new_leader
alloc_pipe-one_process = refl

-- A child that makes a pipe, ends its group with the exit code 3, and is reaped by its parent.
abbrev in_child : Kernel
in_child = record (spawn_named one_process 1 []).1 { current = 1 }

abbrev child_with_pipe : Kernel
child_with_pipe = (alloc_pipe in_child).1

abbrev child_ended : Kernel
child_ended = (exit_thread child_with_pipe 3 true).1

abbrev parent_again : Kernel
parent_again = record child_ended { current = 0 }

in_child-Reachable : Reachable in_child
unfolding boot_tables replicate spawn_named
in_child-Reachable =
    next _ in_child (next one_process _ one_process-Reachable (spawns 1 [] (omega arith) refl))
      (switches 1)

child_ended-Reachable : Reachable child_ended
unfolding current_process current_thread process_of spawn_named new_leader_thread boot_tables
    current_pid replicate new_leader
child_ended-Reachable =
    next child_with_pipe child_ended
      (next in_child child_with_pipe in_child-Reachable (makes_pipe (new_leader 2 1 []) refl))
      (exits 3 true)

child_reaped-Reachable : Reachable (reap_slot parent_again 1).1
child_reaped-Reachable =
    next parent_again _ (next child_ended parent_again child_ended-Reachable (switches 0)) (reaps 1)

reap_slot-parent_again : (reap_slot parent_again 1).0 ≡ some 3
unfolding reap_slot exit_thread current_thread alloc_pipe pipe_ends alloc_pipe_entry free_pipe
    spawn_named boot_tables replicate read_end alloc_specific_fd current_process new_leader_thread
    first_empty is_empty_fd new_leader put_fd reap_process release_fds write_end current_pid
    end_group end_whole_group process_of put_process put_process_of release_fd_target
reap_slot-parent_again = refl

Reachable-WellFormed_example : WellFormed (reap_slot parent_again 1).1
Reachable-WellFormed_example =
    Reachable-WellFormed (reap_slot parent_again 1).1 child_reaped-Reachable

Reachable-Live_example : Live child_ended (State.pipe_read 0)
unfolding exit_thread current_thread alloc_pipe pipe_ends alloc_pipe_entry free_pipe spawn_named
    boot_tables replicate read_end alloc_specific_fd current_process new_leader_thread first_empty
    is_empty_fd new_leader put_fd write_end current_pid end_group end_whole_group process_of
    put_process put_process_of
Reachable-Live_example = Reachable-Live child_ended 1 _ 3 child_ended-Reachable refl

dup_fd-DupOutcome_example :
    DupOutcome one_process first_process 1 0 none (dup_fd one_process 1 0 none false)
dup_fd-DupOutcome_example =
    dup_fd-DupOutcome one_process first_process 1 0 none false
      (Reachable-WellFormed one_process one_process-Reachable) one_process-current

abbrev pipe_script : List Op
pipe_script = writes (1 ∷ 2 ∷ 3 ∷ []) ∷ reads 2 ∷ writes (4 ∷ []) ∷ reads 5 ∷ reads 1 ∷ []

run_queue-pipe_script :
    run_queue pipe_script [] ≡ wrote 3 ∷ got (1 ∷ 2 ∷ []) ∷ wrote 1 ∷ got (3 ∷ 4 ∷ []) ∷ got [] ∷ []
unfolding run_queue
run_queue-pipe_script = refl

run_refines_queue_example : run pipe_script new_pipe ≡ run_queue pipe_script (contents new_pipe)
run_refines_queue_example = run_refines_queue pipe_script new_pipe new_pipe-IsQueue

fork_current-WellFormed_example : Forked one_process 1
unfolding spawn_named boot_tables replicate
fork_current-WellFormed_example =
    fork_current-WellFormed one_process first_process 1
      (Reachable-WellFormed one_process one_process-Reachable) one_process-current (omega arith)
      refl

-- The first process with an empty file open for reading and writing.
abbrev with_file : Kernel
with_file = (open_file one_process 0 2).1

abbrev one_file : Filesystem
one_file = some (record { name = b'a' ∷ []; bytes = [] } ∷ [])

write_file-Written_example : Written with_file one_file 3 0 (7 ∷ 8 ∷ [])
unfolding get_fd_target target_of open_file alloc_open_file free_file first_empty is_empty_fd put_fd
    put_process put_process_of current_process current_thread process_of spawn_named
    new_leader_thread new_leader boot_tables current_pid replicate write_offset fs_write_at
    change_at
write_file-Written_example =
    write_file-Written with_file one_file _ 3 0 (7 ∷ 8 ∷ []) refl refl refl refl

exit_thread-GroupEnded_example :
    ((exit_thread one_process 7 true).0 ≡ true)
    × GroupEnded one_process (exit_thread one_process 7 true).1 0 7
unfolding current_thread spawn_named new_leader_thread boot_tables current_pid current_process
    process_of replicate
exit_thread-GroupEnded_example =
    exit_thread-GroupEnded one_process (new_leader_thread 1 0 0 0) first_process 7 refl refl
