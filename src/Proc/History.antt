-- ===== src/Proc/History.antt =====
-- Everything that tasks do to descriptors, in any order, with the ends of processes between:
-- kernel/src/proc/fd.rs and process.rs.
use core_os.Base.{
  ℕ, ◌≤◌, ◌<◌, ◌≡◌, refl, sym, ap, ◌∙◌, Bool, true, List, Option, none, some, arith, get_or, length,
}
use mathlib.Core.Path.{subst}
use core_os.Base.Totals.{get_or-total}
use core_os.Proc.State.{FdTarget, max_fds, max_open_files, max_pipes, empty_open_file, empty_pipe}
use core_os.Proc.State
use core_os.Proc.Process.{Process, Kernel, current_process, boot_tables}
use core_os.Proc.Tables.{open_file_used, pipe_used}
use core_os.Proc.Fd.{
  open_file, close_fd, dup_fd, alloc_pipe, open_char_device, fork_current, reap_slot,
}
use core_os.Proc.Tally.{Counter, files, readers, writers, points, tally}
use core_os.Proc.Holders.{process_points, held-open_file, held-pipe_read, held-pipe_write}
use core_os.Proc.Placed.{WellFormed, some_inj}
use core_os.Proc.Balance.{close_fd-WellFormed, points-empty}
use core_os.Proc.Dup.{dup_fd-DupOutcome}
use core_os.Proc.Opening.{open_file-WellFormed, open_char_device-WellFormed}
use core_os.Proc.Family.{fork_current-WellFormed, reap_slot-WellFormed}
use core_os.Proc.Piping.{alloc_pipe-WellFormed}
use core_os.Proc.Life.{spawn_named, spawn_thread_in_group, task_slot_reaped, exit_thread}
use core_os.Proc.Starting.{spawn_named-WellFormed, boot_tables-WellFormed}
use core_os.Proc.Leaving.{
  exit_thread-WellFormed, queue_signal-WellFormed, terminate_process_group-WellFormed,
  spawn_thread_in_group-WellFormed, task_slot_reaped-WellFormed,
}
use core_os.Sys.{queue_signal, terminate_process_group}

-- One thing that happens: a call of the current process, a new process in a slot that holds none,
-- a new thread, a signal that is queued, the end of a thread or of a whole group by exit or by a
-- signal, a thread's slot or a process that is reaped, or a switch to another task.
pub data Step (k : Kernel) : Kernel → Type 0 where
  switches : (slot : ℕ) → Step k (record k { current = slot })
  spawns :
      (slot : ℕ) (name : List ℕ)
      → slot < length k.processes
      → get_or k.processes slot none ≡ none
      → Step k (spawn_named k slot name).1
  forks :
      (p : Process) (slot pid : ℕ) (l : Kernel)
      → current_process k ≡ some p
      → slot < length k.processes
      → get_or k.processes slot none ≡ none
      → fork_current k slot ≡ some (pid, l)
      → Step k l
  clones :
      (slot clear_child_tid fs_base tid : ℕ) (l : Kernel)
      → spawn_thread_in_group k slot clear_child_tid fs_base ≡ some (tid, l)
      → Step k l
  signals : (slot sig : ℕ) → Step k (queue_signal k slot sig).1
  exits : (code : ℕ) (whole_group : Bool) → Step k (exit_thread k code whole_group).1
  terminates : (group sig : ℕ) → Step k (terminate_process_group k group sig)
  reaps_task : (slot : ℕ) → Step k (task_slot_reaped k slot)
  reaps : (slot : ℕ) → Step k (reap_slot k slot).1
  opens :
      (p : Process) (file_idx flags : ℕ)
      → current_process k ≡ some p
      → Step k (open_file k file_idx flags).1
  opens_device : (t : FdTarget) → Step k (open_char_device k t).1
  closes : (fd : ℕ) → Step k (close_fd k fd).1
  dups :
      (p : Process) (old_fd min_fd : ℕ) (new_fd : Option ℕ) (cloexec : Bool)
      → current_process k ≡ some p
      → Step k (dup_fd k old_fd min_fd new_fd cloexec).1
  makes_pipe : (p : Process) → current_process k ≡ some p → Step k (alloc_pipe k).1

pub data Steps (k : Kernel) : Kernel → Type 0 where
  start : Steps k k
  next : (l m : Kernel) → Steps k l → Step l m → Steps k m

-- A state that the tables can come to from the one they are declared with.
abbrev pub Reachable : Kernel → Type 0
Reachable k = Steps boot_tables k

Step-WellFormed : (k l : Kernel) → Step k l → WellFormed k → WellFormed l
unfolding tally
Step-WellFormed k l (switches slot) w = record {
  files_size = w.files_size;
  pipes_size = w.pipes_size;
  fds_size = w.fds_size;
  exact = w.exact;
}
Step-WellFormed k l (spawns slot name r f) w = spawn_named-WellFormed k slot name w r f
Step-WellFormed k _ (forks p slot pid l h r f e) w =
    let child = fork_current-WellFormed k p slot w h r f in
    let same : child.after ≡ l = ap (λ (x : ℕ × Kernel). x.1) (some_inj (sym child.result ∙ e)) in
    subst WellFormed same child.well_formed
Step-WellFormed k l (clones slot ptr fs_base tid _ made) w =
    spawn_thread_in_group-WellFormed k l slot ptr fs_base tid made w
Step-WellFormed k l (signals slot sig) w = queue_signal-WellFormed k slot sig w
Step-WellFormed k l (exits code whole_group) w = exit_thread-WellFormed k code whole_group w
Step-WellFormed k l (terminates group sig) w = terminate_process_group-WellFormed k group sig w
Step-WellFormed k l (reaps_task slot) w = task_slot_reaped-WellFormed k slot w
Step-WellFormed k l (reaps slot) w = reap_slot-WellFormed k slot w
Step-WellFormed k l (opens p f s h) w = open_file-WellFormed k p f s w h
Step-WellFormed k l (opens_device t) w = open_char_device-WellFormed k t w
Step-WellFormed k l (closes fd) w = close_fd-WellFormed k fd w
Step-WellFormed k l (dups p old_fd min_fd new_fd cloexec h) w =
    (dup_fd-DupOutcome k p old_fd min_fd new_fd cloexec w h).well_formed
Step-WellFormed k l (makes_pipe p h) w = alloc_pipe-WellFormed k p w h

-- In every state that the tables reach by spawning, forking and cloning, by queued signals, by the
-- exit of a thread or of its group, by the end of a group by a signal, by reaping, switching and
-- the descriptor calls, as long as a spawn or a fork gets a slot that holds no process, each
-- counter of an open file or a pipe end is the number of descriptors that refer to it.
pub Reachable-WellFormed : (k : Kernel) → Reachable k → WellFormed k
Reachable-WellFormed k start = boot_tables-WellFormed
Reachable-WellFormed k (next l _ s e) = Step-WellFormed l k e (Reachable-WellFormed l s)

-- The entry that a descriptor refers to is in use.
pub Live : Kernel → FdTarget → Type 0
Live k State.empty = Unit {0}
Live k State.tty = Unit {0}
Live k State.null = Unit {0}
Live k State.zeroes = Unit {0}
Live k (State.stdio i) = Unit {0}
Live k (State.open_file i) = open_file_used k i ≡ true
Live k (State.pipe_read i) = pipe_used k i ≡ true
Live k (State.pipe_write i) = pipe_used k i ≡ true

held-Live :
    (k : Kernel) (t : FdTarget) → ((c : Counter) (i : ℕ) → points c i t ≤ tally c i k) → Live k t
unfolding Live
held-Live k State.empty h = tt
held-Live k State.tty h = tt
held-Live k State.null h = tt
held-Live k State.zeroes h = tt
held-Live k (State.stdio i) h = tt
held-Live k (State.open_file i) h = held-open_file k i (h files i)
held-Live k (State.pipe_read i) h = held-pipe_read k i (h readers i)
held-Live k (State.pipe_write i) h = held-pipe_write k i (h writers i)

-- In every state that the tables reach by spawning, forking and cloning, by queued signals, by the
-- exit of a thread or of its group, by the end of a group by a signal, by reaping, switching and
-- the descriptor calls, as long as a spawn or a fork gets a slot that holds no process, no
-- descriptor of any process refers to an entry that is not in use.
pub Reachable-Live :
    (k : Kernel) (slot : ℕ) (p : Process) (fd : ℕ)
    → Reachable k
    → get_or k.processes slot none ≡ some p
    → Live k (get_or p.fds fd State.empty)
unfolding process_points
Reachable-Live k slot p fd r h =
    let w = Reachable-WellFormed k r in
    held-Live k (get_or p.fds fd State.empty) (λ c i. omega (
      arith,
      get_or-total (points c i) p.fds fd State.empty (points-empty c i),
      get_or-total (process_points c i) k.processes slot none refl,
      ap (process_points c i) h,
      w.exact c i,
    ))
