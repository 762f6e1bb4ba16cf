-- ===== src/Proc/Process.antt =====
-- The process record of kernel/src/proc/state.rs, the task record of kernel/src/proc/task.rs, and
-- the global tables, which the kernel keeps in statics and the model in one record.
use core_os.Base.{
  ℕ, Bool, List, ◌∷◌, ◌++◌, Option, none, some, length, take, replicate, min, ◌-◌, ◌%◌, map, get_or,
  set,
}
use core_os.Proc.State.{
  OpenFile, FdTarget, empty, stdio, Pipe, VmRegion, empty_region, RunState, running, SigSet,
  SigAction, empty_sigset, empty_action, Thread, max_fds, max_open_files, max_pipes, max_vmas,
  exe_path_max, mmap_base, empty_open_file, empty_pipe,
}

pub record Process : Type 0 where
  pub pid : ℕ
  pub parent_pid : ℕ
  pub pgid : ℕ
  pub sid : ℕ
  pub state : RunState
  pub thread_count : ℕ
  pub exit_code : ℕ
  pub uid : ℕ
  pub euid : ℕ
  pub gid : ℕ
  pub egid : ℕ
  pub umask : ℕ
  pub exe_path : List ℕ
  pub exe_path_len : ℕ
  pub program_break : ℕ
  pub next_mmap_base : ℕ
  pub sig_handlers : List SigAction
  pub sig_pending : SigSet
  pub fds : List FdTarget
  pub fd_flags : List ℕ
  pub vmas : List VmRegion

abbrev pub default_fds : List FdTarget
default_fds = stdio 0 ∷ stdio 1 ∷ stdio 2 ∷ replicate (max_fds - 3) empty

abbrev pub default_fd_flags : List ℕ
default_fd_flags = replicate max_fds 0

-- `ch as u8` keeps the low byte of a character.
pub path_bytes : List ℕ → List ℕ
path_bytes name =
    map (λ c. c % 256) (take exe_path_max name) ++ replicate (exe_path_max - length name) 0

unfoldable pub new_leader : ℕ → ℕ → List ℕ → Process
new_leader pid parent_pid name = record {
  pid = pid;
  parent_pid = parent_pid;
  pgid = pid;
  sid = pid;
  state = running;
  thread_count = 1;
  exit_code = 0;
  uid = 0;
  euid = 0;
  gid = 0;
  egid = 0;
  umask = 0o022;
  exe_path = path_bytes name;
  exe_path_len = min (length name) exe_path_max;
  program_break = 0x4000_0000;
  next_mmap_base = mmap_base;
  sig_handlers = replicate 65 empty_action;
  sig_pending = empty_sigset;
  fds = default_fds;
  fd_flags = default_fd_flags;
  vmas = replicate max_vmas empty_region;
}

unfoldable pub fork_from : Process → ℕ → Process
fork_from parent pid = record {
  pid = pid;
  parent_pid = parent.pid;
  pgid = parent.pgid;
  sid = parent.sid;
  state = running;
  thread_count = 1;
  exit_code = 0;
  uid = parent.uid;
  euid = parent.euid;
  gid = parent.gid;
  egid = parent.egid;
  umask = parent.umask;
  exe_path = parent.exe_path;
  exe_path_len = parent.exe_path_len;
  program_break = parent.program_break;
  next_mmap_base = parent.next_mmap_base;
  sig_handlers = parent.sig_handlers;
  sig_pending = empty_sigset;
  fds = parent.fds;
  fd_flags = parent.fd_flags;
  vmas = parent.vmas;
}

pub data TaskState : Type 0 where
  ready on_cpu dead : TaskState

pub record Task : Type 0 where
  pub rsp : ℕ
  pub stack_base : ℕ
  pub state : TaskState
  pub id : ℕ
  pub rsp_valid : Bool
  pub pml4 : ℕ

abbrev pub max_tasks : ℕ
max_tasks = 8

-- `PROCESSES`, `THREADS`, `OPEN_FILES`, `PIPES`, `NEXT_PID`, `TASKS` and `CURRENT`.
pub record Kernel : Type 0 where
  pub processes : List (Option Process)
  pub threads : List (Option Thread)
  pub open_files : List OpenFile
  pub pipes : List Pipe
  pub next_pid : ℕ
  pub tasks : List (Option Task)
  pub current : ℕ

-- The tables as the statics declare them.
unfoldable pub boot_tables : Kernel
boot_tables = record {
  processes = replicate 8 none;
  threads = replicate 8 none;
  open_files = replicate max_open_files empty_open_file;
  pipes = replicate max_pipes empty_pipe;
  next_pid = 1;
  tasks = replicate max_tasks none;
  current = 0;
}

-- `current_thread`, `current_process` and a write through `current_process_mut`. A slot is an
-- index into a table of eight; outside it there is nothing.
unfoldable pub current_thread : Kernel → Option Thread
current_thread k = get_or k.threads k.current none

unfoldable pub process_of : Kernel → Option Thread → Option Process
process_of k none = none
process_of k (some t) = get_or k.processes t.group_slot none

unfoldable pub current_process : Kernel → Option Process
unfolding current_thread process_of
current_process k = process_of k (current_thread k)

unfoldable pub put_process_of : Kernel → Option Thread → Process → Kernel
put_process_of k none p = k
put_process_of k (some t) p = record k { processes = set k.processes t.group_slot (some p) }

unfoldable pub put_process : Kernel → Process → Kernel
unfolding put_process_of
put_process k p = put_process_of k (current_thread k) p
