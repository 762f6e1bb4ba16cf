-- ===== src/Proc/State.antt =====
-- kernel/src/proc/state.rs and the records of kernel/src/syscall/types.rs that it holds: the data
-- of processes and threads and the tables that they share. An `i64` or `i32` field is its bit
-- pattern.
use core_os.Base.{ℕ, Bool, true, false, List, replicate}

abbrev pub max_fds : ℕ
max_fds = 16

abbrev pub max_open_files : ℕ
max_open_files = 32

abbrev pub max_pipes : ℕ
max_pipes = 16

abbrev pub max_vmas : ℕ
max_vmas = 32

abbrev pub exe_path_max : ℕ
exe_path_max = 64

abbrev pub mmap_base : ℕ
mmap_base = 0x1_0000_0000

abbrev pub fd_cloexec : ℕ
fd_cloexec = 1

abbrev pub pipe_capacity : ℕ
pipe_capacity = 1024

pub record OpenFile : Type 0 where
  pub file_idx : ℕ
  pub offset : ℕ
  pub status_flags : ℕ
  pub refs : ℕ
  pub in_use : Bool

abbrev pub empty_open_file : OpenFile
empty_open_file = record { file_idx = 0; offset = 0; status_flags = 0; refs = 0; in_use = false }

abbrev pub new_open_file : ℕ → ℕ → OpenFile
new_open_file file_idx status_flags = record {
  file_idx = file_idx;
  offset = 0;
  status_flags = status_flags;
  refs = 1;
  in_use = true;
}

pub data FdTarget : Type 0 where
  empty tty null zeroes : FdTarget
  stdio open_file pipe_read pipe_write : ℕ → FdTarget

pub data DescriptorInfo : Type 0 where
  char_device pipe : DescriptorInfo
  stdio : ℕ → DescriptorInfo
  file : ℕ → ℕ → DescriptorInfo

pub record Pipe : Type 0 where
  pub buf : List ℕ
  pub read_pos : ℕ
  pub write_pos : ℕ
  pub len : ℕ
  pub read_refs : ℕ
  pub write_refs : ℕ
  pub read_flags : ℕ
  pub write_flags : ℕ
  pub in_use : Bool

abbrev pub empty_pipe : Pipe
empty_pipe = record {
  buf = replicate pipe_capacity 0;
  read_pos = 0;
  write_pos = 0;
  len = 0;
  read_refs = 0;
  write_refs = 0;
  read_flags = 0;
  write_flags = 0;
  in_use = false;
}

abbrev pub new_pipe : Pipe
new_pipe = record {
  buf = replicate pipe_capacity 0;
  read_pos = 0;
  write_pos = 0;
  len = 0;
  read_refs = 1;
  write_refs = 1;
  read_flags = 0;
  write_flags = 0;
  in_use = true;
}

pub record VmRegion : Type 0 where
  pub start : ℕ
  pub len : ℕ
  pub prot : ℕ
  pub flags : ℕ
  pub in_use : Bool

abbrev pub empty_region : VmRegion
empty_region = record { start = 0; len = 0; prot = 0; flags = 0; in_use = false }

abbrev pub new_region : ℕ → ℕ → ℕ → ℕ → VmRegion
new_region start len prot flags = record {
  start = start;
  len = len;
  prot = prot;
  flags = flags;
  in_use = true;
}

-- `ProcessState` and `ThreadState` have the same two values.
pub data RunState : Type 0 where
  running zombie : RunState

-- The sixteen words of `SigSet`.
abbrev pub SigSet : Type 0
SigSet = List ℕ

abbrev pub empty_sigset : SigSet
empty_sigset = replicate 16 0

pub record SigAction : Type 0 where
  pub handler : ℕ
  pub flags : ℕ
  pub restorer : ℕ
  pub mask : SigSet

abbrev pub empty_action : SigAction
empty_action = record { handler = 0; flags = 0; restorer = 0; mask = empty_sigset }

pub record StackT : Type 0 where
  pub ss_sp : ℕ
  pub ss_flags : ℕ
  pub ss_size : ℕ

abbrev pub disabled_stack : StackT
disabled_stack = record { ss_sp = 0; ss_flags = 2; ss_size = 0 }

pub record Thread : Type 0 where
  pub tid : ℕ
  pub parent_tid : ℕ
  pub group_slot : ℕ
  pub task_slot : ℕ
  pub state : RunState
  pub clear_child_tid : ℕ
  pub fs_base : ℕ
  pub sig_pending : SigSet
  pub sig_mask : SigSet
  pub saved_sig_mask : SigSet
  pub sig_altstack : StackT
  pub in_signal_handler : Bool
  pub on_altstack : Bool
  pub robust_list_head : ℕ
  pub robust_list_len : ℕ

unfoldable pub new_group_member : ℕ → ℕ → ℕ → ℕ → ℕ → ℕ → SigSet → Thread
new_group_member tid parent_tid group_slot task_slot clear_child_tid fs_base sig_mask = record {
  tid = tid;
  parent_tid = parent_tid;
  group_slot = group_slot;
  task_slot = task_slot;
  state = running;
  clear_child_tid = clear_child_tid;
  fs_base = fs_base;
  sig_pending = empty_sigset;
  sig_mask = sig_mask;
  saved_sig_mask = empty_sigset;
  sig_altstack = disabled_stack;
  in_signal_handler = false;
  on_altstack = false;
  robust_list_head = 0;
  robust_list_len = 0;
}

-- `new_leader` writes the same record with zeroes and an empty mask.
unfoldable pub new_leader_thread : ℕ → ℕ → ℕ → ℕ → Thread
new_leader_thread tid parent_tid group_slot task_slot = record {
  tid = tid;
  parent_tid = parent_tid;
  group_slot = group_slot;
  task_slot = task_slot;
  state = running;
  clear_child_tid = 0;
  fs_base = 0;
  sig_pending = empty_sigset;
  sig_mask = empty_sigset;
  saved_sig_mask = empty_sigset;
  sig_altstack = disabled_stack;
  in_signal_handler = false;
  on_altstack = false;
  robust_list_head = 0;
  robust_list_len = 0;
}
