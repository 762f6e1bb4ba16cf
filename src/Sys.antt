-- ===== src/Sys.antt =====
-- The system calls on processes in kernel/src/syscall/process.rs: what they share. The state is the
-- kernel's tables, the memory of the running program and the tasks that wait on a futex.
pub mod Signals
pub mod Choice
pub mod Pending
pub mod Ending
pub mod Stack
pub mod Handler
pub mod Deliver
pub mod Return
pub mod Kill
pub mod Masks
pub mod Unmaskable
pub mod Killing
pub mod Masking
pub mod History
pub mod Ids
pub mod Futex
pub mod Files
pub mod Leave
pub mod Wake
pub mod Robust
pub mod Reaping
pub mod Counted
mod Tests
use core_os.Base.{
  ℕ, zero, suc, ◌+◌, ◌-◌, ◌*◌, ◌/◌, ◌%◌, ◌^◌, Bool, true, false, not, ◌&&◌, List, [], ◌∷◌, Option,
  none, some, get_or, set, if◌then◌else◌, ◌==◌,
}
use core_os.Base.Words.{nth_bit, or_bit, drop_bit, or_word, and_not_word}
use core_os.Proc.State.{Thread, SigSet, SigAction, zombie}
use core_os.Proc.Process.{Kernel, Process, Task}
use core_os.Proc.Life.{find_slot_by_pid, kill_task, end_group}
use core_os.Usercopy.{UserMem}

pub record FutexWaiter : Type 0 where
  pub in_use : Bool
  pub addr : ℕ

abbrev pub empty_waiter : FutexWaiter
empty_waiter = record { in_use = false; addr = 0 }

pub record Sys : Type 0 where
  pub kernel : Kernel
  pub mem : UserMem
  pub waiters : List FutexWaiter

-- The registers that a system call saves.
pub record SyscallFrame : Type 0 where
  pub rbp : ℕ
  pub r15 : ℕ
  pub r14 : ℕ
  pub r13 : ℕ
  pub r12 : ℕ
  pub r9 : ℕ
  pub r8 : ℕ
  pub rsi : ℕ
  pub rdi : ℕ
  pub rdx : ℕ
  pub rbx : ℕ
  pub rax : ℕ
  pub rcx : ℕ
  pub r11 : ℕ
  pub r10 : ℕ

-- The frame as it lies in memory.
abbrev pub words_of_frame : SyscallFrame → List ℕ
words_of_frame f =
    f.rbp ∷ f.r15 ∷ f.r14 ∷ f.r13 ∷ f.r12 ∷ f.r9 ∷ f.r8 ∷ f.rsi ∷ f.rdi ∷ f.rdx ∷ f.rbx ∷ f.rax
    ∷ f.rcx ∷ f.r11 ∷ f.r10 ∷ []

abbrev pub frame_of_words : List ℕ → SyscallFrame
frame_of_words ws = record {
  rbp = get_or ws 0 0;
  r15 = get_or ws 1 0;
  r14 = get_or ws 2 0;
  r13 = get_or ws 3 0;
  r12 = get_or ws 4 0;
  r9 = get_or ws 5 0;
  r8 = get_or ws 6 0;
  rsi = get_or ws 7 0;
  rdi = get_or ws 8 0;
  rdx = get_or ws 9 0;
  rbx = get_or ws 10 0;
  rax = get_or ws 11 0;
  rcx = get_or ws 12 0;
  r11 = get_or ws 13 0;
  r10 = get_or ws 14 0;
}

abbrev pub sigkill : ℕ
sigkill = 9

abbrev pub sigchld : ℕ
sigchld = 17

-- The two parts of `sig_bit`: the word and the bit in it.
abbrev pub sig_word : ℕ → ℕ
sig_word sig = (sig - 1) / 64

abbrev pub sig_pos : ℕ → ℕ
sig_pos sig = (sig - 1) % 64

unfoldable pub sigset_contains : SigSet → ℕ → Bool
sigset_contains bits sig = not (nth_bit (get_or bits (sig_word sig) 0) (sig_pos sig) == 0)

unfoldable pub sigset_add : SigSet → ℕ → SigSet
sigset_add bits sig = set bits (sig_word sig) (or_bit (get_or bits (sig_word sig) 0) (sig_pos sig))

unfoldable pub sigset_remove : SigSet → ℕ → SigSet
sigset_remove bits sig =
    set bits (sig_word sig) (drop_bit (get_or bits (sig_word sig) 0) (sig_pos sig))

unfoldable pub sanitize_sigmask : SigSet → SigSet
sanitize_sigmask bits = sigset_remove bits sigkill

-- The loops `*dst |= *src` and `*dst &= !*src` over the words of two sets.
unfoldable pub or_sets : SigSet → SigSet → SigSet
or_sets [] src = []
or_sets (d ∷ dst) [] = d ∷ dst
or_sets (d ∷ dst) (s ∷ src) = or_word 64 d s ∷ or_sets dst src

unfoldable pub and_not_sets : SigSet → SigSet → SigSet
and_not_sets [] src = []
and_not_sets (d ∷ dst) [] = d ∷ dst
and_not_sets (d ∷ dst) (s ∷ src) = and_not_word 64 d s ∷ and_not_sets dst src

unfoldable pub queue_signal : Kernel → ℕ → ℕ → Bool × Kernel
queue_signal k slot sig = elim (get_or k.processes slot none) [
  | none ↦ (false, k)
  | some p ↦ (
    true,
    record k {
      processes =
          set k.processes slot (some (record p { sig_pending = sigset_add p.sig_pending sig }));
    },
  )
]

unfoldable pub queue_thread_signal : Kernel → ℕ → ℕ → Bool × Kernel
queue_thread_signal k slot sig = elim (get_or k.threads slot none) [
  | none ↦ (false, k)
  | some t ↦ (
    true,
    record k {
      threads = set k.threads slot (some (record t { sig_pending = sigset_add t.sig_pending sig }));
    },
  )
]

unfoldable pub notify_parent_exit : Kernel → ℕ → Kernel
notify_parent_exit k parent_pid =
    if parent_pid == 0 then k else elim (find_slot_by_pid parent_pid k.processes 0) [
      | none ↦ k
      | some parent_slot ↦ (queue_signal k parent_slot sigchld).1
    ]

-- The loop of `terminate_process_group` over the threads, from a slot on: what it kills.
unfoldable pub kill_members : ℕ → ℕ → List (Option Thread) → List (Option Task) → List (Option Task)
kill_members group slot [] tasks = tasks
kill_members group slot (none ∷ ts) tasks = kill_members group (suc slot) ts tasks
kill_members group slot (some t ∷ ts) tasks =
    kill_members group (suc slot) ts (if t.group_slot == group then kill_task tasks slot else tasks)

unfoldable pub terminate_process_group : Kernel → ℕ → ℕ → Kernel
terminate_process_group k group_slot sig =
    let parent_pid : ℕ = elim (get_or k.processes group_slot none) [
      | none ↦ 0
      | some p ↦ p.parent_pid
    ] in
    let k1 : Kernel = elim (get_or k.processes group_slot none) [
      | none ↦ k
      | some p ↦ record k {
        processes =
            set k.processes group_slot
              (some (record p { state = zombie; exit_code = 128 + sig; thread_count = 0 }));
      }
    ] in
    notify_parent_exit
      (record k1 {
        threads = end_group group_slot k1.threads;
        tasks = kill_members group_slot 0 k1.threads k1.tasks;
      })
      parent_pid

-- A write through `current_thread_mut`.
unfoldable pub put_thread : Kernel → Thread → Kernel
put_thread k t = record k { threads = set k.threads k.current (some t) }
