-- ===== src/Scheduler.antt =====
-- The choice of the next task in kernel/src/proc/task.rs and kernel/src/proc/scheduler.rs, over the tables of tasks and threads.
pub mod Pick
pub mod Turn
pub mod Fair
mod Tests
use core_os.Base.{
  ℕ, zero, suc, ◌+◌, ◌*◌, ◌%◌, ◌^◌, Bool, true, false, ◌&&◌, List, Option, none, some, get_or, set,
  if◌then◌else◌, ltb, ◌==◌,
}
use core_os.Pmm.{page_size}
use core_os.Proc.Process.{Kernel, Task, TaskState, ready, on_cpu, dead, max_tasks}
use core_os.Proc.Life.{task_slot_reaped}

unfoldable pub is_ready : TaskState → Bool
is_ready ready = true
is_ready on_cpu = false
is_ready dead = false

-- `t.state == TaskState::Ready && t.rsp_valid`, of the task in a slot.
unfoldable pub is_runnable : Option Task → Bool
is_runnable none = false
is_runnable (some t) = is_ready t.state && t.rsp_valid

-- The search of `next_task_switch`, with the rounds left and the distance from the current slot.
unfoldable pub pick : ℕ → ℕ → List (Option Task) → ℕ → Option ℕ
pick zero i tasks cur = none
pick (suc n) i tasks cur =
    let rest = pick n (i + 1) tasks cur in
    let idx = (cur + i) % max_tasks in
    if is_runnable (get_or tasks idx none) then some idx else rest

-- Where the stack pointer of the task that is left goes: `DEAD_RSP`, or a task's own field.
pub data OldRsp : Type 0 where
  dead_rsp : OldRsp
  rsp_of : ℕ → OldRsp

-- What the switch in assembly gets, and the stack for the entries into the kernel (`TSS.rsp0`).
pub record Switch : Type 0 where
  pub old : OldRsp
  pub next_rsp : ℕ
  pub next_pml4 : ℕ
  pub fs_base : ℕ
  pub rsp0 : ℕ

-- `None`, a panic of `unwrap` or of an index, or a switch.
pub data SwitchResult : Type 0 where
  no_task panics : SwitchResult
  switched : Switch → Kernel → SwitchResult

-- The task that is left is ready again, or its slot is given back.
unfoldable pub leave_as : Kernel → ℕ → Task → TaskState → OldRsp × Kernel
leave_as k cur t dead =
    let reaped = task_slot_reaped k cur in
    (dead_rsp, record reaped { tasks = set reaped.tasks cur none })
leave_as k cur t ready =
    (rsp_of cur, record k { tasks = set k.tasks cur (some (record t { rsp_valid = true })) })
leave_as k cur t on_cpu = (
  rsp_of cur,
  record k { tasks = set k.tasks cur (some (record t { state = ready; rsp_valid = true })) },
)

unfoldable pub leave_task : Kernel → ℕ → Option Task → OldRsp × Kernel
leave_task k cur none = (dead_rsp, k)
leave_task k cur (some t) = leave_as k cur t t.state

unfoldable pub fs_base_of : Kernel → ℕ → ℕ
fs_base_of k slot = elim (get_or k.threads slot none) [ none ↦ 0 | some t ↦ t.fs_base ]

unfoldable pub enter_task : OldRsp → Kernel → ℕ → Option Task → SwitchResult
enter_task old k next none = panics
enter_task old k next (some t) =
    switched
      (record {
        old = old;
        next_rsp = t.rsp;
        next_pml4 = t.pml4;
        fs_base = fs_base_of k next;
        rsp0 = (t.stack_base + 4 * page_size) % 2 ^ 64;
      })
      (record k { tasks = set k.tasks next (some (record t { state = on_cpu })); current = next })

unfoldable pub switch_to : Kernel → ℕ → SwitchResult
switch_to k next =
    let left = leave_task k k.current (get_or k.tasks k.current none) in
    enter_task left.0 left.1 next (get_or left.1.tasks next none)

unfoldable pub next_task_switch : Kernel → SwitchResult
next_task_switch k =
    if ltb k.current max_tasks
    then elim (pick max_tasks 1 k.tasks k.current) [ none ↦ no_task | some next ↦ switch_to k next ]
    else panics

-- `try_switch`, where `in_syscall` is the flag `IN_SYSCALL`: what it hands to the assembly. `tick`
-- switches at every tenth tick of the timer.
unfoldable pub try_switch : Bool → Kernel → SwitchResult
try_switch in_syscall k = if in_syscall then no_task else next_task_switch k

unfoldable pub tick : ℕ → Bool → Kernel → SwitchResult
tick ticks in_syscall k = if ticks % 10 == 0 then try_switch in_syscall k else no_task
