-- ===== src/Proc/Life.antt =====
-- The life of processes and threads: kernel/src/proc/process.rs.
use core_os.Base.{
  ℕ, ◌+◌, ◌-◌, Bool, true, false, not, ◌&&◌, List, [], ◌∷◌, Option, none, some, set, get_or,
  if◌then◌else◌, ◌==◌,
}
use core_os.Proc.State.{Thread, zombie, new_leader_thread, new_group_member}
use core_os.Proc.Process.{Process, Kernel, Task, dead, current_thread, current_process, new_leader}

unfoldable pub current_pid : Kernel → ℕ
current_pid k = elim (current_process k) [ none ↦ 0 | some p ↦ p.pid ]

-- `spawn_named`; `spawn` gives it an empty name.
unfoldable pub spawn_named : Kernel → ℕ → List ℕ → ℕ × Kernel
spawn_named k task_slot name =
    let pid = k.next_pid in
    let parent_pid = current_pid k in
    (
      pid,
      record k {
        next_pid = k.next_pid + 1;
        processes = set k.processes task_slot (some (new_leader pid parent_pid name));
        threads =
            set k.threads task_slot (some (new_leader_thread pid parent_pid task_slot task_slot));
      },
    )

-- `find_slot_by_pid` and `find_thread_slot_by_tid`: the first slot from `slot` on.
unfoldable pub find_slot_by_pid : ℕ → List (Option Process) → ℕ → Option ℕ
find_slot_by_pid pid [] slot = none
find_slot_by_pid pid (none ∷ ps) slot = find_slot_by_pid pid ps (slot + 1)
find_slot_by_pid pid (some p ∷ ps) slot =
    let rest = find_slot_by_pid pid ps (slot + 1) in if p.pid == pid then some slot else rest

pub find_thread_slot_by_tid : ℕ → List (Option Thread) → ℕ → Option ℕ
find_thread_slot_by_tid tid [] slot = none
find_thread_slot_by_tid tid (none ∷ ts) slot = find_thread_slot_by_tid tid ts (slot + 1)
find_thread_slot_by_tid tid (some t ∷ ts) slot =
    let rest = find_thread_slot_by_tid tid ts (slot + 1) in if t.tid == tid then some slot else rest

-- `spawn_thread_in_group`; none where the `expect`s fail.
unfoldable pub spawn_thread_in_group : Kernel → ℕ → ℕ → ℕ → Option (ℕ × Kernel)
spawn_thread_in_group k task_slot clear_child_tid fs_base = elim (current_thread k) [
  | none ↦ none
  | some current ↦ elim (get_or k.processes current.group_slot none) [
    | none ↦ none
    | some p ↦ some (
      k.next_pid,
      record k {
        next_pid = k.next_pid + 1;
        processes =
            set k.processes current.group_slot
              (some (record p { thread_count = p.thread_count + 1 }));
        threads = set k.threads task_slot (
            some (
              new_group_member k.next_pid current.tid current.group_slot task_slot clear_child_tid
                fs_base current.sig_mask));
      },
    )
  ]
]

-- `task_slot_reaped`
unfoldable pub task_slot_reaped : Kernel → ℕ → Kernel
task_slot_reaped k slot = elim (get_or k.threads slot none) [
  | none ↦ k
  | some t ↦ (if t.group_slot == slot then k else record k { threads = set k.threads slot none })
]

-- `kill_task` of kernel/src/proc/task.rs.
unfoldable pub kill_task : List (Option Task) → ℕ → List (Option Task)
kill_task tasks slot = elim (get_or tasks slot none) [
  | none ↦ tasks
  | some t ↦ set tasks slot (some (record t { state = dead }))
]

abbrev pub end_thread : Thread → Thread
end_thread t = record t { state = zombie }

-- The loop of `exit_thread` over the threads, with the group that ends and the task that runs:
-- what it writes to the threads, and to the tasks.
unfoldable pub end_group : ℕ → List (Option Thread) → List (Option Thread)
end_group group [] = []
end_group group (none ∷ ts) = none ∷ end_group group ts
end_group group (some t ∷ ts) =
    some (if t.group_slot == group then end_thread t else t) ∷ end_group group ts

pub kill_group : ℕ → ℕ → ℕ → List (Option Thread) → List (Option Task) → List (Option Task)
kill_group group task_slot slot [] tasks = tasks
kill_group group task_slot slot (none ∷ ts) tasks = kill_group group task_slot (slot + 1) ts tasks
kill_group group task_slot slot (some t ∷ ts) tasks =
    kill_group group task_slot (slot + 1) ts
      (if t.group_slot == group && not (slot == task_slot) then kill_task tasks slot else tasks)

-- The end of the last thread of a process, and of another one.
unfoldable pub end_process : Kernel → ℕ → Process → ℕ → Bool × Kernel
end_process k group p code =
    let left = p.thread_count - 1 in
    if left == 0
    then (
      true,
      record k {
        processes =
            set k.processes group
              (some (record p { thread_count = left; state = zombie; exit_code = code }));
      },
    )
    else (
      false,
      record k { processes = set k.processes group (some (record p { thread_count = left })) },
    )

unfoldable pub end_whole_group : Kernel → Thread → Process → ℕ → Kernel
end_whole_group k t p code = record k {
  processes =
      set k.processes t.group_slot
        (some (record p { state = zombie; exit_code = code; thread_count = 0 }));
  threads = end_group t.group_slot k.threads;
  tasks = kill_group t.group_slot t.task_slot 0 k.threads k.tasks;
}

-- `exit_thread`: the current thread stands in the slot of the current task.
unfoldable pub exit_thread : Kernel → ℕ → Bool → Bool × Kernel
exit_thread k code whole_group = elim (current_thread k) [
  | none ↦ (false, k)
  | some t ↦
      (let k1 = record k { threads = set k.threads k.current (some (end_thread t)) } in
        elim (get_or k1.processes t.group_slot none) [
          | none ↦ (false, k1)
          | some p ↦
              (if whole_group
                then (true, end_whole_group k1 t p code)
                else end_process k1 t.group_slot p code)
        ])
]
