-- ===== src/Proc/Leaving.antt =====
-- What the end of a thread or of a process, a new thread and a queued signal leave of the
-- descriptors: kernel/src/proc/process.rs, and kernel/src/syscall/process.rs for the end by a signal.
use core_os.Base.{
  ℕ, ◌+◌, ◌-◌, ◌≡◌, refl, sym, ap, ◌∙◌, Bool, List, Option, none, some, arith, get_or, set, length,
  ◌==◌, Bool-cases, inl, inr, Option-cases,
}
use core_os.Base.Totals.{total-set}
use core_os.Proc.State.{Thread, zombie}
use core_os.Proc.Process.{Process, Kernel, current_thread}
use core_os.Proc.Life.{
  spawn_thread_in_group, task_slot_reaped, end_thread, end_group, end_process, end_whole_group,
  exit_thread, find_slot_by_pid,
}
use core_os.Proc.Tally.{tally}
use core_os.Proc.Holders.{process_points}
use core_os.Proc.Placed.{WellFormed, set-AllSized, stored-in_range, some_inj}
use core_os.Sys.{
  sigchld, queue_signal, notify_parent_exit, terminate_process_group, sigset_add, kill_members,
}

-- A state with the same descriptors and tables.
same_tables-WellFormed :
    (k l : Kernel)
    → WellFormed k
    → l.processes ≡ k.processes
    → l.open_files ≡ k.open_files
    → l.pipes ≡ k.pipes
    → WellFormed l
unfolding tally
same_tables-WellFormed k l w ps fs qs = record {
  files_size = ap length fs ∙ w.files_size;
  pipes_size = ap length qs ∙ w.pipes_size;
  fds_size = λ s p h. w.fds_size s p (ap (λ x. get_or x s none) (sym ps) ∙ h);
  exact = λ c i. rw (ps, fs, qs) (w.exact c i);
}

-- A process that is replaced by one with the same descriptors.
replaced-WellFormed :
    (k : Kernel) (slot : ℕ) (p q : Process)
    → WellFormed k
    → get_or k.processes slot none ≡ some p
    → q.fds ≡ p.fds
    → WellFormed (record k { processes = set k.processes slot (some q) })
unfolding tally process_points
replaced-WellFormed k slot p q w h same = record {
  files_size = w.files_size;
  pipes_size = w.pipes_size;
  fds_size = set-AllSized k.processes slot (some q) w.fds_size (λ r e.
      ap (λ (x : Process). length x.fds) (sym (some_inj e)) ∙ ap length same ∙ w.fds_size slot p h);
  exact = λ c i. omega (
    arith,
    total-set (process_points c i) k.processes slot (some q) none
        (stored-in_range k.processes slot p h),
    ap (process_points c i) h,
    ap (λ x. process_points c i (some (record p { fds = x }))) same,
    w.exact c i,
  );
}

-- A change of the threads and tasks only.
threads-WellFormed :
    (k : Kernel) (ts : List (Option Thread)) → WellFormed k → WellFormed (record k { threads = ts })
threads-WellFormed k ts w = same_tables-WellFormed k _ w refl refl refl

end_process-WellFormed :
    (k : Kernel) (group : ℕ) (p : Process) (code : ℕ)
    → WellFormed k
    → get_or k.processes group none ≡ some p
    → WellFormed (end_process k group p code).1
unfolding end_process
end_process-WellFormed k group p code w h = elim (Bool-cases (p.thread_count - 1 == 0)) [
  | inl last ↦ rw (end_process, last) (replaced-WellFormed k group p _ w h refl)
  | inr more ↦ rw (end_process, more) (replaced-WellFormed k group p _ w h refl)
]

end_whole_group-WellFormed :
    (k : Kernel) (t : Thread) (p : Process) (code : ℕ)
    → WellFormed k
    → get_or k.processes t.group_slot none ≡ some p
    → WellFormed (end_whole_group k t p code)
unfolding end_whole_group
end_whole_group-WellFormed k t p code w h =
    let q : Process = record p { state = zombie; exit_code = code; thread_count = 0 } in
    same_tables-WellFormed _ _ (replaced-WellFormed k t.group_slot p q w h refl) refl refl refl

-- The end of the current thread, alone or with its group.
pub exit_thread-WellFormed :
    (k : Kernel) (code : ℕ) (whole_group : Bool)
    → WellFormed k
    → WellFormed (exit_thread k code whole_group).1
unfolding exit_thread
exit_thread-WellFormed k code whole_group w = elim (Option-cases (current_thread k)) [
  | inl e ↦ rw (exit_thread, e) w
  | inr (t, e) ↦
      (let k1 : Kernel = record k { threads = set k.threads k.current (some (end_thread t)) } in
        let w1 : WellFormed k1 = threads-WellFormed k _ w in
        elim (Option-cases (get_or k.processes t.group_slot none)) [
          | inl f ↦ rw (exit_thread, e, f) w1
          | inr (p, f) ↦ elim (Bool-cases whole_group) [
            | inl all ↦ rw (exit_thread, e, f, all) (end_whole_group-WellFormed k1 t p code w1 f)
            | inr one ↦
                rw (exit_thread, e, f, one) (end_process-WellFormed k1 t.group_slot p code w1 f)
          ]
        ])
]

pub queue_signal-WellFormed :
    (k : Kernel) (slot sig : ℕ) → WellFormed k → WellFormed (queue_signal k slot sig).1
unfolding queue_signal
queue_signal-WellFormed k slot sig w = elim (Option-cases (get_or k.processes slot none)) [
  | inl e ↦ rw (queue_signal, e) w
  | inr (p, e) ↦
      (let q : Process = record p { sig_pending = sigset_add p.sig_pending sig } in
        rw (queue_signal, e) (replaced-WellFormed k slot p q w e refl))
]

notify_parent_exit-WellFormed :
    (k : Kernel) (parent_pid : ℕ) → WellFormed k → WellFormed (notify_parent_exit k parent_pid)
unfolding notify_parent_exit
notify_parent_exit-WellFormed k parent_pid w = elim (Bool-cases (parent_pid == 0)) [
  | inl e ↦ rw (notify_parent_exit, e) w
  | inr e ↦ elim (Option-cases (find_slot_by_pid parent_pid k.processes 0)) [
    | inl f ↦ rw (notify_parent_exit, e, f) w
    | inr (slot, f) ↦ rw (notify_parent_exit, e, f) (queue_signal-WellFormed k slot sigchld w)
  ]
]

-- The end of a group by a signal.
pub terminate_process_group-WellFormed :
    (k : Kernel) (group sig : ℕ) → WellFormed k → WellFormed (terminate_process_group k group sig)
unfolding terminate_process_group
terminate_process_group-WellFormed k group sig w =
    elim (Option-cases (get_or k.processes group none)) [
      | inl e ↦
          (let k1 : Kernel = record k {
            threads = end_group group k.threads;
            tasks = kill_members group 0 k.threads k.tasks;
          } in
            rw (terminate_process_group, e)
              (notify_parent_exit-WellFormed k1 0 (same_tables-WellFormed k k1 w refl refl refl)))
      | inr (p, e) ↦
          (let q : Process = record p { state = zombie; exit_code = 128 + sig; thread_count = 0 } in
            rw (terminate_process_group, e)
              (notify_parent_exit-WellFormed _ p.parent_pid (
                same_tables-WellFormed _ _ (replaced-WellFormed k group p q w e refl) refl refl
                  refl)))
    ]

-- A new thread in the group of the current one.
pub spawn_thread_in_group-WellFormed :
    (k l : Kernel) (slot clear_child_tid fs_base tid : ℕ)
    → spawn_thread_in_group k slot clear_child_tid fs_base ≡ some (tid, l)
    → WellFormed k
    → WellFormed l
unfolding spawn_thread_in_group
spawn_thread_in_group-WellFormed k l slot ptr fs_base tid made w =
    elim (Option-cases (current_thread k)) [
      | inl e ↦ absurd (cc (rw (spawn_thread_in_group, e) at made))
      | inr (t, e) ↦ elim (Option-cases (get_or k.processes t.group_slot none)) [
        | inl f ↦ absurd (cc (rw (spawn_thread_in_group, e, f) at made))
        | inr (p, f) ↦
            (let q : Process = record p { thread_count = p.thread_count + 1 } in
              let same =
                ap (λ (x : ℕ × Kernel). x.1)
                  (some_inj (rw (spawn_thread_in_group, e, f) at made)) in
              same_tables-WellFormed _ l (replaced-WellFormed k t.group_slot p q w f refl)
                (ap (λ (x : Kernel). x.processes) (sym same))
                (ap (λ (x : Kernel). x.open_files) (sym same))
                (ap (λ (x : Kernel). x.pipes) (sym same)))
      ]
    ]

pub task_slot_reaped-WellFormed :
    (k : Kernel) (slot : ℕ) → WellFormed k → WellFormed (task_slot_reaped k slot)
unfolding task_slot_reaped
task_slot_reaped-WellFormed k slot w = elim (Option-cases (get_or k.threads slot none)) [
  | inl e ↦ rw (task_slot_reaped, e) w
  | inr (t, e) ↦ elim (Bool-cases (t.group_slot == slot)) [
    | inl main ↦ rw (task_slot_reaped, e, main) w
    | inr other ↦ rw (task_slot_reaped, e, other) (threads-WellFormed k _ w)
  ]
]
