-- ===== src/Sys/History.antt =====
-- Runs of the system calls on signals, with what else happens to the threads in between.
use core_os.Base.{
  ℕ, zero, suc, ◌+◌, ◌<◌, ◌≡◌, refl, sym, ap, Bool, true, false, not, ◌&&◌, ◌||◌, List, [], ◌∷◌,
  Option, none, some, arith, get_or, set, if◌then◌else◌, ◌==◌, ltb, Bool-cases, Option-cases, inl,
  inr, replicate,
}
use core_os.Proc.State.{Thread, SigSet, new_leader_thread, new_group_member}
use core_os.Proc.Process.{Kernel, current_process, current_thread, boot_tables, fork_from}
use core_os.Proc.Life.{spawn_named, spawn_thread_in_group}
use core_os.Proc.Fd.{fork_current, retain_fds}
use core_os.Proc.Owners.{retain_fds-SameOwners}
use core_os.Usercopy.{UserMem}
use core_os.Base.Words.{nth_bit}
use core_os.Sys.{FutexWaiter, Sys, SyscallFrame, sigkill, sigset_contains}
use core_os.Sys.Signals.{rt_sigreturn}
use core_os.Sys.Kill.{
  with_kernel, kill, tkill, tgkill, rt_sigaction, rt_sigprocmask, sigaltstack, finish_syscall,
}
use core_os.Sys.Killing.{kill-AllKillable, tkill-AllKillable, tgkill-AllKillable}
use core_os.Sys.Masking.{
  rt_sigaction-AllKillable, rt_sigprocmask-AllKillable, sigaltstack-AllKillable,
  finish_syscall-AllKillable,
}
use core_os.Sys.Unmaskable.{
  Spares, Killable, KillableSlot, AllKillable, set-AllKillable, AllKillable-at, current-Killable,
  rt_sigreturn-AllKillable,
}

leader-Killable : (pid parent slot : ℕ) → Killable (new_leader_thread pid parent slot slot)
unfolding new_leader_thread sigset_contains nth_bit core_os.Base.replicate
leader-Killable pid parent slot = record { mask = refl; saved = refl }

member-Killable :
    (tid parent group slot child_tid fs : ℕ) (mask : SigSet)
    → Spares mask
    → Killable (new_group_member tid parent group slot child_tid fs mask)
unfolding new_group_member sigset_contains nth_bit core_os.Base.replicate
member-Killable tid parent group slot child_tid fs mask d = record { mask = d; saved = refl }

fork_current-AllKillable :
    (k k1 : Kernel) (slot pid : ℕ)
    → fork_current k slot ≡ some (pid, k1)
    → AllKillable k.threads
    → AllKillable k1.threads
unfolding fork_current
fork_current-AllKillable k k1 slot pid h all = elim (Option-cases (current_process k)) [
  | inl e ↦ absurd (let made : none ≡ some (pid, k1) = rw (fork_current, e) at h in cc made)
  | inr (p, e) ↦ elim (Option-cases (current_thread k)) [
    | inl f ↦ absurd (let made : none ≡ some (pid, k1) = rw (fork_current, e, f) at h in cc made)
    | inr (t, f) ↦
        (let kept = retain_fds-SameOwners p.fds (record k { next_pid = k.next_pid + 1 }) in
          let l = retain_fds (record k { next_pid = k.next_pid + 1 }) p.fds in
          let child = new_group_member k.next_pid t.tid slot slot 0 t.fs_base t.sig_mask in
          let made : some (
            k.next_pid,
            record l {
              processes = set l.processes slot (some (fork_from p k.next_pid));
              threads = set l.threads slot (some child);
            },
          )
              ≡ some (pid, k1) =
            rw (fork_current, e, f) at h in
          let same : set l.threads slot (some child) ≡ k1.threads =
            ap (λ (o : Option (ℕ × Kernel)). elim o [ none ↦ [] | some r ↦ r.1.threads ]) made in
          rw (← same, kept.threads)
            (set-AllKillable k.threads slot (some child) all (
              member-Killable k.next_pid t.tid slot slot 0 t.fs_base t.sig_mask
                (current-Killable k t all f).mask)))
  ]
]

spawn_thread_in_group-AllKillable :
    (k k1 : Kernel) (slot tid child_tid fs : ℕ)
    → spawn_thread_in_group k slot child_tid fs ≡ some (tid, k1)
    → AllKillable k.threads
    → AllKillable k1.threads
unfolding spawn_thread_in_group
spawn_thread_in_group-AllKillable k k1 slot tid child_tid fs h all =
    elim (Option-cases (current_thread k)) [
      | inl e ↦
          absurd (let made : none ≡ some (tid, k1) = rw (spawn_thread_in_group, e) at h in cc made)
      | inr (t, e) ↦ elim (Option-cases (get_or k.processes t.group_slot none)) [
        | inl f ↦
            absurd
              (let made : none ≡ some (tid, k1) = rw (spawn_thread_in_group, e, f) at h in cc made)
        | inr (p, f) ↦
            (let child =
                new_group_member k.next_pid t.tid t.group_slot slot child_tid fs t.sig_mask in
              let made : some (
                k.next_pid,
                record k {
                  next_pid = k.next_pid + 1;
                  processes =
                      set k.processes t.group_slot
                        (some (record p { thread_count = p.thread_count + 1 }));
                  threads = set k.threads slot (some child);
                },
              )
                  ≡ some (tid, k1) =
                rw (spawn_thread_in_group, e, f) at h in
              let same : set k.threads slot (some child) ≡ k1.threads =
                ap (λ (o : Option (ℕ × Kernel)). elim o [ none ↦ [] | some r ↦ r.1.threads ])
                  made in
              rw (← same) (
                set-AllKillable k.threads slot (some child) all (
                  member-Killable k.next_pid t.tid t.group_slot slot child_tid fs t.sig_mask
                    (current-Killable k t all e).mask)))
      ]
    ]

-- What can happen: a call on signals, the end of a call, the birth of a process or a thread, a
-- switch to another task, and writes of the program to its memory.
pub data Step (s : Sys) : Sys → Type 0 where
  spawned : (slot : ℕ) (name : List ℕ) → Step s (with_kernel s (spawn_named s.kernel slot name).1)
  forked :
      (k : Kernel) (slot pid : ℕ)
      → fork_current s.kernel slot ≡ some (pid, k)
      → Step s (with_kernel s k)
  cloned :
      (k : Kernel) (slot tid child_tid fs : ℕ)
      → spawn_thread_in_group s.kernel slot child_tid fs ≡ some (tid, k)
      → Step s (with_kernel s k)
  switched : (slot : ℕ) → Step s (with_kernel s (record s.kernel { current = slot }))
  stored : (m : UserMem) → Step s (record s { mem = m })
  killed : (pid sig : ℕ) → Step s (kill s pid sig).1
  thread_killed : (tid sig : ℕ) → Step s (tkill s tid sig).1
  member_killed : (tgid tid sig : ℕ) → Step s (tgkill s tgid tid sig).1
  action_set : (sig act oldact size : ℕ) → Step s (rt_sigaction s sig act oldact size).1
  mask_set : (how ptr oldset size : ℕ) → Step s (rt_sigprocmask s how ptr oldset size).1
  stack_set : (ptr old_ptr : ℕ) → Step s (sigaltstack s ptr old_ptr).1
  returned : (frame_ptr : ℕ) (frame : SyscallFrame) → Step s (rt_sigreturn s frame_ptr frame).1
  finished :
      (num frame_ptr : ℕ) (frame : SyscallFrame) (value : ℕ)
      → Step s (finish_syscall s num frame_ptr frame value).1

-- From a state whose kernel has the tables that the statics declare.
pub data Run : Sys → Type 0 where
  begin :
      (mem : UserMem) (waiters : List FutexWaiter)
      → Run (record { kernel = boot_tables; mem = mem; waiters = waiters })
  after : (s s1 : Sys) → Run s → Step s s1 → Run s1

Step-AllKillable :
    (s s1 : Sys) → Step s s1 → AllKillable s.kernel.threads → AllKillable s1.kernel.threads
unfolding spawn_named
Step-AllKillable s _ (spawned slot name) all =
    set-AllKillable s.kernel.threads slot _ all (leader-Killable _ _ slot)
Step-AllKillable s _ (forked k slot pid h) all = fork_current-AllKillable s.kernel k slot pid h all
Step-AllKillable s _ (cloned k slot tid child_tid fs h) all =
    spawn_thread_in_group-AllKillable s.kernel k slot tid child_tid fs h all
Step-AllKillable s _ (switched slot) all = all
Step-AllKillable s _ (stored m) all = all
Step-AllKillable s _ (killed pid sig) all = kill-AllKillable s pid sig all
Step-AllKillable s _ (thread_killed tid sig) all = tkill-AllKillable s tid sig all
Step-AllKillable s _ (member_killed tgid tid sig) all = tgkill-AllKillable s tgid tid sig all
Step-AllKillable s _ (action_set sig act oldact size) all =
    rt_sigaction-AllKillable s sig act oldact size all
Step-AllKillable s _ (mask_set how ptr oldset size) all =
    rt_sigprocmask-AllKillable s how ptr oldset size all
Step-AllKillable s _ (stack_set ptr old_ptr) all = sigaltstack-AllKillable s ptr old_ptr all
Step-AllKillable s _ (returned frame_ptr frame) all = rt_sigreturn-AllKillable s frame_ptr frame all
Step-AllKillable s _ (finished num frame_ptr frame value) all =
    finish_syscall-AllKillable s num frame_ptr frame value all

no_threads-KillableSlot : (n i : ℕ) → KillableSlot (get_or (replicate n none) i none)
unfolding replicate
no_threads-KillableSlot zero i = omega arith
no_threads-KillableSlot (suc n) zero = omega arith
no_threads-KillableSlot (suc n) (suc i) = no_threads-KillableSlot n i

boot_tables-AllKillable : AllKillable boot_tables.threads
unfolding AllKillable boot_tables
boot_tables-AllKillable i = no_threads-KillableSlot 8 i

-- In every state that the tables the kernel starts with come to by the calls on signals, the ends
-- of system calls, births of processes and threads, task switches and writes to user memory, no
-- thread masks SIGKILL, now or in the mask that it saved.
pub Run-AllKillable :
    (s : Sys)
    → Run s
    → (slot : ℕ) (t : Thread) → get_or s.kernel.threads slot none ≡ some t
    → (sigset_contains t.sig_mask sigkill ≡ false)
      × (sigset_contains t.saved_sig_mask sigkill ≡ false)
Run-AllKillable s run slot t h =
    (let d = AllKillable-at s.kernel.threads slot t (all s run) h in (d.mask, d.saved))
  where
    all : (r : Sys) → Run r → AllKillable r.kernel.threads
    all _ (begin mem waiters) = boot_tables-AllKillable
    all _ (after r r1 before step) = Step-AllKillable r r1 step (all r before)
