-- ===== src/Sys/Ending.antt =====
-- What the end of a group by a signal leaves: `terminate_process_group` of
-- kernel/src/syscall/process.rs.
use core_os.Base.{
  ℕ, ◌+◌, ◌≤◌, ◌≡◌, ◌≢◌, refl, ap, ◌∙◌, Bool, true, false, not, ◌&&◌, Option, none, some, arith,
  get_or, set, ◌==◌, get_or-set, ℕ_discrete, Bool-cases, Option-cases, inl, inr, if◌then◌else◌,
  ==_iff,
}
use core_os.Proc.State.{Thread, zombie}
use core_os.Proc.Process.{Kernel, Process, current_thread}
use core_os.Proc.Life.{end_thread, find_slot_by_pid}
use core_os.Proc.Exit.{ended, get_or-end_group}
use core_os.Proc.Placed.{stored-in_range}
use core_os.Sys.{
  Sys, sigchld, sigset_contains, sigset_add, queue_signal, notify_parent_exit,
  terminate_process_group,
}
use core_os.Sys.Pending.{Cleared, Taken, sigset_contains-sigset_add}
use core_os.Sys.Unmaskable.{terminate_process_group-threads}

-- A process whose group a signal has ended; SIGCHLD may have become pending for it.
pub record Dead (p : Process) (sig : ℕ) (o : Option Process) : Type 0 where
  pub process : Process
  pub at : o ≡ some process
  pub over : process.state ≡ zombie
  pub exit_code : process.exit_code ≡ 128 + sig
  pub pending :
      (i : ℕ)
      → 1 ≤ i
      → sigchld ≢ i
      → sigset_contains process.sig_pending i ≡ sigset_contains p.sig_pending i

queue_signal-Dead :
    (k : Kernel) (p : Process) (group sig slot : ℕ)
    → Dead p sig (get_or k.processes group none)
    → Dead p sig (get_or (queue_signal k slot sigchld).1.processes group none)
unfolding queue_signal
queue_signal-Dead k p group sig slot d = elim (Option-cases (get_or k.processes slot none)) [
  | inl e ↦ rw (queue_signal, e) d
  | inr (r, e) ↦
      (let r1 : Process = record r { sig_pending = sigset_add r.sig_pending sigchld } in
        rw (queue_signal, e)
          (elim (ℕ_discrete slot group) [
            | no far ↦
                (let same : get_or (set k.processes slot (some r1)) group none
                      ≡ get_or k.processes group none =
                    get_or-set k.processes slot group (some r1) none ∙ ground (arith, far) in
                  record {
                    process = d.process;
                    at = same ∙ d.at;
                    over = d.over;
                    exit_code = d.exit_code;
                    pending = d.pending;
                  })
            | yes at ↦
                (let same : r ≡ d.process = cc (e, d.at, ap (λ j. get_or k.processes j none) at) in
                  record {
                    process = r1;
                    at =
                        get_or-set k.processes slot group (some r1) none
                        ∙ ground (arith, at, stored-in_range k.processes slot r e);
                    over = ap (λ (x : Process). x.state) same ∙ d.over;
                    exit_code = ap (λ (x : Process). x.exit_code) same ∙ d.exit_code;
                    pending = λ i l n.
                        sigset_contains-sigset_add r.sig_pending sigchld i (omega arith) l n
                        ∙ ap (λ (x : Process). sigset_contains x.sig_pending i) same
                        ∙ d.pending i l n;
                  })
          ]))
]

notify_parent_exit-Dead :
    (k : Kernel) (p : Process) (group sig parent : ℕ)
    → Dead p sig (get_or k.processes group none)
    → Dead p sig (get_or (notify_parent_exit k parent).processes group none)
unfolding notify_parent_exit
notify_parent_exit-Dead k p group sig parent d = elim (Bool-cases (parent == 0)) [
  | inl e ↦ rw (notify_parent_exit, e) d
  | inr e ↦ elim (Option-cases (find_slot_by_pid parent k.processes 0)) [
    | inl f ↦ rw (notify_parent_exit, e, f) d
    | inr (slot, f) ↦ rw (notify_parent_exit, e, f) (queue_signal-Dead k p group sig slot d)
  ]
]

terminate_process_group-Dead :
    (k : Kernel) (p : Process) (group sig : ℕ)
    → get_or k.processes group none ≡ some p
    → Dead p sig (get_or (terminate_process_group k group sig).processes group none)
unfolding terminate_process_group
terminate_process_group-Dead k p group sig stored =
    let q : Process = record p { state = zombie; exit_code = 128 + sig; thread_count = 0 } in
    rw (terminate_process_group, stored)
      (notify_parent_exit-Dead _ p group sig p.parent_pid (record {
        process = q;
        at =
            get_or-set k.processes group group (some q) none
            ∙ ground (arith, stored-in_range k.processes group p stored);
        over = refl;
        exit_code = refl;
        pending = λ i l n. refl;
      }))

queue_signal-current : (k : Kernel) (slot sig : ℕ) → (queue_signal k slot sig).1.current ≡ k.current
unfolding queue_signal
queue_signal-current k slot sig = elim (Option-cases (get_or k.processes slot none)) [
  | inl e ↦ rw (queue_signal, e) refl
  | inr (p, e) ↦ rw (queue_signal, e) refl
]

notify_parent_exit-current :
    (k : Kernel) (parent : ℕ) → (notify_parent_exit k parent).current ≡ k.current
unfolding notify_parent_exit
notify_parent_exit-current k parent = elim (Bool-cases (parent == 0)) [
  | inl e ↦ rw (notify_parent_exit, e) refl
  | inr e ↦ elim (Option-cases (find_slot_by_pid parent k.processes 0)) [
    | inl f ↦ rw (notify_parent_exit, e, f) refl
    | inr (slot, f) ↦ rw (notify_parent_exit, e, f) (queue_signal-current k slot sigchld)
  ]
]

terminate_process_group-current :
    (k : Kernel) (p : Process) (group sig : ℕ)
    → get_or k.processes group none ≡ some p
    → (terminate_process_group k group sig).current ≡ k.current
unfolding terminate_process_group
terminate_process_group-current k p group sig stored =
    rw (terminate_process_group, stored) (notify_parent_exit-current _ p.parent_pid)

-- The state after the signal `c.0` is taken and has ended the group of the current thread.
pub record Terminated (s : Sys) (p : Process) (t : Thread) (c : ℕ × Bool) (s1 : Sys) : Type 0 where
  pub mem : s1.mem ≡ s.mem
  pub now : Thread
  pub here : current_thread s1.kernel ≡ some now
  pub gone : now.state ≡ zombie
  pub handling : now.in_signal_handler ≡ t.in_signal_handler
  pub mask : now.sig_mask ≡ t.sig_mask
  pub own : Cleared c.1 c.0 t.sig_pending now.sig_pending
  pub threads :
      (i : ℕ)
      → i ≢ s.kernel.current
      → get_or s1.kernel.threads i none ≡ ended t.group_slot (get_or s.kernel.threads i none)
  pub process : Process
  pub at : get_or s1.kernel.processes t.group_slot none ≡ some process
  pub over : process.state ≡ zombie
  pub exit_code : process.exit_code ≡ 128 + c.0
  pub shared :
      (i : ℕ)
      → 1 ≤ i
      → sigchld ≢ i
      → sigset_contains process.sig_pending i
        ≡ (if not c.1 && (c.0 == i) then false else sigset_contains p.sig_pending i)

pub terminate_process_group-Terminated :
    (s s1 : Sys) (p : Process) (t u : Thread) (c : ℕ × Bool)
    → Taken s p t c u s1
    → Terminated s p t c (record s1 { kernel = terminate_process_group s1.kernel t.group_slot c.0 })
unfolding current_thread
terminate_process_group-Terminated s s1 p t u c d =
    let dead = terminate_process_group-Dead s1.kernel d.process t.group_slot c.0 d.at in
    let now = terminate_process_group-current s1.kernel d.process t.group_slot c.0 d.at in
    let ts = terminate_process_group-threads s1.kernel t.group_slot c.0 in
    let in_group : (u.group_slot == t.group_slot) ≡ true = (==_iff _ _).1 d.group in
    let slot_of : (i : ℕ)
        → get_or (terminate_process_group s1.kernel t.group_slot c.0).threads i none
          ≡ ended t.group_slot (get_or s1.kernel.threads i none) =
      λ i. ap (λ x. get_or x i none) ts ∙ get_or-end_group t.group_slot i s1.kernel.threads in
    record {
      mem = d.mem;
      now = end_thread u;
      here =
          ap (λ i. get_or (terminate_process_group s1.kernel t.group_slot c.0).threads i none) now
          ∙ slot_of s1.kernel.current
          ∙ ap (ended t.group_slot) d.here
          ∙ rw in_group refl;
      gone = refl;
      handling = d.handling;
      mask = d.mask;
      own = d.own;
      threads = λ i n. slot_of i ∙ ap (ended t.group_slot) (d.threads i n);
      process = dead.process;
      at = dead.at;
      over = dead.over;
      exit_code = dead.exit_code;
      shared = λ i l n. dead.pending i l n ∙ d.shared i l;
    }
