-- ===== src/Sys/Unmaskable.antt =====
-- SIGKILL is never masked: what keeps it so in each system call on signals.
use core_os.Base.{
  ℕ, zero, suc, ◌+◌, ◌-◌, ◌≡◌, refl, Bool, true, false, ◌&&◌, List, [], ◌∷◌, Option, none, some,
  arith, get_or, set, length, if◌then◌else◌, ◌==◌, ltb, Bool-cases, Option-cases, inl, inr,
  get_or-set,
}
use core_os.Proc.State.{Thread, SigSet, SigAction, empty_action}
use core_os.Proc.Process.{
  Kernel, Process, current_process, current_thread, put_process, put_process_of,
}
use core_os.Proc.Life.{end_group, end_thread, find_slot_by_pid}
use core_os.Mm.{SysResult, ok}
use core_os.Usercopy.{user_range_ok, copy_words_from_user, copy_words_to_user}
use core_os.Sys.{
  Sys, SyscallFrame, words_of_frame, sigkill, sigset_contains, sigset_remove, sanitize_sigmask,
  queue_signal, queue_thread_signal, notify_parent_exit, terminate_process_group, put_thread,
}
use core_os.Sys.Signals.{
  signal_frame_size, signal_default_ignored, pick_signal, enter_handler, push_frame, run_handler,
  take_signal, act_on_signal, deliver_pending_signal, rt_sigreturn,
}
use core_os.Sys.Masks.{sigset_contains-sigset_remove}

-- A mask without SIGKILL, and a thread that has and keeps such masks.
abbrev pub Spares : SigSet → Type 0
Spares mask = sigset_contains mask sigkill ≡ false

pub record Killable (t : Thread) : Type 0 where
  pub mask : Spares t.sig_mask
  pub saved : Spares t.saved_sig_mask

abbrev pub KillableSlot : Option Thread → Type 0
KillableSlot none = Unit {0}
KillableSlot (some t) = Killable t

unfoldable pub AllKillable : List (Option Thread) → Type 0
AllKillable ts = (i : ℕ) → KillableSlot (get_or ts i none)

pub sanitize_sigmask-Spares : (mask : SigSet) → Spares (sanitize_sigmask mask)
unfolding sanitize_sigmask
sanitize_sigmask-Spares mask =
    sigset_contains-sigset_remove mask sigkill sigkill (omega arith) (omega arith)

pub set-AllKillable :
    (ts : List (Option Thread)) (i : ℕ) (v : Option Thread)
    → AllKillable ts
    → KillableSlot v
    → AllKillable (set ts i v)
unfolding AllKillable
set-AllKillable ts i v all one j =
    rw (get_or-set ts i j v none) (choose (i == j && ltb i (length ts)))
  where
    choose : (b : Bool) → KillableSlot (if b then v else get_or ts j none)
    choose true = one
    choose false = all j

pub AllKillable-at :
    (ts : List (Option Thread)) (i : ℕ) (t : Thread)
    → AllKillable ts
    → get_or ts i none ≡ some t
    → Killable t
unfolding AllKillable
AllKillable-at ts i t all h = go (get_or ts i none) (all i) h
  where
    go : (r : Option Thread) → KillableSlot r → r ≡ some t → Killable t
    go none u e = absurd (cc e)
    go (some u) d e = (let same : u ≡ t = cc e in rw (← same) d)

pub put_thread-AllKillable :
    (k : Kernel) (t : Thread)
    → AllKillable k.threads
    → Killable t
    → AllKillable (put_thread k t).threads
unfolding put_thread
put_thread-AllKillable k t all one = set-AllKillable k.threads k.current (some t) all one

pub current-Killable :
    (k : Kernel) (t : Thread) → AllKillable k.threads → current_thread k ≡ some t → Killable t
unfolding current_thread
current-Killable k t all h = AllKillable-at k.threads k.current t all h

pub put_process-threads : (k : Kernel) (p : Process) → (put_process k p).threads ≡ k.threads
unfolding put_process put_process_of
put_process-threads k p = elim (Option-cases (current_thread k)) [
  | inl e ↦ rw (put_process, e) refl
  | inr (t, e) ↦ rw (put_process, e) refl
]

end_group-AllKillable :
    (group : ℕ) (ts : List (Option Thread)) → AllKillable ts → AllKillable (end_group group ts)
unfolding AllKillable end_group
end_group-AllKillable group [] all j = all j
end_group-AllKillable group (none ∷ ts) all zero = all 0
end_group-AllKillable group (none ∷ ts) all (suc j) =
    end_group-AllKillable group ts (λ i. all (suc i)) j
end_group-AllKillable group (some t ∷ ts) all zero = ended (t.group_slot == group)
  where
    ended : (b : Bool) → Killable (if b then end_thread t else t)
    ended true = record { mask = (all 0).mask; saved = (all 0).saved }
    ended false = all 0
end_group-AllKillable group (some t ∷ ts) all (suc j) =
    end_group-AllKillable group ts (λ i. all (suc i)) j

pub queue_signal-threads :
    (k : Kernel) (slot sig : ℕ) → (queue_signal k slot sig).1.threads ≡ k.threads
unfolding queue_signal
queue_signal-threads k slot sig = elim (Option-cases (get_or k.processes slot none)) [
  | inl e ↦ rw (queue_signal, e) refl
  | inr (p, e) ↦ rw (queue_signal, e) refl
]

pub notify_parent_exit-threads :
    (k : Kernel) (parent : ℕ) → (notify_parent_exit k parent).threads ≡ k.threads
unfolding notify_parent_exit
notify_parent_exit-threads k parent = elim (Bool-cases (parent == 0)) [
  | inl e ↦ rw (notify_parent_exit, e) refl
  | inr e ↦ elim (Option-cases (find_slot_by_pid parent k.processes 0)) [
    | inl f ↦ rw (notify_parent_exit, e, f) refl
    | inr (slot, f) ↦ rw (notify_parent_exit, e, f) (queue_signal-threads k slot _)
  ]
]

pub terminate_process_group-threads :
    (k : Kernel) (group sig : ℕ)
    → (terminate_process_group k group sig).threads ≡ end_group group k.threads
unfolding terminate_process_group
terminate_process_group-threads k group sig = elim (Option-cases (get_or k.processes group none)) [
  | inl e ↦ rw (terminate_process_group, e) (notify_parent_exit-threads _ 0)
  | inr (p, e) ↦ rw (terminate_process_group, e) (notify_parent_exit-threads _ p.parent_pid)
]

pub terminate_process_group-AllKillable :
    (k : Kernel) (group sig : ℕ)
    → AllKillable k.threads
    → AllKillable (terminate_process_group k group sig).threads
terminate_process_group-AllKillable k group sig all =
    rw (terminate_process_group-threads k group sig) (end_group-AllKillable group k.threads all)

pub queue_thread_signal-AllKillable :
    (k : Kernel) (slot sig : ℕ)
    → AllKillable k.threads
    → AllKillable (queue_thread_signal k slot sig).1.threads
unfolding queue_thread_signal
queue_thread_signal-AllKillable k slot sig all = elim (Option-cases (get_or k.threads slot none)) [
  | inl e ↦ rw (queue_thread_signal, e) all
  | inr (t, e) ↦
      rw (queue_thread_signal, e)
        (let now = AllKillable-at k.threads slot t all e in
          set-AllKillable k.threads slot _ all (record { mask = now.mask; saved = now.saved }))
]

-- The delivery of a signal.
take_signal-AllKillable :
    (k : Kernel) (p : Process) (t : Thread) (sig : ℕ) (directed : Bool)
    → AllKillable k.threads
    → Killable t
    → AllKillable (take_signal k p t sig directed).1.threads
      × Killable (take_signal k p t sig directed).0
unfolding take_signal
take_signal-AllKillable k p t sig true all d =
    let u = record t { sig_pending = sigset_remove t.sig_pending sig } in
    let e : Killable u = record { mask = d.mask; saved = d.saved } in
    (put_thread-AllKillable k u all e, e)
take_signal-AllKillable k p t sig false all d = (rw (put_process-threads k _) all, d)

push_frame-AllKillable :
    (s : Sys) (t : Thread) (sig : ℕ) (action : SigAction) (ptr : ℕ) (frame : SyscallFrame)
    → AllKillable s.kernel.threads
    → Killable t
    → AllKillable (push_frame s t sig action ptr frame).1.kernel.threads
unfolding push_frame enter_handler
push_frame-AllKillable s t sig action ptr frame all d =
    elim (Bool-cases (user_range_ok ptr signal_frame_size)) [
      | inr bad ↦ rw (push_frame, bad) all
      | inl good ↦ elim (Option-cases (copy_words_to_user s.mem ptr (action.restorer ∷ []))) [
        | inl e ↦ rw (push_frame, good, e) all
        | inr (m, e) ↦ elim (Option-cases (copy_words_to_user m (ptr + 8) (words_of_frame frame))) [
          | inl f ↦ rw (push_frame, good, e, f) all
          | inr (m1, f) ↦
              rw (push_frame, good, e, f)
                (put_thread-AllKillable s.kernel (enter_handler t sig action) all
                  (record { mask = sanitize_sigmask-Spares _; saved = d.mask }))
        ]
      ]
    ]

run_handler-AllKillable :
    (s : Sys) (t : Thread) (sig : ℕ) (action : SigAction) (frame : SyscallFrame)
    (stack : Bool × Option ℕ)
    → AllKillable s.kernel.threads
    → Killable t
    → AllKillable (run_handler s t sig action frame stack).1.kernel.threads
unfolding run_handler
run_handler-AllKillable s t sig action frame (alt, none) all d = all
run_handler-AllKillable s t sig action frame (alt, some top) all d =
    let u = record t { on_altstack = alt } in
    let e : Killable u = record { mask = d.mask; saved = d.saved } in
    let all1 = put_thread-AllKillable s.kernel u all e in
    elim (Bool-cases (ltb top signal_frame_size)) [
      | inl low ↦ rw (run_handler, low) all1
      | inr high ↦
          rw (run_handler, high)
            (push_frame-AllKillable _ u sig action (top - signal_frame_size) frame all1 e)
    ]

act_on_signal-AllKillable :
    (s : Sys) (frame_ptr : ℕ) (frame : SyscallFrame) (t : Thread) (sig : ℕ) (action : SigAction)
    → AllKillable s.kernel.threads
    → Killable t
    → AllKillable (act_on_signal s frame_ptr frame t sig action).1.kernel.threads
unfolding act_on_signal
act_on_signal-AllKillable s frame_ptr frame t sig action all d =
    elim (Bool-cases (action.handler == 0)) [
      | inl default ↦ elim (Bool-cases (signal_default_ignored sig)) [
        | inl e ↦ rw (act_on_signal, default, e) all
        | inr e ↦
            rw (act_on_signal, default, e)
              (terminate_process_group-AllKillable s.kernel t.group_slot sig all)
      ]
      | inr own ↦ elim (Bool-cases (action.restorer == 0)) [
        | inl e ↦ rw (act_on_signal, own, e) all
        | inr e ↦ elim (Bool-cases (frame_ptr == 0)) [
          | inl f ↦ rw (act_on_signal, own, e, f) all
          | inr f ↦
              rw (act_on_signal, own, e, f) (run_handler-AllKillable s t sig action frame _ all d)
        ]
      ]
    ]

abbrev After : SysResult × Sys × SyscallFrame → Type 0
After r = AllKillable r.1.kernel.threads

pub deliver_pending_signal-AllKillable :
    (s : Sys) (frame_ptr : ℕ) (frame : SyscallFrame)
    → AllKillable s.kernel.threads
    → AllKillable (deliver_pending_signal s frame_ptr frame).1.kernel.threads
unfolding deliver_pending_signal
deliver_pending_signal-AllKillable s frame_ptr frame all =
    elim (Option-cases (current_process s.kernel)) [
      | inl e ↦ rw (deliver_pending_signal, e) all
      | inr (p, e) ↦ elim (Option-cases (current_thread s.kernel)) [
        | inl f ↦ rw (deliver_pending_signal, e, f) all
        | inr (t, f) ↦
            rw (deliver_pending_signal, e, f)
              (go p t (current-Killable s.kernel t all f) t.in_signal_handler
                (pick_signal 64 1 t.sig_pending p.sig_pending t.sig_mask))
      ]
    ]
  where
    go :
        (p : Process) (t : Thread)
        → Killable t
        → (b : Bool) (r : Option (ℕ × Bool))
        → After (
            if b then (ok 0, s, frame) else elim r [
              | none ↦ (ok 0, s, frame)
              | some (sig, directed) ↦
                  act_on_signal
                    (record s { kernel = (take_signal s.kernel p t sig directed).1 })
                    frame_ptr
                    frame
                    (take_signal s.kernel p t sig directed).0
                    sig
                    (get_or p.sig_handlers sig empty_action)
            ])
    go p t d true r = all
    go p t d false none = all
    go p t d false (some (sig, directed)) =
        let taken = take_signal-AllKillable s.kernel p t sig directed all d in
        act_on_signal-AllKillable _ frame_ptr frame _ sig _ taken.0 taken.1

pub rt_sigreturn-AllKillable :
    (s : Sys) (frame_ptr : ℕ) (frame : SyscallFrame)
    → AllKillable s.kernel.threads
    → AllKillable (rt_sigreturn s frame_ptr frame).1.kernel.threads
unfolding rt_sigreturn
rt_sigreturn-AllKillable s frame_ptr frame all = elim (Bool-cases (frame_ptr == 0)) [
  | inl e ↦ rw (rt_sigreturn, e) all
  | inr e ↦ elim (Option-cases (copy_words_from_user 15 s.mem frame.r10)) [
    | inl f ↦ rw (rt_sigreturn, e, f) all
    | inr (ws, f) ↦ elim (Option-cases (current_thread s.kernel)) [
      | inl g ↦ rw (rt_sigreturn, e, f, g) all
      | inr (t, g) ↦
          (let d = current-Killable s.kernel t all g in
            rw (rt_sigreturn, e, f, g)
              (put_thread-AllKillable s.kernel _ all (record { mask = d.saved; saved = d.saved })))
    ]
  ]
]
