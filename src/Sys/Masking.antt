-- ===== src/Sys/Masking.antt =====
-- The calls on actions, masks and stacks leave SIGKILL unmasked, and so does the end of a call.
use core_os.Base.{
  ℕ, ◌≡◌, sym, ap, not, ◌||◌, List, none, some, get_or, set, ◌==◌, ltb, Bool-cases, Option-cases,
  inl, inr,
}
use core_os.Proc.State.{Thread, empty_action}
use core_os.Proc.Process.{Process, current_process, current_thread}
use core_os.Mm.Calls.{has}
use core_os.Usercopy.{copy_words_from_user, copy_words_to_user}
use core_os.Sys.{Sys, SyscallFrame, sanitize_sigmask}
use core_os.Sys.Signals.{sigset_size, ss_disable}
use core_os.Sys.Kill.{
  report, set_action, rt_sigaction, How, how_of, combine, changed_mask, change_mask, rt_sigprocmask,
  set_altstack, sigaltstack, words_of_stack, words_of_action, reported_stack, finish_syscall,
  nr_rt_sigreturn, action_of_words, check_action,
}
use core_os.Sys.Unmaskable.{
  Killable, AllKillable, put_thread-AllKillable, current-Killable, put_process-threads,
  deliver_pending_signal-AllKillable, sanitize_sigmask-Spares,
}

report-kernel :
    (s s1 : Sys) (ptr : ℕ) (ws : List ℕ) → report s ptr ws ≡ some s1 → s1.kernel ≡ s.kernel
unfolding report
report-kernel s s1 ptr ws h = elim (Bool-cases (ptr == 0)) [
  | inl e ↦
      (let made : some s ≡ some s1 = rw (report, e) at h in
        let same : s ≡ s1 = cc made in ap (λ (x : Sys). x.kernel) (sym same))
  | inr e ↦ elim (Option-cases (copy_words_to_user s.mem ptr ws)) [
    | inl f ↦ absurd (let made : none ≡ some s1 = rw (report, e, f) at h in cc made)
    | inr (m, f) ↦
        (let made : some (record s { mem = m }) ≡ some s1 = rw (report, e, f) at h in
          let same : record s { mem = m } ≡ s1 = cc made in ap (λ (x : Sys). x.kernel) (sym same))
  ]
]

report-AllKillable :
    (s s1 : Sys) (ptr : ℕ) (ws : List ℕ)
    → report s ptr ws ≡ some s1
    → AllKillable s.kernel.threads
    → AllKillable s1.kernel.threads
report-AllKillable s s1 ptr ws h all = rw (report-kernel s s1 ptr ws h) all

set_action-AllKillable :
    (s : Sys) (p : Process) (sig act : ℕ)
    → AllKillable s.kernel.threads
    → AllKillable (set_action s p sig act).1.kernel.threads
unfolding set_action
set_action-AllKillable s p sig act all = elim (Bool-cases (act == 0)) [
  | inl e ↦ rw (set_action, e) all
  | inr e ↦ elim (Option-cases (copy_words_from_user 19 s.mem act)) [
    | inl f ↦ rw (set_action, e, f) all
    | inr (ws, f) ↦ elim (Option-cases (check_action (action_of_words ws))) [
      | inr (er, g) ↦ rw (set_action, e, f, g) all
      | inl g ↦
          rw (set_action, e, f, g)
            (rw
              (put_process-threads s.kernel
                (record p { sig_handlers = set p.sig_handlers sig (action_of_words ws) }))
              all)
    ]
  ]
]

pub rt_sigaction-AllKillable :
    (s : Sys) (sig act oldact size : ℕ)
    → AllKillable s.kernel.threads
    → AllKillable (rt_sigaction s sig act oldact size).1.kernel.threads
unfolding rt_sigaction
rt_sigaction-AllKillable s sig act oldact size all =
    elim (Bool-cases (sig == 0 || not (ltb sig 65))) [
      | inl e ↦ rw (rt_sigaction, e) all
      | inr e ↦ elim (Bool-cases (size == sigset_size)) [
        | inr f ↦ rw (rt_sigaction, e, f) all
        | inl f ↦ elim (Option-cases (current_process s.kernel)) [
          | inl g ↦ rw (rt_sigaction, e, f, g) all
          | inr (p, g) ↦
              elim (Option-cases
                (report s oldact (words_of_action (get_or p.sig_handlers sig empty_action)))) [
                  | inl h ↦ rw (rt_sigaction, e, f, g, h) all
                  | inr (s1, h) ↦
                      rw (rt_sigaction, e, f, g, h)
                        (set_action-AllKillable s1 p sig act
                          (report-AllKillable s s1 oldact _ h all))
                ]
        ]
      ]
    ]

change_mask-AllKillable :
    (s : Sys) (t : Thread) (how : How) (ptr : ℕ)
    → AllKillable s.kernel.threads
    → Killable t
    → AllKillable (change_mask s t how ptr).1.kernel.threads
unfolding change_mask changed_mask
change_mask-AllKillable s t how ptr all d = elim (Bool-cases (ptr == 0)) [
  | inl e ↦ rw (change_mask, e) all
  | inr e ↦ elim (Option-cases (copy_words_from_user 16 s.mem ptr)) [
    | inl f ↦ rw (change_mask, e, f) all
    | inr (ws, f) ↦
        rw (change_mask, e, f)
          (put_thread-AllKillable s.kernel (record t { sig_mask = changed_mask how t.sig_mask ws })
            all
            (record {
              mask = sanitize_sigmask-Spares (combine how t.sig_mask (sanitize_sigmask ws));
              saved = d.saved;
            }))
  ]
]

pub rt_sigprocmask-AllKillable :
    (s : Sys) (how ptr oldset size : ℕ)
    → AllKillable s.kernel.threads
    → AllKillable (rt_sigprocmask s how ptr oldset size).1.kernel.threads
unfolding rt_sigprocmask
rt_sigprocmask-AllKillable s how ptr oldset size all = elim (Bool-cases (size == sigset_size)) [
  | inr e ↦ rw (rt_sigprocmask, e) all
  | inl e ↦ elim (Option-cases (how_of how)) [
    | inl f ↦ rw (rt_sigprocmask, e, f) all
    | inr (w, f) ↦ elim (Option-cases (current_thread s.kernel)) [
      | inl g ↦ rw (rt_sigprocmask, e, f, g) all
      | inr (t, g) ↦ elim (Option-cases (report s oldset t.sig_mask)) [
        | inl h ↦ rw (rt_sigprocmask, e, f, g, h) all
        | inr (s1, h) ↦
            rw (rt_sigprocmask, e, f, g, h)
              (change_mask-AllKillable s1 t w ptr (report-AllKillable s s1 oldset t.sig_mask h all)
                (current-Killable s.kernel t all g))
      ]
    ]
  ]
]

set_altstack-AllKillable :
    (s : Sys) (t : Thread) (ptr : ℕ)
    → AllKillable s.kernel.threads
    → Killable t
    → AllKillable (set_altstack s t ptr).1.kernel.threads
unfolding set_altstack
set_altstack-AllKillable s t ptr all d = elim (Bool-cases (ptr == 0)) [
  | inl e ↦ rw (set_altstack, e) all
  | inr e ↦ elim (Option-cases (copy_words_from_user 3 s.mem ptr)) [
    | inl f ↦ rw (set_altstack, e, f) all
    | inr (ws, f) ↦ elim (Bool-cases (has (get_or ws 1 0) ss_disable)) [
      | inl a ↦
          rw (set_altstack, e, f, a)
            (put_thread-AllKillable s.kernel _ all (record { mask = d.mask; saved = d.saved }))
      | inr a ↦ elim (Bool-cases (get_or ws 0 0 == 0 || get_or ws 2 0 == 0)) [
        | inl b ↦ rw (set_altstack, e, f, a, b) all
        | inr b ↦
            rw (set_altstack, e, f, a, b)
              (put_thread-AllKillable s.kernel _ all (record { mask = d.mask; saved = d.saved }))
      ]
    ]
  ]
]

pub sigaltstack-AllKillable :
    (s : Sys) (ptr old_ptr : ℕ)
    → AllKillable s.kernel.threads
    → AllKillable (sigaltstack s ptr old_ptr).1.kernel.threads
unfolding sigaltstack
sigaltstack-AllKillable s ptr old_ptr all = elim (Option-cases (current_thread s.kernel)) [
  | inl e ↦ rw (sigaltstack, e) all
  | inr (t, e) ↦ elim (Option-cases (report s old_ptr (words_of_stack (reported_stack t)))) [
    | inl f ↦ rw (sigaltstack, e, f) all
    | inr (s1, f) ↦
        rw (sigaltstack, e, f)
          (set_altstack-AllKillable s1 t ptr (report-AllKillable s s1 old_ptr _ f all)
            (current-Killable s.kernel t all e))
  ]
]

pub finish_syscall-AllKillable :
    (s : Sys) (num frame_ptr : ℕ) (frame : SyscallFrame) (value : ℕ)
    → AllKillable s.kernel.threads
    → AllKillable (finish_syscall s num frame_ptr frame value).1.kernel.threads
unfolding finish_syscall
finish_syscall-AllKillable s num frame_ptr frame value all =
    elim (Bool-cases (num == nr_rt_sigreturn)) [
      | inl e ↦ rw (finish_syscall, e) all
      | inr e ↦ rw (finish_syscall, e) (deliver_pending_signal-AllKillable s frame_ptr _ all)
    ]
