-- ===== src/Sys/Killing.antt =====
-- kill, tkill and tgkill leave SIGKILL unmasked.
use core_os.Base.{
  ℕ, Bool, true, false, ◌||◌, none, get_or, if◌then◌else◌, ◌==◌, ltb, Bool-cases, Option-cases, inl,
  inr,
}
use core_os.Proc.Process.{Kernel}
use core_os.Proc.Life.{find_slot_by_pid, find_thread_slot_by_tid}
use core_os.Mm.{err, no_entry}
use core_os.Sys.{Sys, sigkill}
use core_os.Sys.Kill.{Result, queued_answer, kill, tkill, tgkill}
use core_os.Sys.Unmaskable.{
  AllKillable, queue_signal-threads, queue_thread_signal-AllKillable,
  terminate_process_group-AllKillable,
}

queued_answer-AllKillable :
    (s : Sys) (r : Bool × Kernel)
    → AllKillable r.1.threads
    → AllKillable (queued_answer s r).1.kernel.threads
unfolding queued_answer
queued_answer-AllKillable s (true, k) all = all
queued_answer-AllKillable s (false, k) all = all

pub kill-AllKillable :
    (s : Sys) (pid sig : ℕ)
    → AllKillable s.kernel.threads
    → AllKillable (kill s pid sig).1.kernel.threads
unfolding kill
kill-AllKillable s pid sig all = elim (Option-cases (find_slot_by_pid pid s.kernel.processes 0)) [
  | inl e ↦ rw (kill, e) all
  | inr (slot, e) ↦ elim (Bool-cases (sig == 0)) [
    | inl a ↦ rw (kill, e, a) all
    | inr a ↦ elim (Bool-cases (ltb sig 65)) [
      | inr b ↦ rw (kill, e, a, b) all
      | inl b ↦ elim (Bool-cases (sig == sigkill)) [
        | inl c ↦
            rw (kill, e, a, b, c) (terminate_process_group-AllKillable s.kernel slot sigkill all)
        | inr c ↦
            rw (kill, e, a, b, c)
              (queued_answer-AllKillable s _ (rw (queue_signal-threads s.kernel slot sig) all))
      ]
    ]
  ]
]

pub tkill-AllKillable :
    (s : Sys) (tid sig : ℕ)
    → AllKillable s.kernel.threads
    → AllKillable (tkill s tid sig).1.kernel.threads
unfolding tkill
tkill-AllKillable s tid sig all = elim (Bool-cases (tid == 0)) [
  | inl e ↦ rw (tkill, e) all
  | inr e ↦ elim (Bool-cases (ltb sig 65)) [
    | inr b ↦ rw (tkill, e, b) all
    | inl b ↦ elim (Option-cases (find_thread_slot_by_tid tid s.kernel.threads 0)) [
      | inl f ↦ rw (tkill, e, b, f) all
      | inr (slot, f) ↦ elim (Bool-cases (sig == 0)) [
        | inl a ↦ rw (tkill, e, b, f, a) all
        | inr a ↦ elim (Bool-cases (sig == sigkill)) [
          | inr c ↦
              rw (tkill, e, b, f, a, c)
                (queued_answer-AllKillable s _
                  (queue_thread_signal-AllKillable s.kernel slot sig all))
          | inl c ↦ elim (Option-cases (get_or s.kernel.threads slot none)) [
            | inl g ↦ rw (tkill, e, b, f, a, c, g) all
            | inr (t, g) ↦
                rw (tkill, e, b, f, a, c, g)
                  (terminate_process_group-AllKillable s.kernel t.group_slot sigkill all)
          ]
        ]
      ]
    ]
  ]
]

pub tgkill-AllKillable :
    (s : Sys) (tgid tid sig : ℕ)
    → AllKillable s.kernel.threads
    → AllKillable (tgkill s tgid tid sig).1.kernel.threads
unfolding tgkill
tgkill-AllKillable s tgid tid sig all = elim (Bool-cases (tgid == 0 || tid == 0)) [
  | inl e ↦ rw (tgkill, e) all
  | inr e ↦ elim (Option-cases (find_thread_slot_by_tid tid s.kernel.threads 0)) [
    | inl f ↦ rw (tgkill, e, f) all
    | inr (slot, f) ↦ elim (Option-cases (get_or s.kernel.threads slot none)) [
      | inl g ↦ rw (tgkill, e, f, g) all
      | inr (t, g) ↦ elim (Option-cases (get_or s.kernel.processes t.group_slot none)) [
        | inl h ↦ rw (tgkill, e, f, g, h) all
        | inr (p, h) ↦ rw (tgkill, e, f, g, h) (choose (p.pid == tgid))
      ]
    ]
  ]
]
  where
    choose :
        (b : Bool)
        → AllKillable
            (if◌then◌else◌ {A = Result} b (tkill s tid sig) (err no_entry, s)).1.kernel.threads
    choose true = tkill-AllKillable s tid sig all
    choose false = all
