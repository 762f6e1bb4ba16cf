-- ===== src/Sys/Kill.antt =====
-- kill, tkill and tgkill, rt_sigaction and rt_sigprocmask, sigaltstack and the end of every system
-- call: kernel/src/syscall/process.rs and sys.rs.
use core_os.Base.{
  ℕ, ◌+◌, ◌*◌, ◌/◌, Bool, true, false, not, ◌||◌, List, [], ◌∷◌, Option, none, some, get_or, set,
  drop, if◌then◌else◌, ◌==◌, ltb,
}
use core_os.Base.Words.{and_not_word}
use core_os.Proc.State.{Thread, SigSet, SigAction, StackT, disabled_stack, empty_action}
use core_os.Proc.Process.{Kernel, Process, current_process, current_thread, put_process}
use core_os.Proc.Life.{find_slot_by_pid, find_thread_slot_by_tid}
use core_os.Mm.{SysResult, SysError, ok, err, invalid, no_entry, fault, unsupported}
use core_os.Mm.Calls.{has}
use core_os.Usercopy.{copy_words_from_user, copy_words_to_user}
use core_os.Sys.{
  Sys, SyscallFrame, sigkill, sanitize_sigmask, or_sets, and_not_sets, queue_signal,
  queue_thread_signal, terminate_process_group, put_thread,
}
use core_os.Sys.Signals.{sa_restorer, sa_onstack, ss_disable, sigset_size, deliver_pending_signal}

-- A call gives its result and the state after it.
abbrev pub Result : Type 0
Result = SysResult × Sys

abbrev pub with_kernel : Sys → Kernel → Sys
with_kernel s k = record s { kernel = k }

-- The answer to a signal that was queued, or not.
unfoldable pub queued_answer : Sys → Bool × Kernel → Result
queued_answer s (true, k) = (ok 0, with_kernel s k)
queued_answer s (false, k) = (err no_entry, with_kernel s k)

unfoldable pub kill : Sys → ℕ → ℕ → Result
kill s pid sig = elim (find_slot_by_pid pid s.kernel.processes 0) [
  | none ↦ (err no_entry, s)
  | some slot ↦
      (if sig == 0
        then (ok 0, s)
        else if not (ltb sig 65)
        then (err invalid, s)
        else if sig == sigkill
        then (ok 0, with_kernel s (terminate_process_group s.kernel slot sigkill))
        else queued_answer s (queue_signal s.kernel slot sig))
]

unfoldable pub tkill : Sys → ℕ → ℕ → Result
tkill s tid sig =
    if tid == 0
    then (err invalid, s)
    else if not (ltb sig 65)
    then (err invalid, s)
    else elim (find_thread_slot_by_tid tid s.kernel.threads 0) [
      | none ↦ (err no_entry, s)
      | some slot ↦
          (if sig == 0
            then (ok 0, s)
            else if sig == sigkill
            then elim (get_or s.kernel.threads slot none) [
              | none ↦ (err no_entry, s)
              | some t ↦
                  (ok 0, with_kernel s (terminate_process_group s.kernel t.group_slot sigkill))
            ]
            else queued_answer s (queue_thread_signal s.kernel slot sig))
    ]

unfoldable pub tgkill : Sys → ℕ → ℕ → ℕ → Result
tgkill s tgid tid sig =
    if tgid == 0 || tid == 0
    then (err invalid, s)
    else elim (find_thread_slot_by_tid tid s.kernel.threads 0) [
      | none ↦ (err no_entry, s)
      | some slot ↦ elim (get_or s.kernel.threads slot none) [
        | none ↦ (err no_entry, s)
        | some t ↦ elim (get_or s.kernel.processes t.group_slot none) [
          | none ↦ (err no_entry, s)
          | some p ↦
              (let rest = tkill s tid sig in if p.pid == tgid then rest else (err no_entry, s))
        ]
      ]
    ]

-- The action as it lies in memory: three words and the mask.
abbrev pub words_of_action : SigAction → List ℕ
words_of_action a = a.handler ∷ a.flags ∷ a.restorer ∷ a.mask

abbrev pub action_of_words : List ℕ → SigAction
action_of_words ws = record {
  handler = get_or ws 0 0;
  flags = get_or ws 1 0;
  restorer = get_or ws 2 0;
  mask = drop 3 ws;
}

-- What `rt_sigaction` asks of a new action.
unfoldable pub check_action : SigAction → Option SysError
check_action a =
    if not (and_not_word 64 a.flags (sa_restorer + sa_onstack) == 0)
    then some unsupported
    else if a.handler == 0
    then none
    else if not (has a.flags sa_restorer)
    then some invalid
    else if a.restorer == 0
    then some invalid
    else none

-- The first part of a call that reports an old value to the program: nothing for a null pointer.
unfoldable pub report : Sys → ℕ → List ℕ → Option Sys
report s ptr ws = if ptr == 0 then some s else elim (copy_words_to_user s.mem ptr ws) [
  | none ↦ none
  | some m ↦ some (record s { mem = m })
]

unfoldable pub set_action : Sys → Process → ℕ → ℕ → Result
set_action s p sig act = if act == 0 then (ok 0, s) else elim (copy_words_from_user 19 s.mem act) [
  | none ↦ (err fault, s)
  | some ws ↦ elim (check_action (action_of_words ws)) [
    | some error ↦ (err error, s)
    | none ↦ (
      ok 0,
      with_kernel s (
          put_process s.kernel
            (record p { sig_handlers = set p.sig_handlers sig (action_of_words ws) })),
    )
  ]
]

unfoldable pub rt_sigaction : Sys → ℕ → ℕ → ℕ → ℕ → Result
rt_sigaction s sig act oldact size =
    if sig == 0 || not (ltb sig 65)
    then (err invalid, s)
    else if not (size == sigset_size)
    then (err invalid, s)
    else elim (current_process s.kernel) [
      | none ↦ (err invalid, s)
      | some p ↦ elim (report s oldact (words_of_action (get_or p.sig_handlers sig empty_action))) [
        | none ↦ (err fault, s)
        | some s1 ↦ set_action s1 p sig act
      ]
    ]

pub data How : Type 0 where
  block : How
  unblock : How
  setmask : How

unfoldable pub how_of : ℕ → Option How
how_of how =
    if how == 0
    then some block
    else if how == 1
    then some unblock
    else if how == 2
    then some setmask
    else none

unfoldable pub combine : How → SigSet → SigSet → SigSet
combine block mask new_set = or_sets mask new_set
combine unblock mask new_set = and_not_sets mask new_set
combine setmask mask new_set = new_set

-- The mask after a change.
unfoldable pub changed_mask : How → SigSet → SigSet → SigSet
changed_mask how mask given = sanitize_sigmask (combine how mask (sanitize_sigmask given))

unfoldable pub change_mask : Sys → Thread → How → ℕ → Result
change_mask s t how ptr = if ptr == 0 then (ok 0, s) else elim (copy_words_from_user 16 s.mem ptr) [
  | none ↦ (err fault, s)
  | some given ↦ (
    ok 0,
    with_kernel s (put_thread s.kernel (record t { sig_mask = changed_mask how t.sig_mask given })),
  )
]

unfoldable pub rt_sigprocmask : Sys → ℕ → ℕ → ℕ → ℕ → Result
rt_sigprocmask s how ptr oldset size =
    if not (size == sigset_size) then (err invalid, s) else elim (how_of how) [
      | none ↦ (err invalid, s)
      | some h ↦ elim (current_thread s.kernel) [
        | none ↦ (err invalid, s)
        | some t ↦ elim (report s oldset t.sig_mask) [
          | none ↦ (err fault, s)
          | some s1 ↦ change_mask s1 t h ptr
        ]
      ]
    ]

-- A `StackT` as it lies in memory: the flags are the low half of the second word, and the padding
-- above them is taken to be 0.
abbrev pub words_of_stack : StackT → List ℕ
words_of_stack st = st.ss_sp ∷ st.ss_flags ∷ st.ss_size ∷ []

-- `ss_flags |= 1`
unfoldable pub reported_stack : Thread → StackT
reported_stack t =
    let st = t.sig_altstack in
    if t.on_altstack then record st { ss_flags = st.ss_flags / 2 * 2 + 1 } else st

unfoldable pub set_altstack : Sys → Thread → ℕ → Result
set_altstack s t ptr = if ptr == 0 then (ok 0, s) else elim (copy_words_from_user 3 s.mem ptr) [
  | none ↦ (err fault, s)
  | some ws ↦
      (let sp = get_or ws 0 0 in
        let size = get_or ws 2 0 in
        if has (get_or ws 1 0) ss_disable
        then (
          ok 0,
          with_kernel s (put_thread s.kernel (record t { sig_altstack = disabled_stack })),
        )
        else if sp == 0 || size == 0
        then (err invalid, s)
        else (
          ok 0,
          with_kernel s (
              put_thread s.kernel
                (record t { sig_altstack = record { ss_sp = sp; ss_flags = 0; ss_size = size } })),
        ))
]

unfoldable pub sigaltstack : Sys → ℕ → ℕ → Result
sigaltstack s ptr old_ptr = elim (current_thread s.kernel) [
  | none ↦ (err invalid, s)
  | some t ↦ elim (report s old_ptr (words_of_stack (reported_stack t))) [
    | none ↦ (err fault, s)
    | some s1 ↦ set_altstack s1 t ptr
  ]
]

abbrev pub nr_rt_sigreturn : ℕ
nr_rt_sigreturn = 15

-- `finish_syscall`: the value that the program gets, the state and the frame. Without a frame a
-- signal cannot reach a handler.
unfoldable pub finish_syscall : Sys → ℕ → ℕ → SyscallFrame → ℕ → ℕ × Sys × SyscallFrame
finish_syscall s num frame_ptr frame value =
    let frame1 = if frame_ptr == 0 then frame else record frame { rax = value } in
    if num == nr_rt_sigreturn
    then (value, s, frame1)
    else (let r = deliver_pending_signal s frame_ptr frame1 in
        (if frame_ptr == 0 then value else r.2.rax, r.1, r.2))
