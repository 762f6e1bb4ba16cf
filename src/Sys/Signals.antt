-- ===== src/Sys/Signals.antt =====
-- The system calls on signals, and their delivery, in kernel/src/syscall/process.rs. A call gives
-- its result and the new state; a call that works on a frame gives the frame as well.
use core_os.Base.{
  ℕ, zero, suc, ◌+◌, ◌-◌, ◌^◌, Bool, true, false, not, ◌&&◌, [], ◌∷◌, Option, none, some, get_or,
  if◌then◌else◌, ◌==◌, ltb,
}
use core_os.Proc.State.{Thread, SigSet, SigAction, empty_action}
use core_os.Proc.Process.{Kernel, Process, current_process, current_thread, put_process}
use core_os.Mm.{SysResult, ok, err, invalid, fault, range}
use core_os.Mm.Calls.{has}
use core_os.Usercopy.{user_range_ok, copy_words_from_user, copy_words_to_user}
use core_os.Sys.{
  Sys, SyscallFrame, words_of_frame, frame_of_words, sigchld, sigset_contains, sigset_add,
  sigset_remove, sanitize_sigmask, or_sets, terminate_process_group, put_thread,
}

abbrev pub sa_restorer : ℕ
sa_restorer = 0x0400_0000

abbrev pub sa_onstack : ℕ
sa_onstack = 0x0800_0000

abbrev pub ss_disable : ℕ
ss_disable = 2

-- `size_of::<SigSet>()`
abbrev pub sigset_size : ℕ
sigset_size = 128

-- The bytes of a saved frame with the address of the restorer below it.
abbrev pub signal_frame_size : ℕ
signal_frame_size = 128

unfoldable pub signal_default_ignored : ℕ → Bool
signal_default_ignored sig = sig == sigchld

-- The lowest signal that is pending and not masked, from `sig` on, and whether it is the thread's.
unfoldable pub pick_signal : ℕ → ℕ → SigSet → SigSet → SigSet → Option (ℕ × Bool)
pick_signal zero sig own shared mask = none
pick_signal (suc n) sig own shared mask =
    let rest = pick_signal n (suc sig) own shared mask in
    if sigset_contains own sig && not (sigset_contains mask sig)
    then some (sig, true)
    else if sigset_contains shared sig && not (sigset_contains mask sig)
    then some (sig, false)
    else rest

-- Where the handler's stack begins; none where the sum is too large.
unfoldable pub handler_stack : Thread → SigAction → SyscallFrame → Bool × Option ℕ
handler_stack t action frame =
    if has action.flags sa_onstack && not (has t.sig_altstack.ss_flags ss_disable)
    then (
      true,
      (let top = t.sig_altstack.ss_sp + t.sig_altstack.ss_size in
          if ltb top (2 ^ 64) then some top else none),
    )
    else (false, some frame.r10)

-- The thread and the registers as the handler starts.
unfoldable pub enter_handler : Thread → ℕ → SigAction → Thread
enter_handler t sig action = record t {
  saved_sig_mask = t.sig_mask;
  sig_mask = sanitize_sigmask (or_sets (sigset_add t.sig_mask sig) action.mask);
  in_signal_handler = true;
}

unfoldable pub handler_frame : SyscallFrame → ℕ → SigAction → ℕ → SyscallFrame
handler_frame frame sig action ptr = record frame { rdi = sig; rcx = action.handler; r10 = ptr }

-- The last part of `deliver_pending_signal`, from the address of the signal frame on.
unfoldable pub push_frame :
    Sys → Thread → ℕ → SigAction → ℕ → SyscallFrame → SysResult × Sys × SyscallFrame
push_frame s t sig action ptr frame =
    if not (user_range_ok ptr signal_frame_size)
    then (err fault, s, frame)
    else elim (copy_words_to_user s.mem ptr (action.restorer ∷ [])) [
      | none ↦ (err fault, s, frame)
      | some m ↦ elim (copy_words_to_user m (ptr + 8) (words_of_frame frame)) [
        | none ↦ (err fault, record s { mem = m }, frame)
        | some m1 ↦ (
          ok 0,
          record s { mem = m1; kernel = put_thread s.kernel (enter_handler t sig action) },
          handler_frame frame sig action ptr,
        )
      ]
    ]

-- The delivery to a handler, with the stack chosen for it.
unfoldable pub run_handler :
    Sys → Thread → ℕ → SigAction → SyscallFrame → Bool × Option ℕ → SysResult × Sys × SyscallFrame
run_handler s t sig action frame (alt, none) = (err range, s, frame)
run_handler s t sig action frame (alt, some top) =
    let t1 = record t { on_altstack = alt } in
    let s1 = record s { kernel = put_thread s.kernel t1 } in
    if ltb top signal_frame_size
    then (err fault, s1, frame)
    else push_frame s1 t1 sig action (top - signal_frame_size) frame

-- The signal is no longer pending.
unfoldable pub take_signal : Kernel → Process → Thread → ℕ → Bool → Thread × Kernel
take_signal k p t sig thread_directed =
    if thread_directed
    then (let t1 = record t { sig_pending = sigset_remove t.sig_pending sig } in
        (t1, put_thread k t1))
    else (t, put_process k (record p { sig_pending = sigset_remove p.sig_pending sig }))

unfoldable pub act_on_signal :
    Sys → ℕ → SyscallFrame → Thread → ℕ → SigAction → SysResult × Sys × SyscallFrame
act_on_signal s frame_ptr frame t sig action =
    if action.handler == 0
    then (if signal_default_ignored sig
        then (ok 0, s, frame)
        else (ok 0, record s { kernel = terminate_process_group s.kernel t.group_slot sig }, frame))
    else if action.restorer == 0
    then (err invalid, s, frame)
    else if frame_ptr == 0
    then (err invalid, s, frame)
    else run_handler s t sig action frame (handler_stack t action frame)

unfoldable pub deliver_pending_signal : Sys → ℕ → SyscallFrame → SysResult × Sys × SyscallFrame
deliver_pending_signal s frame_ptr frame = elim (current_process s.kernel) [
  | none ↦ (err invalid, s, frame)
  | some p ↦ elim (current_thread s.kernel) [
    | none ↦ (err invalid, s, frame)
    | some t ↦
        (if t.in_signal_handler
          then (ok 0, s, frame)
          else elim (pick_signal 64 1 t.sig_pending p.sig_pending t.sig_mask) [
            | none ↦ (ok 0, s, frame)
            | some (sig, thread_directed) ↦
                (let taken = take_signal s.kernel p t sig thread_directed in
                  act_on_signal (record s { kernel = taken.1 }) frame_ptr frame taken.0 sig
                    (get_or p.sig_handlers sig empty_action))
          ])
  ]
]

-- `syscall_rt_sigreturn_impl`
unfoldable pub rt_sigreturn : Sys → ℕ → SyscallFrame → SysResult × Sys × SyscallFrame
rt_sigreturn s frame_ptr frame =
    if frame_ptr == 0
    then (err invalid, s, frame)
    else elim (copy_words_from_user 15 s.mem frame.r10) [
      | none ↦ (err fault, s, frame)
      | some ws ↦
          (let saved = frame_of_words ws in
            elim (current_thread s.kernel) [
              | none ↦ (err invalid, s, saved)
              | some t ↦ (
                ok saved.rax,
                record s {
                  kernel = put_thread s.kernel (record t {
                    sig_mask = t.saved_sig_mask;
                    in_signal_handler = false;
                    on_altstack = false;
                  });
                },
                saved,
              )
            ])
    ]
