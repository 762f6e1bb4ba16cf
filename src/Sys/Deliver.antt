-- ===== src/Sys/Deliver.antt =====
-- Every way in which a pending signal is delivered, and the return from a handler.
use core_os.Base.{
  ℕ, ◌≤◌, ◌<◌, ◌≡◌, ◌≢◌, refl, Bool, true, false, Option, none, some, get_or, if◌then◌else◌, ◌==◌,
  Bool-cases, inl, inr, ==_iff,
}
use core_os.Proc.State.{Thread, SigAction, empty_action}
use core_os.Proc.Process.{Process, current_process, current_thread}
use core_os.Mm.{SysResult, SysError, ok, err, invalid}
use core_os.Sys.{Sys, SyscallFrame, sigchld}
use core_os.Sys.Signals.{
  signal_default_ignored, handler_stack, take_signal, act_on_signal, deliver_pending_signal,
}
use core_os.Sys.Choice.{deliverable, Chosen, Choice, chosen, nothing, pick_signal-Choice}
use core_os.Sys.Pending.{Taken, take_signal-Taken}
use core_os.Sys.Ending.{Terminated, terminate_process_group-Terminated}
use core_os.Sys.Handler.{Handled, HandlerOutcome, handled, failed, run_handler-HandlerOutcome}
use core_os.Sys.Stack.{Refusal, no_restorer, no_frame, handler_stack-ChosenStack}

-- The signal that is delivered: the lowest of 1 to 64.
abbrev pub Next : Process → Thread → ℕ × Bool → Type 0
Next p t c = Chosen t.sig_pending p.sig_pending t.sig_mask 1 64 c

abbrev pub action_of : Process → ℕ → SigAction
action_of p sig = get_or p.sig_handlers sig empty_action

pub data DeliverOutcome (s : Sys) (frame_ptr : ℕ) (frame : SyscallFrame) (p : Process) (t : Thread)
    : SysResult × Sys × SyscallFrame → Type 0 where
  busy : t.in_signal_handler ≡ true → DeliverOutcome s frame_ptr frame p t (ok 0, s, frame)
  idle :
      t.in_signal_handler ≡ false
      → ((sig : ℕ)
          → 1 ≤ sig
          → sig < 65
          → deliverable t.sig_pending p.sig_pending t.sig_mask sig ≡ false)
      → DeliverOutcome s frame_ptr frame p t (ok 0, s, frame)
  ignored :
      (c : ℕ × Bool) (u : Thread) (s1 : Sys)
      → t.in_signal_handler ≡ false
      → Next p t c
      → (action_of p c.0).handler ≡ 0
      → c.0 ≡ sigchld
      → Taken s p t c u s1
      → DeliverOutcome s frame_ptr frame p t (ok 0, s1, frame)
  terminated :
      (c : ℕ × Bool) (s1 : Sys)
      → t.in_signal_handler ≡ false
      → Next p t c
      → (action_of p c.0).handler ≡ 0
      → c.0 ≢ sigchld
      → Terminated s p t c s1
      → DeliverOutcome s frame_ptr frame p t (ok 0, s1, frame)
  delivered :
      (c : ℕ × Bool) (s1 : Sys) (f1 : SyscallFrame)
      → t.in_signal_handler ≡ false
      → Next p t c
      → (action_of p c.0).handler ≢ 0
      → (action_of p c.0).restorer ≢ 0
      → Handled s p t c (action_of p c.0) frame s1 f1
      → DeliverOutcome s frame_ptr frame p t (ok 0, s1, f1)
  refused :
      (c : ℕ × Bool) (e : SysError) (u : Thread) (s1 : Sys)
      → t.in_signal_handler ≡ false
      → Next p t c
      → (action_of p c.0).handler ≢ 0
      → Refusal t (action_of p c.0) frame_ptr frame e
      → Taken s p t c u s1
      → DeliverOutcome s frame_ptr frame p t (err e, s1, frame)

-- What is done with a signal that has been taken.
act_on_signal-outcome :
    (s s1 : Sys) (frame_ptr : ℕ) (frame : SyscallFrame) (p : Process) (t u : Thread) (c : ℕ × Bool)
    → t.in_signal_handler ≡ false
    → Next p t c
    → Taken s p t c u s1
    → DeliverOutcome s frame_ptr frame p t
        (act_on_signal s1 frame_ptr frame u c.0 (action_of p c.0))
unfolding act_on_signal signal_default_ignored
act_on_signal-outcome s s1 frame_ptr frame p t u c calm next d =
    let action = action_of p c.0 in
    elim (Bool-cases (action.handler == 0)) [
      | inl default ↦
          (let zero_handler : action.handler ≡ 0 = (==_iff _ _).0 default in
            elim (Bool-cases (c.0 == sigchld)) [
              | inl child ↦
                  rw (act_on_signal, default, signal_default_ignored, child)
                    (ignored c u s1 calm next zero_handler ((==_iff _ _).0 child) d)
              | inr other ↦
                  rw (act_on_signal, default, signal_default_ignored, other, d.group)
                    (terminated c _ calm next zero_handler (nonequal other)
                      (terminate_process_group-Terminated s s1 p t u c d))
            ])
      | inr own ↦ elim (Bool-cases (action.restorer == 0)) [
        | inl none_given ↦
            rw (act_on_signal, own, none_given)
              (refused c invalid u s1 calm next (nonequal own)
                (no_restorer ((==_iff _ _).0 none_given)) d)
        | inr restorer ↦ elim (Bool-cases (frame_ptr == 0)) [
          | inl missing ↦
              rw (act_on_signal, own, restorer, missing)
                (refused c invalid u s1 calm next (nonequal own) (no_frame ((==_iff _ _).0 missing))
                  d)
          | inr some_frame ↦
              rw (act_on_signal, own, restorer, some_frame)
                (finish (nonequal own) (nonequal restorer) (
                  run_handler-HandlerOutcome s s1 p t u c action frame_ptr frame
                    (handler_stack u action frame)
                    (handler_stack-ChosenStack t u action frame_ptr frame d.altstack) d))
        ]
      ]
    ]
  where
    nonequal : {m n : ℕ} → (m == n) ≡ false → m ≢ n
    nonequal e h = cc (e, (==_iff _ _).1 h)

    finish :
        {r : SysResult × Sys × SyscallFrame}
        → (action_of p c.0).handler ≢ 0
        → (action_of p c.0).restorer ≢ 0
        → HandlerOutcome s p t c (action_of p c.0) frame_ptr frame r
        → DeliverOutcome s frame_ptr frame p t r
    finish h q (handled s2 f2 x) = delivered c s2 f2 calm next h q x
    finish h q (failed e u2 s2 why x) = refused c e u2 s2 calm next h why x

pub deliver_pending_signal-DeliverOutcome :
    (s : Sys) (frame_ptr : ℕ) (frame : SyscallFrame) (p : Process) (t : Thread)
    → current_process s.kernel ≡ some p
    → current_thread s.kernel ≡ some t
    → DeliverOutcome s frame_ptr frame p t (deliver_pending_signal s frame_ptr frame)
unfolding deliver_pending_signal
deliver_pending_signal-DeliverOutcome s frame_ptr frame p t h here =
    rw (deliver_pending_signal, h, here)
      (go t.in_signal_handler refl (pick_signal-Choice 64 1 t.sig_pending p.sig_pending t.sig_mask))
  where
    act : ℕ × Bool → SysResult × Sys × SyscallFrame
    act c =
        act_on_signal (record s { kernel = (take_signal s.kernel p t c.0 c.1).1 }) frame_ptr frame
          (take_signal s.kernel p t c.0 c.1).0 c.0 (action_of p c.0)

    go :
        (b : Bool) {r : Option (ℕ × Bool)}
        → t.in_signal_handler ≡ b
        → Choice t.sig_pending p.sig_pending t.sig_mask 1 64 r
        → DeliverOutcome s frame_ptr frame p t (
            if b
            then (ok 0, s, frame)
            else elim r [ none ↦ (ok 0, s, frame) | some (sig, directed) ↦ act (sig, directed) ])
    go true running c = busy running
    go false calm (nothing d) = idle calm d
    go false calm (chosen (sig, directed) d) =
        act_on_signal-outcome s _ frame_ptr frame p t _ (sig, directed) calm d
          (take_signal-Taken s p t sig directed d.lower h here)
