-- ===== src/Sys/Stack.antt =====
-- The stack of a handler, and why a handler does not start: `deliver_pending_signal` of
-- kernel/src/syscall/process.rs.
use core_os.Base.{
  ℕ, ◌+◌, ◌^◌, ◌≤◌, ◌<◌, ◌≡◌, ◌≢◌, sym, Bool, true, false, not, ◌&&◌, Option, none, some, arith,
  ltb, if◌then◌else◌, ◌==◌, ==_iff, bit_and, Bool-cases, inl, inr,
}
use mathlib.Core.Path.{subst}
use core_os.Proc.State.{Thread, SigAction, StackT}
use core_os.Mm.{SysError, fault, range, invalid}
use core_os.Mm.Calls.{has}
use core_os.Usercopy.{user_range_ok}
use core_os.Sys.{SyscallFrame}
use core_os.Sys.Signals.{sa_onstack, ss_disable, signal_frame_size, handler_stack}

-- Where the stack of a handler begins: on the alternate stack, when the action asks for it and it
-- is not disabled, or else at the stack pointer of the program.
pub data StackTop (t : Thread) (action : SigAction) (frame : SyscallFrame) : Bool → ℕ → Type 0 where
  alternate :
      bit_and action.flags sa_onstack ≢ 0
      → bit_and t.sig_altstack.ss_flags ss_disable ≡ 0
      → t.sig_altstack.ss_sp + t.sig_altstack.ss_size < 2 ^ 64
      → StackTop t action frame true (t.sig_altstack.ss_sp + t.sig_altstack.ss_size)
  unasked : bit_and action.flags sa_onstack ≡ 0 → StackTop t action frame false frame.r10
  disabled :
      bit_and t.sig_altstack.ss_flags ss_disable ≢ 0 → StackTop t action frame false frame.r10

-- Why a handler does not start, and the error that the call gives.
pub data Refusal (t : Thread) (action : SigAction) (frame_ptr : ℕ) (frame : SyscallFrame)
    : SysError → Type 0 where
  no_restorer : action.restorer ≡ 0 → Refusal t action frame_ptr frame invalid
  no_frame : frame_ptr ≡ 0 → Refusal t action frame_ptr frame invalid
  wraps :
      bit_and action.flags sa_onstack ≢ 0
      → bit_and t.sig_altstack.ss_flags ss_disable ≡ 0
      → 2 ^ 64 ≤ t.sig_altstack.ss_sp + t.sig_altstack.ss_size
      → Refusal t action frame_ptr frame range
  too_low :
      (alt : Bool) (top : ℕ)
      → StackTop t action frame alt top
      → top < signal_frame_size
      → Refusal t action frame_ptr frame fault
  outside :
      (alt : Bool) (top ptr : ℕ)
      → StackTop t action frame alt top
      → ptr + signal_frame_size ≡ top
      → user_range_ok ptr signal_frame_size ≡ false
      → Refusal t action frame_ptr frame fault

-- What `handler_stack` chooses.
pub data ChosenStack (t : Thread) (action : SigAction) (frame_ptr : ℕ) (frame : SyscallFrame)
    : Bool × Option ℕ → Type 0 where
  somewhere :
      (alt : Bool) (top : ℕ)
      → StackTop t action frame alt top
      → ChosenStack t action frame_ptr frame (alt, some top)
  nowhere :
      Refusal t action frame_ptr frame range → ChosenStack t action frame_ptr frame (true, none)

-- The choice of the stack.
pub handler_stack-ChosenStack :
    (t u : Thread) (action : SigAction) (frame_ptr : ℕ) (frame : SyscallFrame)
    → u.sig_altstack ≡ t.sig_altstack
    → ChosenStack t action frame_ptr frame (handler_stack u action frame)
unfolding handler_stack
handler_stack-ChosenStack t u action frame_ptr frame same =
    subst
      (λ (b : StackT). ChosenStack t action frame_ptr frame (
        if has action.flags sa_onstack && not (has b.ss_flags ss_disable)
        then (true, (let top = b.ss_sp + b.ss_size in if ltb top (2 ^ 64) then some top else none))
        else (false, some frame.r10)))
      (sym same)
      (elim (Bool-cases (bit_and action.flags sa_onstack == 0)) [
        | inl no_flag ↦ rw no_flag (somewhere false frame.r10 (unasked ((==_iff _ _).0 no_flag)))
        | inr flag ↦ elim (Bool-cases (bit_and t.sig_altstack.ss_flags ss_disable == 0)) [
          | inr off ↦ rw (flag, off) (somewhere false frame.r10 (disabled (nonzero off)))
          | inl on ↦
              elim (Bool-cases (ltb (t.sig_altstack.ss_sp + t.sig_altstack.ss_size) (2 ^ 64))) [
                | inl fits ↦
                    rw (flag, on, fits)
                      (somewhere true _
                        (alternate (nonzero flag) ((==_iff _ _).0 on) (ground (arith, fits))))
                | inr past ↦
                    rw (flag, on, past)
                      (nowhere (wraps (nonzero flag) ((==_iff _ _).0 on) (ground (arith, past))))
              ]
        ]
      ])
  where
    nonzero : {n : ℕ} → (n == 0) ≡ false → n ≢ 0
    nonzero e h = cc (e, (==_iff _ _).1 h)
