-- ===== src/Sys/Handler.antt =====
-- What a handler finds when it starts.
use core_os.Base.{
  ℕ, ◌+◌, ◌-◌, ◌*◌, ◌^◌, ◌≤◌, ◌<◌, ◌≡◌, ◌≢◌, ◌⊎◌, refl, ap, ◌∙◌, Bool, true, not, List, [], ◌∷◌,
  Option, none, some, arith, length, ltb, get_or, Bool-cases, inl, inr,
}
use core_os.Proc.State.{Thread, SigAction}
use core_os.Proc.Process.{Process, current_thread}
use core_os.Mm.{SysResult, SysError, ok, err, fault, range}
use core_os.Usercopy.{
  UserMem, user_range_ok, store_bytes, bytes_of_words, copy_words_from_user, copy_words_to_user,
  copy_to_user, copy_from_user,
}
use core_os.Usercopy.Copy.{
  AllWords, copy_words_from_user-copy_words_to_user, store_bytes-other, load_bytes_same,
  length-bytes_of_words,
}
use core_os.Sys.{Sys, SyscallFrame, words_of_frame, put_thread}
use core_os.Sys.Signals.{signal_frame_size, enter_handler, handler_frame, push_frame, run_handler}
use core_os.Sys.Stack.{StackTop, Refusal, too_low, outside, ChosenStack, somewhere, nowhere}
use core_os.Sys.Pending.{Cleared, Taken, current_thread-put_thread, put_thread-other}

-- A handler is about to run: where its stack is, the registers and the mask that it gets, what lies
-- on its stack, that all other memory is as it was, and that its signal is no longer pending.
pub record Handled (s : Sys) (p : Process) (t : Thread) (c : ℕ × Bool) (action : SigAction)
    (frame : SyscallFrame) (s1 : Sys) (f1 : SyscallFrame) : Type 0 where
  pub ptr : ℕ
  pub top : ℕ
  pub alt : Bool
  pub stack : StackTop t action frame alt top
  pub ptr_at : ptr + signal_frame_size ≡ top
  pub registers : f1 ≡ handler_frame frame c.0 action ptr
  pub restorer :
      action.restorer < 2 ^ 64 → copy_words_from_user 1 s1.mem ptr ≡ some (action.restorer ∷ [])
  pub saved :
      AllWords (words_of_frame frame)
      → copy_words_from_user 15 s1.mem (ptr + 8) ≡ some (words_of_frame frame)
  pub elsewhere : (a : ℕ) → (a < ptr) ⊎ (top ≤ a) → s1.mem a ≡ s.mem a
  pub now : Thread
  pub here : current_thread s1.kernel ≡ some now
  pub handling : now.in_signal_handler ≡ true
  pub mask : now.sig_mask ≡ (enter_handler t c.0 action).sig_mask
  pub saved_mask : now.saved_sig_mask ≡ t.sig_mask
  pub on_stack : now.on_altstack ≡ alt
  pub own : Cleared c.1 c.0 t.sig_pending now.sig_pending
  pub process : Process
  pub at : get_or s1.kernel.processes t.group_slot none ≡ some process
  pub shared : Cleared (not c.1) c.0 p.sig_pending process.sig_pending
  pub threads :
      (i : ℕ)
      → i ≢ s.kernel.current
      → get_or s1.kernel.threads i none ≡ get_or s.kernel.threads i none
  pub processes :
      (i : ℕ)
      → i ≢ t.group_slot
      → get_or s1.kernel.processes i none ≡ get_or s.kernel.processes i none

-- Copying out leaves what lies below it alone.
copy_words_from_user_below :
    (m m1 : UserMem) (n p q : ℕ) (ws : List ℕ)
    → p + n * 8 ≤ q
    → copy_words_to_user m q ws ≡ some m1
    → copy_words_from_user n m1 p ≡ copy_words_from_user n m p
unfolding copy_words_from_user copy_words_to_user copy_from_user copy_to_user
copy_words_from_user_below m m1 n p q ws l h =
    elim (Bool-cases (user_range_ok q (length (bytes_of_words ws)))) [
      | inr bad ↦ absurd (ground (arith, h, bad))
      | inl good ↦
          (let made : some (store_bytes m q (bytes_of_words ws)) ≡ some m1 =
              rw (copy_words_to_user, copy_to_user, good) at h in
            let same : store_bytes m q (bytes_of_words ws) ≡ m1 = cc made in
            let bytes =
              load_bytes_same (n * 8) m (store_bytes m q (bytes_of_words ws)) p
                (λ i k. store_bytes-other m q (bytes_of_words ws) (p + i) (inl (omega arith))) in
            rw (← same, copy_words_from_user, copy_from_user, bytes) refl)
    ]

-- A copy out that the check of the range accepts is made.
copied_out :
    (m : UserMem) (p : ℕ) (ws : List ℕ)
    → user_range_ok p (length ws * 8) ≡ true
    → copy_words_to_user m p ws ≡ some (store_bytes m p (bytes_of_words ws))
unfolding copy_words_to_user copy_to_user
copied_out m p ws ok_range =
    let good : user_range_ok p (length (bytes_of_words ws)) ≡ true =
      ap (user_range_ok p) (length-bytes_of_words ws) ∙ ok_range in
    rw (copy_words_to_user, copy_to_user, good) refl

-- The two parts of an accepted signal frame.
frame_parts :
    (ptr : ℕ)
    → user_range_ok ptr signal_frame_size ≡ true
    → (user_range_ok ptr (1 * 8) ≡ true) × (user_range_ok (ptr + 8) (15 * 8) ≡ true)
unfolding user_range_ok
frame_parts ptr good = (ground (arith, good), ground (arith, good))

-- How the delivery of a chosen signal to a handler ends.
pub data HandlerOutcome (s : Sys) (p : Process) (t : Thread) (c : ℕ × Bool) (action : SigAction)
    (frame_ptr : ℕ) (frame : SyscallFrame) : SysResult × Sys × SyscallFrame → Type 0 where
  handled :
      (s1 : Sys) (f1 : SyscallFrame)
      → Handled s p t c action frame s1 f1
      → HandlerOutcome s p t c action frame_ptr frame (ok 0, s1, f1)
  failed :
      (e : SysError) (u : Thread) (s1 : Sys)
      → Refusal t action frame_ptr frame e
      → Taken s p t c u s1
      → HandlerOutcome s p t c action frame_ptr frame (err e, s1, frame)

push_frame-HandlerOutcome :
    (s s1 : Sys) (p : Process) (t u : Thread) (c : ℕ × Bool) (action : SigAction)
    (frame_ptr ptr top : ℕ) (frame : SyscallFrame)
    → Taken s p t c u s1
    → StackTop t action frame u.on_altstack top
    → ptr + signal_frame_size ≡ top
    → HandlerOutcome s p t c action frame_ptr frame (push_frame s1 u c.0 action ptr frame)
unfolding push_frame enter_handler put_thread
push_frame-HandlerOutcome s s1 p t u c action frame_ptr ptr top frame d stack below =
    elim (Bool-cases (user_range_ok ptr signal_frame_size)) [
      | inr bad ↦
          rw (push_frame, bad) (failed fault u s1 (outside u.on_altstack top ptr stack below bad) d)
      | inl good ↦
          (let parts = frame_parts ptr good in
            let m = store_bytes s1.mem ptr (bytes_of_words (action.restorer ∷ [])) in
            let m1 = store_bytes m (ptr + 8) (bytes_of_words (words_of_frame frame)) in
            let word = length-bytes_of_words (action.restorer ∷ []) in
            let size = length-bytes_of_words (words_of_frame frame) in
            let e : copy_words_to_user s1.mem ptr (action.restorer ∷ []) ≡ some m =
              copied_out s1.mem ptr (action.restorer ∷ []) parts.0 in
            let e1 : copy_words_to_user m (ptr + 8) (words_of_frame frame) ≡ some m1 =
              copied_out m (ptr + 8) (words_of_frame frame) parts.1 in
            rw (push_frame, good, e, e1)
              (handled _ _ (record {
                ptr = ptr;
                top = top;
                alt = u.on_altstack;
                stack = stack;
                ptr_at = below;
                registers = refl;
                restorer = λ fits.
                    copy_words_from_user_below m m1 1 ptr (ptr + 8) (words_of_frame frame)
                      (omega arith) e1
                    ∙ copy_words_from_user-copy_words_to_user s1.mem m ptr (action.restorer ∷ [])
                        (fits, omega arith) e;
                saved = λ fits.
                    copy_words_from_user-copy_words_to_user m m1 (ptr + 8) (words_of_frame frame)
                      fits e1;
                elsewhere = λ a far.
                    store_bytes-other m (ptr + 8) (bytes_of_words (words_of_frame frame)) a
                      (elim far [
                        | inl l ↦ inl (omega arith)
                        | inr l ↦ inr (omega (arith, below, size))
                      ])
                    ∙ store_bytes-other s1.mem ptr (bytes_of_words (action.restorer ∷ [])) a
                        (elim far [ inl l ↦ inl l | inr l ↦ inr (omega (arith, below, word)) ])
                    ∙ ap (λ (f : UserMem). f a) d.mem;
                now = enter_handler u c.0 action;
                here = current_thread-put_thread s1.kernel u (enter_handler u c.0 action) d.here;
                handling = refl;
                mask = rw d.mask refl;
                saved_mask = d.mask;
                on_stack = refl;
                own = d.own;
                process = d.process;
                at = d.at;
                shared = d.shared;
                threads = λ i n.
                    put_thread-other s1.kernel (enter_handler u c.0 action) i
                      (λ e. n (e ∙ d.current))
                    ∙ d.threads i n;
                processes = d.processes;
              })))
    ]

pub run_handler-HandlerOutcome :
    (s s1 : Sys) (p : Process) (t u : Thread) (c : ℕ × Bool) (action : SigAction) (frame_ptr : ℕ)
    (frame : SyscallFrame) (stack : Bool × Option ℕ)
    → ChosenStack t action frame_ptr frame stack
    → Taken s p t c u s1
    → HandlerOutcome s p t c action frame_ptr frame (run_handler s1 u c.0 action frame stack)
unfolding run_handler put_thread
run_handler-HandlerOutcome s s1 p t u c action frame_ptr frame _ (nowhere why) d =
    failed range u s1 why d
run_handler-HandlerOutcome s s1 p t u c action frame_ptr frame _ (somewhere alt top stack) d =
    let u1 : Thread = record u { on_altstack = alt } in
    let s2 : Sys = record s1 { kernel = put_thread s1.kernel u1 } in
    let d1 : Taken s p t c u1 s2 = record {
      here = current_thread-put_thread s1.kernel u u1 d.here;
      mem = d.mem;
      handling = d.handling;
      mask = d.mask;
      altstack = d.altstack;
      group = d.group;
      own = d.own;
      process = d.process;
      at = d.at;
      shared = d.shared;
      current = d.current;
      threads = λ i n. put_thread-other s1.kernel u1 i (λ e. n (e ∙ d.current)) ∙ d.threads i n;
      processes = d.processes;
    } in
    elim (Bool-cases (ltb top signal_frame_size)) [
      | inl low ↦
          rw (run_handler, low)
            (failed fault u1 s2 (too_low alt top stack (ground (arith, low))) d1)
      | inr high ↦
          rw (run_handler, high)
            (push_frame-HandlerOutcome s s2 p t u1 c action frame_ptr (top - signal_frame_size) top
              frame d1 stack (ground (arith, high)))
    ]
