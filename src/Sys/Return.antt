-- ===== src/Sys/Return.antt =====
-- A handler that returns gives the interrupted program its registers and its mask back.
use core_os.Base.{
  ℕ, ◌+◌, ◌*◌, ◌<◌, ◌≡◌, ◌≢◌, refl, sym, ap, ◌∙◌, Bool, true, false, Option, none, some, arith,
  ◌==◌,
}
use core_os.Proc.State.{Thread, SigAction}
use core_os.Proc.Process.{Process, current_process, current_thread}
use core_os.Mm.{SysResult, ok}
use core_os.Usercopy.{UserMem, copy_words_from_user, copy_from_user}
use core_os.Usercopy.Copy.{AllWords, load_bytes_same}
use core_os.Sys.{Sys, SyscallFrame, words_of_frame, put_thread}
use core_os.Sys.Signals.{deliver_pending_signal, rt_sigreturn, handler_frame}
use core_os.Sys.Handler.{Handled}
use core_os.Sys.Deliver.{
  DeliverOutcome, busy, idle, ignored, terminated, delivered, refused,
  deliver_pending_signal-DeliverOutcome,
}

abbrev in_handler : Option Thread → Bool
in_handler none = false
in_handler (some t) = t.in_signal_handler

-- The thread as it was, but for the signal handling that a return from a handler ends.
abbrev pub resumed : Thread → Thread → Thread
resumed t old = record t { sig_mask = old.sig_mask; in_signal_handler = false; on_altstack = false }

copy_words_from_user_same :
    (n : ℕ) (m k : UserMem) (p : ℕ)
    → ((i : ℕ) → i < n * 8 → k (p + i) ≡ m (p + i))
    → copy_words_from_user n k p ≡ copy_words_from_user n m p
unfolding copy_words_from_user copy_from_user
copy_words_from_user_same n m k p h =
    rw (copy_words_from_user, copy_from_user, load_bytes_same (n * 8) m k p h) refl

return_from_handler :
    (s s1 s2 : Sys) (p : Process) (c : ℕ × Bool) (frame_ptr : ℕ) (action : SigAction)
    (frame f1 f2 : SyscallFrame) (t t1 t2 : Thread)
    → Handled s p t c action frame s1 f1
    → current_thread s1.kernel ≡ some t1
    → AllWords (words_of_frame frame)
    → current_thread s2.kernel ≡ some t2
    → t2.saved_sig_mask ≡ t1.saved_sig_mask
    → f2.r10 ≡ f1.r10 + 8
    → ((i : ℕ) → i < 120 → s2.mem (f2.r10 + i) ≡ s1.mem (f2.r10 + i))
    → frame_ptr ≢ 0
    → rt_sigreturn s2 frame_ptr f2
      ≡ (ok frame.rax, record s2 { kernel = put_thread s2.kernel (resumed t2 t) }, frame)
unfolding rt_sigreturn handler_frame
return_from_handler s s1 s2 p c frame_ptr action frame f1 f2 t t1 t2 d here1 fits here2 kept stack
      intact some_frame =
    let at : f2.r10 ≡ d.ptr + 8 = stack ∙ ap (λ (f : SyscallFrame). f.r10 + 8) d.registers in
    let saved : copy_words_from_user 15 s2.mem f2.r10 ≡ some (words_of_frame frame) =
      copy_words_from_user_same 15 s1.mem s2.mem f2.r10 intact
      ∙ ap (copy_words_from_user 15 s1.mem) at
      ∙ d.saved fits in
    let same : some t1 ≡ some d.now = sym here1 ∙ d.here in
    let same_thread : t1 ≡ d.now = cc same in
    let mask : t2.saved_sig_mask ≡ t.sig_mask =
      kept ∙ ap (λ (u : Thread). u.saved_sig_mask) same_thread ∙ d.saved_mask in
    let some_ptr : (frame_ptr == 0) ≡ false = ground (arith, some_frame) in
    rw (rt_sigreturn, some_ptr, saved, here2)
      (ap
        (λ m. (
          ok frame.rax,
          record s2 {
            kernel =
                put_thread s2.kernel
                  (record t2 { sig_mask = m; in_signal_handler = false; on_altstack = false });
          },
          frame,
        ))
        mask)

-- When deliver_pending_signal succeeds for a thread that handles no signal and leaves it in a
-- handler, a later rt_sigreturn gives back every register of the interrupted program and its
-- signal mask, and the thread handles no signal any more. The conditions are that the registers
-- fit 64 bits, that r10 is the address above the restorer, that the 120 bytes from there and the
-- saved mask are as the delivery left them, and that there is a frame.
pub rt_sigreturn-deliver_pending_signal :
    (s s1 s2 : Sys) (frame_ptr frame_ptr2 : ℕ) (frame f1 f2 : SyscallFrame) (p : Process)
    (t t1 t2 : Thread)
    → current_process s.kernel ≡ some p
    → current_thread s.kernel ≡ some t
    → t.in_signal_handler ≡ false
    → deliver_pending_signal s frame_ptr frame ≡ (ok 0, s1, f1)
    → current_thread s1.kernel ≡ some t1
    → t1.in_signal_handler ≡ true
    → AllWords (words_of_frame frame)
    → current_thread s2.kernel ≡ some t2
    → t2.saved_sig_mask ≡ t1.saved_sig_mask
    → f2.r10 ≡ f1.r10 + 8
    → ((i : ℕ) → i < 120 → s2.mem (f2.r10 + i) ≡ s1.mem (f2.r10 + i))
    → frame_ptr2 ≢ 0
    → rt_sigreturn s2 frame_ptr2 f2
      ≡ (ok frame.rax, record s2 { kernel = put_thread s2.kernel (resumed t2 t) }, frame)
rt_sigreturn-deliver_pending_signal s s1 s2 frame_ptr frame_ptr2 frame f1 f2 p t t1 t2 h here calm
      run here1 running fits here2 kept stack intact some_frame =
    go (deliver_pending_signal-DeliverOutcome s frame_ptr frame p t h here) run
  where
    not_running : Thread → Type 0
    not_running u = u.in_signal_handler ≡ false

    clash : {A : Type 0} → in_handler (current_thread s1.kernel) ≡ false → A
    clash e = absurd (cc (ap in_handler here1 ∙ running, e))

    go :
        {r : SysResult × Sys × SyscallFrame}
        → DeliverOutcome s frame_ptr frame p t r
        → r ≡ (ok 0, s1, f1)
        → rt_sigreturn s2 frame_ptr2 f2
          ≡ (ok frame.rax, record s2 { kernel = put_thread s2.kernel (resumed t2 t) }, frame)
    go (busy b) e = absurd (cc (b, calm))
    go (idle _ _) e =
        clash (ap (λ x. in_handler (current_thread x.1.kernel)) (sym e) ∙ ap in_handler here ∙ calm)
    go (ignored _ _ _ _ _ _ _ d) e = clash (
        ap (λ x. in_handler (current_thread x.1.kernel)) (sym e)
        ∙ ap in_handler d.here
        ∙ d.handling
        ∙ calm)
    go (terminated _ _ _ _ _ _ d) e = clash (
        ap (λ x. in_handler (current_thread x.1.kernel)) (sym e)
        ∙ ap in_handler d.here
        ∙ d.handling
        ∙ calm)
    go (delivered c s3 f3 _ _ _ _ d) e =
        return_from_handler s s3 s2 p c frame_ptr2 _ frame f3 f2 t t1 t2 d
          (ap (λ x. current_thread x.1.kernel) e ∙ here1) fits here2 kept
          (stack ∙ ap (λ x. x.2.r10 + 8) (sym e))
          (λ i l. intact i l ∙ ap (λ x. x.1.mem (f2.r10 + i)) (sym e)) some_frame
    go (refused c er _ s3 _ _ _ _ _) e = absurd (cc (ap (λ x. x.0) e))
