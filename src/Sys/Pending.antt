-- ===== src/Sys/Pending.antt =====
-- What is pending after a signal is taken for delivery: kernel/src/syscall/process.rs.
use core_os.Base.{
  ℕ, ◌≤◌, ◌≡◌, ◌≢◌, refl, sym, ap, ◌∙◌, Bool, true, false, not, ◌&&◌, none, some, arith, get_or,
  set, length, if◌then◌else◌, ◌==◌, get_or-set, get_or_past, Bool-cases, inl, inr, dec_lt, ltb,
}
use core_os.Base.Words.{nth_bit, or_bit, nth_bit-or_bit}
use core_os.Proc.State.{Thread, SigSet}
use core_os.Proc.Process.{Kernel, Process, current_process, current_thread}
use core_os.Proc.Placed.{current_process-Current, put_process-at, stored-in_range}
use core_os.Sys.{Sys, sig_word, sig_pos, sigset_contains, sigset_add, sigset_remove, put_thread}
use core_os.Sys.Masks.{sigset_contains-sigset_remove, apart}
use core_os.Sys.Signals.{take_signal}

-- Two sets that differ in one signal at most, which the second does not have.
abbrev pub Cleared : Bool → ℕ → SigSet → SigSet → Type 0
Cleared taken sig before after =
    (i : ℕ)
    → 1 ≤ i
    → sigset_contains after i ≡ (if taken && (sig == i) then false else sigset_contains before i)

-- The state after the signal `c.0` is taken from the set of the thread, if `c.1`, or else of the
-- process: the thread now, and the rest as it was.
pub record Taken (s : Sys) (p : Process) (t : Thread) (c : ℕ × Bool) (u : Thread) (s1 : Sys)
    : Type 0 where
  pub here : current_thread s1.kernel ≡ some u
  pub mem : s1.mem ≡ s.mem
  pub handling : u.in_signal_handler ≡ t.in_signal_handler
  pub mask : u.sig_mask ≡ t.sig_mask
  pub altstack : u.sig_altstack ≡ t.sig_altstack
  pub group : u.group_slot ≡ t.group_slot
  pub own : Cleared c.1 c.0 t.sig_pending u.sig_pending
  pub process : Process
  pub at : get_or s1.kernel.processes t.group_slot none ≡ some process
  pub shared : Cleared (not c.1) c.0 p.sig_pending process.sig_pending
  pub current : s1.kernel.current ≡ s.kernel.current
  pub threads :
      (i : ℕ)
      → i ≢ s.kernel.current
      → get_or s1.kernel.threads i none ≡ get_or s.kernel.threads i none
  pub processes :
      (i : ℕ)
      → i ≢ t.group_slot
      → get_or s1.kernel.processes i none ≡ get_or s.kernel.processes i none

pub current_thread-put_thread :
    (k : Kernel) (t u : Thread)
    → current_thread k ≡ some t
    → current_thread (put_thread k u) ≡ some u
unfolding current_thread put_thread
current_thread-put_thread k t u h = elim (dec_lt k.current (length k.threads)) [
  | yes l ↦ ground (arith, get_or-set k.threads k.current k.current (some u) none, l)
  | no far ↦ absurd (cc (h, get_or_past k.threads k.current none (omega arith)))
]

pub put_thread-other :
    (k : Kernel) (u : Thread) (i : ℕ)
    → i ≢ k.current
    → get_or (put_thread k u).threads i none ≡ get_or k.threads i none
unfolding put_thread
put_thread-other k u i n = ground (arith, get_or-set k.threads k.current i (some u) none, n)

stored_process :
    (k : Kernel) (p : Process) (t : Thread)
    → current_process k ≡ some p
    → current_thread k ≡ some t
    → get_or k.processes t.group_slot none ≡ some p
stored_process k p t h here =
    let at = current_process-Current k p h in
    let same : at.thread ≡ t = cc (at.here, here) in
    ap (λ (x : Thread). get_or k.processes x.group_slot none) (sym same) ∙ at.stored

-- What `take_signal` does.
pub take_signal-Taken :
    (s : Sys) (p : Process) (t : Thread) (sig : ℕ) (directed : Bool)
    → 1 ≤ sig
    → current_process s.kernel ≡ some p
    → current_thread s.kernel ≡ some t
    → Taken s p t
        (sig, directed)
        (take_signal s.kernel p t sig directed).0
        (record s { kernel = (take_signal s.kernel p t sig directed).1 })
unfolding take_signal put_thread current_thread
take_signal-Taken s p t sig true low h here =
    let u : Thread = record t { sig_pending = sigset_remove t.sig_pending sig } in
    record {
      here = current_thread-put_thread s.kernel t u here;
      mem = refl;
      handling = refl;
      mask = refl;
      altstack = refl;
      group = refl;
      own = λ i l. sigset_contains-sigset_remove t.sig_pending sig i low l;
      process = p;
      at = stored_process s.kernel p t h here;
      shared = λ i l. refl;
      current = refl;
      threads = put_thread-other s.kernel u;
      processes = λ i n. refl;
    }
take_signal-Taken s p t sig false low h here =
    let q : Process = record p { sig_pending = sigset_remove p.sig_pending sig } in
    let stored = stored_process s.kernel p t h here in
    let range = stored-in_range s.kernel.processes t.group_slot p stored in
    rw (put_process-at s.kernel t q here) (record {
      here = here;
      mem = refl;
      handling = refl;
      mask = refl;
      altstack = refl;
      group = refl;
      own = λ i l. refl;
      process = q;
      at =
          ground
            (arith, get_or-set s.kernel.processes t.group_slot t.group_slot (some q) none, range);
      shared = λ i l. sigset_contains-sigset_remove p.sig_pending sig i low l;
      current = refl;
      threads = λ i n. refl;
      processes =
          λ i n. ground (arith, get_or-set s.kernel.processes t.group_slot i (some q) none, n);
    })

add-bit :
    (bits : SigSet) (w k v j : ℕ)
    → (w == v && k == j) ≡ false
    → nth_bit (get_or (set bits w (or_bit (get_or bits w 0) k)) v 0) j ≡ nth_bit (get_or bits v 0) j
add-bit bits w k v j other =
    let word = or_bit (get_or bits w 0) k in
    elim (Bool-cases (w == v && ltb w (length bits))) [
      | inr past ↦
          (let same : get_or (set bits w word) v 0 ≡ get_or bits v 0 =
              get_or-set bits w v word 0 ∙ rw past refl in
            ap (λ x. nth_bit x j) same)
      | inl there ↦
          (let e : w ≡ v = ground (arith, there) in
            let same : get_or (set bits w word) v 0 ≡ word =
              get_or-set bits w v word 0 ∙ rw there refl in
            let apart_bits : (k == j) ≡ false = ground (arith, other, e) in
            ap (λ x. nth_bit x j) same
            ∙ nth_bit-or_bit (get_or bits w 0) k j
            ∙ rw apart_bits (ap (λ x. nth_bit (get_or bits x 0) j) e))
    ]

-- A signal that is added leaves the others as they were.
pub sigset_contains-sigset_add :
    (bits : SigSet) (sig i : ℕ)
    → 1 ≤ sig
    → 1 ≤ i
    → sig ≢ i
    → sigset_contains (sigset_add bits sig) i ≡ sigset_contains bits i
unfolding sigset_contains sigset_add
sigset_contains-sigset_add bits sig i a b n =
    ap (λ x. not (x == 0))
      (add-bit bits (sig_word sig) (sig_pos sig) (sig_word i) (sig_pos i) (apart sig i a b n))
