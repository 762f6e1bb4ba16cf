-- ===== src/Sys/Reaping.antt =====
-- The exit code that a process leaves with is the one that its parent gets.
use core_os.Base.{
  ℕ, zero, suc, ◌+◌, ◌<◌, ◌≡◌, ◌≢◌, refl, sym, ap, ◌∙◌, Bool, true, false, List, [], ◌∷◌, Option,
  none, some, arith, get_or, set, if◌then◌else◌, ◌==◌, Bool-cases, Option-cases, inl, inr,
  get_or-set, ℕ_discrete, length,
}
use core_os.Proc.State.{Thread, RunState, running, zombie}
use core_os.Proc.Process.{Kernel, Process, current_thread}
use core_os.Proc.Placed.{stored-in_range}
use core_os.Proc.Life.{find_slot_by_pid, current_pid, exit_thread, end_whole_group}
use core_os.Proc.Fd.{reap_slot, reap_process, release_fds}
use core_os.Proc.Owners.{release_fds-SameOwners}
use core_os.Mm.{ok}
use core_os.Sys.{Sys, sigchld, sigset_add, queue_signal, notify_parent_exit}
use core_os.Sys.Kill.{Result, with_kernel}
use core_os.Sys.Ids.{getppid}
use core_os.Sys.Files.{is_running, reap_answer, reap, wait_child, waitpid}
use core_os.Sys.Leave.{exit_group}
use core_os.Sys.Robust.{clear_child_tid_and_wake-kernel}

-- A write to a process that keeps its id keeps every search for an id.
find_slot_by_pid-set :
    (pid : ℕ) (ps : List (Option Process)) (i base : ℕ) (p q : Process)
    → get_or ps i none ≡ some p
    → q.pid ≡ p.pid
    → find_slot_by_pid pid (set ps i (some q)) base ≡ find_slot_by_pid pid ps base
unfolding find_slot_by_pid
find_slot_by_pid-set pid [] i base p q h e = refl
find_slot_by_pid-set pid (none ∷ ps) zero base p q h e = absurd (cc h)
find_slot_by_pid-set pid (some r ∷ ps) zero base p q h e =
    let same : r ≡ p = cc h in
    let id : q.pid ≡ r.pid = e ∙ sym (ap (λ (x : Process). x.pid) same) in
    ap (λ n. let b : Bool = n == pid in if b then some base else find_slot_by_pid pid ps (base + 1))
      id
find_slot_by_pid-set pid (none ∷ ps) (suc i) base p q h e =
    find_slot_by_pid-set pid ps i (base + 1) p q h e
find_slot_by_pid-set pid (some r ∷ ps) (suc i) base p q h e =
    ap (λ (o : Option ℕ). let b : Bool = r.pid == pid in if b then some base else o)
      (find_slot_by_pid-set pid ps i (base + 1) p q h e)

-- What of a process the parent asks for.
record SameLife (p q : Process) : Type 0 where
  pid : q.pid ≡ p.pid
  parent : q.parent_pid ≡ p.parent_pid
  state : q.state ≡ p.state
  code : q.exit_code ≡ p.exit_code

record Kept (k l : Kernel) : Type 0 where
  found : (pid : ℕ) → find_slot_by_pid pid l.processes 0 ≡ find_slot_by_pid pid k.processes 0
  life :
      (i : ℕ) (p : Process)
      → get_or k.processes i none ≡ some p
      → (q : Process) × (get_or l.processes i none ≡ some q) × SameLife p q

Kept-refl : (k : Kernel) → Kept k k
Kept-refl k = record {
  found = λ pid. refl;
  life = λ i p h. (p, h, record { pid = refl; parent = refl; state = refl; code = refl });
}

queue_signal-Kept : (k : Kernel) (slot sig : ℕ) → Kept k (queue_signal k slot sig).1
unfolding queue_signal
queue_signal-Kept k slot sig = elim (Option-cases (get_or k.processes slot none)) [
  | inl e ↦ rw (queue_signal, e) (Kept-refl k)
  | inr (r, e) ↦
      (let r1 = record r { sig_pending = sigset_add r.sig_pending sig } in
        let range = stored-in_range k.processes slot r e in
        rw (queue_signal, e)
          (record {
            found = λ pid. find_slot_by_pid-set pid k.processes slot 0 r r1 e refl;
            life = λ i p h. elim (ℕ_discrete slot i) [
              | no ne ↦ (
                p,
                get_or-set k.processes slot i (some r1) none ∙ ground (arith, ne, h),
                record { pid = refl; parent = refl; state = refl; code = refl },
              )
              | yes at ↦
                  (let same : r ≡ p = cc (h, e, ap (λ j. get_or k.processes j none) at) in
                    (
                      r1,
                      get_or-set k.processes slot i (some r1) none ∙ ground (arith, at, range),
                      record {
                        pid = ap (λ (x : Process). x.pid) same;
                        parent = ap (λ (x : Process). x.parent_pid) same;
                        state = ap (λ (x : Process). x.state) same;
                        code = ap (λ (x : Process). x.exit_code) same;
                      },
                    ))
            ];
          }))
]

notify_parent_exit-Kept : (k : Kernel) (parent : ℕ) → Kept k (notify_parent_exit k parent)
unfolding notify_parent_exit
notify_parent_exit-Kept k parent = elim (Bool-cases (parent == 0)) [
  | inl e ↦ rw (notify_parent_exit, e) (Kept-refl k)
  | inr e ↦ elim (Option-cases (find_slot_by_pid parent k.processes 0)) [
    | inl f ↦ rw (notify_parent_exit, e, f) (Kept-refl k)
    | inr (slot, f) ↦ rw (notify_parent_exit, e, f) (queue_signal-Kept k slot sigchld)
  ]
]

-- The processes after the whole group has ended.
exit_thread-processes :
    (k : Kernel) (t : Thread) (p : Process) (code : ℕ)
    → current_thread k ≡ some t
    → get_or k.processes t.group_slot none ≡ some p
    → (exit_thread k code true).1.processes
      ≡ set k.processes t.group_slot
          (some (record p { state = zombie; exit_code = code; thread_count = 0 }))
unfolding exit_thread end_whole_group
exit_thread-processes k t p code h stored = rw (h, exit_thread, stored) refl

-- A zombie is reaped with its code, and its slot is free.
abbrev Reaped : ℕ → ℕ → Result → Type 0
Reaped slot code r = (r.0 ≡ ok code) × (get_or r.1.kernel.processes slot none ≡ none)

reap-Reaped :
    (s : Sys) (slot : ℕ) (p : Process)
    → get_or s.kernel.processes slot none ≡ some p
    → p.state ≡ zombie
    → Reaped slot p.exit_code (reap s slot)
unfolding reap reap_answer reap_slot reap_process
reap-Reaped s slot p h dead = rw (reap, reap_slot, h) (go p.state dead)
  where
    range : slot < length (release_fds s.kernel p.fds).processes
    range =
        stored-in_range (release_fds s.kernel p.fds).processes slot p
          (ap (λ ps. get_or ps slot none) (release_fds-SameOwners p.fds s.kernel).processes ∙ h)

    go :
        (r : RunState)
        → r ≡ zombie
        → Reaped slot p.exit_code (reap_answer s (reap_process s.kernel slot p r))
    go running e = absurd (cc e)
    go zombie e = (
      refl,
      get_or-set (release_fds s.kernel p.fds).processes slot slot none none ∙ ground (arith, range),
    )

exit_group-processes :
    (s : Sys) (code : ℕ)
    → (exit_group s code).kernel.processes
      ≡ (notify_parent_exit (exit_thread s.kernel code true).1 (getppid s)).processes
unfolding exit_group
exit_group-processes s code = rw (exit_group, clear_child_tid_and_wake-kernel s) refl

is_running-zombie : (p : Process) → p.state ≡ zombie → is_running (some p) ≡ false
unfolding is_running
is_running-zombie p dead = go p.state dead
  where
    go : (r : RunState) → r ≡ zombie → is_running (some (record p { state = r })) ≡ false
    go running e = absurd (cc e)
    go zombie e = refl

wait_child-Reaped :
    (turns : List (Sys → Sys)) (s : Sys) (slot : ℕ) (p : Process)
    → get_or s.kernel.processes slot none ≡ some p
    → p.state ≡ zombie
    → wait_child turns s slot ≡ some (reap s slot)
unfolding wait_child
wait_child-Reaped [] s slot p h dead = rw (wait_child, h, is_running-zombie p dead) refl
wait_child-Reaped (turn ∷ turns) s slot p h dead = rw (wait_child, h, is_running-zombie p dead) refl

-- When the current thread of a process leaves with exit_group, a waitpid of its parent, which runs
-- in another slot, ends in its first turn, gives the exit code and frees the slot. The process has
-- an id other than 0 and is the one that the search for its id finds.
pub waitpid-exit_group :
    (s : Sys) (turns : List (Sys → Sys)) (t : Thread) (p : Process) (code parent_slot : ℕ)
    → current_thread s.kernel ≡ some t
    → get_or s.kernel.processes t.group_slot none ≡ some p
    → p.pid ≢ 0
    → find_slot_by_pid p.pid s.kernel.processes 0 ≡ some t.group_slot
    → parent_slot ≢ t.group_slot
    → current_pid (record (exit_group s code).kernel { current = parent_slot }) ≡ p.parent_pid
    → (r : Result) × (waitpid turns
          (with_kernel
            (exit_group s code)
            (record (exit_group s code).kernel { current = parent_slot }))
          p.pid
        ≡ some r)
      × (r.0 ≡ ok code)
      × (get_or r.1.kernel.processes t.group_slot none ≡ none)
unfolding waitpid
waitpid-exit_group s turns t p code parent_slot h stored some_pid found apart is_parent =
    let k1 = (exit_thread s.kernel code true).1 in
    let z = record p { state = zombie; exit_code = code; thread_count = 0 } in
    let written = exit_thread-processes s.kernel t p code h stored in
    let range = stored-in_range s.kernel.processes t.group_slot p stored in
    let at1 : get_or k1.processes t.group_slot none ≡ some z =
      ap (λ ps. get_or ps t.group_slot none) written
      ∙ get_or-set s.kernel.processes t.group_slot t.group_slot (some z) none
      ∙ ground (arith, range) in
    let kept = notify_parent_exit-Kept k1 (getppid s) in
    let found1 : find_slot_by_pid p.pid (exit_group s code).kernel.processes 0 ≡ some t.group_slot =
      ap (λ ps. find_slot_by_pid p.pid ps 0) (exit_group-processes s code)
      ∙ kept.found p.pid
      ∙ ap (λ ps. find_slot_by_pid p.pid ps 0) written
      ∙ find_slot_by_pid-set p.pid s.kernel.processes t.group_slot 0 p z stored refl
      ∙ found in
    let (q, at2, same) = kept.life t.group_slot z at1 in
    let now : get_or (exit_group s code).kernel.processes t.group_slot none ≡ some q =
      ap (λ ps. get_or ps t.group_slot none) (exit_group-processes s code) ∙ at2 in
    let s2 : Sys =
      with_kernel (exit_group s code)
        (record (exit_group s code).kernel { current = parent_slot }) in
    let reaped = reap-Reaped s2 t.group_slot q now same.state in
    let some_id : (p.pid == 0) ≡ false = ground (arith, some_pid) in
    let other : (t.group_slot == parent_slot) ≡ false = ground (arith, apart) in
    let mine : (q.parent_pid == current_pid s2.kernel) ≡ true =
      ground (arith, same.parent, is_parent) in
    (
      reap s2 t.group_slot,
      rw (waitpid, some_id, found1, other, now, mine)
          (wait_child-Reaped turns s2 t.group_slot q now same.state),
      reaped.0 ∙ ap ok same.code,
      reaped.1,
    )
