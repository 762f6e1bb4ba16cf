-- ===== src/Proc/Family.antt =====
-- Forking and reaping keep the counters exact.
use core_os.Base.{
  ℕ, ◌+◌, ◌≤◌, ◌<◌, ◌≡◌, refl, sym, ap, ◌∙◌, none, some, arith, get_or, set, length, inl, inr,
  Option-cases,
}
use core_os.Base.Totals.{total, total-set, get_or-total}
use core_os.Proc.State.{RunState, running, zombie, new_group_member}
use core_os.Proc.Process.{Process, Kernel, current_process, fork_from}
use core_os.Proc.Fd.{retain_fds, release_fds, fork_current, reap_slot, reap_process}
use core_os.Proc.Tally.{Counter, points, tally}
use core_os.Proc.Holders.{process_points, tally-release_fds, tally-retain_fds}
use core_os.Proc.Owners.{release_fds-SameOwners, retain_fds-SameOwners}
use core_os.Proc.Placed.{
  WellFormed, current_process-Current, stored-in_range, set-AllSized, some_inj,
}

reap-WellFormed :
    (k l : Kernel) (slot : ℕ) (p : Process)
    → WellFormed k
    → get_or k.processes slot none ≡ some p
    → l.open_files ≡ (release_fds k p.fds).open_files
    → l.pipes ≡ (release_fds k p.fds).pipes
    → l.processes ≡ set (release_fds k p.fds).processes slot none
    → WellFormed l
unfolding process_points tally
reap-WellFormed k l slot p w h files pipes processes =
    let same = release_fds-SameOwners p.fds k in
    let now : l.processes ≡ set k.processes slot none =
      processes ∙ ap (λ ps. set ps slot none) same.processes in
    record {
      files_size = ap length files ∙ same.files_size ∙ w.files_size;
      pipes_size = ap length pipes ∙ same.pipes_size ∙ w.pipes_size;
      fds_size = λ s r e.
          set-AllSized k.processes slot none w.fds_size (λ r n. absurd (ground (arith, n))) s r
            (ap (λ ps. get_or ps s none) (sym now) ∙ e);
      exact = λ c i.
          (let exchange =
              total-set (process_points c i) k.processes slot none none
                (stored-in_range k.processes slot p h) in
            let unchanged : tally c i l ≡ tally c i (release_fds k p.fds) =
              rw (files, pipes) refl in
            omega (
              arith,
              unchanged,
              tally-release_fds p.fds k c i,
              exchange,
              ap (process_points c i) h,
              ap (total (process_points c i)) now,
              w.exact c i,
            ));
    }

reap_process-WellFormed :
    (k : Kernel) (slot : ℕ) (p : Process) (s : RunState)
    → WellFormed k
    → get_or k.processes slot none ≡ some p
    → WellFormed (reap_process k slot p s).1
unfolding reap_process
reap_process-WellFormed k slot p running w h = w
reap_process-WellFormed k slot p zombie w h = reap-WellFormed k _ slot p w h refl refl refl

pub reap_slot-WellFormed : (k : Kernel) (slot : ℕ) → WellFormed k → WellFormed (reap_slot k slot).1
unfolding reap_slot
reap_slot-WellFormed k slot w = elim (Option-cases (get_or k.processes slot none)) [
  | inl e ↦ rw (reap_slot, e) w
  | inr e ↦ rw (reap_slot, e.1) (reap_process-WellFormed k slot e.0 (e.0).state w e.1)
]

-- The state after a fork has the descriptors of the parent twice, and counts them twice.
fork-WellFormed :
    (k l : Kernel) (parent child : Process) (slot : ℕ)
    → WellFormed k
    → current_process k ≡ some parent
    → slot < length k.processes
    → get_or k.processes slot none ≡ none
    → child.fds ≡ parent.fds
    → (m : Kernel) → m.processes ≡ k.processes
    → m.open_files ≡ k.open_files
    → m.pipes ≡ k.pipes
    → l.open_files ≡ (retain_fds m parent.fds).open_files
    → l.pipes ≡ (retain_fds m parent.fds).pipes
    → l.processes ≡ set (retain_fds m parent.fds).processes slot (some child)
    → WellFormed l
unfolding process_points tally
fork-WellFormed k l parent child slot w h range free same_fds m ps fs qs files pipes processes =
    let at = current_process-Current k parent h in
    let same = retain_fds-SameOwners parent.fds m in
    let now : l.processes ≡ set k.processes slot (some child) =
      processes ∙ ap (λ r. set r slot (some child)) (same.processes ∙ ps) in
    let size = w.fds_size at.thread.group_slot parent at.stored in
    record {
      files_size = ap length files ∙ same.files_size ∙ ap length fs ∙ w.files_size;
      pipes_size = ap length pipes ∙ same.pipes_size ∙ ap length qs ∙ w.pipes_size;
      fds_size = λ s r e.
          set-AllSized k.processes slot (some child) w.fds_size
            (λ r n.
              ap (λ (r : Process). length r.fds) (sym (some_inj n)) ∙ ap length same_fds ∙ size)
            s r (ap (λ t. get_or t s none) (sym now) ∙ e);
      exact = λ c i.
          (let exchange = total-set (process_points c i) k.processes slot (some child) none range in
            let unchanged : tally c i l ≡ tally c i (retain_fds m parent.fds) =
              rw (files, pipes) refl in
            let before : (d : Counter) (j : ℕ) → tally d j m ≡ tally d j k =
              λ d j. rw (fs, qs) refl in
            let owned : (d : Counter) (j : ℕ) → total (points d j) parent.fds ≤ tally d j m = λ d j.
              omega (
                arith,
                before d j,
                get_or-total (process_points d j) k.processes at.thread.group_slot none refl,
                ap (process_points d j) at.stored,
                w.exact d j,
              ) in
            omega (
              arith,
              unchanged,
              tally-retain_fds parent.fds m owned c i,
              before c i,
              exchange,
              ap (process_points c i) free,
              ap (total (points c i)) same_fds,
              ap (total (process_points c i)) now,
              w.exact c i,
            ));
    }

pub record Forked (k : Kernel) (slot : ℕ) : Type 0 where
  pub pid : ℕ
  pub after : Kernel
  pub result : fork_current k slot ≡ some (pid, after)
  pub well_formed : WellFormed after

-- In a state with exact counters fork_current from a current process into a free slot returns a
-- child, and the counters are exact after it.
pub fork_current-WellFormed :
    (k : Kernel) (parent : Process) (slot : ℕ)
    → WellFormed k
    → current_process k ≡ some parent
    → slot < length k.processes
    → get_or k.processes slot none ≡ none
    → Forked k slot
unfolding fork_current fork_from
fork_current-WellFormed k parent slot w h range free =
    let at = current_process-Current k parent h in
    let m = retain_fds (record k { next_pid = k.next_pid + 1 }) parent.fds in
    let after = record m {
      processes = set m.processes slot (some (fork_from parent k.next_pid));
      threads = set m.threads slot (
          some (
            new_group_member k.next_pid at.thread.tid slot slot 0 at.thread.fs_base
              at.thread.sig_mask));
    } in
    record {
      pid = k.next_pid;
      after = after;
      result = rw (fork_current, h, at.here) refl;
      well_formed =
          fork-WellFormed k after parent (fork_from parent k.next_pid) slot w h range free refl
            (record k { next_pid = k.next_pid + 1 }) refl refl refl refl refl refl;
    }
