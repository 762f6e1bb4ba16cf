-- ===== src/Proc/Placed.antt =====
-- Where the current process stands, and what replacing it changes.
use core_os.Base.{
  ℕ, zero, suc, ◌+◌, ◌<◌, ◌≡◌, refl, sym, ap, ◌∙◌, List, [], ◌∷◌, Option, none, some, arith, get_or,
  set, length, inl, inr, get_or_past, get_or-set, Option-cases, dec_lt,
}
use core_os.Base.Totals.{total, total-set}
use core_os.Proc.State.{Thread, max_fds, max_open_files, max_pipes}
use core_os.Proc.Process.{
  Process, Kernel, current_process, current_thread, process_of, put_process, put_process_of,
}
use core_os.Proc.Tally.{Counter, points, tally}
use core_os.Proc.Holders.{process_points, holders}
use core_os.Proc.Owners.{SameOwners}

-- The tables have their declared sizes, and the counters are exact.
pub record WellFormed (k : Kernel) : Type 0 where
  pub files_size : length k.open_files ≡ max_open_files
  pub pipes_size : length k.pipes ≡ max_pipes
  pub fds_size : (s : ℕ) (p : Process) → get_or k.processes s none ≡ some p → length p.fds ≡ max_fds
  pub exact : (c : Counter) (i : ℕ) → tally c i k ≡ holders c i k

pub record Current (k : Kernel) (p : Process) : Type 0 where
  pub thread : Thread
  pub here : current_thread k ≡ some thread
  pub stored : get_or k.processes thread.group_slot none ≡ some p

pub current_process-Current : (k : Kernel) (p : Process) → current_process k ≡ some p → Current k p
unfolding current_process process_of
current_process-Current k p h = elim (Option-cases (current_thread k)) [
  | inl e ↦ absurd (ground (arith, e, h, ap (λ t. process_of k t) e))
  | inr e ↦ record { thread = e.0; here = e.1; stored = sym (ap (process_of k) e.1) ∙ h }
]

pub stored-in_range :
    (ps : List (Option Process)) (s : ℕ) (p : Process) → get_or ps s none ≡ some p → s < length ps
stored-in_range ps s p h = elim (dec_lt s (length ps)) [
  | yes l ↦ l
  | no n ↦ absurd (ground (arith, get_or_past ps s none (omega arith)))
]

-- The slot of thread `t` holds the process `q`; apart from that the processes are those of `k`.
pub record Placed (k : Kernel) (t : Thread) (q : Process) (l : Kernel) : Type 0 where
  pub here : current_thread l ≡ some t
  pub processes : l.processes ≡ set k.processes t.group_slot (some q)
  pub files_size : length l.open_files ≡ length k.open_files
  pub pipes_size : length l.pipes ≡ length k.pipes

pub put_process-at :
    (l : Kernel) (t : Thread) (q : Process)
    → current_thread l ≡ some t
    → put_process l q ≡ record l { processes = set l.processes t.group_slot (some q) }
unfolding put_process put_process_of
put_process-at l t q h = ap (λ t. put_process_of l t q) h

current_thread-SameOwners : {k l : Kernel} → SameOwners k l → current_thread l ≡ current_thread k
unfolding current_thread
current_thread-SameOwners s = rw (s.threads, s.current) refl

set-set :
    (ps : List (Option Process)) (s : ℕ) (p q : Option Process) → set (set ps s p) s q ≡ set ps s q
set-set [] s p q = refl
set-set (r ∷ ps) zero p q = refl
set-set (r ∷ ps) (suc s) p q = ap (◌∷◌ r) (set-set ps s p q)

pub put_process-Placed :
    {k l : Kernel} (t : Thread) (q : Process)
    → current_thread k ≡ some t
    → SameOwners k l
    → Placed k t q (put_process l q)
unfolding current_thread
put_process-Placed {k = k} {l = l} t q h s =
    let now = current_thread-SameOwners s ∙ h in
    rw (put_process-at l t q now) (record {
      here = now;
      processes = ap (λ ps. set ps t.group_slot (some q)) s.processes;
      files_size = s.files_size;
      pipes_size = s.pipes_size;
    })

pub put_process-again :
    {k l : Kernel} {t : Thread} {p : Process} (q : Process)
    → Placed k t p l
    → Placed k t q (put_process l q)
unfolding current_thread
put_process-again {k = k} {l = l} {t = t} {p = p} q b = rw (put_process-at l t q b.here) (record {
  here = b.here;
  processes =
      ap (λ ps. set ps t.group_slot (some q)) b.processes
      ∙ set-set k.processes t.group_slot (some p) (some q);
  files_size = b.files_size;
  pipes_size = b.pipes_size;
})

pub Placed-SameOwners :
    {k l m : Kernel} {t : Thread} {q : Process} → Placed k t q l → SameOwners l m → Placed k t q m
Placed-SameOwners b s = record {
  here = current_thread-SameOwners s ∙ b.here;
  processes = s.processes ∙ b.processes;
  files_size = s.files_size ∙ b.files_size;
  pipes_size = s.pipes_size ∙ b.pipes_size;
}

-- The tables do not depend on the processes.
tally-put_process_of :
    (k : Kernel) (t : Option Thread) (q : Process) (c : Counter) (i : ℕ)
    → tally c i (put_process_of k t q) ≡ tally c i k
unfolding tally put_process_of
tally-put_process_of k none q c i = refl
tally-put_process_of k (some t) q c i = refl

pub tally-put_process :
    (k : Kernel) (q : Process) (c : Counter) (i : ℕ) → tally c i (put_process k q) ≡ tally c i k
unfolding put_process
tally-put_process k q c i = tally-put_process_of k (current_thread k) q c i

pub current_process-Placed :
    {k l : Kernel} {p q : Process} (at : Current k p)
    → Placed k at.thread q l
    → current_process l ≡ some q
unfolding current_process process_of
current_process-Placed {k = k} {l = l} {p = p} {q = q} at b =
    let range = stored-in_range k.processes at.thread.group_slot p at.stored in
    ap (process_of l) b.here
    ∙ ap (λ ps. get_or ps at.thread.group_slot none) b.processes
    ∙ ground (arith, get_or-set k.processes at.thread.group_slot at.thread.group_slot (some q) none)

-- Sizes after a write to one slot.
abbrev pub AllSized : List (Option Process) → Type 0
AllSized ps = (s : ℕ) (p : Process) → get_or ps s none ≡ some p → length p.fds ≡ max_fds

pub set-AllSized :
    (ps : List (Option Process)) (s : ℕ) (o : Option Process)
    → AllSized ps
    → ((p : Process) → o ≡ some p → length p.fds ≡ max_fds)
    → AllSized (set ps s o)
set-AllSized [] s o a n i p h = a i p h
set-AllSized (r ∷ ps) zero o a n zero p h = n p h
set-AllSized (r ∷ ps) zero o a n (suc i) p h = a (suc i) p h
set-AllSized (r ∷ ps) (suc s) o a n zero p h = a zero p h
set-AllSized (r ∷ ps) (suc s) o a n (suc i) p h = set-AllSized ps s o (λ j. a (suc j)) n i p h

pub some_inj : {A : Type 0} {x y : A} → some x ≡ some y → x ≡ y
some_inj {x = x} e = ap (λ o. elim o [ none ↦ x | some z ↦ z ]) e

-- The new process must hold what the tables have gained, less what they have lost.
pub Placed-WellFormed :
    {k l : Kernel} {p q : Process} (at : Current k p)
    → WellFormed k
    → Placed k at.thread q l
    → length q.fds ≡ max_fds
    → ((c : Counter) (i : ℕ)
        → tally c i l + total (points c i) p.fds ≡ tally c i k + total (points c i) q.fds)
    → WellFormed l
unfolding process_points
Placed-WellFormed {k = k} {l = l} {p = p} {q = q} at w b size change = record {
  files_size = b.files_size ∙ w.files_size;
  pipes_size = b.pipes_size ∙ w.pipes_size;
  fds_size = λ s r h.
      set-AllSized k.processes at.thread.group_slot (some q) w.fds_size
        (λ r e. ap (λ (r : Process). length r.fds) (sym (some_inj e)) ∙ size) s r
        (ap (λ ps. get_or ps s none) (sym b.processes) ∙ h);
  exact = λ c i.
      (let slot = at.thread.group_slot in
        let exchange =
          total-set (process_points c i) k.processes slot (some q) none
            (stored-in_range k.processes slot p at.stored) in
        let held = ap (process_points c i) at.stored in
        let now = ap (total (process_points c i)) b.processes in
        omega (arith, exchange, held, now, change c i, w.exact c i));
}
