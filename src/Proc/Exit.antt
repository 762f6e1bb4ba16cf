-- ===== src/Proc/Exit.antt =====
-- What the exit of a whole group leaves behind.
use core_os.Base.{
  ℕ, zero, suc, ◌≡◌, refl, ◌∙◌, true, false, List, [], ◌∷◌, Option, none, some, arith,
  if◌then◌else◌, ◌==◌, get_or, set, get_or-set,
}
use core_os.Proc.State.{Thread, zombie}
use core_os.Proc.Process.{Process, Kernel, current_thread}
use core_os.Proc.Life.{exit_thread, end_whole_group, end_group, end_thread}
use core_os.Proc.Placed.{stored-in_range}

-- What becomes of a thread when group `group` ends.
abbrev pub ended : ℕ → Option Thread → Option Thread
ended group none = none
ended group (some t) = some (if t.group_slot == group then end_thread t else t)

pub get_or-end_group :
    (group s : ℕ) (ts : List (Option Thread))
    → get_or (end_group group ts) s none ≡ ended group (get_or ts s none)
unfolding end_group
get_or-end_group group s [] = refl
get_or-end_group group zero (none ∷ ts) = refl
get_or-end_group group zero (some t ∷ ts) = refl
get_or-end_group group (suc s) (none ∷ ts) = get_or-end_group group s ts
get_or-end_group group (suc s) (some t ∷ ts) = get_or-end_group group s ts

pub record GroupEnded (k l : Kernel) (group code : ℕ) : Type 0 where
  pub threads : (s : ℕ) → get_or l.threads s none ≡ ended group (get_or k.threads s none)
  pub process : Process
  pub stored : get_or l.processes group none ≡ some process
  pub over : process.state ≡ zombie
  pub exit_code : process.exit_code ≡ code
  pub others :
      (s : ℕ) → (s == group) ≡ false → get_or l.processes s none ≡ get_or k.processes s none

-- The current thread is ended first; for its group that makes no difference.
ended-current :
    (ts : List (Option Thread)) (c s : ℕ) (t : Thread)
    → get_or ts c none ≡ some t
    → ended t.group_slot (get_or (set ts c (some (end_thread t))) s none)
      ≡ ended t.group_slot (get_or ts s none)
ended-current [] c s t h = absurd (ground (arith, h))
ended-current (r ∷ ts) zero zero t h =
    let same : (t.group_slot == t.group_slot) ≡ true = ground arith in rw (h, same) refl
ended-current (r ∷ ts) zero (suc s) t h = refl
ended-current (r ∷ ts) (suc c) zero t h = refl
ended-current (r ∷ ts) (suc c) (suc s) t h = ended-current ts c s t h

end_whole_group-GroupEnded :
    (k : Kernel) (t : Thread) (p : Process) (code : ℕ)
    → current_thread k ≡ some t
    → get_or k.processes t.group_slot none ≡ some p
    → GroupEnded k
        (end_whole_group
          (record k { threads = set k.threads k.current (some (end_thread t)) })
          t
          p
          code)
        t.group_slot
        code
unfolding end_whole_group current_thread
end_whole_group-GroupEnded k t p code here stored =
    let q = record p { state = zombie; exit_code = code; thread_count = 0 } in
    let range = stored-in_range k.processes t.group_slot p stored in
    record {
      threads = λ s.
          get_or-end_group t.group_slot s (set k.threads k.current (some (end_thread t)))
          ∙ ended-current k.threads k.current s t here;
      process = q;
      stored = ground (arith, get_or-set k.processes t.group_slot t.group_slot (some q) none);
      over = refl;
      exit_code = refl;
      others = λ s apart. ground (arith, get_or-set k.processes t.group_slot s (some q) none);
    }

-- When the current thread of a process ends its whole group, exactly the threads of the group
-- become zombies, and the process is a zombie with the exit code while the others are unchanged.
pub exit_thread-GroupEnded :
    (k : Kernel) (t : Thread) (p : Process) (code : ℕ)
    → current_thread k ≡ some t
    → get_or k.processes t.group_slot none ≡ some p
    → ((exit_thread k code true).0 ≡ true)
      × GroupEnded k (exit_thread k code true).1 t.group_slot code
unfolding exit_thread
exit_thread-GroupEnded k t p code here stored =
    rw (here, exit_thread, stored) (refl, end_whole_group-GroupEnded k t p code here stored)
