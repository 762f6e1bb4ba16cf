-- ===== src/Proc/Starting.antt =====
-- The tables as they are declared, and a process that starts: kernel/src/proc/process.rs.
use core_os.Base.{
  ℕ, zero, suc, ◌<◌, ◌≡◌, refl, sym, ap, ◌∙◌, List, Option, none, some, arith, get_or, length,
  length-replicate, replicate,
}
use core_os.Base.Totals.{total, total-set, total-replicate}
use core_os.Proc.State.{max_fds, max_open_files, max_pipes, empty_open_file, empty_pipe}
use core_os.Proc.State
use core_os.Proc.Process.{Process, Kernel, boot_tables, default_fds, new_leader}
use core_os.Proc.Tally.{Counter, files, readers, writers, points, tally, counter_of}
use core_os.Proc.Holders.{process_points}
use core_os.Proc.Placed.{WellFormed, set-AllSized, some_inj}
use core_os.Proc.Life.{spawn_named, current_pid}

default_fds-points : (c : Counter) (i : ℕ) → total (points c i) default_fds ≡ 0
unfolding total points
default_fds-points c i = omega (arith, total-replicate (points c i) 13 State.empty refl)

default_fds-size : length default_fds ≡ max_fds
default_fds-size = omega (arith, length-replicate 13 State.empty)

pub spawn_named-WellFormed :
    (k : Kernel) (slot : ℕ) (name : List ℕ)
    → WellFormed k
    → slot < length k.processes
    → get_or k.processes slot none ≡ none
    → WellFormed (spawn_named k slot name).1
unfolding spawn_named tally process_points new_leader
spawn_named-WellFormed k slot name w range free =
    let child = new_leader k.next_pid (current_pid k) name in
    record {
      files_size = w.files_size;
      pipes_size = w.pipes_size;
      fds_size =
          set-AllSized k.processes slot (some child) w.fds_size
            (λ r n. ap (λ (r : Process). length r.fds) (sym (some_inj n)) ∙ default_fds-size);
      exact = λ c i. omega (
        arith,
        total-set (process_points c i) k.processes slot (some child) none range,
        ap (process_points c i) free,
        default_fds-points c i,
        w.exact c i,
      );
    }

get_or-replicate_same : {A : Type 0} (n i : ℕ) (a : A) → get_or (replicate n a) i a ≡ a
unfolding replicate
get_or-replicate_same zero i a = refl
get_or-replicate_same (suc n) zero a = refl
get_or-replicate_same (suc n) (suc i) a = get_or-replicate_same n i a

pub boot_tables-WellFormed : WellFormed boot_tables
unfolding boot_tables tally counter_of process_points
boot_tables-WellFormed = record {
  files_size = length-replicate max_open_files empty_open_file;
  pipes_size = length-replicate max_pipes empty_pipe;
  fds_size =
      λ s p h. absurd (ground (arith, h, get_or-replicate_same {A = Option Process} 8 s none));
  exact = λ c i. no_references c i ∙ sym (total-replicate (process_points c i) 8 none refl);
}
  where
    no_references : (c : Counter) (i : ℕ) → tally c i boot_tables ≡ 0
    no_references files i = ground (arith, get_or-replicate_same max_open_files i empty_open_file)
    no_references readers i = ground (arith, get_or-replicate_same max_pipes i empty_pipe)
    no_references writers i = ground (arith, get_or-replicate_same max_pipes i empty_pipe)
