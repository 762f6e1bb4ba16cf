-- ===== src/Proc/Holders.antt =====
-- The descriptors that hold a reference, and the lists of descriptors that are retained and
-- released at once.
use core_os.Base.{
  ℕ, ◌+◌, ◌-◌, ◌≤◌, ◌≡◌, refl, ◌∙◌, true, not, List, [], ◌∷◌, Option, none, some, arith,
}
use core_os.Base.Totals.{total}
use core_os.Proc.State.{FdTarget, max_fds}
use core_os.Proc.State
use core_os.Proc.Process.{Process, Kernel}
use core_os.Proc.Tables.{open_file_used, pipe_used, retain_open_file, retain_read, retain_write}
use core_os.Proc.Fd.{retain_fd_target, release_fd_target, retain_fds, release_fds, is_empty_fd}
use core_os.Proc.Tally.{
  Counter, files, readers, writers, counts_files, counts_readers, counts_writers, points, tally,
  counter_of, tally-retain_open_file, tally-release_open_file, tally-retain_read,
  tally-retain_write, tally-release_read, tally-release_write,
}

-- The references that one process holds, and those of all processes.
unfoldable pub process_points : Counter → ℕ → Option Process → ℕ
process_points c i none = 0
process_points c i (some p) = total (points c i) p.fds

abbrev pub holders : Counter → ℕ → Kernel → ℕ
holders c i k = total (process_points c i) k.processes

pub tally-release_fd_target :
    (t : FdTarget) (k : Kernel) (c : Counter) (i : ℕ)
    → tally c i (release_fd_target k t) ≡ tally c i k - points c i t
unfolding release_fd_target points
tally-release_fd_target State.empty k c i = omega arith
tally-release_fd_target State.tty k c i = omega arith
tally-release_fd_target State.null k c i = omega arith
tally-release_fd_target State.zeroes k c i = omega arith
tally-release_fd_target (State.stdio j) k c i = omega arith
tally-release_fd_target (State.open_file j) k c i = tally-release_open_file k j c i
tally-release_fd_target (State.pipe_read j) k c i = tally-release_read k j c i
tally-release_fd_target (State.pipe_write j) k c i = tally-release_write k j c i

-- A counter that is not 0 belongs to an entry in use.
pub held-open_file :
    (k : Kernel) (j : ℕ)
    → points files j (State.open_file j) ≤ tally files j k
    → open_file_used k j ≡ true
unfolding points tally counter_of counts_files
held-open_file k j h = ground arith

pub held-pipe_read :
    (k : Kernel) (j : ℕ)
    → points readers j (State.pipe_read j) ≤ tally readers j k
    → pipe_used k j ≡ true
unfolding points tally counter_of counts_readers
held-pipe_read k j h = ground arith

pub held-pipe_write :
    (k : Kernel) (j : ℕ)
    → points writers j (State.pipe_write j) ≤ tally writers j k
    → pipe_used k j ≡ true
unfolding points tally counter_of counts_writers
held-pipe_write k j h = ground arith

retain_open_file-answer : (k : Kernel) (j : ℕ) → (retain_open_file k j).0 ≡ open_file_used k j
unfolding retain_open_file
retain_open_file-answer k j = ground arith

retain_read-answer : (k : Kernel) (j : ℕ) → (retain_read k j).0 ≡ pipe_used k j
unfolding retain_read
retain_read-answer k j = ground arith

retain_write-answer : (k : Kernel) (j : ℕ) → (retain_write k j).0 ≡ pipe_used k j
unfolding retain_write
retain_write-answer k j = ground arith

-- Retaining a descriptor that already holds its reference succeeds and counts one more.
pub record Retained (k : Kernel) (t : FdTarget) : Type 0 where
  pub answer : (retain_fd_target k t).0 ≡ not (is_empty_fd t)
  pub counted :
      (c : Counter) (i : ℕ) → tally c i (retain_fd_target k t).1 ≡ tally c i k + points c i t

pub retain_fd_target-Retained :
    (t : FdTarget) (k : Kernel)
    → ((c : Counter) (i : ℕ) → points c i t ≤ tally c i k)
    → Retained k t
unfolding retain_fd_target points is_empty_fd
retain_fd_target-Retained State.empty k h = record { answer = refl; counted = λ c i. omega arith }
retain_fd_target-Retained State.tty k h = record { answer = refl; counted = λ c i. omega arith }
retain_fd_target-Retained State.null k h = record { answer = refl; counted = λ c i. omega arith }
retain_fd_target-Retained State.zeroes k h = record { answer = refl; counted = λ c i. omega arith }
retain_fd_target-Retained (State.stdio j) k h = record {
  answer = refl;
  counted = λ c i. omega arith;
}
retain_fd_target-Retained (State.open_file j) k h =
    let used = held-open_file k j (h files j) in
    record {
      answer = retain_open_file-answer k j ∙ used;
      counted = λ c i. tally-retain_open_file k j c i used;
    }
retain_fd_target-Retained (State.pipe_read j) k h =
    let used = held-pipe_read k j (h readers j) in
    record {
      answer = retain_read-answer k j ∙ used;
      counted = λ c i. tally-retain_read k j c i used;
    }
retain_fd_target-Retained (State.pipe_write j) k h =
    let used = held-pipe_write k j (h writers j) in
    record {
      answer = retain_write-answer k j ∙ used;
      counted = λ c i. tally-retain_write k j c i used;
    }

pub tally-release_fds :
    (ts : List FdTarget) (k : Kernel) (c : Counter) (i : ℕ)
    → tally c i (release_fds k ts) ≡ tally c i k - total (points c i) ts
unfolding release_fds total
tally-release_fds [] k c i = omega arith
tally-release_fds (t ∷ ts) k c i =
    omega (arith, tally-release_fds ts (release_fd_target k t) c i, tally-release_fd_target t k c i)

pub tally-retain_fds :
    (ts : List FdTarget) (k : Kernel)
    → ((c : Counter) (i : ℕ) → total (points c i) ts ≤ tally c i k)
    → (c : Counter) (i : ℕ) → tally c i (retain_fds k ts) ≡ tally c i k + total (points c i) ts
unfolding retain_fds total
tally-retain_fds [] k h c i = omega arith
tally-retain_fds (t ∷ ts) k h c i =
    let one = retain_fd_target-Retained t k (λ c i. omega (arith, h c i)) in
    let rest =
      tally-retain_fds ts (retain_fd_target k t).1 (λ c i. omega (arith, h c i, one.counted c i)) c
        i in
    omega (arith, rest, one.counted c i)
