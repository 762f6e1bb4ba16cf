-- ===== src/Proc/Owners.antt =====
-- Retaining and releasing write to the tables of open files and pipes only.
use core_os.Base.{
  ℕ, ◌≡◌, refl, ◌∙◌, Bool, true, false, List, [], ◌∷◌, if◌then◌else◌, ltb, length, length-set,
}
use core_os.Proc.State.{
  FdTarget, Thread, OpenFile, Pipe, max_pipes, empty_open_file, empty_pipe, new_open_file, new_pipe,
}
use core_os.Proc.State
use core_os.Proc.Process.{Kernel, current_process, current_thread, process_of}
use core_os.Proc.Tables.{
  open_file_used, pipe_used, put_open_file, put_pipe, retain_open_file, release_open_file,
  retain_read, retain_write, release_read, release_write, clear_pipe,
}
use core_os.Proc.Fd.{retain_fd_target, release_fd_target, retain_fds, release_fds}

pub record SameOwners (k l : Kernel) : Type 0 where
  pub processes : l.processes ≡ k.processes
  pub threads : l.threads ≡ k.threads
  pub current : l.current ≡ k.current
  pub files_size : length l.open_files ≡ length k.open_files
  pub pipes_size : length l.pipes ≡ length k.pipes

pub SameOwners-refl : (k : Kernel) → SameOwners k k
SameOwners-refl k = record {
  processes = refl;
  threads = refl;
  current = refl;
  files_size = refl;
  pipes_size = refl;
}

pub SameOwners-trans : {k l m : Kernel} → SameOwners k l → SameOwners l m → SameOwners k m
SameOwners-trans a b = record {
  processes = b.processes ∙ a.processes;
  threads = b.threads ∙ a.threads;
  current = b.current ∙ a.current;
  files_size = b.files_size ∙ a.files_size;
  pipes_size = b.pipes_size ∙ a.pipes_size;
}

-- The current process is found by what they leave alone.
pub current_process-SameOwners :
    {k l : Kernel} → SameOwners k l → current_process l ≡ current_process k
unfolding current_process current_thread process_of
current_process-SameOwners {k = k} {l = l} s = rw (s.processes, s.threads, s.current) refl

pub put_open_file-SameOwners :
    (k : Kernel) (j : ℕ) (f : OpenFile) → SameOwners k (put_open_file k j f)
put_open_file-SameOwners k j f = record {
  processes = refl;
  threads = refl;
  current = refl;
  files_size = length-set k.open_files j f;
  pipes_size = refl;
}

pub put_pipe-SameOwners : (k : Kernel) (j : ℕ) (p : Pipe) → SameOwners k (put_pipe k j p)
put_pipe-SameOwners k j p = record {
  processes = refl;
  threads = refl;
  current = refl;
  files_size = refl;
  pipes_size = length-set k.pipes j p;
}

SameOwners-if :
    (b : Bool) (k l m : Kernel)
    → SameOwners k l
    → SameOwners k m
    → SameOwners k (if b then l else m)
SameOwners-if true k l m a c = a
SameOwners-if false k l m a c = c

SameOwners-answer :
    (b : Bool) (k l : Kernel)
    → SameOwners k l
    → SameOwners k (let r : Bool × Kernel = if b then (true, l) else (false, k) in r.1)
SameOwners-answer true k l a = a
SameOwners-answer false k l a = SameOwners-refl k

pub clear_pipe-SameOwners : (k : Kernel) (j : ℕ) → SameOwners k (clear_pipe k j)
unfolding clear_pipe
clear_pipe-SameOwners k j =
    SameOwners-if (ltb j max_pipes) k _ k (put_pipe-SameOwners k j empty_pipe) (SameOwners-refl k)

pub release_fd_target-SameOwners :
    (t : FdTarget) (k : Kernel) → SameOwners k (release_fd_target k t)
unfolding release_fd_target release_open_file release_read release_write
release_fd_target-SameOwners State.empty k = SameOwners-refl k
release_fd_target-SameOwners State.tty k = SameOwners-refl k
release_fd_target-SameOwners State.null k = SameOwners-refl k
release_fd_target-SameOwners State.zeroes k = SameOwners-refl k
release_fd_target-SameOwners (State.stdio j) k = SameOwners-refl k
release_fd_target-SameOwners (State.open_file j) k =
    SameOwners-if (open_file_used k j) k _ k (put_open_file-SameOwners k j _) (SameOwners-refl k)
release_fd_target-SameOwners (State.pipe_read j) k =
    SameOwners-if (pipe_used k j) k _ k (put_pipe-SameOwners k j _) (SameOwners-refl k)
release_fd_target-SameOwners (State.pipe_write j) k =
    SameOwners-if (pipe_used k j) k _ k (put_pipe-SameOwners k j _) (SameOwners-refl k)

pub retain_fd_target-SameOwners :
    (t : FdTarget) (k : Kernel) → SameOwners k (retain_fd_target k t).1
unfolding retain_fd_target retain_open_file retain_read retain_write
retain_fd_target-SameOwners State.empty k = SameOwners-refl k
retain_fd_target-SameOwners State.tty k = SameOwners-refl k
retain_fd_target-SameOwners State.null k = SameOwners-refl k
retain_fd_target-SameOwners State.zeroes k = SameOwners-refl k
retain_fd_target-SameOwners (State.stdio j) k = SameOwners-refl k
retain_fd_target-SameOwners (State.open_file j) k =
    SameOwners-answer (open_file_used k j) k _ (put_open_file-SameOwners k j _)
retain_fd_target-SameOwners (State.pipe_read j) k =
    SameOwners-answer (pipe_used k j) k _ (put_pipe-SameOwners k j _)
retain_fd_target-SameOwners (State.pipe_write j) k =
    SameOwners-answer (pipe_used k j) k _ (put_pipe-SameOwners k j _)

pub release_fds-SameOwners : (ts : List FdTarget) (k : Kernel) → SameOwners k (release_fds k ts)
unfolding release_fds
release_fds-SameOwners [] k = SameOwners-refl k
release_fds-SameOwners (t ∷ ts) k =
    SameOwners-trans (release_fd_target-SameOwners t k)
      (release_fds-SameOwners ts (release_fd_target k t))

pub retain_fds-SameOwners : (ts : List FdTarget) (k : Kernel) → SameOwners k (retain_fds k ts)
unfolding retain_fds
retain_fds-SameOwners [] k = SameOwners-refl k
retain_fds-SameOwners (t ∷ ts) k =
    SameOwners-trans (retain_fd_target-SameOwners t k)
      (retain_fds-SameOwners ts (retain_fd_target k t).1)
