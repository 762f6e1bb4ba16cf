-- ===== src/Proc/Tables.antt =====
-- The tables of open files and pipes: kernel/src/proc/fd_open.rs and the bookkeeping of
-- kernel/src/proc/fd_pipe.rs. A write to a table is a write to that field of the kernel.
use core_os.Base.{
  ℕ, ◌+◌, ◌-◌, Bool, true, false, ◌&&◌, List, [], ◌∷◌, Option, none, some, get_or, set,
  if◌then◌else◌, ◌==◌, ltb,
}
use core_os.Proc.State.{
  OpenFile, empty_open_file, new_open_file, Pipe, empty_pipe, new_pipe, DescriptorInfo,
  max_open_files, max_pipes,
}
use core_os.Proc.State
use core_os.Proc.Process.{Kernel}
use core_os.Fs.{Filesystem, fs_file_size}

abbrev pub open_file_at : Kernel → ℕ → OpenFile
open_file_at k i = get_or k.open_files i empty_open_file

abbrev pub pipe_at : Kernel → ℕ → Pipe
pipe_at k i = get_or k.pipes i empty_pipe

-- `open_idx < MAX_OPEN_FILES && files[open_idx].in_use`, and the same for a pipe.
abbrev pub open_file_used : Kernel → ℕ → Bool
open_file_used k i = ltb i max_open_files && (open_file_at k i).in_use

abbrev pub pipe_used : Kernel → ℕ → Bool
pipe_used k i = ltb i max_pipes && (pipe_at k i).in_use

abbrev pub put_open_file : Kernel → ℕ → OpenFile → Kernel
put_open_file k i f = record k { open_files = set k.open_files i f }

abbrev pub put_pipe : Kernel → ℕ → Pipe → Kernel
put_pipe k i p = record k { pipes = set k.pipes i p }

-- The first entry that is not in use.
unfoldable pub free_file : List OpenFile → ℕ → Option ℕ
free_file [] i = none
free_file (f ∷ fs) i = let rest = free_file fs (i + 1) in if f.in_use then rest else some i

unfoldable pub free_pipe : List Pipe → ℕ → Option ℕ
free_pipe [] i = none
free_pipe (p ∷ ps) i = let rest = free_pipe ps (i + 1) in if p.in_use then rest else some i

-- `fd_open::alloc`
unfoldable pub alloc_open_file : Kernel → ℕ → ℕ → Option ℕ × Kernel
alloc_open_file k file_idx status_flags = elim (free_file k.open_files 0) [
  | none ↦ (none, k)
  | some i ↦ (some i, put_open_file k i (new_open_file file_idx status_flags))
]

-- `fd_open::retain`; the counters are `usize`, and no table is long enough to wrap them.
unfoldable pub retain_open_file : Kernel → ℕ → Bool × Kernel
retain_open_file k i =
    if open_file_used k i
    then (
      true,
      put_open_file k i (record (open_file_at k i) { refs = (open_file_at k i).refs + 1 }),
    )
    else (false, k)

-- `fd_open::release`
unfoldable pub release_open_file : Kernel → ℕ → Kernel
release_open_file k i =
    if open_file_used k i
    then put_open_file k i (
        if ltb 1 (open_file_at k i).refs
        then record (open_file_at k i) { refs = (open_file_at k i).refs - 1 }
        else empty_open_file)
    else k

-- `fd_open::descriptor_info`
pub open_file_info : Kernel → Filesystem → ℕ → Option DescriptorInfo
open_file_info k fs i =
    if open_file_used k i
    then some (State.file (open_file_at k i).file_idx (fs_file_size (open_file_at k i).file_idx fs))
    else none

-- `fd_open::with_mut`: the closure changes the open file, and here also the file system.
unfoldable pub with_open_file :
    {A : Type 0}
    → Kernel
    → Filesystem
    → ℕ
    → (OpenFile → Filesystem → A × OpenFile × Filesystem)
    → Option A × Kernel × Filesystem
with_open_file k fs i f =
    if open_file_used k i
    then (
      some (f (open_file_at k i) fs).0,
      put_open_file k i (f (open_file_at k i) fs).1,
      (f (open_file_at k i) fs).2,
    )
    else (none, k, fs)

pub open_file_flags : Kernel → ℕ → Option ℕ
open_file_flags k i = if open_file_used k i then some (open_file_at k i).status_flags else none

unfoldable pub set_open_file_flags : Kernel → ℕ → ℕ → Bool × Kernel
set_open_file_flags k i flags =
    if open_file_used k i
    then (true, put_open_file k i (record (open_file_at k i) { status_flags = flags }))
    else (false, k)

-- `fd_pipe::alloc` and `fd_pipe::clear`
unfoldable pub alloc_pipe_entry : Kernel → Option ℕ × Kernel
alloc_pipe_entry k = elim (free_pipe k.pipes 0) [
  | none ↦ (none, k)
  | some i ↦ (some i, put_pipe k i new_pipe)
]

unfoldable pub clear_pipe : Kernel → ℕ → Kernel
clear_pipe k i = if ltb i max_pipes then put_pipe k i empty_pipe else k

unfoldable pub retain_read : Kernel → ℕ → Bool × Kernel
retain_read k i =
    if pipe_used k i
    then (true, put_pipe k i (record (pipe_at k i) { read_refs = (pipe_at k i).read_refs + 1 }))
    else (false, k)

unfoldable pub retain_write : Kernel → ℕ → Bool × Kernel
retain_write k i =
    if pipe_used k i
    then (true, put_pipe k i (record (pipe_at k i) { write_refs = (pipe_at k i).write_refs + 1 }))
    else (false, k)

-- A pipe that has lost its last end is emptied.
unfoldable pub drop_pipe : Pipe → Pipe
drop_pipe p = if p.read_refs == 0 && p.write_refs == 0 then empty_pipe else p

-- `if pipe.read_refs > 0 { pipe.read_refs -= 1 }` is the subtraction of ℕ.
unfoldable pub release_read : Kernel → ℕ → Kernel
unfolding drop_pipe
release_read k i =
    if pipe_used k i
    then put_pipe k i (drop_pipe (record (pipe_at k i) { read_refs = (pipe_at k i).read_refs - 1 }))
    else k

unfoldable pub release_write : Kernel → ℕ → Kernel
unfolding drop_pipe
release_write k i =
    if pipe_used k i
    then put_pipe k i
        (drop_pipe (record (pipe_at k i) { write_refs = (pipe_at k i).write_refs - 1 }))
    else k
