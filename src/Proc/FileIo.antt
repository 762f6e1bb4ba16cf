-- ===== src/Proc/FileIo.antt =====
-- Files through descriptors: the calls of kernel/src/proc/fd.rs that read, write and inspect what
-- a descriptor refers to, and the status flags of kernel/src/proc/fd_pipe.rs.
use core_os.Base.{
  ℕ, ◌+◌, Bool, true, false, ◌||◌, List, Option, none, some, length, if◌then◌else◌, ◌==◌, bit_and,
}
use core_os.Proc.State.{FdTarget, OpenFile, DescriptorInfo, empty_open_file, max_open_files}
use core_os.Proc.State
use core_os.Proc.Process.{Kernel}
use core_os.Proc.Tables.{
  pipe_at, pipe_used, put_pipe, with_open_file, open_file_flags, set_open_file_flags,
}
use core_os.Proc.Fd.{get_fd_target, descriptor_info}
use core_os.Fs.{Filesystem, fs_read, fs_write_at, fs_file_size}

abbrev pub o_accmode : ℕ
o_accmode = 0o3

abbrev pub o_rdonly : ℕ
o_rdonly = 0o0

abbrev pub o_wronly : ℕ
o_wronly = 0o1

abbrev pub o_rdwr : ℕ
o_rdwr = 0o2

abbrev pub o_append : ℕ
o_append = 0o2000

-- `with_fd_mut`
unfoldable pub with_target :
    {A : Type 0}
    → Kernel
    → Filesystem
    → FdTarget
    → (OpenFile → Filesystem → A × OpenFile × Filesystem)
    → Option A × Kernel × Filesystem
with_target k fs State.empty f = (none, k, fs)
with_target k fs State.tty f = (none, k, fs)
with_target k fs State.null f = (none, k, fs)
with_target k fs State.zeroes f = (none, k, fs)
with_target k fs (State.stdio i) f = (none, k, fs)
with_target k fs (State.open_file i) f = with_open_file k fs i f
with_target k fs (State.pipe_read i) f = (none, k, fs)
with_target k fs (State.pipe_write i) f = (none, k, fs)

unfoldable pub with_fd_mut :
    {A : Type 0}
    → Kernel
    → Filesystem
    → ℕ
    → (OpenFile → Filesystem → A × OpenFile × Filesystem)
    → Option A × Kernel × Filesystem
with_fd_mut k fs fd f = elim (get_fd_target k fd) [
  | none ↦ (none, k, fs)
  | some t ↦ with_target k fs t f
]

-- The `?` behind a call of `with_fd_mut` whose closure returns an `Option`.
unfoldable pub flatten : {A : Type 0} → Option (Option A) → Option A
flatten none = none
flatten (some x) = x

-- The closure of `read_file`, with the bytes that it stores in the buffer.
unfoldable pub read_open : ℕ → OpenFile → Filesystem → Option (List ℕ) × OpenFile × Filesystem
read_open count of fs = if bit_and of.status_flags o_accmode == o_wronly then (none, of, fs) else (
  some (fs_read of.file_idx of.offset count fs),
  record of { offset = of.offset + length (fs_read of.file_idx of.offset count fs) },
  fs,
)

unfoldable pub read_file : Kernel → Filesystem → ℕ → ℕ → Option (List ℕ) × Kernel × Filesystem
read_file k fs fd count = let r = with_fd_mut k fs fd (read_open count) in (flatten r.0, r.1, r.2)

-- The place where `write_file` writes.
unfoldable pub write_offset : OpenFile → Filesystem → ℕ
write_offset of fs =
    if bit_and of.status_flags o_append == 0 then of.offset else fs_file_size of.file_idx fs

-- The closure of `write_file`; a panic of the write, which is none, leaves everything.
unfoldable pub write_open :
    List ℕ → OpenFile → Filesystem → Option (Option ℕ) × OpenFile × Filesystem
write_open bytes of fs =
    let mode = bit_and of.status_flags o_accmode in
    let offset = write_offset of fs in
    let done : Option (Option ℕ) × OpenFile × Filesystem =
      elim (fs_write_at of.file_idx offset bytes fs) [
        | none ↦ (none, of, fs)
        | some (wrote, fs1) ↦
            (if wrote
              then (some (some (length bytes)), record of { offset = offset + length bytes }, fs1)
              else (some none, of, fs1))
      ] in
    if mode == o_wronly || mode == o_rdwr then done else (some none, of, fs)

-- What `write_file` makes of what the closure gives: no closure ran, it panicked, or its answer.
unfoldable pub write_answer : Option (Option (Option ℕ)) → Option (Option ℕ)
write_answer none = some none
write_answer (some r) = r

-- `write_file`, with none as its answer where the kernel panics.
unfoldable pub write_file :
    Kernel → Filesystem → ℕ → List ℕ → Option (Option ℕ) × Kernel × Filesystem
write_file k fs fd bytes =
    let r = with_fd_mut k fs fd (write_open bytes) in (write_answer r.0, r.1, r.2)

pub file_size : Kernel → Filesystem → ℕ → Option ℕ
file_size k fs fd = size_of (descriptor_info k fs fd)
  where
    size_of : Option DescriptorInfo → Option ℕ
    size_of none = none
    size_of (some State.char_device) = none
    size_of (some State.pipe) = none
    size_of (some (State.stdio i)) = none
    size_of (some (State.file i n)) = some n

stdio_index : Option DescriptorInfo → Option ℕ
stdio_index none = none
stdio_index (some State.char_device) = none
stdio_index (some State.pipe) = none
stdio_index (some (State.stdio i)) = some i
stdio_index (some (State.file i n)) = none

pub is_stdin : Kernel → Filesystem → ℕ → Bool
is_stdin k fs fd = elim (stdio_index (descriptor_info k fs fd)) [ none ↦ false | some i ↦ i == 0 ]

pub is_stdout_or_stderr : Kernel → Filesystem → ℕ → Bool
is_stdout_or_stderr k fs fd = elim (stdio_index (descriptor_info k fs fd)) [
  | none ↦ false
  | some i ↦ i == 1 || i == 2
]

-- `get_status_flags` and `set_status_flags`, those of fd_pipe.rs included.
flags_of : Kernel → FdTarget → Option ℕ
flags_of k State.empty = none
flags_of k State.tty = some 0
flags_of k State.null = some 0
flags_of k State.zeroes = some 0
flags_of k (State.stdio i) = some 0
flags_of k (State.open_file i) = open_file_flags k i
flags_of k (State.pipe_read i) = if pipe_used k i then some (pipe_at k i).read_flags else none
flags_of k (State.pipe_write i) = if pipe_used k i then some (pipe_at k i).write_flags else none

pub get_status_flags : Kernel → ℕ → Option ℕ
get_status_flags k fd = elim (get_fd_target k fd) [ none ↦ none | some t ↦ flags_of k t ]

unfoldable pub set_flags_of : Kernel → FdTarget → ℕ → Bool × Kernel
set_flags_of k State.empty flags = (false, k)
set_flags_of k State.tty flags = (true, k)
set_flags_of k State.null flags = (true, k)
set_flags_of k State.zeroes flags = (true, k)
set_flags_of k (State.stdio i) flags = (true, k)
set_flags_of k (State.open_file i) flags = set_open_file_flags k i flags
set_flags_of k (State.pipe_read i) flags =
    if pipe_used k i
    then (true, put_pipe k i (record (pipe_at k i) { read_flags = flags }))
    else (false, k)
set_flags_of k (State.pipe_write i) flags =
    if pipe_used k i
    then (true, put_pipe k i (record (pipe_at k i) { write_flags = flags }))
    else (false, k)

unfoldable pub set_status_flags : Kernel → ℕ → ℕ → Bool × Kernel
set_status_flags k fd flags = elim (get_fd_target k fd) [
  | none ↦ (false, k)
  | some t ↦ set_flags_of k t flags
]
