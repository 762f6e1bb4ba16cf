-- ===== src/Proc/FileWrite.antt =====
-- What a write through a descriptor leaves in the file and in the open file.
use core_os.Base.{
  ℕ, ◌+◌, ◌≡◌, refl, ap, ◌∙◌, Bool, true, ◌||◌, List, Option, some, arith, length, ◌==◌, bit_and,
  get_or-set,
}
use core_os.Proc.State.{FdTarget, OpenFile, empty_open_file, max_open_files}
use core_os.Proc.State
use core_os.Proc.Process.{Kernel}
use core_os.Proc.Tables.{open_file_at, open_file_used, put_open_file, with_open_file}
use core_os.Proc.Fd.{get_fd_target}
use core_os.Proc.Tally.{used-in_range}
use core_os.Proc.FileIo.{
  o_accmode, o_wronly, o_rdwr, with_target, with_fd_mut, write_answer, write_offset, write_open,
  write_file,
}
use core_os.Fs.{Filesystem, fs_read, fs_write_at}
use core_os.Fs.Content.{fs_read-fs_write_at}

-- Whether the open file may be written to.
abbrev pub writable : OpenFile → Bool
writable of =
    bit_and of.status_flags o_accmode == o_wronly || bit_and of.status_flags o_accmode == o_rdwr

pub record Written (k : Kernel) (fs : Filesystem) (fd i : ℕ) (bytes : List ℕ) : Type 0 where
  pub answer : (write_file k fs fd bytes).0 ≡ some (some (length bytes))
  pub stored :
      fs_read
        (open_file_at k i).file_idx
        (write_offset (open_file_at k i) fs)
        (length bytes)
        (write_file k fs fd bytes).2
      ≡ bytes
  pub moved :
      (open_file_at (write_file k fs fd bytes).1 i).offset
      ≡ write_offset (open_file_at k i) fs + length bytes

-- The state after a write that the file system accepts.
write_file-done :
    (k : Kernel) (fs fs1 : Filesystem) (fd i : ℕ) (bytes : List ℕ)
    → get_fd_target k fd ≡ some (State.open_file i)
    → open_file_used k i ≡ true
    → writable (open_file_at k i) ≡ true
    → fs_write_at (open_file_at k i).file_idx (write_offset (open_file_at k i) fs) bytes fs
      ≡ some (true, fs1)
    → write_file k fs fd bytes ≡ (
      some (some (length bytes)),
      put_open_file k i (record (open_file_at k i) {
        offset = write_offset (open_file_at k i) fs + length bytes;
      }),
      fs1,
    )
unfolding write_file with_fd_mut with_target with_open_file write_answer write_open
write_file-done k fs fs1 fd i bytes at used may done =
    let result : write_open bytes (open_file_at k i) fs ≡ (
      some (some (length bytes)),
      record (open_file_at k i) { offset = write_offset (open_file_at k i) fs + length bytes },
      fs1,
    ) =
      rw (may, done) refl in
    let made : with_fd_mut k fs fd (write_open bytes) ≡ (
      some (some (some (length bytes))),
      put_open_file k i (record (open_file_at k i) {
        offset = write_offset (open_file_at k i) fs + length bytes;
      }),
      fs1,
    ) =
      rw (at, with_fd_mut, used, result) refl in
    ap (λ (r : Option (Option (Option ℕ)) × Kernel × Filesystem). (write_answer r.0, r.1, r.2)) made

-- When the file system accepts the write, write_file to a writable open file writes all bytes,
-- they can be read back where it wrote, and the offset moves to their end.
pub write_file-Written :
    (k : Kernel) (fs fs1 : Filesystem) (fd i : ℕ) (bytes : List ℕ)
    → get_fd_target k fd ≡ some (State.open_file i)
    → open_file_used k i ≡ true
    → writable (open_file_at k i) ≡ true
    → fs_write_at (open_file_at k i).file_idx (write_offset (open_file_at k i) fs) bytes fs
      ≡ some (true, fs1)
    → Written k fs fd i bytes
write_file-Written k fs fs1 fd i bytes at used may done =
    let of = open_file_at k i in
    let after = write_file-done k fs fs1 fd i bytes at used may done in
    let range = used-in_range k i used in
    let moved_file : OpenFile = record of { offset = write_offset of fs + length bytes } in
    let there : open_file_at (put_open_file k i moved_file) i ≡ moved_file =
      ground (arith, get_or-set k.open_files i i moved_file empty_open_file, range.1) in
    record {
      answer = ap (λ (r : Option (Option ℕ) × Kernel × Filesystem). r.0) after;
      stored =
          ap
            (λ (r : Option (Option ℕ) × Kernel × Filesystem).
              fs_read of.file_idx (write_offset of fs) (length bytes) r.2)
            after
          ∙ (fs_read-fs_write_at fs fs1 of.file_idx (write_offset of fs) bytes done).0;
      moved =
          ap (λ (r : Option (Option ℕ) × Kernel × Filesystem). (open_file_at r.1 i).offset) after
          ∙ ap (λ (f : OpenFile). f.offset) there;
    }
