-- ===== src/Proc/Tally.antt =====
-- The references that the tables record, and how retaining and releasing a descriptor changes them.
use core_os.Base.{
  ℕ, ◌+◌, ◌-◌, ◌<◌, ◌≡◌, refl, Bool, true, false, ◌&&◌, arith, if◌then◌else◌, ◌==◌, ltb, get_or-set,
  length, Bool-cases, inl, inr, get_or_past, dec_lt, sym,
}
use core_os.Proc.State.{
  FdTarget, OpenFile, Pipe, empty_open_file, empty_pipe, max_open_files, max_pipes,
}
use core_os.Proc.State
use core_os.Proc.Process.{Kernel}
use core_os.Proc.Tables.{
  open_file_at, pipe_at, open_file_used, pipe_used, put_open_file, put_pipe, retain_open_file,
  release_open_file, retain_read, retain_write, release_read, release_write, drop_pipe,
}

-- The three counters of the tables.
pub data Counter : Type 0 where
  files readers writers : Counter

unfoldable pub counts_files : Counter → Bool
counts_files files = true
counts_files readers = false
counts_files writers = false

unfoldable pub counts_readers : Counter → Bool
counts_readers files = false
counts_readers readers = true
counts_readers writers = false

unfoldable pub counts_writers : Counter → Bool
counts_writers files = false
counts_writers readers = false
counts_writers writers = true

-- Whether a descriptor stands for a reference that the counter of entry `i` counts.
unfoldable pub points : Counter → ℕ → FdTarget → ℕ
points c i State.empty = 0
points c i State.tty = 0
points c i State.null = 0
points c i State.zeroes = 0
points c i (State.stdio j) = 0
points c i (State.open_file j) = if counts_files c && j == i then 1 else 0
points c i (State.pipe_read j) = if counts_readers c && j == i then 1 else 0
points c i (State.pipe_write j) = if counts_writers c && j == i then 1 else 0

unfoldable pub counter_of : Counter → OpenFile → Pipe → Bool → Bool → ℕ
counter_of files f p file pipe = if file then f.refs else 0
counter_of readers f p file pipe = if pipe then p.read_refs else 0
counter_of writers f p file pipe = if pipe then p.write_refs else 0

-- The references that the tables record for entry `i`: none for an entry that is not in use.
unfoldable pub tally : Counter → ℕ → Kernel → ℕ
tally c i k = counter_of c (open_file_at k i) (pipe_at k i) (open_file_used k i) (pipe_used k i)

-- A write to an entry in range changes the counters of that entry only.
pub tally-put_open_file :
    (k : Kernel) (j : ℕ) (f : OpenFile) (c : Counter) (i : ℕ)
    → j < max_open_files
    → j < length k.open_files
    → tally c i (put_open_file k j f)
      ≡ (if counts_files c && j == i then (if f.in_use then f.refs else 0) else tally c i k)
unfolding tally counter_of counts_files
tally-put_open_file k j f files i h l =
    ground (arith, get_or-set k.open_files j i f empty_open_file)
tally-put_open_file k j f readers i h l = refl
tally-put_open_file k j f writers i h l = refl

pub tally-put_pipe :
    (k : Kernel) (j : ℕ) (p : Pipe) (c : Counter) (i : ℕ)
    → j < max_pipes
    → j < length k.pipes
    → tally c i (put_pipe k j p) ≡ (
        if counts_readers c && j == i
        then (if p.in_use then p.read_refs else 0)
        else if counts_writers c && j == i
        then (if p.in_use then p.write_refs else 0)
        else tally c i k)
unfolding tally counter_of counts_readers counts_writers
tally-put_pipe k j p files i h l = refl
tally-put_pipe k j p readers i h l = ground (arith, get_or-set k.pipes j i p empty_pipe)
tally-put_pipe k j p writers i h l = ground (arith, get_or-set k.pipes j i p empty_pipe)

pub used-in_range :
    (k : Kernel) (j : ℕ)
    → open_file_used k j ≡ true
    → (j < max_open_files) × (j < length k.open_files)
used-in_range k j u = elim (dec_lt j (length k.open_files)) [
  | yes h ↦ (ground arith, h)
  | no n ↦ absurd (ground (arith, get_or_past k.open_files j empty_open_file (omega arith)))
]

pub pipe_used-in_range :
    (k : Kernel) (j : ℕ) → pipe_used k j ≡ true → (j < max_pipes) × (j < length k.pipes)
pipe_used-in_range k j u = elim (dec_lt j (length k.pipes)) [
  | yes h ↦ (ground arith, h)
  | no n ↦ absurd (ground (arith, get_or_past k.pipes j empty_pipe (omega arith)))
]

-- What the counters of an entry are while it is in use, and when it is not.
pub tally-used :
    (k : Kernel) (j i : ℕ) (c : Counter)
    → open_file_used k j ≡ true
    → j ≡ i
    → counts_files c ≡ true
    → tally c i k ≡ (open_file_at k j).refs
unfolding tally counter_of counts_files
tally-used k j i files u e h = rw (sym e) (ground arith)
tally-used k j i readers u e h = ground arith
tally-used k j i writers u e h = ground arith

pub tally-unused :
    (k : Kernel) (j i : ℕ) (c : Counter)
    → open_file_used k j ≡ false
    → j ≡ i
    → counts_files c ≡ true
    → tally c i k ≡ 0
unfolding tally counter_of counts_files
tally-unused k j i files u e h = rw (sym e) (ground arith)
tally-unused k j i readers u e h = ground arith
tally-unused k j i writers u e h = ground arith

pub tally-release_open_file :
    (k : Kernel) (j : ℕ) (c : Counter) (i : ℕ)
    → tally c i (release_open_file k j) ≡ tally c i k - points c i (State.open_file j)
unfolding points release_open_file
tally-release_open_file k j c i = elim (Bool-cases (open_file_used k j)) [
  | inl u ↦
      (let range = used-in_range k j u in
        let f : OpenFile =
          if ltb 1 (open_file_at k j).refs
          then record (open_file_at k j) { refs = (open_file_at k j).refs - 1 }
          else empty_open_file in
        ground (arith, tally-put_open_file k j f c i range.0 range.1, tally-used k j i c u))
  | inr u ↦ ground (arith, tally-unused k j i c u)
]

pub tally-retain_open_file :
    (k : Kernel) (j : ℕ) (c : Counter) (i : ℕ)
    → open_file_used k j ≡ true
    → tally c i (retain_open_file k j).1 ≡ tally c i k + points c i (State.open_file j)
unfolding points retain_open_file
tally-retain_open_file k j c i u =
    let range = used-in_range k j u in
    let f : OpenFile = record (open_file_at k j) { refs = (open_file_at k j).refs + 1 } in
    ground (arith, tally-put_open_file k j f c i range.0 range.1, tally-used k j i c u)

pub tally-readers :
    (k : Kernel) (j i : ℕ) (c : Counter)
    → j ≡ i
    → counts_readers c ≡ true
    → tally c i k ≡ (if pipe_used k j then (pipe_at k j).read_refs else 0)
unfolding tally counter_of counts_readers
tally-readers k j i files e h = ground arith
tally-readers k j i readers e h = rw e refl
tally-readers k j i writers e h = ground arith

pub tally-writers :
    (k : Kernel) (j i : ℕ) (c : Counter)
    → j ≡ i
    → counts_writers c ≡ true
    → tally c i k ≡ (if pipe_used k j then (pipe_at k j).write_refs else 0)
unfolding tally counter_of counts_writers
tally-writers k j i files e h = ground arith
tally-writers k j i readers e h = ground arith
tally-writers k j i writers e h = rw e refl

pub writers-not_readers : (c : Counter) → counts_writers c ≡ true → counts_readers c ≡ false
unfolding counts_readers counts_writers
writers-not_readers files h = refl
writers-not_readers readers h = ground arith
writers-not_readers writers h = refl

pub tally-retain_read :
    (k : Kernel) (j : ℕ) (c : Counter) (i : ℕ)
    → pipe_used k j ≡ true
    → tally c i (retain_read k j).1 ≡ tally c i k + points c i (State.pipe_read j)
unfolding points retain_read
tally-retain_read k j c i u =
    let range = pipe_used-in_range k j u in
    let p : Pipe = record (pipe_at k j) { read_refs = (pipe_at k j).read_refs + 1 } in
    ground (
      arith,
      tally-put_pipe k j p c i range.0 range.1,
      tally-readers k j i c,
      tally-writers k j i c,
      writers-not_readers c,
    )

pub tally-retain_write :
    (k : Kernel) (j : ℕ) (c : Counter) (i : ℕ)
    → pipe_used k j ≡ true
    → tally c i (retain_write k j).1 ≡ tally c i k + points c i (State.pipe_write j)
unfolding points retain_write
tally-retain_write k j c i u =
    let range = pipe_used-in_range k j u in
    let p : Pipe = record (pipe_at k j) { write_refs = (pipe_at k j).write_refs + 1 } in
    ground (
      arith,
      tally-put_pipe k j p c i range.0 range.1,
      tally-readers k j i c,
      tally-writers k j i c,
      writers-not_readers c,
    )

pub tally-release_read :
    (k : Kernel) (j : ℕ) (c : Counter) (i : ℕ)
    → tally c i (release_read k j) ≡ tally c i k - points c i (State.pipe_read j)
unfolding points release_read drop_pipe
tally-release_read k j c i = elim (Bool-cases (pipe_used k j)) [
  | inl u ↦
      (let range = pipe_used-in_range k j u in
        let p : Pipe =
          drop_pipe (record (pipe_at k j) { read_refs = (pipe_at k j).read_refs - 1 }) in
        ground (
          arith,
          tally-put_pipe k j p c i range.0 range.1,
          tally-readers k j i c,
          tally-writers k j i c,
          writers-not_readers c,
        ))
  | inr u ↦ ground (arith, tally-readers k j i c)
]

pub tally-release_write :
    (k : Kernel) (j : ℕ) (c : Counter) (i : ℕ)
    → tally c i (release_write k j) ≡ tally c i k - points c i (State.pipe_write j)
unfolding points release_write drop_pipe
tally-release_write k j c i = elim (Bool-cases (pipe_used k j)) [
  | inl u ↦
      (let range = pipe_used-in_range k j u in
        let p : Pipe =
          drop_pipe (record (pipe_at k j) { write_refs = (pipe_at k j).write_refs - 1 }) in
        ground (
          arith,
          tally-put_pipe k j p c i range.0 range.1,
          tally-readers k j i c,
          tally-writers k j i c,
          writers-not_readers c,
        ))
  | inr u ↦ ground (arith, tally-writers k j i c)
]
