-- ===== src/Fs/Write.antt =====
-- Every way in which `fs_write_at` of kernel/src/syscall/fs.rs ends.
use core_os.Base.{
  ℕ, zero, suc, ◌+◌, ◌-◌, ◌^◌, ◌≤◌, ◌<◌, ◌≡◌, ◌≢◌, refl, ap, Bool, true, false, List, [], ◌∷◌,
  Option, none, some, arith, length, get_elem?, get_or, get_or_past, set, max, leb, Bool-cases,
  Option-cases, inl, inr,
}
use core_os.Fs.{File, RamFs, Filesystem, written_bytes, fs_write_at}
use core_os.Fs.Content.{written_bytes_lem, get_elem?-set_lem, change_at-stored}

set_past : (fs : RamFs) (i j : ℕ) (g : File) → i ≢ j → get_elem? (set fs i g) j ≡ get_elem? fs j
set_past [] i j g n = refl
set_past (h ∷ fs) zero zero g n = absurd (n refl)
set_past (h ∷ fs) zero (suc j) g n = refl
set_past (h ∷ fs) (suc i) zero g n = refl
set_past (h ∷ fs) (suc i) (suc j) g n = set_past fs i j g (λ e. n (ap suc e))

-- The files after a write to one of them.
pub record FileWritten (fs : RamFs) (i offset : ℕ) (new : List ℕ) (f : File) (fs1 : RamFs)
    : Type 0 where
  pub now : File
  pub stored : get_elem? fs1 i ≡ some now
  pub name : now.name ≡ f.name
  pub size : length now.bytes ≡ max (length f.bytes) (offset + length new)
  pub covered :
      (j : ℕ)
      → offset ≤ j
      → j < offset + length new
      → get_or now.bytes j 0 ≡ get_or new (j - offset) 0
  pub gap : (j : ℕ) → length f.bytes ≤ j → j < offset → get_or now.bytes j 0 ≡ 0
  pub before : (j : ℕ) → j < offset → get_or now.bytes j 0 ≡ get_or f.bytes j 0
  pub behind : (j : ℕ) → offset + length new ≤ j → get_or now.bytes j 0 ≡ get_or f.bytes j 0
  pub others : (j : ℕ) → i ≢ j → get_elem? fs1 j ≡ get_elem? fs j

pub data WriteOutcome (i offset : ℕ) (new : List ℕ)
    : Filesystem → Option (Bool × Filesystem) → Type 0 where
  no_filesystem : WriteOutcome i offset new none (some (false, none))
  no_file :
      (fs : RamFs)
      → get_elem? fs i ≡ none
      → WriteOutcome i offset new (some fs) (some (false, some fs))
  panics :
      (fs : RamFs) (f : File)
      → get_elem? fs i ≡ some f
      → 2 ^ 64 ≤ offset + length new
      → WriteOutcome i offset new (some fs) none
  written :
      (fs fs1 : RamFs) (f : File)
      → get_elem? fs i ≡ some f
      → offset + length new < 2 ^ 64
      → FileWritten fs i offset new f fs1
      → WriteOutcome i offset new (some fs) (some (true, some fs1))

file_written :
    (fs : RamFs) (i offset : ℕ) (new : List ℕ) (f : File)
    → get_elem? fs i ≡ some f
    → FileWritten fs i offset new f
        (set fs i (record f { bytes = written_bytes offset new f.bytes }))
file_written fs i offset new f e =
    let g : File = record f { bytes = written_bytes offset new f.bytes } in
    let done = written_bytes_lem offset new f.bytes in
    record {
      now = g;
      stored = get_elem?-set_lem fs i f g e;
      name = refl;
      size = done.0;
      covered = λ j a b. ground (arith, done.1 j);
      gap = λ j a b. ground (arith, done.1 j, get_or_past f.bytes j 0 a);
      before = λ j a. ground (arith, done.1 j);
      behind = λ j a. ground (arith, done.1 j);
      others = λ j n. set_past fs i j g n;
    }

-- Every outcome of fs_write_at: it fails and changes nothing where there is no file system or no
-- such file; it panics exactly when there is one and the end of the write passes 64 bits; or else
-- the bytes are in the file where they were to be, a gap before them is filled with zeroes, the
-- size is the larger of the old one and the end of the write, and the name, every other byte and
-- every other file are as they were.
pub fs_write_at-WriteOutcome :
    (fs : Filesystem) (i offset : ℕ) (new : List ℕ)
    → WriteOutcome i offset new fs (fs_write_at i offset new fs)
unfolding fs_write_at
fs_write_at-WriteOutcome none i offset new = no_filesystem
fs_write_at-WriteOutcome (some fs) i offset new = elim (Option-cases (get_elem? fs i)) [
  | inl e ↦ rw (fs_write_at, e) (no_file fs e)
  | inr (f, e) ↦ elim (Bool-cases (leb (2 ^ 64) (offset + length new))) [
    | inl past ↦ rw (fs_write_at, e, past) (panics fs f e (ground arith))
    | inr fits ↦
        rw (fs_write_at, e, fits, change_at-stored fs i f (written_bytes offset new) e)
          (written fs _ f e (ground arith) (file_written fs i offset new f e))
  ]
]
