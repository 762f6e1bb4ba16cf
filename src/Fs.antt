-- ===== src/Fs.antt =====
-- The RAM file system: kernel/src/fs.rs, its interface kernel/src/vfs.rs and the calls by index of
-- kernel/src/syscall/fs.rs. The lock around `FILESYSTEM` makes each call one step on the state.
pub mod Names
pub mod Content
pub mod Write
pub mod Refinement
mod Tests
use core_os.Base.{
  ℕ, zero, suc, ◌+◌, ◌-◌, ◌^◌, Bool, true, false, ◌&&◌, List, [], ◌∷◌, ◌++◌, Option, none, some,
  length, take, drop, get_elem?, set, replicate, min, if◌then◌else◌, ◌==◌, ltb, leb, list_eq,
}

pub record File : Type 0 where
  pub name : List ℕ
  pub bytes : List ℕ

-- `RamFS.files`
abbrev pub RamFs : Type 0
RamFs = List File

-- `FILESYSTEM`: nothing before `vfs::init`.
abbrev pub Filesystem : Type 0
Filesystem = Option RamFs

-- `files.iter().position(|f| f.name == name)`
pub position : List ℕ → RamFs → Option ℕ
position name [] = none
position name (f ∷ fs) = if list_eq f.name name then some 0 else shift (position name fs)
  where
    shift : Option ℕ → Option ℕ
    shift none = none
    shift (some i) = some (suc i)

pub find : List ℕ → RamFs → Option File
find name [] = none
find name (f ∷ fs) = if list_eq f.name name then some f else find name fs

pub has_name : List ℕ → RamFs → Bool
has_name name [] = false
has_name name (f ∷ fs) = if list_eq f.name name then true else has_name name fs

-- `RamFS::create`
pub create_in : RamFs → List ℕ → Bool × RamFs
create_in fs [] = (false, fs)
create_in fs (c ∷ cs) =
    if has_name (c ∷ cs) fs
    then (false, fs)
    else (true, fs ++ record { name = c ∷ cs; bytes = [] } ∷ [])

-- `Vec::remove` at the first file of the name.
pub remove_in : List ℕ → RamFs → Bool × RamFs
remove_in name [] = (false, [])
remove_in name (f ∷ fs) =
    if list_eq f.name name then (true, fs) else ((remove_in name fs).0, f ∷ (remove_in name fs).1)

-- A write through `find_mut`.
pub change_in : (List ℕ → List ℕ) → List ℕ → RamFs → Bool × RamFs
change_in change name [] = (false, [])
change_in change name (f ∷ fs) =
    if list_eq f.name name
    then (true, record f { bytes = change f.bytes } ∷ fs)
    else ((change_in change name fs).0, f ∷ (change_in change name fs).1)

-- `with_fs_mut(..).unwrap_or(false)`
abbrev with_fs_mut : (RamFs → Bool × RamFs) → Filesystem → Bool × Filesystem
with_fs_mut f none = (false, none)
with_fs_mut f (some fs) = ((f fs).0, some (f fs).1)

pub init : Filesystem
init = some []

pub create : List ℕ → Filesystem → Bool × Filesystem
create name = with_fs_mut (λ fs. create_in fs name)

pub remove : List ℕ → Filesystem → Bool × Filesystem
remove name = with_fs_mut (remove_in name)

pub append_all : List ℕ → List ℕ → Filesystem → Bool × Filesystem
append_all name bytes = with_fs_mut (change_in (λ old. old ++ bytes) name)

pub replace_all : List ℕ → List ℕ → Filesystem → Bool × Filesystem
replace_all name bytes = with_fs_mut (change_in (λ old. bytes) name)

pub clone_bytes : List ℕ → Filesystem → Option (List ℕ)
clone_bytes name none = none
clone_bytes name (some fs) = elim (find name fs) [ none ↦ none | some f ↦ some f.bytes ]

-- `start.saturating_add(len)` cannot exceed the later minimum, so the sum is taken in ℕ.
pub read_range : ℕ → ℕ → ℕ → Filesystem → Option (List ℕ)
read_range file_idx offset len none = none
read_range file_idx offset len (some fs) = elim (get_elem? fs file_idx) [
  | none ↦ none
  | some f ↦
      (let start = min offset (length f.bytes) in
        let stop = min (start + len) (length f.bytes) in
        some (take (stop - start) (drop start f.bytes)))
]

pub fs_find_idx : List ℕ → Filesystem → Option ℕ
fs_find_idx name none = none
fs_find_idx name (some fs) = position name fs

pub fs_file_size : ℕ → Filesystem → ℕ
fs_file_size file_idx none = 0
fs_file_size file_idx (some fs) = elim (get_elem? fs file_idx) [
  | none ↦ 0
  | some f ↦ length f.bytes
]

-- The bytes that `fs_read` copies to its buffer; it returns their number.
pub fs_read : ℕ → ℕ → ℕ → Filesystem → List ℕ
fs_read file_idx offset count none = []
fs_read file_idx offset count (some fs) = elim (get_elem? fs file_idx) [
  | none ↦ []
  | some f ↦
      (let to_read = min count (length f.bytes - offset) in
        if to_read == 0 then [] else take to_read (drop offset f.bytes))
]

-- `Vec::resize(len, 0)`
pub resize : ℕ → List ℕ → List ℕ
resize len bytes = take len bytes ++ replicate (len - length bytes) 0

-- `copy_from_slice` into `offset..offset + bytes.len()`
pub splice : ℕ → List ℕ → List ℕ → List ℕ
splice offset new old = take offset old ++ new ++ drop (offset + length new) old

-- The new content of a file under `fs_write_at` when the end of the write does not overflow.
pub written_bytes : ℕ → List ℕ → List ℕ → List ℕ
written_bytes offset new old =
    splice offset new
      (if ltb (length old) (offset + length new) then resize (offset + length new) old else old)

-- A change of the file with an index.
unfoldable pub change_at : ℕ → (List ℕ → List ℕ) → Filesystem → Bool × Filesystem
change_at file_idx change none = (false, none)
change_at file_idx change (some fs) = elim (get_elem? fs file_idx) [
  | none ↦ (false, some fs)
  | some f ↦ (true, some (set fs file_idx (record f { bytes = change f.bytes })))
]

-- `fs_write_at`; it panics, which is none, where the sum `offset + data.len()` overflows.
unfoldable pub fs_write_at : ℕ → ℕ → List ℕ → Filesystem → Option (Bool × Filesystem)
fs_write_at file_idx offset bytes none = some (false, none)
fs_write_at file_idx offset bytes (some fs) = elim (get_elem? fs file_idx) [
  | none ↦ some (false, some fs)
  | some f ↦
      (if leb (2 ^ 64) (offset + length bytes)
        then none
        else some (change_at file_idx (written_bytes offset bytes) (some fs)))
]

pub fs_resize : ℕ → ℕ → Filesystem → Bool × Filesystem
fs_resize file_idx len = change_at file_idx (resize len)
