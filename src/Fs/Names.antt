-- ===== src/Fs/Names.antt =====
-- The file system by names: it behaves as a finite map from names to contents.
use core_os.Base.{
  ℕ, ◌≡◌, refl, Bool, true, false, not, ◌&&◌, List, [], ◌∷◌, ◌++◌, Option, none, some, arith,
  if◌then◌else◌, list_eq, list_eq_iff,
}
use core_os.Fs.{
  File, RamFs, Filesystem, find, has_name, create_in, remove_in, change_in, create, remove,
  append_all, replace_all, clone_bytes,
}

-- No two files have the same name.
abbrev pub DistinctNames : RamFs → Type 0
DistinctNames [] = Unit {0}
DistinctNames (f ∷ fs) = (has_name f.name fs ≡ false) × DistinctNames fs

-- What the kernel asks of the file system by names.
pub data Op : Type 0 where
  creates removes : List ℕ → Op
  appends replaces : List ℕ → List ℕ → Op

-- The call of vfs.rs.
unfoldable pub step : Filesystem → Op → Bool × Filesystem
unfolding create remove append_all replace_all
step fs (creates name) = create name fs
step fs (removes name) = remove name fs
step fs (appends name bytes) = append_all name bytes fs
step fs (replaces name bytes) = replace_all name bytes fs

unfoldable pub run : Filesystem → List Op → Filesystem
run fs [] = fs
run fs (o ∷ os) = run (step fs o).1 os

-- The specification: a map from names to contents.
abbrev pub NameMap : Type 0
NameMap = List ℕ → Option (List ℕ)

abbrev pub is_empty : List ℕ → Bool
is_empty [] = true
is_empty (c ∷ cs) = false

abbrev pub when_there : Option (List ℕ) → (List ℕ → Option (List ℕ)) → Option (List ℕ)
when_there none f = none
when_there (some b) f = f b

abbrev pub create_entry : Bool → Option (List ℕ) → Option (List ℕ)
create_entry nameless none = if nameless then none else some []
create_entry nameless (some b) = some b

abbrev pub step_map : NameMap → Op → NameMap
step_map m (creates name) n = if list_eq name n then create_entry (is_empty name) (m n) else m n
step_map m (removes name) n = if list_eq name n then none else m n
step_map m (appends name bytes) n =
    if list_eq name n then when_there (m n) (λ old. some (old ++ bytes)) else m n
step_map m (replaces name bytes) n =
    if list_eq name n then when_there (m n) (λ old. some bytes) else m n

-- The operation succeeds: a creation of a new, proper name; any other of a name that is there.
abbrev pub is_there : Option (List ℕ) → Bool
is_there none = false
is_there (some b) = true

abbrev pub succeeds : NameMap → Op → Bool
succeeds m (creates name) = not (is_empty name) && not (is_there (m name))
succeeds m (removes name) = is_there (m name)
succeeds m (appends name bytes) = is_there (m name)
succeeds m (replaces name bytes) = is_there (m name)

abbrev pub view : RamFs → NameMap
view fs n = clone_bytes n (some fs)

view-cons :
    (f : File) (fs : RamFs) (n : List ℕ)
    → view (f ∷ fs) n ≡ (if list_eq f.name n then some f.bytes else view fs n)
unfolding clone_bytes find
view-cons f fs n = ground arith

has_name-view : (n : List ℕ) (fs : RamFs) → has_name n fs ≡ is_there (view fs n)
unfolding has_name clone_bytes find
has_name-view n [] = refl
has_name-view n (f ∷ fs) = ground (arith, has_name-view n fs)

pub change_in-view :
    (change : List ℕ → List ℕ) (m : List ℕ) (fs : RamFs) (n : List ℕ)
    → view (change_in change m fs).1 n
      ≡ (if list_eq m n then when_there (view fs n) (λ old. some (change old)) else view fs n)
unfolding change_in clone_bytes find
change_in-view change m [] n = ground arith
change_in-view change m (f ∷ fs) n = ground (
  arith,
  change_in-view change m fs n,
  list_eq_iff f.name m,
  list_eq_iff f.name n,
  list_eq_iff m n,
)

pub change_in-succeeds :
    (change : List ℕ → List ℕ) (m : List ℕ) (fs : RamFs)
    → (change_in change m fs).0 ≡ is_there (view fs m)
unfolding change_in clone_bytes find
change_in-succeeds change m [] = refl
change_in-succeeds change m (f ∷ fs) = ground (arith, change_in-succeeds change m fs)

append-view :
    (fs : RamFs) (m n : List ℕ)
    → view (fs ++ record { name = m; bytes = [] } ∷ []) n
      ≡ elim (view fs n) [ none ↦ (if list_eq m n then some [] else none) | some b ↦ some b ]
unfolding clone_bytes find
append-view [] m n = ground arith
append-view (f ∷ fs) m n = ground (arith, append-view fs m n)

pub create_in-view :
    (fs : RamFs) (m n : List ℕ) → view (create_in fs m).1 n ≡ step_map (view fs) (creates m) n
unfolding create_in
create_in-view fs [] n = ground arith
create_in-view fs (c ∷ cs) n =
    ground (arith, append-view fs (c ∷ cs) n, has_name-view (c ∷ cs) fs, list_eq_iff (c ∷ cs) n)

pub create_in-succeeds :
    (fs : RamFs) (m : List ℕ) → (create_in fs m).0 ≡ succeeds (view fs) (creates m)
unfolding create_in
create_in-succeeds fs [] = refl
create_in-succeeds fs (c ∷ cs) = ground (arith, has_name-view (c ∷ cs) fs)

pub remove_in-view :
    (m : List ℕ) (fs : RamFs) (n : List ℕ)
    → DistinctNames fs
    → view (remove_in m fs).1 n ≡ (if list_eq m n then none else view fs n)
unfolding remove_in clone_bytes find
remove_in-view m [] n d = ground arith
remove_in-view m (f ∷ fs) n d = ground (
  arith,
  remove_in-view m fs n d.1,
  list_eq_iff f.name m,
  list_eq_iff f.name n,
  list_eq_iff m n,
  has_name-view f.name fs,
)

pub remove_in-succeeds : (m : List ℕ) (fs : RamFs) → (remove_in m fs).0 ≡ is_there (view fs m)
unfolding remove_in clone_bytes find
remove_in-succeeds m [] = refl
remove_in-succeeds m (f ∷ fs) = ground (arith, remove_in-succeeds m fs)
