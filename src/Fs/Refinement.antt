-- ===== src/Fs/Refinement.antt =====
-- Every sequence of operations by name keeps the names distinct and does what the map does.
use core_os.Base.{
  ℕ, ◌≡◌, refl, ap, ap₂, ◌∙◌, fun_ext, Bool, false, ◌||◌, List, [], ◌∷◌, ◌++◌, some, arith,
  Bool-cases, inl, inr, list_eq, list_eq_iff,
}
use core_os.Fs.{RamFs, Filesystem, has_name, create_in, remove_in, change_in, clone_bytes}
use core_os.Fs.Names.{
  DistinctNames, Op, creates, removes, appends, replaces, step, run, NameMap, step_map, succeeds,
  view, change_in-view, change_in-succeeds, create_in-view, create_in-succeeds, remove_in-view,
  remove_in-succeeds,
}

has_name-change_in :
    (change : List ℕ → List ℕ) (m n : List ℕ) (fs : RamFs)
    → has_name n (change_in change m fs).1 ≡ has_name n fs
unfolding has_name change_in
has_name-change_in change m n [] = refl
has_name-change_in change m n (f ∷ fs) = ground (arith, has_name-change_in change m n fs)

change_in-DistinctNames :
    (change : List ℕ → List ℕ) (m : List ℕ) (fs : RamFs)
    → DistinctNames fs
    → DistinctNames (change_in change m fs).1
unfolding change_in
change_in-DistinctNames change m [] d = tt
change_in-DistinctNames change m (f ∷ fs) d =
    ground (arith, has_name-change_in change m f.name fs, change_in-DistinctNames change m fs d.1)

has_name-remove_in :
    (m n : List ℕ) (fs : RamFs) → has_name n fs ≡ false → has_name n (remove_in m fs).1 ≡ false
unfolding has_name remove_in
has_name-remove_in m n [] h = refl
has_name-remove_in m n (f ∷ fs) h = ground (arith, has_name-remove_in m n fs)

remove_in-DistinctNames :
    (m : List ℕ) (fs : RamFs) → DistinctNames fs → DistinctNames (remove_in m fs).1
unfolding remove_in
remove_in-DistinctNames m [] d = tt
remove_in-DistinctNames m (f ∷ fs) d =
    ground (arith, has_name-remove_in m f.name fs d.0, remove_in-DistinctNames m fs d.1)

has_name-append :
    (fs : RamFs) (m n : List ℕ)
    → has_name n (fs ++ record { name = m; bytes = [] } ∷ []) ≡ (has_name n fs || list_eq m n)
unfolding has_name
has_name-append [] m n = ground arith
has_name-append (f ∷ fs) m n = ground (arith, has_name-append fs m n)

append-DistinctNames :
    (fs : RamFs) (m : List ℕ)
    → DistinctNames fs
    → has_name m fs ≡ false
    → DistinctNames (fs ++ record { name = m; bytes = [] } ∷ [])
unfolding has_name
append-DistinctNames [] m d h = (refl, tt)
append-DistinctNames (f ∷ fs) m d h = ground (
  arith,
  has_name-append fs m f.name,
  list_eq_iff f.name m,
  list_eq_iff m f.name,
  append-DistinctNames fs m d.1,
)

create_in-DistinctNames :
    (fs : RamFs) (m : List ℕ) → DistinctNames fs → DistinctNames (create_in fs m).1
unfolding create_in
create_in-DistinctNames fs [] d = d
create_in-DistinctNames fs (c ∷ cs) d = elim (Bool-cases (has_name (c ∷ cs) fs)) [
  | inl taken ↦ rw (taken, create_in) d
  | inr new ↦ rw (new, create_in) (append-DistinctNames fs (c ∷ cs) d new)
]

-- One call: it succeeds exactly when the map says so, changes the map as specified, and keeps the
-- names distinct.
record Refines (fs : RamFs) (o : Op) : Type 0 where
  next : RamFs
  stored : (step (some fs) o).1 ≡ some next
  distinct : DistinctNames next
  answer : (step (some fs) o).0 ≡ succeeds (view fs) o
  map : (n : List ℕ) → view next n ≡ step_map (view fs) o n

step-Refines : (fs : RamFs) (o : Op) → DistinctNames fs → Refines fs o
unfolding step
step-Refines fs (creates name) d = record {
  next = (create_in fs name).1;
  stored = refl;
  distinct = create_in-DistinctNames fs name d;
  answer = create_in-succeeds fs name;
  map = create_in-view fs name;
}
step-Refines fs (removes name) d = record {
  next = (remove_in name fs).1;
  stored = refl;
  distinct = remove_in-DistinctNames name fs d;
  answer = remove_in-succeeds name fs;
  map = λ n. remove_in-view name fs n d;
}
step-Refines fs (appends name bytes) d = record {
  next = (change_in (λ old. old ++ bytes) name fs).1;
  stored = refl;
  distinct = change_in-DistinctNames (λ old. old ++ bytes) name fs d;
  answer = change_in-succeeds (λ old. old ++ bytes) name fs;
  map = change_in-view (λ old. old ++ bytes) name fs;
}
step-Refines fs (replaces name bytes) d = record {
  next = (change_in (λ old. bytes) name fs).1;
  stored = refl;
  distinct = change_in-DistinctNames (λ old. bytes) name fs d;
  answer = change_in-succeeds (λ old. bytes) name fs;
  map = change_in-view (λ old. bytes) name fs;
}

-- The answers of a sequence of calls, from the file system and from the map.
unfoldable pub answers : Filesystem → List Op → List Bool
answers fs [] = []
answers fs (o ∷ os) = (step fs o).0 ∷ answers (step fs o).1 os

pub map_answers : NameMap → List Op → List Bool
map_answers m [] = []
map_answers m (o ∷ os) = succeeds m o ∷ map_answers (step_map m o) os

pub run_map : NameMap → List Op → NameMap
run_map m [] = m
run_map m (o ∷ os) = run_map (step_map m o) os

-- When no two files have the same name, any sequence of calls by name gives the answers of a
-- finite map from names to contents, and leaves the contents of that map.
pub run_refines_map :
    (os : List Op) (fs : RamFs)
    → DistinctNames fs
    → (answers (some fs) os ≡ map_answers (view fs) os)
      × ((n : List ℕ) → clone_bytes n (run (some fs) os) ≡ run_map (view fs) os n)
unfolding answers map_answers run run_map
run_refines_map [] fs d = (refl, λ n. refl)
run_refines_map (o ∷ os) fs d =
    let one = step-Refines fs o d in
    let rest = run_refines_map os one.next one.distinct in
    let same : view one.next ≡ step_map (view fs) o = fun_ext one.map in
    (
      rw one.stored (ap₂ ◌∷◌ one.answer (rest.0 ∙ ap (λ m. map_answers m os) same)),
      λ n. rw one.stored (rest.1 n ∙ ap (λ m. run_map m os n) same),
    )
