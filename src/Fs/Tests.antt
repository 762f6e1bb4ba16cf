-- ===== src/Fs/Tests.antt =====
-- Runs of the file system, and the theorems about it at concrete states.
use core_os.Base.{
  ℕ, ◌≡◌, refl, true, false, List, [], ◌∷◌, some, max, replicate, ◌-◌, ◌^◌, drop, none,
}
use core_os.Fs.{
  Filesystem, RamFs, clone_bytes, fs_write_at, fs_read, fs_file_size, written_bytes, change_at,
  resize, splice, create_in, remove_in, change_in, has_name, find,
}
use core_os.Fs.Names.{Op, creates, removes, appends, replaces, step, run, view}
use core_os.Fs.Content.{fs_read-fs_write_at}
use core_os.Fs.Write.{WriteOutcome, fs_write_at-WriteOutcome}
use core_os.Fs.Refinement.{answers, map_answers, run_map, run_refines_map}

abbrev name_a : List ℕ
name_a = b'a' ∷ []

abbrev name_b : List ℕ
name_b = b'b' ∷ []

abbrev two_files : RamFs
two_files =
    record { name = name_a; bytes = 1 ∷ 2 ∷ 3 ∷ [] } ∷ record { name = name_b; bytes = [] } ∷ []

abbrev script : List Op
script =
    creates name_a
    ∷ appends name_b (4 ∷ 5 ∷ [])
    ∷ removes name_a
    ∷ creates name_a
    ∷ replaces name_b (6 ∷ [])
    ∷ []

answers-script : answers (some two_files) script ≡ false ∷ true ∷ true ∷ true ∷ true ∷ []
unfolding answers step create_in remove_in change_in has_name
answers-script = refl

clone_bytes-script : clone_bytes name_b (run (some two_files) script) ≡ some (6 ∷ [])
unfolding clone_bytes run step create_in remove_in change_in has_name find
clone_bytes-script = refl

run_refines_map_example :
    (answers (some two_files) script ≡ map_answers (view two_files) script)
    × ((n : List ℕ)
        → clone_bytes n (run (some two_files) script) ≡ run_map (view two_files) script n)
unfolding has_name
run_refines_map_example = run_refines_map script two_files (refl, (refl, tt))

-- The first file after a write behind its end.
abbrev after_gap : Filesystem
after_gap =
    some (record { name = name_a; bytes = 1 ∷ 2 ∷ 3 ∷ 0 ∷ 0 ∷ 7 ∷ 8 ∷ [] } ∷ drop 1 two_files)

fs_write_at_gap : fs_write_at 0 5 (7 ∷ 8 ∷ []) (some two_files) ≡ some (true, after_gap)
unfolding fs_write_at change_at written_bytes splice resize replicate
fs_write_at_gap = refl

fs_write_at_overflow : fs_write_at 0 (2 ^ 64 - 1) (7 ∷ []) (some two_files) ≡ none
unfolding fs_write_at
fs_write_at_overflow = refl

fs_read-fs_write_at_example :
    (fs_read 0 5 2 after_gap ≡ 7 ∷ 8 ∷ [])
    × (fs_file_size 0 after_gap ≡ max (fs_file_size 0 (some two_files)) 7)
fs_read-fs_write_at_example =
    fs_read-fs_write_at (some two_files) after_gap 0 5 (7 ∷ 8 ∷ []) fs_write_at_gap

fs_write_at-WriteOutcome_example :
    WriteOutcome 0 5 (7 ∷ 8 ∷ []) (some two_files) (fs_write_at 0 5 (7 ∷ 8 ∷ []) (some two_files))
fs_write_at-WriteOutcome_example = fs_write_at-WriteOutcome (some two_files) 0 5 (7 ∷ 8 ∷ [])
