-- ===== src/Paths/Tests.antt =====
-- Runs of the names of files, and the theorem about them at a concrete path.
use core_os.Base.{◌≡◌, ◌↔◌, refl, [], ◌∷◌, none, some}
use core_os.Paths.{Names, normalize_path_bytes, skip_slashes, copy_name, normalize_path_bytes_iff}

normalize_path_bytes_runs :
    (normalize_path_bytes (b'/' ∷ b'/' ∷ b'a' ∷ b'b' ∷ []) ≡ some (b'a' ∷ b'b' ∷ []))
    × (normalize_path_bytes (b'a' ∷ b'/' ∷ b'b' ∷ []) ≡ none)
    × (normalize_path_bytes (b'/' ∷ []) ≡ none)
unfolding normalize_path_bytes skip_slashes copy_name
normalize_path_bytes_runs = (refl, refl, refl)

normalize_path_bytes_iff_example :
    (normalize_path_bytes (b'/' ∷ b'a' ∷ []) ≡ some (b'a' ∷ []))
    ↔ Names (b'/' ∷ b'a' ∷ []) (b'a' ∷ [])
normalize_path_bytes_iff_example = normalize_path_bytes_iff (b'/' ∷ b'a' ∷ []) (b'a' ∷ [])
