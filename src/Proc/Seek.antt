-- ===== src/Proc/Seek.antt =====
-- `seek` of kernel/src/proc/fd.rs. Signed words are their bit patterns; a file is shorter than
-- 2 ^ 63 bytes.
use core_os.Base.{
  ℕ, ◌+◌, ◌-◌, ◌%◌, ◌^◌, ◌≤◌, ◌<◌, ◌≡◌, ◌&&◌, ◌||◌, Option, none, some, arith, if◌then◌else◌, ◌==◌,
  ltb, min, max,
}
use core_os.Proc.State.{OpenFile}
use core_os.Proc.Process.{Kernel}
use core_os.Proc.FileIo.{with_fd_mut, flatten}
use core_os.Fs.{Filesystem, fs_file_size}

-- `saturating_add` of two `i64` bit patterns.
unfoldable pub saturating_add : ℕ → ℕ → ℕ
saturating_add a b =
    if ltb a (2 ^ 63) && ltb b (2 ^ 63)
    then min (a + b) (2 ^ 63 - 1)
    else if ltb a (2 ^ 63) || ltb b (2 ^ 63)
    then (a + b) % 2 ^ 64
    else max (a + b - 2 ^ 64) (2 ^ 63)

-- Where `seek` goes; none for another `whence`.
unfoldable pub seek_target : ℕ → ℕ → ℕ → ℕ → Option ℕ
seek_target file_size cur offset whence =
    if whence == 0
    then some offset
    else if whence == 1
    then some (saturating_add cur offset)
    else if whence == 2
    then some (saturating_add file_size offset)
    else none

unfoldable pub seek_open : ℕ → ℕ → OpenFile → Filesystem → Option ℕ × OpenFile × Filesystem
seek_open offset whence of fs =
    elim (seek_target (fs_file_size of.file_idx fs) of.offset offset whence) [
      | none ↦ (none, of, fs)
      | some new_off ↦
          (if ltb new_off (2 ^ 63)
            then (some new_off, record of { offset = new_off }, fs)
            else (none, of, fs))
    ]

unfoldable pub seek : Kernel → Filesystem → ℕ → ℕ → ℕ → Option ℕ × Kernel × Filesystem
seek k fs fd offset whence =
    let r = with_fd_mut k fs fd (seek_open offset whence) in (flatten r.0, r.1, r.2)

-- A move back from a position ends at the difference, or below 0, which `seek` refuses.
pub saturating_add_back :
    (cur d : ℕ)
    → cur < 2 ^ 63
    → 1 ≤ d
    → d ≤ 2 ^ 63
    → ((d ≤ cur) → saturating_add cur (2 ^ 64 - d) ≡ cur - d)
      × ((cur < d) → 2 ^ 63 ≤ saturating_add cur (2 ^ 64 - d))
unfolding saturating_add
saturating_add_back cur d small some_step fits =
    ((λ l. ground (arith, l)), (λ l. ground (arith, l)))
