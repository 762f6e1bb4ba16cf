-- ===== src/Usercopy/Tests.antt =====
-- Runs of the check of user ranges.
use core_os.Base.{ℕ, ◌^◌, ◌<◌, ◌≡◌, ◌↔◌, ◌+◌, refl, true, false}
use core_os.Usercopy.{user_top, user_range_ok, user_range_ok_iff}

user_range_ok_runs :
    (user_range_ok 0x4000_0000 0x1000 ≡ true)
    × (user_range_ok 0x7fff_ffff_f000 0x1001 ≡ false)
    × (user_range_ok 0x4000_0000 0xffff_ffff_ffff_ffff ≡ false)
unfolding user_range_ok
user_range_ok_runs = (refl, refl, refl)

user_range_ok_iff_example : (user_range_ok 0x4000_0000 0x1000 ≡ true) ↔ (
    (0x4000_0000 < user_top)
    × ((i : ℕ) → i < 0x1000 → (0x4000_0000 + i < 2 ^ 64) × (0x4000_0000 + i < user_top)))
user_range_ok_iff_example = user_range_ok_iff 0x4000_0000 0x1000
