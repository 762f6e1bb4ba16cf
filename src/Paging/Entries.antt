-- ===== src/Paging/Entries.antt =====
-- What the entries of page tables say.
use core_os.Base.{ℕ, ◌%◌, ◌^◌, ◌<◌, ◌≡◌, ◌≢◌, refl, Bool, true, false, arith, ◌==◌}
use core_os.Paging.{
  set_bit, is_present, is_huge, table_of, frame_of, table_entry, page_flags, page_entry, MapFlags,
  slot, write,
}
use core_os.Pmm.{Memory}

pub is_present-zero : is_present 0 ≡ false
unfolding is_present
is_present-zero = refl

pub record TableEntry (t e : ℕ) : Type 0 where
  pub present : is_present e ≡ true
  pub small : is_huge e ≡ false
  pub table : table_of e ≡ t

pub table_entry-TableEntry :
    (t : ℕ) (user : Bool) → t % 4096 ≡ 0 → TableEntry t (table_entry t user)
unfolding table_entry set_bit is_present is_huge table_of
table_entry-TableEntry t user h = ground arith

pub table_of_aligned : (e : ℕ) → table_of e % 4096 ≡ 0
unfolding table_of
table_of_aligned e = omega arith

-- A page's entry has the page's frame, and the permissions asked for.
pub page_entry_lem :
    (phys : ℕ) (flags : MapFlags)
    → phys % 4096 ≡ 0
    → phys < 2 ^ 52
    → (is_present (page_entry phys flags) ≡ true) × (frame_of (page_entry phys flags) ≡ phys)
unfolding page_entry page_flags set_bit is_present frame_of
page_entry_lem phys flags h l = ground arith

-- Entries of different places have different addresses.
pub slot_inj :
    (t u i j : ℕ)
    → t % 4096 ≡ 0
    → u % 4096 ≡ 0
    → i < 512
    → j < 512
    → slot t i ≡ slot u j
    → (t ≡ u) × (i ≡ j)
slot_inj t u i j a b c d e = omega arith

pub write_other : (m : Memory) (a b v : ℕ) → b ≢ a → write m a v b ≡ m b
unfolding write
write_other m a b v ne = ground arith

pub write_same : (m : Memory) (a v : ℕ) → write m a v a ≡ v
unfolding write
write_same m a v = ground arith

pub is_present-ne : (e : ℕ) → is_present e ≡ true → (e == 0) ≡ false
unfolding is_present
is_present-ne e h = ground arith
