-- ===== src/Usercopy.antt =====
-- kernel/src/usercopy.rs, and the copies of structures in kernel/src/syscall/helpers.rs. The memory
-- of the running program is a function from addresses to bytes: every page of the user half is
-- taken to be there, since a fault of the kernel in a copy stops the machine.
pub mod Copy
mod Tests
use core_os.Base.{
  ℕ, zero, suc, ◌+◌, ◌-◌, ◌*◌, ◌^◌, ◌≤◌, ◌<◌, ◌≡◌, ◌↔◌, refl, Bool, true, false, ◌&&◌, List, [],
  ◌∷◌, ◌++◌, Option, none, some, arith, ltb, leb, dec_lt, if◌then◌else◌, ◌==◌, length, take, drop,
}
use core_os.Base.Words.{to_bytes, of_bytes}

abbrev pub UserMem : Type 0
UserMem = ℕ → ℕ

abbrev pub user_top : ℕ
user_top = 0x8000_0000_0000

-- `checked_add` is none past the last address.
unfoldable pub user_range_ok : ℕ → ℕ → Bool
user_range_ok ptr len = ltb ptr user_top && (ltb (ptr + len) (2 ^ 64) && leb (ptr + len) user_top)

-- The two calls of `copy_nonoverlapping`.
unfoldable pub load_bytes : ℕ → UserMem → ℕ → List ℕ
load_bytes zero m p = []
load_bytes (suc n) m p = m p ∷ load_bytes n m (p + 1)

unfoldable pub store_bytes : UserMem → ℕ → List ℕ → UserMem
store_bytes m p [] = m
store_bytes m p (b ∷ bs) = λ a. if a == p then b else store_bytes m (p + 1) bs a

unfoldable pub copy_from_user : UserMem → ℕ → ℕ → Option (List ℕ)
copy_from_user m src len = if user_range_ok src len then some (load_bytes len m src) else none

unfoldable pub copy_to_user : UserMem → ℕ → List ℕ → Option UserMem
copy_to_user m dst src =
    if user_range_ok dst (length src) then some (store_bytes m dst src) else none

-- A structure of 64-bit words.
unfoldable pub bytes_of_words : List ℕ → List ℕ
bytes_of_words [] = []
bytes_of_words (w ∷ ws) = to_bytes 8 w ++ bytes_of_words ws

unfoldable pub words_of_bytes : ℕ → List ℕ → List ℕ
words_of_bytes zero bs = []
words_of_bytes (suc n) bs = of_bytes (take 8 bs) ∷ words_of_bytes n (drop 8 bs)

-- `copy_struct_from_user` and `copy_struct_to_user`, of a structure of 64-bit words and of a word
-- of `n` bytes.
unfoldable pub copy_words_from_user : ℕ → UserMem → ℕ → Option (List ℕ)
copy_words_from_user n m ptr = elim (copy_from_user m ptr (n * 8)) [
  | none ↦ none
  | some bs ↦ some (words_of_bytes n bs)
]

unfoldable pub copy_words_to_user : UserMem → ℕ → List ℕ → Option UserMem
copy_words_to_user m ptr ws = copy_to_user m ptr (bytes_of_words ws)

unfoldable pub copy_word_from_user : ℕ → UserMem → ℕ → Option ℕ
copy_word_from_user n m ptr = elim (copy_from_user m ptr n) [
  | none ↦ none
  | some bs ↦ some (of_bytes bs)
]

unfoldable pub copy_word_to_user : ℕ → UserMem → ℕ → ℕ → Option UserMem
copy_word_to_user n m ptr w = copy_to_user m ptr (to_bytes n w)

-- user_range_ok accepts a range exactly when its first address and the addresses of all its bytes
-- are below the top of the user half, without wrapping at 2 ^ 64.
pub user_range_ok_iff :
    (ptr len : ℕ)
    → (user_range_ok ptr len ≡ true)
      ↔ ((ptr < user_top) × ((i : ℕ) → i < len → (ptr + i < 2 ^ 64) × (ptr + i < user_top)))
unfolding user_range_ok
user_range_ok_iff ptr len = (there, back)
  where
    there :
        user_range_ok ptr len ≡ true
        → (ptr < user_top) × ((i : ℕ) → i < len → (ptr + i < 2 ^ 64) × (ptr + i < user_top))
    there h = (ground (arith, h), λ i l. (ground (arith, h), ground (arith, h)))

    back :
        (ptr < user_top) × ((i : ℕ) → i < len → (ptr + i < 2 ^ 64) × (ptr + i < user_top))
        → user_range_ok ptr len ≡ true
    back (a, b) = elim (dec_lt 0 len) [
      | yes l ↦ (let last = (b (len - 1) (omega arith)).1 in ground (arith, last, a))
      | no l ↦ ground (arith, a)
    ]
