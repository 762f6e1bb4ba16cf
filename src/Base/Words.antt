-- ===== src/Base/Words.antt =====
-- The bits of machine words, and words as bytes with the lowest first.
use core_os.Base.{
  ℕ, zero, suc, ◌+◌, ◌-◌, ◌*◌, ◌/◌, ◌%◌, ◌^◌, ◌≤◌, ◌<◌, ◌≡◌, refl, ap, ◌∙◌, List, [], ◌∷◌, arith,
  if◌then◌else◌, ◌==◌, length, min, max,
}
use native.Mathlib.Nat.{pow-suc}

-- `(x >> k) & 1`
unfoldable pub nth_bit : ℕ → ℕ → ℕ
nth_bit x zero = x % 2
nth_bit x (suc k) = nth_bit (x / 2) k

-- `x | (1 << k)` and `x & !(1 << k)`
unfoldable pub or_bit : ℕ → ℕ → ℕ
or_bit x zero = x / 2 * 2 + 1
or_bit x (suc k) = or_bit (x / 2) k * 2 + x % 2

unfoldable pub drop_bit : ℕ → ℕ → ℕ
drop_bit x zero = x / 2 * 2
drop_bit x (suc k) = drop_bit (x / 2) k * 2 + x % 2

-- `x | y` and `x & !y` on words of `n` bits
unfoldable pub or_word : ℕ → ℕ → ℕ → ℕ
or_word zero x y = 0
or_word (suc n) x y = or_word n (x / 2) (y / 2) * 2 + max (x % 2) (y % 2)

unfoldable pub and_not_word : ℕ → ℕ → ℕ → ℕ
and_not_word zero x y = 0
and_not_word (suc n) x y = and_not_word n (x / 2) (y / 2) * 2 + min (x % 2) (1 - y % 2)

pub nth_bit-or_bit : (x k j : ℕ) → nth_bit (or_bit x k) j ≡ (if k == j then 1 else nth_bit x j)
unfolding nth_bit or_bit
nth_bit-or_bit x zero zero = ground arith
nth_bit-or_bit x zero (suc j) =
    let half : (x / 2 * 2 + 1) / 2 ≡ x / 2 = omega arith in
    ap (λ y. nth_bit y j) half ∙ ground arith
nth_bit-or_bit x (suc k) zero = ground arith
nth_bit-or_bit x (suc k) (suc j) =
    ap (λ y. nth_bit y j) (omega arith) ∙ nth_bit-or_bit (x / 2) k j ∙ ground arith

pub nth_bit-drop_bit : (x k j : ℕ) → nth_bit (drop_bit x k) j ≡ (if k == j then 0 else nth_bit x j)
unfolding nth_bit drop_bit
nth_bit-drop_bit x zero zero = ground arith
nth_bit-drop_bit x zero (suc j) =
    let half : x / 2 * 2 / 2 ≡ x / 2 = omega arith in ap (λ y. nth_bit y j) half ∙ ground arith
nth_bit-drop_bit x (suc k) zero = ground arith
nth_bit-drop_bit x (suc k) (suc j) =
    ap (λ y. nth_bit y j) (omega arith) ∙ nth_bit-drop_bit (x / 2) k j ∙ ground arith

pub nth_bit-or_word :
    (n x y j : ℕ) → j < n → nth_bit (or_word n x y) j ≡ max (nth_bit x j) (nth_bit y j)
unfolding nth_bit or_word
nth_bit-or_word zero x y j l = absurd (omega arith)
nth_bit-or_word (suc n) x y zero l = omega arith
nth_bit-or_word (suc n) x y (suc j) l =
    ap (λ z. nth_bit z j) (omega arith) ∙ nth_bit-or_word n (x / 2) (y / 2) j (omega arith)

pub nth_bit-and_not_word :
    (n x y j : ℕ) → j < n → nth_bit (and_not_word n x y) j ≡ min (nth_bit x j) (1 - nth_bit y j)
unfolding nth_bit and_not_word
nth_bit-and_not_word zero x y j l = absurd (omega arith)
nth_bit-and_not_word (suc n) x y zero l = omega arith
nth_bit-and_not_word (suc n) x y (suc j) l =
    ap (λ z. nth_bit z j) (omega arith) ∙ nth_bit-and_not_word n (x / 2) (y / 2) j (omega arith)

pub nth_bit_le_one : (x k : ℕ) → nth_bit x k ≤ 1
unfolding nth_bit
nth_bit_le_one x zero = omega arith
nth_bit_le_one x (suc k) = nth_bit_le_one (x / 2) k

pub nth_bit-zero : (k : ℕ) → nth_bit 0 k ≡ 0
unfolding nth_bit
nth_bit-zero zero = refl
nth_bit-zero (suc k) = nth_bit-zero k

-- The `n` bytes of a word, and the word of some bytes.
unfoldable pub to_bytes : ℕ → ℕ → List ℕ
to_bytes zero w = []
to_bytes (suc n) w = w % 256 ∷ to_bytes n (w / 256)

unfoldable pub of_bytes : List ℕ → ℕ
of_bytes [] = 0
of_bytes (b ∷ bs) = b + of_bytes bs * 256

pub length-to_bytes : (n w : ℕ) → length (to_bytes n w) ≡ n
unfolding to_bytes
length-to_bytes zero w = refl
length-to_bytes (suc n) w = ap suc (length-to_bytes n (w / 256))

pub of_bytes-to_bytes : (n w : ℕ) → w < 256 ^ n → of_bytes (to_bytes n w) ≡ w
unfolding of_bytes to_bytes
of_bytes-to_bytes zero w l = omega (arith, l)
of_bytes-to_bytes (suc n) w l =
    let smaller : w / 256 < 256 ^ n = omega (arith, l, pow-suc 256 n) in
    omega (arith, of_bytes-to_bytes n (w / 256) smaller)
