-- ===== src/Pmm/Bitmap.antt =====
-- The bitmap of pmm.rs: what setting and clearing a bit does to the view `is_free`.
use core_os.Base.{
  ℕ, ◌-◌, ◌/◌, ◌%◌, ◌^◌, ◌<◌, ◌≡◌, refl, Bool, true, false, not, ◌&&◌, List, arith, bit_and, bit_or,
  length, length-set, length-replicate, get_or, get_or-set, get_or-replicate, get_or_past, set,
  replicate, if◌then◌else◌, ◌==◌, ltb, dec_lt,
}
use core_os.Base.Tables.{holds_below, holds_below_at}
use core_os.Pmm.{Pmm, max_frames, bitmap_bytes, new, set_used, set_free, is_free}

-- `used` and `free` of one bit, tested at every byte and every pair of bit positions.
abbrev same_byte : ℕ → ℕ → ℕ → Bool
same_byte b i j =
    (if i == j
      then not (bit_and (bit_or b (2 ^ i)) (2 ^ j) == 0)
        && (bit_and (bit_and b (0xFF - 2 ^ i)) (2 ^ j) == 0)
      else (bit_and (bit_or b (2 ^ i)) (2 ^ j) == bit_and b (2 ^ j))
        && (bit_and (bit_and b (0xFF - 2 ^ i)) (2 ^ j) == bit_and b (2 ^ j)))

abbrev same_bytes : ℕ → Bool
same_bytes b = holds_below (λ i. holds_below (same_byte b i) 8) 8

abbrev in_range : ℕ → ℕ → Bool
in_range b i = ltb (bit_or b (2 ^ i)) 256 && ltb (bit_and b (0xFF - 2 ^ i)) 256

byte_table : holds_below same_bytes 256 ≡ true
unfolding holds_below
byte_table = refl

byte_range_table : holds_below (λ b. holds_below (in_range b) 8) 256 ≡ true
unfolding holds_below
byte_range_table = refl

same_byte_lem : (b i j : ℕ) → b < 256 → i < 8 → j < 8 → same_byte b i j ≡ true
same_byte_lem b i j hb hi hj =
    let row = holds_below_at same_bytes 256 byte_table b hb in
    holds_below_at (same_byte b i) 8
      (holds_below_at (λ k. holds_below (same_byte b k) 8) 8 row i hi) j hj

byte_range :
    (b i : ℕ) → b < 256 → i < 8 → (bit_or b (2 ^ i) < 256) × (bit_and b (0xFF - 2 ^ i) < 256)
byte_range b i hb hi =
    let row = holds_below_at (λ k. holds_below (in_range k) 8) 256 byte_range_table b hb in
    ground (arith, holds_below_at (in_range b) 8 row i hi)

or_bit :
    (b i j : ℕ)
    → b < 256
    → i < 8
    → j < 8
    → (bit_and (bit_or b (2 ^ i)) (2 ^ j) == 0) ≡ (if i == j then false else bit_and b (2 ^ j) == 0)
or_bit b i j hb hi hj = ground (arith, same_byte_lem b i j hb hi hj)

clear_bit :
    (b i j : ℕ)
    → b < 256
    → i < 8
    → j < 8
    → (bit_and (bit_and b (0xFF - 2 ^ i)) (2 ^ j) == 0)
      ≡ (if i == j then true else bit_and b (2 ^ j) == 0)
clear_bit b i j hb hi hj = ground (arith, same_byte_lem b i j hb hi hj)

-- The bitmap has its full size, and holds bytes.
pub record IsBitmap (bytes : List ℕ) : Type 0 where
  pub size : length bytes ≡ bitmap_bytes
  pub range : (i : ℕ) → get_or bytes i 0 < 256

pub new-IsBitmap : IsBitmap new.bitmap
unfolding new
new-IsBitmap = record {
  size = length-replicate {A = ℕ} bitmap_bytes 0xFF;
  range = λ i. elim (dec_lt i bitmap_bytes) [
    | yes h ↦ rw (get_or-replicate {A = ℕ} bitmap_bytes i 0xFF 0 h) (omega arith)
    | no h ↦
        rw
          (get_or_past (replicate {A = ℕ} bitmap_bytes 0xFF) i 0
            (omega (arith, length-replicate {A = ℕ} bitmap_bytes 0xFF)))
          (omega arith)
  ];
}

write-IsBitmap : (bytes : List ℕ) (i b : ℕ) → IsBitmap bytes → b < 256 → IsBitmap (set bytes i b)
write-IsBitmap bytes i b v h = record {
  size = omega (arith, length-set bytes i b, v.size);
  range = λ j. ground (arith, get_or-set bytes i j b 0, v.range j);
}

pub set_used-IsBitmap : (p : Pmm) (f : ℕ) → IsBitmap p.bitmap → IsBitmap (set_used p f).bitmap
unfolding set_used
set_used-IsBitmap p f v =
    write-IsBitmap p.bitmap (f / 8) _ v
      (byte_range (get_or p.bitmap (f / 8) 0) (f % 8) (v.range (f / 8)) (omega arith)).0

pub set_free-IsBitmap : (p : Pmm) (f : ℕ) → IsBitmap p.bitmap → IsBitmap (set_free p f).bitmap
unfolding set_free
set_free-IsBitmap p f v =
    write-IsBitmap p.bitmap (f / 8) _ v
      (byte_range (get_or p.bitmap (f / 8) 0) (f % 8) (v.range (f / 8)) (omega arith)).1

pub is_free-set_used :
    (p : Pmm) (f g : ℕ)
    → IsBitmap p.bitmap
    → f < max_frames
    → is_free (set_used p f) g ≡ (if f == g then false else is_free p g)
unfolding set_used is_free
is_free-set_used p f g v h = ground (
  arith,
  v.size,
  get_or-set p.bitmap (f / 8) (g / 8) (bit_or (get_or p.bitmap (f / 8) 0) (2 ^ (f % 8))) 0,
  or_bit (get_or p.bitmap (f / 8) 0) (f % 8) (g % 8) (v.range (f / 8)),
)

pub is_free-set_free :
    (p : Pmm) (f g : ℕ)
    → IsBitmap p.bitmap
    → f < max_frames
    → is_free (set_free p f) g ≡ (if f == g then true else is_free p g)
unfolding set_free is_free
is_free-set_free p f g v h = ground (
  arith,
  v.size,
  get_or-set p.bitmap (f / 8) (g / 8) (bit_and (get_or p.bitmap (f / 8) 0) (0xFF - 2 ^ (f % 8))) 0,
  clear_bit (get_or p.bitmap (f / 8) 0) (f % 8) (g % 8) (v.range (f / 8)),
)

full_table : holds_below (λ j. not (bit_and 0xFF (2 ^ j) == 0)) 8 ≡ true
unfolding holds_below
full_table = refl

full_byte : (j : ℕ) → j < 8 → (bit_and 0xFF (2 ^ j) == 0) ≡ false
full_byte j h =
    ground (arith, holds_below_at (λ k. not (bit_and 0xFF (2 ^ k) == 0)) 8 full_table j h)

pub is_free-new : (f : ℕ) → f < max_frames → is_free new f ≡ false
unfolding new is_free
is_free-new f h =
    rw (get_or-replicate {A = ℕ} bitmap_bytes (f / 8) 0xFF 0 (omega arith))
      (full_byte (f % 8) (omega arith))
