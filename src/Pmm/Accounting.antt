-- ===== src/Pmm/Accounting.antt =====
-- The counter of pmm.rs: `free_frames` is the number of frames that the bitmap shows free.
use core_os.Base.{ℕ, suc, ◌+◌, ◌-◌, ◌<◌, ◌≡◌, sym, true, false, arith}
use core_os.Base.Count.{count, count_none, count_flip}
use core_os.Pmm.{Pmm, max_frames, new, set_used, set_free, is_free}
use core_os.Pmm.Bitmap.{
  IsBitmap, new-IsBitmap, set_used-IsBitmap, set_free-IsBitmap, is_free-set_used, is_free-set_free,
  is_free-new,
}

-- A sound allocator: a whole bitmap, and a counter that agrees with it.
pub record IsCounted (p : Pmm) : Type 0 where
  pub whole : IsBitmap p.bitmap
  pub counted : p.free_frames ≡ count (is_free p) max_frames

pub new-IsCounted : IsCounted new
unfolding new
new-IsCounted = record {
  whole = new-IsBitmap;
  counted = sym (count_none (is_free new) max_frames is_free-new);
}

-- Taking a free frame out takes one from the count.
pub count-set_used :
    (p : Pmm) (f : ℕ)
    → IsBitmap p.bitmap
    → f < max_frames
    → is_free p f ≡ true
    → count (is_free p) max_frames ≡ suc (count (is_free (set_used p f)) max_frames)
count-set_used p f v h free =
    count_flip (is_free p) (is_free (set_used p f)) max_frames f h free
      (ground (arith, is_free-set_used p f f v h))
      (λ g ne. ground (arith, is_free-set_used p f g v h))

pub count-set_free :
    (p : Pmm) (f : ℕ)
    → IsBitmap p.bitmap
    → f < max_frames
    → is_free p f ≡ false
    → count (is_free (set_free p f)) max_frames ≡ suc (count (is_free p) max_frames)
count-set_free p f v h used =
    count_flip (is_free (set_free p f)) (is_free p) max_frames f h
      (ground (arith, is_free-set_free p f f v h)) used
      (λ g ne. ground (arith, is_free-set_free p f g v h))

pub take-IsCounted :
    (p : Pmm) (f : ℕ)
    → IsCounted p
    → f < max_frames
    → is_free p f ≡ true
    → IsCounted (record (set_used p f) { free_frames = p.free_frames - 1 })
unfolding is_free
take-IsCounted p f v h free = record {
  whole = set_used-IsBitmap p f v.whole;
  counted = omega (arith, count-set_used p f v.whole h free, v.counted);
}

-- Giving a used frame back, whatever becomes of the total.
pub give-IsCounted :
    (p : Pmm) (f total : ℕ)
    → IsCounted p
    → f < max_frames
    → is_free p f ≡ false
    → IsCounted (record (set_free p f) { free_frames = p.free_frames + 1; total_frames = total })
unfolding is_free
give-IsCounted p f total v h used = record {
  whole = set_free-IsBitmap p f v.whole;
  counted = omega (arith, count-set_free p f v.whole h used, v.counted);
}
