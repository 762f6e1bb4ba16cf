-- ===== src/Usercopy/Copy.antt =====
-- What is copied out to a program is what is copied in from there.
use core_os.Base.{
  ℕ, zero, suc, ◌+◌, ◌*◌, ◌^◌, ◌≤◌, ◌<◌, ◌≡◌, refl, sym, ap, ap₂, ◌∙◌, true, false, List, [], ◌∷◌,
  ◌++◌, some, arith, if◌then◌else◌, ◌==◌, length, take, drop, Bool-cases, inl, inr, length-append,
  ◌⊎◌,
}
use core_os.Base.Words.{to_bytes, of_bytes, length-to_bytes, of_bytes-to_bytes}
use core_os.Usercopy.{
  UserMem, user_range_ok, load_bytes, store_bytes, copy_from_user, copy_to_user, bytes_of_words,
  words_of_bytes, copy_words_from_user, copy_words_to_user,
}

load_bytes-other :
    (n : ℕ) (m : UserMem) (p q b : ℕ)
    → q < p
    → load_bytes n (λ a. if a == q then b else m a) p ≡ load_bytes n m p
unfolding load_bytes
load_bytes-other zero m p q b l = refl
load_bytes-other (suc n) m p q b l =
    ap₂ (λ (x : ℕ) (xs : List ℕ). x ∷ xs) (ground arith)
      (load_bytes-other n m (p + 1) q b (omega arith))

pub load_bytes-store_bytes :
    (m : UserMem) (p : ℕ) (bs : List ℕ) → load_bytes (length bs) (store_bytes m p bs) p ≡ bs
unfolding load_bytes store_bytes
load_bytes-store_bytes m p [] = refl
load_bytes-store_bytes m p (b ∷ bs) =
    ap₂ (λ (x : ℕ) (xs : List ℕ). x ∷ xs) (ground arith)
      (load_bytes-other (length bs) (store_bytes m (p + 1) bs) (p + 1) p b (omega arith)
        ∙ load_bytes-store_bytes m (p + 1) bs)

-- Bytes outside the copy are left alone.
pub store_bytes-other :
    (m : UserMem) (p : ℕ) (bs : List ℕ) (a : ℕ)
    → (a < p) ⊎ (p + length bs ≤ a)
    → store_bytes m p bs a ≡ m a
unfolding store_bytes
store_bytes-other m p [] a out = refl
store_bytes-other m p (b ∷ bs) a (inl l) =
    let ne : (a == p) ≡ false = ground (arith, l) in
    rw ne (store_bytes-other m (p + 1) bs a (inl (omega arith)))
store_bytes-other m p (b ∷ bs) a (inr l) =
    let ne : (a == p) ≡ false = ground (arith, l) in
    rw ne (store_bytes-other m (p + 1) bs a (inr (omega arith)))

pub load_bytes_same :
    (n : ℕ) (m k : UserMem) (p : ℕ)
    → ((i : ℕ) → i < n → k (p + i) ≡ m (p + i))
    → load_bytes n k p ≡ load_bytes n m p
unfolding load_bytes
load_bytes_same zero m k p h = refl
load_bytes_same (suc n) m k p h =
    ap₂ (λ (x : ℕ) (xs : List ℕ). x ∷ xs)
      (ap k (omega arith) ∙ h 0 (omega arith) ∙ ap m (omega arith))
      (load_bytes_same n m k (p + 1)
        (λ i l. ap k (omega arith) ∙ h (suc i) (omega arith) ∙ ap m (omega arith)))

-- Every word fits 64 bits.
abbrev pub AllWords : List ℕ → Type 0
AllWords [] = Unit {0}
AllWords (w ∷ ws) = (w < 2 ^ 64) × AllWords ws

take-append : (xs ys : List ℕ) → take (length xs) (xs ++ ys) ≡ xs
take-append [] [] = refl
take-append [] (y ∷ ys) = refl
take-append (x ∷ xs) ys = ap (◌∷◌ x) (take-append xs ys)

drop-append : (xs ys : List ℕ) → drop (length xs) (xs ++ ys) ≡ ys
drop-append [] [] = refl
drop-append [] (y ∷ ys) = refl
drop-append (x ∷ xs) ys = drop-append xs ys

pub length-bytes_of_words : (ws : List ℕ) → length (bytes_of_words ws) ≡ length ws * 8
unfolding bytes_of_words
length-bytes_of_words [] = refl
length-bytes_of_words (w ∷ ws) = omega (
  arith,
  length-append (to_bytes 8 w) (bytes_of_words ws),
  length-to_bytes 8 w,
  length-bytes_of_words ws,
)

words_of_bytes-bytes_of_words :
    (ws : List ℕ) → AllWords ws → words_of_bytes (length ws) (bytes_of_words ws) ≡ ws
unfolding words_of_bytes bytes_of_words
words_of_bytes-bytes_of_words [] a = refl
words_of_bytes-bytes_of_words (w ∷ ws) a =
    let eight : length (to_bytes 8 w) ≡ 8 = length-to_bytes 8 w in
    ap₂ (λ (x : ℕ) (xs : List ℕ). x ∷ xs)
      (ap (λ n. of_bytes (take n (to_bytes 8 w ++ bytes_of_words ws))) (sym eight)
        ∙ ap of_bytes (take-append (to_bytes 8 w) (bytes_of_words ws))
        ∙ of_bytes-to_bytes 8 w (omega (arith, a.0)))
      (ap (λ n. words_of_bytes (length ws) (drop n (to_bytes 8 w ++ bytes_of_words ws))) (sym eight)
        ∙ ap (words_of_bytes (length ws)) (drop-append (to_bytes 8 w) (bytes_of_words ws))
        ∙ words_of_bytes-bytes_of_words ws a.1)

-- When a structure of words that fit 64 bits has been copied to a program, copying as many words
-- in from the same address gives the same words.
pub copy_words_from_user-copy_words_to_user :
    (m m1 : UserMem) (ptr : ℕ) (ws : List ℕ)
    → AllWords ws
    → copy_words_to_user m ptr ws ≡ some m1
    → copy_words_from_user (length ws) m1 ptr ≡ some ws
unfolding copy_words_from_user copy_words_to_user copy_from_user copy_to_user
copy_words_from_user-copy_words_to_user m m1 ptr ws a h =
    elim (Bool-cases (user_range_ok ptr (length (bytes_of_words ws)))) [
      | inr bad ↦ absurd (ground (arith, h, bad))
      | inl good ↦
          (let made : some (store_bytes m ptr (bytes_of_words ws)) ≡ some m1 =
              rw (copy_words_to_user, copy_to_user, good) at h in
            let same : store_bytes m ptr (bytes_of_words ws) ≡ m1 = cc made in
            let size = length-bytes_of_words ws in
            let ok : user_range_ok ptr (length ws * 8) ≡ true =
              ap (user_range_ok ptr) (sym size) ∙ good in
            rw (copy_words_from_user, copy_from_user, ok)
              (ap some (
                ap (λ n. words_of_bytes (length ws) (load_bytes n m1 ptr)) (sym size)
                ∙ ap
                    (λ k.
                      words_of_bytes (length ws) (load_bytes (length (bytes_of_words ws)) k ptr))
                    (sym same)
                ∙ ap (words_of_bytes (length ws)) (load_bytes-store_bytes m ptr (bytes_of_words ws))
                ∙ words_of_bytes-bytes_of_words ws a)))
    ]
