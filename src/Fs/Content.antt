-- ===== src/Fs/Content.antt =====
-- Reading and writing a file by its index: what `fs_write_at`, `fs_resize` and `fs_read` of
-- kernel/src/syscall/fs.rs do to each byte.
use core_os.Base.{
  ℕ, zero, suc, ◌+◌, ◌-◌, ◌^◌, ◌≤◌, ◌≡◌, refl, sym, ap, ap₂, ◌∙◌, true, ◌&&◌, List, [], ◌∷◌, ◌++◌,
  none, some, arith, length, length-append, length-take, length-drop, length-replicate, take, drop,
  get_elem?, get_or, get_or_past, set, replicate, get_or-replicate, min, max, if◌then◌else◌, ltb,
  leb, Bool-cases, Option-cases, inl, inr, dec_lt,
}
use core_os.Fs.{
  File, RamFs, Filesystem, resize, splice, written_bytes, change_at, fs_write_at, fs_read,
  fs_file_size,
}

get_or-append :
    (xs ys : List ℕ) (i : ℕ)
    → get_or (xs ++ ys) i 0
      ≡ (if ltb i (length xs) then get_or xs i 0 else get_or ys (i - length xs) 0)
get_or-append [] ys i = let same : i - 0 ≡ i = omega arith in rw same (ground arith)
get_or-append (x ∷ xs) ys zero = ground arith
get_or-append (x ∷ xs) ys (suc i) = ground (arith, get_or-append xs ys i)

get_or-take :
    (n : ℕ) (xs : List ℕ) (i : ℕ) → get_or (take n xs) i 0 ≡ (if ltb i n then get_or xs i 0 else 0)
get_or-take zero xs i = ground arith
get_or-take (suc n) [] i = ground arith
get_or-take (suc n) (x ∷ xs) zero = ground arith
get_or-take (suc n) (x ∷ xs) (suc i) = ground (arith, get_or-take n xs i)

get_or-drop : (n : ℕ) (xs : List ℕ) (i : ℕ) → get_or (drop n xs) i 0 ≡ get_or xs (n + i) 0
get_or-drop zero xs i = let same : 0 + i ≡ i = omega arith in rw same refl
get_or-drop (suc n) [] i = refl
get_or-drop (suc n) (x ∷ xs) i =
    let same : suc n + i ≡ suc (n + i) = omega arith in rw same (get_or-drop n xs i)

get_or-zeroes : (n i : ℕ) → get_or (replicate {A = ℕ} n 0) i 0 ≡ 0
get_or-zeroes n i = elim (dec_lt i n) [
  | yes h ↦ get_or-replicate {A = ℕ} n i 0 0 h
  | no h ↦ get_or_past (replicate {A = ℕ} n 0) i 0 (omega (arith, length-replicate {A = ℕ} n 0))
]

-- Two lists of the same length with the same elements are the same.
list_ext :
    (xs ys : List ℕ) → length xs ≡ length ys → ((i : ℕ) → get_or xs i 0 ≡ get_or ys i 0) → xs ≡ ys
list_ext [] [] e h = refl
list_ext [] (y ∷ ys) e h = absurd (omega arith)
list_ext (x ∷ xs) [] e h = absurd (omega arith)
list_ext (x ∷ xs) (y ∷ ys) e h = ap₂ ◌∷◌ (h 0) (list_ext xs ys (omega arith) (λ i. h (suc i)))

-- `Vec::resize` cuts or fills with zeroes.
pub resize_lem :
    (len : ℕ) (old : List ℕ)
    → (length (resize len old) ≡ len)
      × ((i : ℕ) → get_or (resize len old) i 0 ≡ (if ltb i len then get_or old i 0 else 0))
unfolding resize
resize_lem len old = (
  omega (
    arith,
    length-append (take len old) (replicate (len - length old) 0),
    length-take len old,
    length-replicate {A = ℕ} (len - length old) 0,
  ),
  λ i. ground (
    arith,
    get_or-append (take len old) (replicate (len - length old) 0) i,
    length-take len old,
    get_or-take len old i,
    get_or-zeroes (len - length old) (i - length (take len old)),
    get_or_past old i 0,
  ),
)

splice_lem :
    (offset : ℕ) (new old : List ℕ)
    → offset + length new ≤ length old
    → (length (splice offset new old) ≡ length old)
      × ((i : ℕ)
          → get_or (splice offset new old) i 0 ≡ (
              if leb offset i && ltb i (offset + length new)
              then get_or new (i - offset) 0
              else get_or old i 0))
unfolding splice
splice_lem offset new old h =
    let front = take offset old in
    let back = drop (offset + length new) old in
    let front_length = length-take offset old in
    let both = length-append front new in
    (
      omega (
        arith,
        length-append (front ++ new) back,
        both,
        front_length,
        length-drop (offset + length new) old,
      ),
      λ i. ground (
        arith,
        both,
        front_length,
        get_or-append (front ++ new) back i,
        get_or-append front new i,
        get_or-take offset old i,
        get_or-drop (offset + length new) old (i - length (front ++ new)),
        ap (λ k. get_or old k 0) {x = offset + length new + (i - length (front ++ new))} {y = i},
      ),
    )

-- A write changes the bytes it covers, fills a gap with zeroes, and keeps every other byte.
pub written_bytes_lem :
    (offset : ℕ) (new old : List ℕ)
    → (length (written_bytes offset new old) ≡ max (length old) (offset + length new))
      × ((i : ℕ)
          → get_or (written_bytes offset new old) i 0 ≡ (
              if leb offset i && ltb i (offset + length new)
              then get_or new (i - offset) 0
              else get_or old i 0))
unfolding written_bytes
written_bytes_lem offset new old = elim (Bool-cases (ltb (length old) (offset + length new))) [
  | inl grows ↦
      (let longer = resize_lem (offset + length new) old in
        let done =
          splice_lem offset new (resize (offset + length new) old) (omega (arith, longer.0)) in
        rw (grows, written_bytes)
          (
            ground (arith, done.0, longer.0),
            λ i. ground (arith, done.1 i, longer.1 i, get_or_past old i 0),
          ))
  | inr fits ↦
      (let done = splice_lem offset new old (ground arith) in
        rw (fits, written_bytes) (ground (arith, done.0), done.1))
]

-- What was written is what is read back.
read_back :
    (offset : ℕ) (new old : List ℕ)
    → take (length new) (drop offset (written_bytes offset new old)) ≡ new
read_back offset new old =
    let done = written_bytes_lem offset new old in
    list_ext _ _
      (omega (
        arith,
        done.0,
        length-take (length new) (drop offset (written_bytes offset new old)),
        length-drop offset (written_bytes offset new old),
      ))
      (λ i. ground (
        arith,
        get_or-take (length new) (drop offset (written_bytes offset new old)) i,
        get_or-drop offset (written_bytes offset new old) i,
        done.1 (offset + i),
        get_or_past new i 0,
        ap (λ k. get_or new k 0) {x = offset + i - offset} {y = i},
      ))

pub get_elem?-set_lem :
    (fs : RamFs) (i : ℕ) (f g : File) → get_elem? fs i ≡ some f → get_elem? (set fs i g) i ≡ some g
get_elem?-set_lem [] i f g e = cc
get_elem?-set_lem (h ∷ fs) zero f g e = refl
get_elem?-set_lem (h ∷ fs) (suc i) f g e = get_elem?-set_lem fs i f g e

take-min : (n : ℕ) (xs : List ℕ) → take (min n (length xs)) xs ≡ take n xs
take-min zero xs = let none_left : min 0 (length xs) ≡ 0 = omega arith in rw none_left refl
take-min (suc n) [] = let none_left : min (suc n) 0 ≡ 0 = omega arith in rw none_left refl
take-min (suc n) (x ∷ xs) =
    let more : min (suc n) (suc (length xs)) ≡ suc (min n (length xs)) = omega arith in
    rw more (ap (◌∷◌ x) (take-min n xs))

-- `fs_read` gives the part of the file that lies in the range that is asked for.
pub fs_read_lem :
    (fs : RamFs) (i offset count : ℕ) (f : File)
    → get_elem? fs i ≡ some f
    → fs_read i offset count (some fs) ≡ take count (drop offset f.bytes)
unfolding fs_read
fs_read_lem fs i offset count f e =
    rw (e, fs_read)
      (ground (
        arith,
        take-min count (drop offset f.bytes),
        length-drop offset f.bytes,
        ap (λ n. take n (drop offset f.bytes)) {x = min count (length f.bytes - offset)} {y = 0},
      ))

size_of :
    (fs : RamFs) (i : ℕ) (f : File)
    → get_elem? fs i ≡ some f
    → fs_file_size i (some fs) ≡ length f.bytes
unfolding fs_file_size
size_of fs i f e = rw (e, fs_file_size) refl

pub change_at-stored :
    (fs : RamFs) (i : ℕ) (f : File) (change : List ℕ → List ℕ)
    → get_elem? fs i ≡ some f
    → change_at i change (some fs) ≡ (true, some (set fs i (record f { bytes = change f.bytes })))
unfolding change_at
change_at-stored fs i f change e = rw (change_at, e) refl

-- When fs_write_at succeeds, what it puts into a file is what fs_read takes out there, and the
-- size is the larger of the old one and the end of the write.
pub fs_read-fs_write_at :
    (fs fs1 : Filesystem) (i offset : ℕ) (new : List ℕ)
    → fs_write_at i offset new fs ≡ some (true, fs1)
    → (fs_read i offset (length new) fs1 ≡ new)
      × (fs_file_size i fs1 ≡ max (fs_file_size i fs) (offset + length new))
unfolding fs_write_at
fs_read-fs_write_at none fs1 i offset new h = absurd (cc h)
fs_read-fs_write_at (some fs) fs1 i offset new h = elim (Option-cases (get_elem? fs i)) [
  | inl e ↦ absurd (cc (rw (fs_write_at, e) at h))
  | inr (f, e) ↦ elim (Bool-cases (leb (2 ^ 64) (offset + length new))) [
    | inl past ↦ absurd (cc (rw (fs_write_at, e, past) at h))
    | inr fits ↦
        (let g : File = record f { bytes = written_bytes offset new f.bytes } in
          let stored = get_elem?-set_lem fs i f g e in
          let made : some (true, some (set fs i g)) ≡ some (true, fs1) =
            rw (fs_write_at, e, fits, change_at-stored fs i f (written_bytes offset new) e) at h in
          let same : some (set fs i g) ≡ fs1 = cc made in
          rw (sym same) (
            fs_read_lem (set fs i g) i offset (length new) g stored ∙ read_back offset new f.bytes,
            size_of (set fs i g) i g stored
                ∙ (written_bytes_lem offset new f.bytes).0
                ∙ ap (λ n. max n (offset + length new)) (sym (size_of fs i f e)),
          ))
  ]
]
