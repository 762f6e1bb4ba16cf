-- ===== src/Paths.antt =====
-- The names of files and the vectors that come from user memory, in
-- kernel/src/syscall/helpers.rs. A name is the characters that the code puts
-- at the start of its buffer, without the buffer's rest.
mod Tests
use core_os.Base.{
  ℕ, zero, suc, ◌+◌, ◌*◌, ◌≤◌, ◌<◌, ◌≡◌, ◌≢◌, ◌↔◌, refl, sym, ap, ◌∙◌, Bool, true, false, not, ◌&&◌,
  ◌||◌, List, [], ◌∷◌, ◌++◌, Option, none, some, arith, length, replicate, length-append,
  Option-cases, ap₂, ltb, ◌==◌, if◌then◌else◌, Bool-cases, inl, inr, ==_iff, ◌⊎◌,
}
use core_os.Usercopy.{UserMem, copy_from_user, copy_word_from_user, copy_words_from_user}

abbrev pub max_path_len : ℕ
max_path_len = 64

abbrev pub slash : ℕ
slash = 47

-- The loop over the leading slashes.
unfoldable pub skip_slashes : List ℕ → List ℕ
skip_slashes [] = []
skip_slashes (b ∷ bs) = let rest = skip_slashes bs in if b == slash then rest else b ∷ bs

-- The loop that copies the name, which stops at a slash.
unfoldable pub copy_name : List ℕ → Option (List ℕ)
copy_name [] = some []
copy_name (b ∷ bs) =
    let rest = copy_name bs in
    if b == slash then none else elim rest [ none ↦ none | some cs ↦ some (b ∷ cs) ]

unfoldable pub normalize_path_bytes : List ℕ → Option (List ℕ)
normalize_path_bytes raw =
    if length raw == 0 || ltb max_path_len (length raw)
    then none
    else elim (skip_slashes raw) [ [] ↦ none | b ∷ bs ↦ copy_name (b ∷ bs) ]

unfoldable pub copy_path_from_user : UserMem → ℕ → ℕ → Option (List ℕ)
copy_path_from_user m path_ptr path_len =
    if path_len == 0 || ltb max_path_len path_len
    then none
    else elim (copy_from_user m path_ptr path_len) [
      | none ↦ none
      | some raw ↦ normalize_path_bytes raw
    ]

-- The loop of `copy_cstr_from_user` over the next `n` bytes; the string goes up to the first zero.
unfoldable pub copy_cstr_bytes : ℕ → UserMem → ℕ → Option (List ℕ)
copy_cstr_bytes zero m p = none
copy_cstr_bytes (suc n) m p =
    let rest = copy_cstr_bytes n m (p + 1) in
    elim (copy_word_from_user 1 m p) [
      | none ↦ none
      | some b ↦ (if b == 0 then some [] else elim rest [ none ↦ none | some bs ↦ some (b ∷ bs) ])
    ]

unfoldable pub copy_cstr_from_user : UserMem → ℕ → Option (List ℕ)
copy_cstr_from_user m path_ptr =
    if path_ptr == 0 then none else copy_cstr_bytes max_path_len m path_ptr

unfoldable pub copy_path_cstr_from_user : UserMem → ℕ → Option (List ℕ)
copy_path_cstr_from_user m path_ptr = elim (copy_cstr_from_user m path_ptr) [
  | none ↦ none
  | some raw ↦ normalize_path_bytes raw
]

abbrev pub max_iov : ℕ
max_iov = 16

unfoldable pub iovecs_of_words : List ℕ → List (ℕ × ℕ)
iovecs_of_words [] = []
iovecs_of_words (base ∷ []) = []
iovecs_of_words (base ∷ len ∷ ws) = (base, len) ∷ iovecs_of_words ws

unfoldable pub copy_iovecs_from_user : UserMem → ℕ → ℕ → Option (List (ℕ × ℕ))
copy_iovecs_from_user m iov_ptr iovcnt =
    if iovcnt == 0 || ltb max_iov iovcnt
    then none
    else elim (copy_words_from_user (iovcnt * 2) m iov_ptr) [
      | none ↦ none
      | some ws ↦ some (iovecs_of_words ws)
    ]

-- No byte of a name is a slash.
abbrev pub NoSlash : List ℕ → Type 0
NoSlash [] = Unit {0}
NoSlash (b ∷ bs) = (b ≢ slash) × NoSlash bs

copy_name-NoSlash : (bs cs : List ℕ) → copy_name bs ≡ some cs → (bs ≡ cs) × NoSlash bs
unfolding copy_name
copy_name-NoSlash [] cs h = (cc h, omega arith)
copy_name-NoSlash (b ∷ bs) cs h = elim (Bool-cases (b == slash)) [
  | inl stop ↦ absurd (cc (rw stop at h))
  | inr go_on ↦ elim (Option-cases (copy_name bs)) [
    | inl bad ↦ absurd (cc (rw (go_on, bad) at h))
    | inr (ds, e) ↦
        (let made : some (b ∷ ds) ≡ some cs = rw (go_on, e) at h in
          let rest = copy_name-NoSlash bs ds e in
          (cc (made, rest.0), (ground (arith, go_on), rest.1)))
  ]
]

NoSlash-copy_name : (bs : List ℕ) → NoSlash bs → copy_name bs ≡ some bs
unfolding copy_name
NoSlash-copy_name [] n = refl
NoSlash-copy_name (b ∷ bs) n =
    let go_on : (b == slash) ≡ false = ground (arith, n.0) in
    rw (copy_name, go_on, NoSlash-copy_name bs n.1) refl

-- The slashes that are skipped.
skip_slashes_lem : (raw : List ℕ) → (k : ℕ) × (raw ≡ replicate k slash ++ skip_slashes raw)
unfolding skip_slashes replicate
skip_slashes_lem [] = (0, refl)
skip_slashes_lem (b ∷ bs) = elim (Bool-cases (b == slash)) [
  | inr stop ↦ (0, rw stop refl)
  | inl skip ↦
      (let rest = skip_slashes_lem bs in
        (
          suc rest.0,
          rw (skip_slashes, skip)
              (ap₂ (λ c (cs : List ℕ). c ∷ cs) ((==_iff b slash).0 skip) rest.1),
        ))
]

skip_slashes-NoSlash :
    (k b : ℕ) (bs : List ℕ) → b ≢ slash → skip_slashes (replicate k slash ++ b ∷ bs) ≡ b ∷ bs
unfolding skip_slashes replicate
skip_slashes-NoSlash zero b bs ne =
    let stop : (b == slash) ≡ false = ground (arith, ne) in rw stop refl
skip_slashes-NoSlash (suc k) b bs ne = skip_slashes-NoSlash k b bs ne

-- A path that names a file: some slashes, and a name without one.
pub record Names (raw name : List ℕ) : Type 0 where
  pub slashes : ℕ
  pub split : raw ≡ replicate slashes slash ++ name
  pub some_name : 0 < length name
  pub clean : NoSlash name
  pub short : length raw ≤ max_path_len

normalize-Names : (raw name : List ℕ) → normalize_path_bytes raw ≡ some name → Names raw name
unfolding normalize_path_bytes
normalize-Names raw name h = elim (Bool-cases (length raw == 0 || ltb max_path_len (length raw))) [
  | inl bad ↦ absurd (cc (rw (normalize_path_bytes, bad) at h))
  | inr good ↦
      go (ground (arith, good)) (skip_slashes raw) refl (rw (normalize_path_bytes, good) at h)
]
  where
    go :
        length raw ≤ max_path_len
        → (r : List ℕ) → skip_slashes raw ≡ r
        → elim r [ [] ↦ none | b ∷ bs ↦ copy_name (b ∷ bs) ] ≡ some name
        → Names raw name
    go l [] e c = absurd (cc c)
    go l (b ∷ bs) e c =
        let n = copy_name-NoSlash (b ∷ bs) name c in
        let k = skip_slashes_lem raw in
        record {
          slashes = k.0;
          split = k.1 ∙ ap (λ (r : List ℕ). replicate k.0 slash ++ r) (e ∙ n.0);
          some_name = rw (← n.0) (omega arith);
          clean = rw (← n.0) n.1;
          short = l;
        }

Names-normalize : (raw name : List ℕ) → Names raw name → normalize_path_bytes raw ≡ some name
unfolding normalize_path_bytes
Names-normalize raw [] d = absurd (omega (arith, d.some_name))
Names-normalize raw (b ∷ bs) d =
    let rest : skip_slashes raw ≡ b ∷ bs =
      ap skip_slashes d.split ∙ skip_slashes-NoSlash d.slashes b bs d.clean.0 in
    let size : length raw ≡ length (replicate d.slashes slash) + suc (length bs) =
      ap length d.split ∙ length-append (replicate d.slashes slash) (b ∷ bs) in
    let good : (length raw == 0 || ltb max_path_len (length raw)) ≡ false =
      ground (arith, size, d.short) in
    rw (normalize_path_bytes, good, rest) (NoSlash-copy_name (b ∷ bs) d.clean)

-- normalize_path_bytes gives a name exactly for a path of at most 64 bytes that is that name after
-- any number of slashes, where the name is not empty and has no slash.
pub normalize_path_bytes_iff :
    (raw name : List ℕ) → (normalize_path_bytes raw ≡ some name) ↔ Names raw name
normalize_path_bytes_iff raw name = (normalize-Names raw name, Names-normalize raw name)
