-- ===== src/Sys/Masks.antt =====
-- Which signals a set holds after the operations on sets, and what rt_sigprocmask does to the mask.
use core_os.Base.{
  ℕ, zero, suc, ◌-◌, ◌≤◌, ◌<◌, ◌≡◌, ◌≢◌, refl, ap, ◌∙◌, Bool, false, not, ◌&&◌, ◌||◌, [], ◌∷◌,
  arith, get_or, set, length, if◌then◌else◌, ◌==◌, ℕ_discrete, get_or-set, get_or_past, dec_lt,
  length-set, max, min,
}
use core_os.Base.Words.{
  nth_bit, drop_bit, nth_bit-drop_bit, nth_bit-or_word, nth_bit-and_not_word, nth_bit_le_one,
  nth_bit-zero,
}
use core_os.Proc.State.{SigSet}
use core_os.Sys.{
  sig_word, sig_pos, sigkill, sigset_contains, sigset_remove, sanitize_sigmask, or_sets,
  and_not_sets,
}
use core_os.Sys.Kill.{How, block, unblock, setmask, combine, changed_mask}

same_signal : (a b : ℕ) → 1 ≤ a → 1 ≤ b → sig_word a ≡ sig_word b → sig_pos a ≡ sig_pos b → a ≡ b
same_signal a b x y w p = omega arith

pub apart :
    (a b : ℕ) → 1 ≤ a → 1 ≤ b → a ≢ b → (sig_word a == sig_word b && sig_pos a == sig_pos b) ≡ false
apart a b x y ne = elim (ℕ_discrete (sig_word a) (sig_word b)) [
  | no far ↦ ground (arith, far)
  | yes w ↦ elim (ℕ_discrete (sig_pos a) (sig_pos b)) [
    | yes p ↦ absurd (ne (same_signal a b x y w p))
    | no far ↦ ground (arith, far)
  ]
]

remove-bit :
    (bits : SigSet) (w k v j : ℕ)
    → nth_bit (get_or (set bits w (drop_bit (get_or bits w 0) k)) v 0) j
      ≡ (if w == v && k == j then 0 else nth_bit (get_or bits v 0) j)
remove-bit bits w k v j = elim (dec_lt w (length bits)) [
  | yes l ↦ elim (ℕ_discrete w v) [
    | yes e ↦ rw (← e) (
        ap (λ x. nth_bit x j)
          (get_or-set bits w w (drop_bit (get_or bits w 0) k) 0 ∙ ground (arith, l))
        ∙ nth_bit-drop_bit (get_or bits w 0) k j
        ∙ ground arith)
    | no ne ↦
        (let same : get_or (set bits w (drop_bit (get_or bits w 0) k)) v 0 ≡ get_or bits v 0 =
            get_or-set bits w v (drop_bit (get_or bits w 0) k) 0 ∙ ground (arith, ne) in
          rw same (ground (arith, ne)))
  ]
  | no far ↦ elim (ℕ_discrete w v) [
    | yes e ↦ rw (← e) (
        ap (λ x. nth_bit x j)
          (get_or_past (set bits w (drop_bit (get_or bits w 0) k)) w 0
            (omega (arith, length-set bits w (drop_bit (get_or bits w 0) k))))
        ∙ nth_bit-zero j
        ∙ gone w far)
    | no ne ↦
        (let same : get_or (set bits w (drop_bit (get_or bits w 0) k)) v 0 ≡ get_or bits v 0 =
            get_or-set bits w v (drop_bit (get_or bits w 0) k) 0 ∙ ground (arith, ne) in
          rw same (ground (arith, ne)))
  ]
]
  where
    gone :
        (u : ℕ)
        → ¬ (u < length bits)
        → 0 ≡ (if u == u && k == j then 0 else nth_bit (get_or bits u 0) j)
    gone u l =
        let nothing : nth_bit (get_or bits u 0) j ≡ 0 =
          ap (λ x. nth_bit x j) (get_or_past bits u 0 (omega arith)) ∙ nth_bit-zero j in
        rw nothing (ground arith)

pub sigset_contains-sigset_remove :
    (bits : SigSet) (sig i : ℕ)
    → 1 ≤ sig
    → 1 ≤ i
    → sigset_contains (sigset_remove bits sig) i
      ≡ (if sig == i then false else sigset_contains bits i)
unfolding sigset_contains sigset_remove
sigset_contains-sigset_remove bits sig i x y = elim (ℕ_discrete sig i) [
  | yes e ↦
      rw
        (
          sigset_contains,
          sigset_remove,
          remove-bit bits (sig_word sig) (sig_pos sig) (sig_word i) (sig_pos i),
        )
        (rw e (ground arith))
  | no ne ↦
      rw
        (
          sigset_contains,
          sigset_remove,
          remove-bit bits (sig_word sig) (sig_pos sig) (sig_word i) (sig_pos i),
          apart sig i x y ne,
        )
        (ground (arith, ne))
]

or_sets-bit :
    (d s : SigSet) (w j : ℕ)
    → j < 64
    → length s ≤ length d
    → nth_bit (get_or (or_sets d s) w 0) j
      ≡ max (nth_bit (get_or d w 0) j) (nth_bit (get_or s w 0) j)
unfolding or_sets
or_sets-bit [] [] w j l m = rw (nth_bit-zero j) refl
or_sets-bit [] (x ∷ s) w j l m = absurd (omega (arith, m))
or_sets-bit (y ∷ d) [] w j l m = rw (nth_bit-zero j) (omega arith)
or_sets-bit (y ∷ d) (x ∷ s) zero j l m = nth_bit-or_word 64 y x j l
or_sets-bit (y ∷ d) (x ∷ s) (suc w) j l m = or_sets-bit d s w j l (omega arith)

and_not_sets-bit :
    (d s : SigSet) (w j : ℕ)
    → j < 64
    → nth_bit (get_or (and_not_sets d s) w 0) j
      ≡ min (nth_bit (get_or d w 0) j) (1 - nth_bit (get_or s w 0) j)
unfolding and_not_sets
and_not_sets-bit [] s w j l = rw (nth_bit-zero j) (omega arith)
and_not_sets-bit (y ∷ d) [] w j l =
    rw (nth_bit-zero j) (omega (arith, nth_bit_le_one (get_or (y ∷ d) w 0) j))
and_not_sets-bit (y ∷ d) (x ∷ s) zero j l = nth_bit-and_not_word 64 y x j l
and_not_sets-bit (y ∷ d) (x ∷ s) (suc w) j l = and_not_sets-bit d s w j l

contains-or_sets :
    (d s : SigSet) (i : ℕ)
    → length s ≤ length d
    → sigset_contains (or_sets d s) i ≡ (sigset_contains d i || sigset_contains s i)
unfolding sigset_contains
contains-or_sets d s i m =
    rw (sigset_contains, or_sets-bit d s (sig_word i) (sig_pos i) (omega arith) m) (ground arith)

contains-and_not_sets :
    (d s : SigSet) (i : ℕ)
    → sigset_contains (and_not_sets d s) i ≡ (sigset_contains d i && not (sigset_contains s i))
unfolding sigset_contains
contains-and_not_sets d s i =
    let a = nth_bit_le_one (get_or d (sig_word i) 0) (sig_pos i) in
    let b = nth_bit_le_one (get_or s (sig_word i) 0) (sig_pos i) in
    rw (sigset_contains, and_not_sets-bit d s (sig_word i) (sig_pos i) (omega arith))
      (ground (arith, a, b))

length-sigset_remove : (bits : SigSet) (sig : ℕ) → length (sigset_remove bits sig) ≡ length bits
unfolding sigset_remove
length-sigset_remove bits sig = length-set bits (sig_word sig) _

-- What each way of changing a mask asks of a signal.
abbrev pub wanted : How → Bool → Bool → Bool
wanted block held given = held || given
wanted unblock held given = held && not given
wanted setmask held given = given

contains-combine :
    (how : How) (mask given : SigSet) (i : ℕ)
    → length given ≤ length mask
    → sigset_contains (combine how mask given) i
      ≡ wanted how (sigset_contains mask i) (sigset_contains given i)
unfolding combine
contains-combine block mask given i m = contains-or_sets mask given i m
contains-combine unblock mask given i m = contains-and_not_sets mask given i
contains-combine setmask mask given i m = refl

-- After a change of a mask by a set that is no longer than it, the mask holds a signal from 1 on
-- exactly if it is not SIGKILL and SIG_BLOCK finds it in the mask or the set, SIG_UNBLOCK in the
-- mask and not in the set, SIG_SETMASK in the set.
pub changed_mask-contains :
    (how : How) (mask given : SigSet) (i : ℕ)
    → 1 ≤ i
    → length given ≤ length mask
    → sigset_contains (changed_mask how mask given) i ≡ (
        if i == sigkill
        then false
        else wanted how (sigset_contains mask i) (sigset_contains given i))
unfolding changed_mask sanitize_sigmask
changed_mask-contains how mask given i x m =
    let clean = sigset_remove given sigkill in
    let size = length-sigset_remove given sigkill in
    let outer = sigset_contains-sigset_remove (combine how mask clean) sigkill i (omega arith) x in
    let inner = sigset_contains-sigset_remove given sigkill i (omega arith) x in
    let joined = contains-combine how mask clean i (omega (arith, m, size)) in
    elim (ℕ_discrete i sigkill) [
      | yes e ↦ outer ∙ ground (arith, e)
      | no ne ↦
          (let skip : (sigkill == i) ≡ false = ground (arith, ne) in
            let keep : (i == sigkill) ≡ false = ground (arith, ne) in
            outer
            ∙ rw (skip, keep)
                (joined ∙ ap (wanted how (sigset_contains mask i)) (inner ∙ rw skip refl)))
    ]
