-- ===== src/Base/Ring.antt =====
-- The items of a circular array: `n` of them from position `p` on, going round at `cap`.
use Prim.Native.Nat.{ℕ, zero, suc, ◌+◌, ◌-◌, ◌%◌, ◌≤◌, ◌<◌}
use mathlib.Core.Path.{◌≡◌, refl, sym, ap, ap₂, ◌∙◌}
use mathlib.Core.Logic.{◌≢◌}
use mathlib.Core.List.{List, [], ◌∷◌, ◌++◌}
use native.Mathlib.Nat.{mod-add-mod, mod-eq_of_lt, mod-eq-sub-mod, mod-mod, mod-lt, add-zero}
use native.Mathlib.Decide.{dec_lt}
use native.Mathlib.Omega.{arith}
use core_os.Base.Lists.{length, get_or, set, get_or-set}

module _ {ℓ} {A : Type ℓ} (d : A) (cap : ℕ) where
  abbrev pub items : List A → ℕ → ℕ → List A
  items buf p zero = []
  items buf p (suc n) = get_or buf (p % cap) d ∷ items buf (p + 1) n

  pub length-items : (buf : List A) (p n : ℕ) → length (items buf p n) ≡ n
  length-items buf p zero = refl
  length-items buf p (suc n) = ap suc (length-items buf (p + 1) n)

  -- Only the remainder of the position counts.
  items_cong : (buf : List A) (p q n : ℕ) → p % cap ≡ q % cap → items buf p n ≡ items buf q n
  items_cong buf p q zero e = refl
  items_cong buf p q (suc n) e =
      rw e (ap (◌∷◌ (get_or buf (q % cap) d)) (items_cong buf (p + 1) (q + 1) n next))
    where
      next : (p + 1) % cap ≡ (q + 1) % cap
      next = sym (mod-add-mod p cap 1) ∙ ap (λ t. (t + 1) % cap) e ∙ mod-add-mod q cap 1

  pub items_first :
      (buf : List A) (p n : ℕ)
      → p < cap
      → items buf p (suc n) ≡ get_or buf p d ∷ items buf ((p + 1) % cap) n
  items_first buf p n h = rw (mod-eq_of_lt h) (
      ap (◌∷◌ (get_or buf p d))
        (items_cong buf (p + 1) ((p + 1) % cap) n (sym (mod-mod (p + 1) cap))))

  items_last :
      (buf : List A) (p n : ℕ)
      → items buf p (suc n) ≡ items buf p n ++ get_or buf ((p + n) % cap) d ∷ []
  items_last buf p zero = rw add-zero refl
  items_last buf p (suc n) =
      let place : p + 1 + n ≡ p + suc n = omega arith in
      ap (◌∷◌ (get_or buf (p % cap) d)) (items_last buf (p + 1) n ∙ rw place refl)

  items-set :
      (buf : List A) (p n i : ℕ) (v : A)
      → ((k : ℕ) → k < n → (p + k) % cap ≢ i)
      → items (set buf i v) p n ≡ items buf p n
  items-set buf p zero i v h = refl
  items-set buf p (suc n) i v h = ap₂ ◌∷◌ first (
      items-set buf (p + 1) n i v (λ k l e.
        h (suc k) (omega arith) (let place : p + suc k ≡ p + 1 + k = omega arith in rw place e)))
    where
      first : get_or (set buf i v) (p % cap) d ≡ get_or buf (p % cap) d
      first = ground (
        arith,
        get_or-set buf i (p % cap) v d,
        λ (e : p % cap ≡ i). h 0 (omega arith) (rw add-zero e),
      )

  round_trip : (n : ℕ) → cap ≤ n → n < cap + cap → n % cap ≡ n - cap
  round_trip n h l = mod-eq-sub-mod h ∙ mod-eq_of_lt {n = n - cap} {m = cap} (omega arith)

  -- Two positions less than a round apart are not the same place.
  place-ne : (p k n : ℕ) → p < cap → k < n → n < cap → (p + k) % cap ≢ (p + n) % cap
  place-ne p k n hp hk hn e = elim (dec_lt (p + n) cap) [
    | yes below ↦
        omega (arith, e, mod-eq_of_lt {n = p + k} {m = cap} (omega arith), mod-eq_of_lt below)
    | no round ↦ elim (dec_lt (p + k) cap) [
      | yes below ↦
          omega (arith, e, mod-eq_of_lt below, round_trip (p + n) (omega arith) (omega arith))
      | no both ↦ omega (
        arith,
        e,
        round_trip (p + n) (omega arith) (omega arith),
        round_trip (p + k) (omega arith) (omega arith),
      )
    ]
  ]

  -- Writing just behind the items adds one to their end.
  pub items-push :
      (buf : List A) (p n : ℕ) (v : A)
      → p < cap
      → n < cap
      → cap ≤ length buf
      → items (set buf ((p + n) % cap) v) p (suc n) ≡ items buf p n ++ v ∷ []
  items-push buf p n v hp hn hs =
      items_last (set buf ((p + n) % cap) v) p n
      ∙ ap₂ (λ front x. front ++ x ∷ [])
          (items-set buf p n ((p + n) % cap) v (λ k l. place-ne p k n hp l hn))
          (get_or-set buf ((p + n) % cap) ((p + n) % cap) v d
            ∙ ground (arith, mod-lt (p + n) {m = cap}))
