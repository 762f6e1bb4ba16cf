-- ===== src/Base/Gap.antt =====
-- A circular array with a `head` to write at and a `tail` to read from, which is empty when they
-- meet and full one place before: so it holds at most `cap - 1` items.
use Prim.Native.Nat.{ℕ, suc, ◌+◌, ◌-◌, ◌%◌, ◌≤◌, ◌<◌}
use mathlib.Core.Path.{◌≡◌, refl, sym, ap, ◌∙◌}
use mathlib.Core.Logic.{◌≢◌, inl, inr}
use mathlib.Core.List.{List, [], ◌∷◌, ◌++◌}
use native.Mathlib.Nat.{mod-eq_of_lt, mod-eq-sub-mod, mod_self}
use native.Mathlib.Decide.{ℕ_discrete}
use native.Mathlib.Omega.{arith}
use core_os.Base.Tests.{if◌then◌else◌, ◌==◌, leb, Bool-cases}
use core_os.Base.Lists.{length, get_or, set}
use core_os.Base.Ring.{items, items_first, items-push}

module _ (cap : ℕ) where
  -- How many items lie between the two indices.
  abbrev pub used : ℕ → ℕ → ℕ
  used head tail = if leb tail head then head - tail else head + cap - tail

  next_lem : (i : ℕ) → i < cap → (i + 1) % cap ≡ (if i + 1 == cap then 0 else i + 1)
  next_lem i h = elim (ℕ_discrete (i + 1) cap) [
    | yes e ↦ rw e (mod_self cap ∙ ground arith)
    | no ne ↦ mod-eq_of_lt {n = i + 1} {m = cap} (omega arith) ∙ ground arith
  ]

  pub used_of_full :
      (head tail : ℕ) → head < cap → (head + 1) % cap ≡ tail → used head tail + 1 ≡ cap
  used_of_full head tail h e = ground (arith, next_lem head h)

  pub used_of_room :
      (head tail : ℕ) → head < cap → tail < cap → (head + 1) % cap ≢ tail → used head tail + 1 < cap
  used_of_room head tail h t e = ground (arith, next_lem head h)

  used-next :
      (head tail : ℕ)
      → head < cap
      → tail < cap
      → (head + 1) % cap ≢ tail
      → used ((head + 1) % cap) tail ≡ suc (used head tail)
  used-next head tail h t e = ground (arith, next_lem head h)

  used_pop :
      (head tail : ℕ)
      → head < cap
      → tail < cap
      → head ≢ tail
      → used head tail ≡ suc (used head ((tail + 1) % cap))
  used_pop head tail h t e = ground (arith, next_lem tail t)

  place_head : (head tail : ℕ) → head < cap → tail < cap → (tail + used head tail) % cap ≡ head
  place_head head tail h t = elim (Bool-cases (leb tail head)) [
    | inl after ↦
        rw after
          (let place : tail + (head - tail) ≡ head = ground arith in rw place (mod-eq_of_lt h))
    | inr before ↦ rw before (
        let place : tail + (head + cap - tail) ≡ head + cap = ground arith in
        rw place (
          mod-eq-sub-mod {n = head + cap} {m = cap} (omega arith)
          ∙ (let back : head + cap - cap ≡ head = omega arith in rw back (mod-eq_of_lt h))))
  ]

module _ {ℓ} {A : Type ℓ} (d : A) (cap : ℕ) (buf : List A) (head tail : ℕ) where
  -- A write at `head` adds an item behind the others.
  pub items-write :
      (v : A)
      → cap ≤ length buf
      → head < cap
      → tail < cap
      → (head + 1) % cap ≢ tail
      → items d cap (set buf head v) tail (used cap ((head + 1) % cap) tail)
        ≡ items d cap buf tail (used cap head tail) ++ v ∷ []
  items-write v s h t e = rw (used-next cap head tail h t e) (
      ap (λ i. items d cap (set buf i v) tail (suc (used cap head tail)))
        (sym (place_head cap head tail h t))
      ∙ items-push d cap buf tail (used cap head tail) v t
          (omega (arith, used_of_room cap head tail h t e)) s)

  -- The item at `tail` is the first.
  pub items-read :
      head < cap
      → tail < cap
      → head ≢ tail
      → items d cap buf tail (used cap head tail)
        ≡ get_or buf tail d ∷ items d cap buf ((tail + 1) % cap) (used cap head ((tail + 1) % cap))
  items-read h t e =
      rw (used_pop cap head tail h t e)
        (items_first d cap buf tail (used cap head ((tail + 1) % cap)) t)

  -- Indices that meet leave nothing to read.
  pub items_none : head ≡ tail → items d cap buf tail (used cap head tail) ≡ []
  items_none e = let none : used cap head tail ≡ 0 = ground arith in rw none refl
