-- ===== src/Sys/Wake.antt =====
-- Which waiters futex_wake wakes.
use core_os.Base.{
  ℕ, zero, suc, ◌+◌, ◌≡◌, refl, ap, ◌∙◌, Bool, true, false, not, ◌&&◌, ◌||◌, List, [], ◌∷◌, arith,
  get_or, take, min, if◌then◌else◌, ◌==◌, ltb, Bool-cases, inl, inr,
}
use core_os.Mm.{ok}
use core_os.Sys.{Sys, FutexWaiter, empty_waiter}
use core_os.Sys.Futex.{wake_waiters, futex_wake}

abbrev pub waits_on : ℕ → FutexWaiter → Bool
waits_on addr w = w.in_use && w.addr == addr

unfoldable pub waiting : ℕ → List FutexWaiter → ℕ
waiting addr [] = 0
waiting addr (w ∷ ws) = if waits_on addr w then suc (waiting addr ws) else waiting addr ws

-- A waiter that is reached with `woke` others woken before it; a count of 0 is no limit.
abbrev pub left_over : ℕ → ℕ → Bool
left_over count woke = count == 0 || ltb woke count

abbrev pub woken_if : Bool → FutexWaiter → FutexWaiter
woken_if b w = if b then record w { in_use = false } else w

skips :
    (addr : ℕ) (w : FutexWaiter) (b : Bool)
    → waits_on addr w ≡ b
    → (not w.in_use || not (w.addr == addr)) ≡ not b
skips addr w b h = ground (arith, h)

wake_waiters-count :
    (addr count woke : ℕ) (ws : List FutexWaiter)
    → left_over count woke ≡ true
    → (wake_waiters addr count woke ws).0
      ≡ (if count == 0 then woke + waiting addr ws else min count (woke + waiting addr ws))
unfolding wake_waiters waiting
wake_waiters-count addr count woke [] h = ground (arith, h)
wake_waiters-count addr count woke (w ∷ ws) h = elim (Bool-cases (waits_on addr w)) [
  | inr e ↦
      rw (wake_waiters, waiting, skips addr w false e, e) (wake_waiters-count addr count woke ws h)
  | inl e ↦ elim (Bool-cases (suc woke == count)) [
    | inl f ↦ rw (wake_waiters, waiting, skips addr w true e, e, f) (ground (arith, f))
    | inr f ↦
        rw (wake_waiters, waiting, skips addr w true e, e, f)
          (wake_waiters-count addr count (suc woke) ws (ground (arith, f, h)) ∙ ground arith)
  ]
]

wake_waiters-at :
    (addr count woke : ℕ) (ws : List FutexWaiter) (i : ℕ)
    → left_over count woke ≡ true
    → get_or (wake_waiters addr count woke ws).1 i empty_waiter
      ≡ woken_if
          (waits_on addr (get_or ws i empty_waiter)
            && left_over count (woke + waiting addr (take i ws)))
          (get_or ws i empty_waiter)
unfolding wake_waiters waiting
wake_waiters-at addr count woke [] i h = refl
wake_waiters-at addr count woke (w ∷ ws) i h = elim (Bool-cases (waits_on addr w)) [
  | inr e ↦ skipped (λ j. wake_waiters-at addr count woke ws j h) i e
  | inl e ↦ elim (Bool-cases (suc woke == count)) [
    | inl f ↦ last i e f
    | inr f ↦ more (λ j o. wake_waiters-at addr count (suc woke) ws j o) i e f
  ]
]
  where
    Woken : ℕ → Type 0
    Woken j =
        get_or (wake_waiters addr count woke (w ∷ ws)).1 j empty_waiter
        ≡ woken_if
            (waits_on addr (get_or (w ∷ ws) j empty_waiter)
              && left_over count (woke + waiting addr (take j (w ∷ ws))))
            (get_or (w ∷ ws) j empty_waiter)

    then_at : ℕ → ℕ → FutexWaiter
    then_at n j =
        woken_if
          (waits_on addr (get_or ws j empty_waiter)
            && left_over count (n + waiting addr (take j ws)))
          (get_or ws j empty_waiter)

    first : left_over count (woke + 0) ≡ true
    first = ground (arith, h)

    skipped :
        ((j : ℕ) → get_or (wake_waiters addr count woke ws).1 j empty_waiter ≡ then_at woke j)
        → (j : ℕ) → waits_on addr w ≡ false
        → Woken j
    skipped later zero e = rw (wake_waiters, skips addr w false e, e) refl
    skipped later (suc j) e = rw (wake_waiters, waiting, skips addr w false e, e) (later j)

    kept : (b : Bool) (v : FutexWaiter) → v ≡ woken_if (b && false) v
    kept true v = refl
    kept false v = refl

    last : (j : ℕ) → waits_on addr w ≡ true → (suc woke == count) ≡ true → Woken j
    last zero e f = rw (wake_waiters, waiting, skips addr w true e, e, f, first) refl
    last (suc j) e f =
        let full : left_over count (woke + suc (waiting addr (take j ws))) ≡ false =
          ground (arith, f) in
        rw (wake_waiters, waiting, skips addr w true e, e, f, full)
          (kept (waits_on addr (get_or ws j empty_waiter)) (get_or ws j empty_waiter))

    more :
        ((j : ℕ)
          → left_over count (suc woke) ≡ true
          → get_or (wake_waiters addr count (suc woke) ws).1 j empty_waiter ≡ then_at (suc woke) j)
        → (j : ℕ) → waits_on addr w ≡ true
        → (suc woke == count) ≡ false
        → Woken j
    more later zero e f = rw (wake_waiters, waiting, skips addr w true e, e, f, first) refl
    more later (suc j) e f =
        let shift : suc woke + waiting addr (take j ws) ≡ woke + suc (waiting addr (take j ws)) =
          omega arith in
        rw (wake_waiters, waiting, skips addr w true e, e, f, ← shift)
          (later j (ground (arith, f, h)))

-- futex_wake wakes exactly the first waiters on the address, as many as the count says or, for a
-- count of 0, all of them; it gives their number and changes no other waiter, no memory and no
-- table of the kernel.
pub futex_wake_lem :
    (s : Sys) (addr count : ℕ)
    → ((futex_wake s addr count).0
        ≡ ok (if count == 0 then waiting addr s.waiters else min count (waiting addr s.waiters)))
      × ((i : ℕ)
          → get_or (futex_wake s addr count).1.waiters i empty_waiter ≡ (
              let w = get_or s.waiters i empty_waiter in
              woken_if
                (waits_on addr w && (count == 0 || ltb (waiting addr (take i s.waiters)) count))
                w))
      × ((futex_wake s addr count).1.kernel ≡ s.kernel)
      × ((futex_wake s addr count).1.mem ≡ s.mem)
unfolding futex_wake
futex_wake_lem s addr count =
    let room : left_over count 0 ≡ true = ground arith in
    (
      ap ok (wake_waiters-count addr count 0 s.waiters room ∙ ground arith),
      (λ i.
          wake_waiters-at addr count 0 s.waiters i room
          ∙ ap
              (λ n.
                woken_if (waits_on addr (get_or s.waiters i empty_waiter) && left_over count n)
                  (get_or s.waiters i empty_waiter))
              (omega arith)),
      refl,
      refl,
    )
