-- ===== src/Scheduler/Fair.antt =====
-- No task waits for more than eight turns.
use core_os.Base.{
  ℕ, zero, suc, ◌+◌, ◌-◌, ◌%◌, ◌≤◌, ◌<◌, ◌≡◌, sym, ap, ◌∙◌, true, false, arith, ◌⊎◌, inl, inr,
  ℕ_discrete, ◌==◌, dec_lt,
}
use core_os.Proc.Process.{Kernel, max_tasks}
use core_os.Scheduler.{is_runnable, SwitchResult, no_task, panics, switched, next_task_switch}
use core_os.Scheduler.Turn.{
  IsValid, task_at, left_at-Kept, some_of, TurnOutcome, turned, idle, next_task_switch-TurnOutcome,
}

-- The tables after a turn.
unfoldable pub after_switch : Kernel → SwitchResult → Kernel
after_switch k no_task = k
after_switch k panics = k
after_switch k (switched sw k1) = k1

abbrev pub turn : Kernel → Kernel
turn k = after_switch k (next_task_switch k)

-- The tables after `n + 1` turns, between which the running tasks change them.
unfoldable pub after_turns : (ℕ → Kernel → Kernel) → ℕ → Kernel → Kernel
after_turns others zero k = turn k
after_turns others (suc n) k = after_turns (λ i. others (suc i)) n (others 0 (turn k))

-- A running task may do anything to the tables but turn them or stop the task in the slot.
abbrev pub Spares : ℕ → (Kernel → Kernel) → Type 0
Spares slot change =
    (k : Kernel)
    → IsValid k
    → is_runnable (task_at k slot) ≡ true
    → IsValid (change k)
      × ((change k).current ≡ k.current)
      × (is_runnable (task_at (change k) slot) ≡ true)

-- A turn runs the task that waits at a distance, or brings it nearer.
record Nearer (k : Kernel) (slot d : ℕ) (k1 : Kernel) : Type 0 where
  valid : IsValid k1
  waits : is_runnable (task_at k1 slot) ≡ true
  left : ℕ
  less : left < d
  some_left : 1 ≤ left
  place : slot ≡ (k1.current + left) % max_tasks

turn-Nearer :
    (k : Kernel) (slot d : ℕ)
    → IsValid k
    → is_runnable (task_at k slot) ≡ true
    → 1 ≤ d
    → d ≤ max_tasks
    → slot ≡ (k.current + d) % max_tasks
    → ((turn k).current ≡ slot) ⊎ Nearer k slot d (turn k)
unfolding after_switch
turn-Nearer k slot d v waits lower upper place = go (next_task_switch-TurnOutcome k v)
  where
    go :
        {r : SwitchResult}
        → TurnOutcome k r
        → ((after_switch k r).current ≡ slot) ⊎ Nearer k slot d (after_switch k r)
    go (idle all) = absurd (cc (waits, all slot))
    go (turned sw k1 t) = elim (ℕ_discrete k1.current slot) [
      | yes e ↦ inl e
      | no ne ↦
          (let near : t.distance ≤ d = elim (dec_lt d t.distance) [
            | yes l ↦ absurd (cc (waits, t.nearest d lower l, place))
            | no far ↦ omega arith
          ] in
            let u = some_of (task_at k slot) waits in
            let kept = left_at-Kept k slot u.0 u.2 u.1 in
            let other : (k1.current == slot) ≡ false = ground (arith, ne) in
            inr (record {
              valid = t.valid;
              waits = ap is_runnable (t.others slot other ∙ kept.is) ∙ kept.runnable;
              left = d - t.distance;
              less = omega (arith, t.lower);
              some_left = omega (arith, t.next, near, ne);
              place = omega (arith, t.next, near);
            }))
    ]

after_turns_reaches :
    (others : ℕ → Kernel → Kernel) (slot n d : ℕ) (k : Kernel)
    → ((i : ℕ) → Spares slot (others i))
    → IsValid k
    → is_runnable (task_at k slot) ≡ true
    → 1 ≤ d
    → d ≤ n
    → n ≤ max_tasks
    → slot ≡ (k.current + d) % max_tasks
    → (m : ℕ) × (m < n) × ((after_turns others m k).current ≡ slot)
unfolding after_turns
after_turns_reaches others slot zero d k spares v waits a b c place = absurd (omega arith)
after_turns_reaches others slot (suc n) d k spares v waits a b c place =
    elim (turn-Nearer k slot d v waits a (omega arith) place) [
      | inl here ↦ (0, omega arith, here)
      | inr nearer ↦
          (let spared = spares 0 (turn k) nearer.valid nearer.waits in
            let rest =
              after_turns_reaches (λ i. others (suc i)) slot n nearer.left (others 0 (turn k))
                (λ i. spares (suc i)) spared.0 spared.2 nearer.some_left
                (omega (arith, nearer.less)) (omega arith)
                (nearer.place ∙ ap (λ c. (c + nearer.left) % max_tasks) (sym spared.1)) in
            (suc rest.0, omega (arith, rest.1), rest.2))
    ]

-- From tables with eight task slots and a current slot among them, a task that can be chosen gets
-- the processor within eight turns, whatever the running tasks do to the tables between the turns,
-- as long as they keep the eight slots and the current one and do not stop the task.
pub after_turns_lem :
    (others : ℕ → Kernel → Kernel) (slot : ℕ) (k : Kernel)
    → ((i : ℕ) → Spares slot (others i))
    → IsValid k
    → slot < max_tasks
    → is_runnable (task_at k slot) ≡ true
    → (m : ℕ) × (m < max_tasks) × ((after_turns others m k).current ≡ slot)
after_turns_lem others slot k spares v inside waits =
    after_turns_reaches others slot 8 ((slot + 8 - k.current - 1) % 8 + 1) k spares v waits
      (omega arith) (omega arith) (omega arith) (omega (arith, v.inside))
