-- ===== src/Tty/Cooked.antt =====
-- The ring of finished lines is a queue of at most 1023 bytes that drops what comes when it is
-- full.
use core_os.Base.{
  ℕ, zero, suc, ◌+◌, ◌-◌, ◌%◌, ◌≤◌, ◌<◌, ◌≡◌, ◌≢◌, refl, ◌∙◌, true, false, List, arith, length,
  length-set, length-replicate, get_or, ◌==◌, ==_iff, ltb, Bool-cases, inl, inr, take, drop,
  drop_next,
}
use core_os.Base.Bounded.{dequeue, enqueue, enqueue_all}
use core_os.Base.Ring.{items, length-items}
use core_os.Base.Gap.{used, used_of_full, used_of_room, items-write, items-read, items_none}
use core_os.Tty.{
  Inner, cooked_capacity, line_capacity, new, cooked_is_empty, cooked_is_full, cooked_push,
  cooked_pop, push_line,
}

-- The arrays have their sizes, and all indices lie in them.
pub record IsValid (s : Inner) : Type 0 where
  pub cooked_size : length s.cooked ≡ cooked_capacity
  pub head_in : s.cooked_head < cooked_capacity
  pub tail_in : s.cooked_tail < cooked_capacity
  pub line_size : length s.line ≡ line_capacity
  pub line_in : s.line_len ≤ line_capacity

-- The bytes of finished lines that wait for a reader, oldest first.
abbrev pub waiting : Inner → List ℕ
waiting s =
    items 0 cooked_capacity s.cooked s.cooked_tail
      (used cooked_capacity s.cooked_head s.cooked_tail)

pub new-IsValid : IsValid new
unfolding new
new-IsValid = record {
  cooked_size = length-replicate {A = ℕ} cooked_capacity 0;
  head_in = omega arith;
  tail_in = omega arith;
  line_size = length-replicate {A = ℕ} line_capacity 0;
  line_in = omega arith;
}

pub cooked_push-IsValid : (s : Inner) (c : ℕ) → IsValid s → IsValid (cooked_push s c)
unfolding cooked_push
cooked_push-IsValid s c v = ground (arith, length-set s.cooked s.cooked_head c)

pub cooked_pop-IsValid : (s : Inner) → IsValid s → IsValid (cooked_pop s).1
unfolding cooked_pop
cooked_pop-IsValid s v = ground arith

pub cooked_push-line :
    (s : Inner) (c : ℕ)
    → ((cooked_push s c).line ≡ s.line) × ((cooked_push s c).line_len ≡ s.line_len)
unfolding cooked_push
cooked_push-line s c = ground arith

pub cooked_pop-line :
    (s : Inner) → ((cooked_pop s).1.line ≡ s.line) × ((cooked_pop s).1.line_len ≡ s.line_len)
unfolding cooked_pop
cooked_pop-line s = ground arith

length-waiting : (s : Inner) → length (waiting s) ≡ used cooked_capacity s.cooked_head s.cooked_tail
length-waiting s =
    length-items 0 cooked_capacity s.cooked s.cooked_tail
      (used cooked_capacity s.cooked_head s.cooked_tail)

pub waiting-cooked_push :
    (s : Inner) (c : ℕ) → IsValid s → waiting (cooked_push s c) ≡ enqueue 1023 (waiting s) c
unfolding cooked_push enqueue cooked_is_full
waiting-cooked_push s c v =
    elim (Bool-cases ((s.cooked_head + 1) % cooked_capacity == s.cooked_tail)) [
      | inl full ↦
          (let at_limit : ltb (length (waiting s)) (cooked_capacity - 1) ≡ false = ground (
            arith,
            length-waiting s,
            used_of_full cooked_capacity s.cooked_head s.cooked_tail v.head_in
                ((==_iff _ _).0 full),
          ) in
            rw (full, at_limit, cooked_push, enqueue))
      | inr room ↦
          (let apart : (s.cooked_head + 1) % cooked_capacity ≢ s.cooked_tail = λ e. ground arith in
            let below : ltb (length (waiting s)) (cooked_capacity - 1) ≡ true = ground (
              arith,
              length-waiting s,
              used_of_room cooked_capacity s.cooked_head s.cooked_tail v.head_in v.tail_in apart,
            ) in
            rw (room, below, cooked_push, enqueue)
              (items-write 0 cooked_capacity s.cooked s.cooked_head s.cooked_tail c
                (omega (arith, v.cooked_size)) v.head_in v.tail_in apart))
    ]

pub waiting-cooked_pop :
    (s : Inner)
    → IsValid s
    → ((cooked_pop s).0 ≡ (dequeue (waiting s)).0)
      × (waiting (cooked_pop s).1 ≡ (dequeue (waiting s)).1)
unfolding cooked_pop dequeue cooked_is_empty
waiting-cooked_pop s v = elim (Bool-cases (s.cooked_head == s.cooked_tail)) [
  | inl none_left ↦
      rw
        (
          none_left,
          items_none 0 cooked_capacity s.cooked s.cooked_head s.cooked_tail
              ((==_iff _ _).0 none_left),
          cooked_pop,
          dequeue,
        )
        (refl, refl)
  | inr more ↦
      rw
        (
          more,
          items-read 0 cooked_capacity s.cooked s.cooked_head s.cooked_tail v.head_in v.tail_in
              (λ e. ground arith),
          cooked_pop,
          dequeue,
        )
        (refl, refl)
]

pub push_line-IsValid : (n i : ℕ) (s : Inner) → IsValid s → IsValid (push_line n i s)
unfolding push_line
push_line-IsValid zero i s v = v
push_line-IsValid (suc n) i s v =
    push_line-IsValid n (i + 1) (cooked_push s (get_or s.line i 0)) (cooked_push-IsValid s _ v)

pub push_line-line :
    (n i : ℕ) (s : Inner)
    → ((push_line n i s).line ≡ s.line) × ((push_line n i s).line_len ≡ s.line_len)
unfolding push_line
push_line-line zero i s = (refl, refl)
push_line-line (suc n) i s =
    let rest = push_line-line n (i + 1) (cooked_push s (get_or s.line i 0)) in
    let one = cooked_push-line s (get_or s.line i 0) in (rest.0 ∙ one.0, rest.1 ∙ one.1)

pub waiting-push_line :
    (n i : ℕ) (s : Inner)
    → IsValid s
    → i + n ≤ line_capacity
    → waiting (push_line n i s) ≡ enqueue_all 1023 (waiting s) (take n (drop i s.line))
unfolding push_line enqueue_all
waiting-push_line zero i s v h = refl
waiting-push_line (suc n) i s v h =
    let x = get_or s.line i 0 in
    let next : i + 1 ≡ suc i = omega arith in
    waiting-push_line n (i + 1) (cooked_push s x) (cooked_push-IsValid s x v) (omega arith)
    ∙ rw
        (
          waiting-cooked_push s x v,
          (cooked_push-line s x).0,
          next,
          drop_next i s.line 0 (omega arith),
        )
        refl
