-- ===== src/KeyBuffer/Queue.antt =====
-- The ring behaves as a queue of at most 127 characters that drops what comes when it is full.
use core_os.Base.{
  ℕ, ◌+◌, ◌-◌, ◌%◌, ◌<◌, ◌≡◌, ◌≢◌, refl, ap, ◌∙◌, true, false, List, [], ◌∷◌, Option, arith, length,
  length-set, length-replicate, ◌==◌, ltb, Bool-cases, ==_iff, ap₂, inl, inr,
}
use core_os.Base.Bounded.{enqueue, dequeue}
use core_os.Base.Ring.{items, length-items}
use core_os.Base.Gap.{used, used_of_full, used_of_room, items-write, items-read, items_none}
use core_os.KeyBuffer.{Inner, buf_size, new, is_empty, is_full, push, pop, Op, put, get, run}

-- The array has its size and both indices lie in it.
pub record IsValid (s : Inner) : Type 0 where
  pub size : length s.buf ≡ buf_size
  pub head_in : s.head < buf_size
  pub tail_in : s.tail < buf_size

-- The characters that wait, oldest first.
abbrev pub contents : Inner → List ℕ
contents s = items 0 buf_size s.buf s.tail (used buf_size s.head s.tail)

-- The specification of a sequence of operations.
pub run_queue : List ℕ → List Op → List (Option ℕ)
run_queue q [] = []
run_queue q (put c ∷ ops) = run_queue (enqueue 127 q c) ops
run_queue q (get ∷ ops) = (dequeue q).0 ∷ run_queue (dequeue q).1 ops

pub new-IsValid : IsValid new
unfolding new
new-IsValid = record {
  size = length-replicate {A = ℕ} buf_size 0;
  head_in = omega arith;
  tail_in = omega arith;
}

pub push-IsValid : (s : Inner) (c : ℕ) → IsValid s → IsValid (push s c)
unfolding push
push-IsValid s c v = ground (arith, length-set s.buf s.head c)

pub pop-IsValid : (s : Inner) → IsValid s → IsValid (pop s).1
unfolding pop
pop-IsValid s v = ground arith

length-contents : (s : Inner) → length (contents s) ≡ used buf_size s.head s.tail
length-contents s = length-items 0 buf_size s.buf s.tail (used buf_size s.head s.tail)

push-contents : (s : Inner) (c : ℕ) → IsValid s → contents (push s c) ≡ enqueue 127 (contents s) c
unfolding push enqueue is_full
push-contents s c v = elim (Bool-cases ((s.head + 1) % buf_size == s.tail)) [
  | inl full ↦
      (let at_limit : ltb (length (contents s)) (buf_size - 1) ≡ false = ground (
        arith,
        length-contents s,
        used_of_full buf_size s.head s.tail v.head_in ((==_iff _ _).0 full),
      ) in
        rw (full, at_limit, push, enqueue))
  | inr room ↦
      (let apart : (s.head + 1) % buf_size ≢ s.tail = λ e. ground arith in
        let below : ltb (length (contents s)) (buf_size - 1) ≡ true = ground (
          arith,
          length-contents s,
          used_of_room buf_size s.head s.tail v.head_in v.tail_in apart,
        ) in
        rw (room, below, push, enqueue)
          (items-write 0 buf_size s.buf s.head s.tail c (omega (arith, v.size)) v.head_in v.tail_in
            apart))
]

pop-contents :
    (s : Inner)
    → IsValid s
    → ((pop s).0 ≡ (dequeue (contents s)).0) × (contents (pop s).1 ≡ (dequeue (contents s)).1)
unfolding pop dequeue is_empty
pop-contents s v = elim (Bool-cases (s.head == s.tail)) [
  | inl none_left ↦
      rw
        (
          none_left,
          items_none 0 buf_size s.buf s.head s.tail ((==_iff _ _).0 none_left),
          pop,
          dequeue,
        )
        (refl, refl)
  | inr more ↦
      rw
        (
          more,
          items-read 0 buf_size s.buf s.head s.tail v.head_in v.tail_in (λ e. ground arith),
          pop,
          dequeue,
        )
        (refl, refl)
]

-- On a valid ring no sequence of pushes and pops tells the key ring from a queue of at most 127
-- characters that drops input when full.
pub run_refines : (ops : List Op) (s : Inner) → IsValid s → run s ops ≡ run_queue (contents s) ops
unfolding run run_queue
run_refines [] s v = refl
run_refines (put c ∷ ops) s v =
    run_refines ops (push s c) (push-IsValid s c v)
    ∙ ap (λ q. run_queue q ops) (push-contents s c v)
run_refines (get ∷ ops) s v =
    let one = pop-contents s v in
    ap₂ ◌∷◌ one.0 (run_refines ops (pop s).1 (pop-IsValid s v) ∙ ap (λ q. run_queue q ops) one.1)
