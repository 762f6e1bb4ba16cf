-- ===== src/Proc/PipeQueue.antt =====
-- A pipe is a queue of at most 1024 bytes: no sequence of writes and reads tells them apart.
use core_os.Base.{
  ℕ, zero, suc, ◌+◌, ◌-◌, ◌%◌, ◌≤◌, ◌<◌, ◌≡◌, refl, sym, ap, ap₂, ◌∙◌, true, false, List, [], ◌∷◌,
  ◌++◌, arith, min, length, take, drop, length-set, length-replicate, ltb, Bool-cases, inl, inr,
  set,
}
use native.Mathlib.Nat.{mod-add-mod, mod-lt}
use mathlib.Core.List.{append_assoc, append-nil}
use core_os.Base.Ring.{items, length-items, items_first, items-push}
use core_os.Proc.State.{Pipe, pipe_capacity, new_pipe}
use core_os.Proc.PipeIo.{push_byte, pop_byte, fill, drain}

-- The array has its size, the length fits in it, and the write position follows from the rest.
pub record IsQueue (p : Pipe) : Type 0 where
  pub size : length p.buf ≡ pipe_capacity
  pub read_in : p.read_pos < pipe_capacity
  pub fits : p.len ≤ pipe_capacity
  pub write_at : p.write_pos ≡ (p.read_pos + p.len) % pipe_capacity

-- The bytes in the pipe, oldest first.
abbrev pub contents : Pipe → List ℕ
contents p = items 0 pipe_capacity p.buf p.read_pos p.len

pub length-contents : (p : Pipe) → length (contents p) ≡ p.len
length-contents p = length-items 0 pipe_capacity p.buf p.read_pos p.len

push_byte-IsQueue : (p : Pipe) (b : ℕ) → IsQueue p → p.len < pipe_capacity → IsQueue (push_byte p b)
unfolding push_byte
push_byte-IsQueue p b v h = record {
  size = length-set p.buf p.write_pos b ∙ v.size;
  read_in = v.read_in;
  fits = omega arith;
  write_at =
      ap (λ w. (w + 1) % pipe_capacity) v.write_at
      ∙ mod-add-mod (p.read_pos + p.len) pipe_capacity 1
      ∙ ap (λ n. n % pipe_capacity) (omega arith);
}

push_byte-len : (p : Pipe) (b : ℕ) → (push_byte p b).len ≡ p.len + 1
unfolding push_byte
push_byte-len p b = refl

push_byte-contents :
    (p : Pipe) (b : ℕ)
    → IsQueue p
    → p.len < pipe_capacity
    → contents (push_byte p b) ≡ contents p ++ b ∷ []
unfolding push_byte
push_byte-contents p b v h =
    let next : p.len + 1 ≡ suc p.len = omega arith in
    ap₂ (λ w n. items 0 pipe_capacity (set p.buf w b) p.read_pos n) v.write_at next
    ∙ items-push 0 pipe_capacity p.buf p.read_pos p.len b v.read_in h (omega (arith, v.size))

pop_byte-IsQueue : (p : Pipe) → IsQueue p → 0 < p.len → IsQueue (pop_byte p).1
unfolding pop_byte
pop_byte-IsQueue p v h = record {
  size = v.size;
  read_in = mod-lt (p.read_pos + 1) (omega arith);
  fits = omega arith;
  write_at =
      v.write_at
      ∙ ap (λ n. n % pipe_capacity) (omega arith)
      ∙ sym (mod-add-mod (p.read_pos + 1) pipe_capacity (p.len - 1));
}

pop_byte-contents :
    (p : Pipe) → IsQueue p → 0 < p.len → contents p ≡ (pop_byte p).0 ∷ contents (pop_byte p).1
unfolding pop_byte
pop_byte-contents p v h =
    let next : p.len ≡ suc (p.len - 1) = omega arith in
    ap (items 0 pipe_capacity p.buf p.read_pos) next
    ∙ items_first 0 pipe_capacity p.buf p.read_pos (p.len - 1) v.read_in

-- What the loop of `write` does when there is room for `room` bytes more.
pub record Filled (bs : List ℕ) (room : ℕ) (p : Pipe) : Type 0 where
  pub valid : IsQueue (fill bs p).1
  pub written : (fill bs p).0 ≡ min (length bs) room
  pub held : contents (fill bs p).1 ≡ contents p ++ take room bs

pub fill-Filled :
    (bs : List ℕ) (room : ℕ) (p : Pipe)
    → IsQueue p
    → p.len + room ≡ pipe_capacity
    → Filled bs room p
unfolding fill
fill-Filled [] zero p v h = record {
  valid = v;
  written = omega arith;
  held = sym (append-nil (contents p));
}
fill-Filled [] (suc room) p v h = record {
  valid = v;
  written = omega arith;
  held = sym (append-nil (contents p));
}
fill-Filled (b ∷ bs) zero p v h =
    let full : ltb p.len pipe_capacity ≡ false = ground arith in
    record {
      valid = rw (full, fill) v;
      written = rw (full, fill) (omega arith);
      held = rw (full, fill) (sym (append-nil (contents p)));
    }
fill-Filled (b ∷ bs) (suc room) p v h =
    let below : p.len < pipe_capacity = omega arith in
    let open_end : ltb p.len pipe_capacity ≡ true = ground arith in
    let rest =
      fill-Filled bs room (push_byte p b) (push_byte-IsQueue p b v below)
        (omega (arith, push_byte-len p b)) in
    record {
      valid = rw (open_end, fill) rest.valid;
      written = rw (open_end, fill) (omega (arith, rest.written));
      held =
          rw (open_end, fill)
            (rest.held
              ∙ ap (λ q. q ++ take room bs) (push_byte-contents p b v below)
              ∙ append_assoc (contents p) (b ∷ []) (take room bs));
    }

-- What the loop of `read` does.
pub record Drained (n : ℕ) (p : Pipe) : Type 0 where
  pub valid : IsQueue (drain n p).1
  pub bytes : (drain n p).0 ≡ take n (contents p)
  pub left : contents (drain n p).1 ≡ drop n (contents p)

pub drain-Drained : (n : ℕ) (p : Pipe) → IsQueue p → Drained n p
unfolding drain
drain-Drained zero p v = record { valid = v; bytes = refl; left = refl }
drain-Drained (suc n) p v = elim (Bool-cases (ltb 0 p.len)) [
  | inl more ↦
      (let some_left : 0 < p.len = ground arith in
        let rest = drain-Drained n (pop_byte p).1 (pop_byte-IsQueue p v some_left) in
        let front = pop_byte-contents p v some_left in
        record {
          valid = rw (more, drain) rest.valid;
          bytes =
              rw (more, drain) (ap (◌∷◌ (pop_byte p).0) rest.bytes ∙ ap (take (suc n)) (sym front));
          left = rw (more, drain) (rest.left ∙ ap (drop (suc n)) (sym front));
        })
  | inr nothing ↦
      (let none_left : p.len ≡ 0 = ground arith in
        let gone : contents p ≡ [] = ap (items 0 pipe_capacity p.buf p.read_pos) none_left in
        record {
          valid = rw (nothing, drain) v;
          bytes = rw (nothing, drain) (ap (take (suc n)) (sym gone));
          left = rw (nothing, drain) (gone ∙ ap (drop (suc n)) (sym gone));
        })
]

-- The two calls on one pipe, and their answers.
pub data Op : Type 0 where
  writes : List ℕ → Op
  reads : ℕ → Op

pub data Answer : Type 0 where
  wrote : ℕ → Answer
  got : List ℕ → Answer

pub run : List Op → Pipe → List Answer
run [] p = []
run (writes bs ∷ ops) p = wrote (fill bs p).0 ∷ run ops (fill bs p).1
run (reads n ∷ ops) p = got (drain n p).0 ∷ run ops (drain n p).1

-- The specification: a list that takes in what fits at its end and gives out its front.
unfoldable pub run_queue : List Op → List ℕ → List Answer
run_queue [] q = []
run_queue (writes bs ∷ ops) q =
    wrote (min (length bs) (pipe_capacity - length q))
    ∷ run_queue ops (q ++ take (pipe_capacity - length q) bs)
run_queue (reads n ∷ ops) q = got (take n q) ∷ run_queue ops (drop n q)

-- On a pipe with valid positions no sequence of writes and reads tells the ring from a queue of at
-- most 1024 bytes.
pub run_refines_queue :
    (ops : List Op) (p : Pipe) → IsQueue p → run ops p ≡ run_queue ops (contents p)
unfolding run run_queue
run_refines_queue [] p v = refl
run_refines_queue (writes bs ∷ ops) p v =
    let room : pipe_capacity - p.len ≡ pipe_capacity - length (contents p) =
      omega (arith, length-contents p) in
    let one = fill-Filled bs (pipe_capacity - p.len) p v (omega (arith, v.fits)) in
    ap₂ ◌∷◌ (ap wrote (one.written ∙ ap (min (length bs)) room)) (
      run_refines_queue ops (fill bs p).1 one.valid
      ∙ ap (run_queue ops) (one.held ∙ ap (λ r. contents p ++ take r bs) room))
run_refines_queue (reads n ∷ ops) p v =
    let one = drain-Drained n p v in
    ap₂ ◌∷◌ (ap got one.bytes)
      (run_refines_queue ops (drain n p).1 one.valid ∙ ap (run_queue ops) one.left)

pub new_pipe-IsQueue : IsQueue new_pipe
new_pipe-IsQueue = record {
  size = length-replicate pipe_capacity 0;
  read_in = omega arith;
  fits = omega arith;
  write_at = refl;
}
