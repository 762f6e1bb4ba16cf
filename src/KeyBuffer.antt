-- ===== src/KeyBuffer.antt =====
-- kernel/src/hw/kbd_buffer.rs, the ring of characters between the keyboard interrupt and its
-- readers. `with_lock` turns interrupts off, so each operation is one step on the state.
pub mod Queue
mod Tests
use core_os.Base.{
  ℕ, zero, suc, ◌+◌, ◌%◌, Bool, true, false, List, [], ◌∷◌, Option, none, some, get_or, set,
  replicate, if◌then◌else◌, ◌==◌,
}

abbrev pub buf_size : ℕ
buf_size = 128

-- `Inner`; a `char` is its code point.
pub record Inner : Type 0 where
  pub buf : List ℕ
  pub head : ℕ
  pub tail : ℕ

pub new : Inner
new = record { buf = replicate buf_size 0; head = 0; tail = 0 }

pub is_empty : Inner → Bool
is_empty s = s.head == s.tail

pub is_full : Inner → Bool
is_full s = (s.head + 1) % buf_size == s.tail

pub push : Inner → ℕ → Inner
push s c =
    if is_full s then s else record s { buf = set s.buf s.head c; head = (s.head + 1) % buf_size }

pub pop : Inner → Option ℕ × Inner
pop s =
    if is_empty s
    then (none, s)
    else (some (get_or s.buf s.tail 0), record s { tail = (s.tail + 1) % buf_size })

-- What the interrupt handler and the readers do, in the order in which they get the lock.
pub data Op : Type 0 where
  put : ℕ → Op
  get : Op

-- The answers to the `get`s.
pub run : Inner → List Op → List (Option ℕ)
run s [] = []
run s (put c ∷ ops) = run (push s c) ops
run s (get ∷ ops) = (pop s).0 ∷ run (pop s).1 ops
