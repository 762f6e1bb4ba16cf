-- ===== src/Tty/Console.antt =====
-- The console that the users of the terminal are promised: a queue of finished bytes, the line
-- being edited, what a typed character does and what a read returns.
use core_os.Base.{
  ℕ, zero, suc, Bool, ◌&&◌, ◌||◌, List, [], ◌∷◌, ◌++◌, Option, none, some, length, drop_last,
  if◌then◌else◌, ◌==◌, leb, ltb,
}
use core_os.Base.Bounded.{enqueue_all}
use core_os.Tty.{Echo, silent, backspace, new_line, byte, newline, line_capacity}

-- What a user of the terminal sees: finished bytes, and the line being edited.
pub record Console : Type 0 where
  pub queue : List ℕ
  pub line : List ℕ

abbrev pub is_printable : ℕ → Bool
is_printable c = leb 0x20 c && leb c 0x7e

-- The specification of one typed character.
unfoldable pub type_char : Console → ℕ → Echo × Console
type_char k c =
    if c == 13 || c == newline
    then (new_line, record { queue = enqueue_all 1023 k.queue (k.line ++ newline ∷ []); line = [] })
    else (if c == 0x08 || c == 0x7f
        then (if length k.line == 0
            then (silent, k)
            else (backspace, record k { line = drop_last k.line }))
        else (if is_printable c && ltb (length k.line) line_capacity
            then (byte c, record k { line = k.line ++ c ∷ [] })
            else (silent, k)))

-- At most `n` bytes from the front of a queue, up to the end of the first line.
unfoldable pub take_line : ℕ → List ℕ → List ℕ × List ℕ
take_line zero q = ([], q)
take_line (suc n) [] = ([], [])
take_line (suc n) (c ∷ q) =
    if c == newline then (c ∷ [], q) else (c ∷ (take_line n q).0, (take_line n q).1)

unfoldable pub type_all : List ℕ → Console → Console
type_all [] k = k
type_all (c ∷ cs) k = type_all cs (type_char k c).1

-- The specification of a read: while the queue is empty the reader lets the next batch of
-- characters be typed; the result is `none` if it still waits when there are no more batches.
unfoldable pub read_line : ℕ → List (List ℕ) → Console → Option (List ℕ) × Console
read_line zero batches k = (some [], k)
read_line (suc n) [] k = elim k.queue [
  | [] ↦ (none, k)
  | c ∷ q ↦ (some (take_line (suc n) (c ∷ q)).0, record k { queue = (take_line (suc n) (c ∷ q)).1 })
]
read_line (suc n) (batch ∷ batches) k =
    let again = read_line (suc n) batches (type_all batch k) in
    elim k.queue [
      | [] ↦ again
      | c ∷ q ↦
          (some (take_line (suc n) (c ∷ q)).0, record k { queue = (take_line (suc n) (c ∷ q)).1 })
    ]
