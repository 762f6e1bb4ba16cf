-- ===== src/Tty.antt =====
-- kernel/src/hw/tty.rs, the line discipline of the console: characters are collected in a line,
-- and a finished line goes to the ring that `read` takes from. `with_lock` turns interrupts off,
-- so each operation on `Inner` is one step. What goes to the screen is a list of bytes.
pub mod Console
pub mod Cooked
pub mod Discipline
pub mod Reading
pub mod Lines
mod Tests
use core_os.Base.{
  ℕ, zero, suc, ◌+◌, ◌-◌, ◌%◌, Bool, true, false, ◌&&◌, ◌||◌, List, [], ◌∷◌, ◌++◌, Option, none,
  some, get_or, set, replicate, if◌then◌else◌, ◌==◌, leb, ltb,
}

abbrev pub cooked_capacity : ℕ
cooked_capacity = 1024

abbrev pub line_capacity : ℕ
line_capacity = 256

abbrev pub newline : ℕ
newline = 10

pub record Inner : Type 0 where
  pub cooked : List ℕ
  pub cooked_head : ℕ
  pub cooked_tail : ℕ
  pub line : List ℕ
  pub line_len : ℕ

unfoldable pub new : Inner
new = record {
  cooked = replicate cooked_capacity 0;
  cooked_head = 0;
  cooked_tail = 0;
  line = replicate line_capacity 0;
  line_len = 0;
}

pub cooked_is_empty : Inner → Bool
cooked_is_empty s = s.cooked_head == s.cooked_tail

pub cooked_is_full : Inner → Bool
cooked_is_full s = (s.cooked_head + 1) % cooked_capacity == s.cooked_tail

pub cooked_push : Inner → ℕ → Inner
cooked_push s byte = if cooked_is_full s then s else record s {
  cooked = set s.cooked s.cooked_head byte;
  cooked_head = (s.cooked_head + 1) % cooked_capacity;
}

pub cooked_pop : Inner → Option ℕ × Inner
cooked_pop s = if cooked_is_empty s then (none, s) else (
  some (get_or s.cooked s.cooked_tail 0),
  record s { cooked_tail = (s.cooked_tail + 1) % cooked_capacity },
)

-- The loop of `commit_line`: rounds left and `i`.
pub push_line : ℕ → ℕ → Inner → Inner
push_line zero i s = s
push_line (suc n) i s = push_line n (i + 1) (cooked_push s (get_or s.line i 0))

pub commit_line : Inner → Inner
commit_line s = record (cooked_push (push_line s.line_len 0 s) newline) { line_len = 0 }

pub data Echo : Type 0 where
  silent backspace new_line : Echo
  byte : ℕ → Echo

-- The closure of `input_char`.
pub discipline : Inner → ℕ → Echo × Inner
discipline s c =
    if c == 13 || c == newline
    then (new_line, commit_line s)
    else (if c == 0x08 || c == 0x7f
        then (if s.line_len == 0
            then (silent, s)
            else (backspace, record s { line_len = s.line_len - 1 }))
        else (if leb 0x20 c && leb c 0x7e
            then (if leb line_capacity s.line_len then (silent, s) else (
              byte c,
              record s { line = set s.line s.line_len c; line_len = s.line_len + 1 },
            ))
            else (silent, s)))

pub echo_bytes : Echo → List ℕ
echo_bytes silent = []
echo_bytes (byte c) = c ∷ []
echo_bytes backspace = 0x08 ∷ 0x20 ∷ 0x08 ∷ []
echo_bytes new_line = newline ∷ []

-- `input_char` with what it writes to the screen.
pub input_char : Inner → ℕ → List ℕ × Inner
input_char s c = (echo_bytes (discipline s c).0, (discipline s c).1)

-- The inner loop of `read`: bytes still wanted.
pub copy_out : ℕ → Inner → List ℕ × Inner
copy_out zero s = ([], s)
copy_out (suc n) s =
    let rest = copy_out n (cooked_pop s).1 in
    elim (cooked_pop s).0 [
      | none ↦ ([], s)
      | some c ↦ (if c == newline then (c ∷ [], (cooked_pop s).1) else (c ∷ rest.0, rest.1))
    ]

unfoldable pub input_all : List ℕ → Inner → Inner
input_all [] s = s
input_all (c ∷ cs) s = input_all cs (input_char s c).1

-- `read`: each call of `wait_for_event` lets one batch of characters come in. The result is
-- `none` while the reader still waits at the end of the batches.
pub read : ℕ → List (List ℕ) → Inner → Option (List ℕ) × Inner
read zero batches s = (some [], s)
read (suc n) [] s = elim (copy_out (suc n) s).0 [
  | [] ↦ (none, (copy_out (suc n) s).1)
  | c ∷ cs ↦ (some (c ∷ cs), (copy_out (suc n) s).1)
]
read (suc n) (batch ∷ batches) s =
    let again = read (suc n) batches (input_all batch (copy_out (suc n) s).1) in
    elim (copy_out (suc n) s).0 [ [] ↦ again | c ∷ cs ↦ (some (c ∷ cs), (copy_out (suc n) s).1) ]
