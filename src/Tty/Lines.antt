-- ===== src/Tty/Lines.antt =====
-- A line that is typed is what a reader gets.
use core_os.Base.{
  ℕ, zero, suc, ◌+◌, ◌≤◌, ◌<◌, ◌≡◌, refl, ap, ap₂, ◌∙◌, List, [], ◌∷◌, ◌++◌, Option, some, arith,
  length, length-append, take, take_all,
}
use mathlib.Core.List.{append-nil, append_assoc}
use core_os.Base.Bounded.{enqueue_all_lem}
use core_os.Tty.{Inner, newline, line_capacity, input_all, read}
use core_os.Tty.Cooked.{IsValid, waiting}
use core_os.Tty.Console.{Console, type_char, type_all, take_line, read_line}
use core_os.Tty.Discipline.{view}
use core_os.Tty.Reading.{input_all-refines, read-refines}

-- The characters from the space to the tilde.
abbrev pub Printable : List ℕ → Type 0
Printable [] = Unit {0}
Printable (c ∷ cs) = (0x20 ≤ c) × (c ≤ 0x7e) × Printable cs

type_char-Printable :
    (c : ℕ) (q p : List ℕ)
    → 0x20 ≤ c
    → c ≤ 0x7e
    → length p < line_capacity
    → (type_char (record { queue = q; line = p }) c).1 ≡ record { queue = q; line = p ++ c ∷ [] }
unfolding type_char
type_char-Printable c q p a b h = ground arith

type_all-Printable :
    (cs q p : List ℕ)
    → Printable cs
    → length p + length cs ≤ line_capacity
    → type_all cs (record { queue = q; line = p }) ≡ record { queue = q; line = p ++ cs }
unfolding type_all
type_all-Printable [] q p a h = simp append-nil
type_all-Printable (c ∷ cs) q p a h = rw (type_char-Printable c q p a.0 a.1 (omega arith)) (
    type_all-Printable cs q (p ++ c ∷ []) a.2 (omega (arith, length-append p (c ∷ [])))
    ∙ simp append_assoc)

type_all-append :
    (xs ys : List ℕ) (k : Console) → type_all (xs ++ ys) k ≡ type_all ys (type_all xs k)
unfolding type_all
type_all-append [] ys k = refl
type_all-append (x ∷ xs) ys k = type_all-append xs ys (type_char k x).1

take_line-line :
    (cs : List ℕ) (n : ℕ)
    → Printable cs
    → length cs < n
    → take_line n (cs ++ newline ∷ []) ≡ (cs ++ newline ∷ [], [])
unfolding take_line
take_line-line cs zero a h = absurd (omega arith)
take_line-line [] (suc n) a h = refl
take_line-line (c ∷ cs) (suc n) a h = ground (arith, take_line-line cs n a.2 (omega arith))

type_line :
    (cs : List ℕ)
    → Printable cs
    → length cs ≤ line_capacity
    → type_all (cs ++ newline ∷ []) (record { queue = []; line = [] })
      ≡ record { queue = cs ++ newline ∷ []; line = [] }
unfolding type_all type_char
type_line cs a h =
    type_all-append cs (newline ∷ []) (record { queue = []; line = [] })
    ∙ ap (type_all (newline ∷ [])) (type_all-Printable cs [] [] a (omega arith))
    ∙ ap (λ q. record { queue = q; line = [] })
        (enqueue_all_lem 1023 (cs ++ newline ∷ []) 1023 [] refl
          ∙ take_all 1023 (cs ++ newline ∷ []) (omega (arith, length-append cs (newline ∷ []))))

read_line-line :
    (cs r : List ℕ) (n : ℕ)
    → (take_line (suc n) (cs ++ newline ∷ [])).0 ≡ r
    → (read_line (suc n) [] (record { queue = cs ++ newline ∷ []; line = [] })).0 ≡ some r
unfolding read_line
read_line-line [] r n e = ap some e
read_line-line (c ∷ cs) r n e = ap some e

-- On a valid and empty console, a line of at most 256 printable characters that is typed and ended
-- by a newline is returned whole, with its newline, to a reader who asks for more bytes than the
-- line has.
pub typed_line_read :
    (s : Inner) (cs : List ℕ) (n : ℕ)
    → IsValid s
    → waiting s ≡ []
    → s.line_len ≡ 0
    → Printable cs
    → length cs ≤ line_capacity
    → length cs < n
    → (read n [] (input_all (cs ++ newline ∷ []) s)).0 ≡ some (cs ++ newline ∷ [])
typed_line_read s cs zero v e z a h more = absurd (omega arith)
typed_line_read s cs (suc n) v e z a h more =
    ap (λ (r : Option (List ℕ) × Console). r.0)
      (read-refines [] (suc n) (input_all (cs ++ newline ∷ []) s) typed.0)
    ∙ ap (λ k. (read_line (suc n) [] k).0)
        (typed.1
          ∙ ap (type_all (cs ++ newline ∷ []))
              (ap₂ (λ q (l : List ℕ). record { queue = q; line = l }) e (ap (λ k. take k s.line) z))
          ∙ type_line cs a h)
    ∙ read_line-line cs (cs ++ newline ∷ []) n
        (ap (λ (t : List ℕ × List ℕ). t.0) (take_line-line cs (suc n) a more))
  where
    typed :
        IsValid (input_all (cs ++ newline ∷ []) s)
        × (view (input_all (cs ++ newline ∷ []) s) ≡ type_all (cs ++ newline ∷ []) (view s))
    typed = input_all-refines (cs ++ newline ∷ []) s v
