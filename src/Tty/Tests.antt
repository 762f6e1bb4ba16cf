-- ===== src/Tty/Tests.antt =====
-- Runs of the terminal, and the theorems about it at concrete states.
use core_os.Base.{ℕ, ◌≡◌, refl, List, [], ◌∷◌, some, Option, replicate}
use core_os.Tty.{
  new, Echo, discipline, input_char, input_all, commit_line, push_line, cooked_push, cooked_pop,
  cooked_is_empty, cooked_is_full, copy_out, read,
}
use core_os.Tty.Console.{Console, type_char, read_line}
use core_os.Tty.Cooked.{IsValid, new-IsValid}
use core_os.Tty.Discipline.{view, discipline-IsValid, discipline-refines}
use core_os.Tty.Reading.{read-refines}

-- "lz", a backspace, "s", return.
abbrev typing : List ℕ
typing = b'l' ∷ b'z' ∷ 0x7f ∷ b's' ∷ 13 ∷ []

-- The reader waits once, and then gets the line.
read-typing : (read 64 (typing ∷ []) new).0 ≡ some (b'l' ∷ b's' ∷ 10 ∷ [])
unfolding read copy_out input_all input_char discipline commit_line push_line cooked_push cooked_pop
    cooked_is_empty cooked_is_full new replicate
read-typing = refl

discipline-IsValid_example : IsValid (discipline new b'a').1
discipline-IsValid_example = discipline-IsValid new b'a' new-IsValid

discipline-refines_example :
    ◌≡◌ {A = Echo × Console}
      ((discipline new b'a').0, view (discipline new b'a').1)
      (type_char (view new) b'a')
discipline-refines_example = discipline-refines new b'a' new-IsValid

read-refines_example :
    ◌≡◌ {A = Option (List ℕ) × Console}
      ((read 64 (typing ∷ []) new).0, view (read 64 (typing ∷ []) new).1)
      (read_line 64 (typing ∷ []) (view new))
read-refines_example = read-refines (typing ∷ []) 64 new new-IsValid
