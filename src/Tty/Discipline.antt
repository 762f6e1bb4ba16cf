-- ===== src/Tty/Discipline.antt =====
-- `input_char` against a console that is a queue of bytes and a line.
use core_os.Base.{
  ℕ, ◌-◌, ◌≡◌, sym, ap, ◌∙◌, [], ◌∷◌, ◌++◌, arith, length-set, length-take, take, take-set_next,
  drop_last-take,
}
use core_os.Base.Bounded.{enqueue, enqueue_all, enqueue_all-append}
use core_os.Tty.{Inner, newline, push_line, commit_line, discipline}
use core_os.Tty.Console.{Console, type_char}
use core_os.Tty.Cooked.{
  IsValid, waiting, cooked_push-IsValid, waiting-cooked_push, push_line-IsValid, waiting-push_line,
}

abbrev pub view : Inner → Console
view s = record { queue = waiting s; line = take s.line_len s.line }

commit_line-view :
    (s : Inner)
    → IsValid s
    → view (commit_line s) ≡ record {
      queue = enqueue_all 1023 (waiting s) (take s.line_len s.line ++ newline ∷ []);
      line = [];
    }
unfolding commit_line enqueue_all
commit_line-view s v =
    ap (λ q. record { queue = q; line = [] })
      (waiting-cooked_push (push_line s.line_len 0 s) newline (push_line-IsValid s.line_len 0 s v)
        ∙ ap (λ q. enqueue 1023 q newline)
            (waiting-push_line s.line_len 0 s v (omega (arith, v.line_in)))
        ∙ sym (enqueue_all-append 1023 (take s.line_len s.line) (newline ∷ []) (waiting s)))

pub commit_line-IsValid : (s : Inner) → IsValid s → IsValid (commit_line s)
unfolding commit_line
commit_line-IsValid s v = ground (
  arith,
  cooked_push-IsValid (push_line s.line_len 0 s) newline (push_line-IsValid s.line_len 0 s v),
)

-- On a valid terminal a typed character keeps the array sizes and all indices of the terminal in
-- range.
pub discipline-IsValid : (s : Inner) (c : ℕ) → IsValid s → IsValid (discipline s c).1
unfolding discipline
discipline-IsValid s c v = ground (arith, commit_line-IsValid s v, length-set s.line s.line_len c)

-- On a valid terminal a typed character changes the two arrays of the terminal as the
-- specification changes a queue and a line, with the same echo.
pub discipline-refines :
    (s : Inner) (c : ℕ)
    → IsValid s
    → ((discipline s c).0, view (discipline s c).1) ≡ type_char (view s) c
unfolding discipline type_char
discipline-refines s c v = ground (
  arith,
  commit_line-view s v,
  length-take s.line_len s.line,
  v.line_size,
  take-set_next s.line_len s.line c,
  drop_last-take (s.line_len - 1) s.line,
)
