-- ===== src/Keyboard/Tests.antt =====
-- Runs of the keyboard, and the theorem about it at a concrete line.
use core_os.Base.{◌≡◌, refl, [], ◌∷◌, some, true, arith}
use core_os.Tty
use core_os.Tty.{read, newline}
use core_os.Tty.Cooked.{new-IsValid, waiting}
use core_os.Keyboard.{
  new, press, release, printable, shift, decode_scancode, key_of, find_symbol, find_alpha,
  map_alpha, to_ascii_uppercase, alpha_key, apply_state,
}
use core_os.Keyboard.Typing.{handle_all, line_strokes, read-line_strokes}

decode_scancode_runs :
    ((decode_scancode new 0x1e).0 ≡ press (printable b'a' b'A'))
    × ((decode_scancode new 0xaa).0 ≡ release shift)
    × ((decode_scancode new 0x2a).1.shift ≡ true)
unfolding decode_scancode key_of find_symbol find_alpha map_alpha to_ascii_uppercase alpha_key
    apply_state
decode_scancode_runs = (refl, refl, refl)

nothing_waits : waiting Tty.new ≡ []
unfolding Tty.new
nothing_waits = refl

nothing_typed : Tty.new.line_len ≡ 0
unfolding Tty.new
nothing_typed = refl

-- The line "Ls" on a new terminal.
read-line_strokes_example :
    (read 64 [] (handle_all (line_strokes (b'L' ∷ b's' ∷ [])) new Tty.new).1).0
    ≡ some (b'L' ∷ b's' ∷ newline ∷ [])
read-line_strokes_example =
    read-line_strokes Tty.new (b'L' ∷ b's' ∷ []) 64 new-IsValid nothing_waits nothing_typed
      (omega arith) (omega arith) (omega arith)
