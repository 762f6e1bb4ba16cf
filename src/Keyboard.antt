-- ===== src/Keyboard.antt =====
-- kernel/src/hw/ps2.rs: scan codes to key events and characters, with the state of the shift and
-- caps lock keys; and `handle_scancode` of kernel/src/hw/keyboard.rs, which sends the character to
-- the terminal. A character is its code; a scan code is a byte.
pub mod Typing
mod Tests
use core_os.Base.{
  ℕ, ◌+◌, ◌-◌, ◌/◌, ◌%◌, Bool, true, false, not, ◌&&◌, ◌||◌, List, [], ◌∷◌, Option, none, some,
  if◌then◌else◌, ◌==◌, leb,
}
use core_os.Tty
use core_os.Tty.{Inner, Echo, input_char}

pub data KeyCode : Type 0 where
  printable : ℕ → ℕ → KeyCode
  enter backspace space shift caps_lock unknown : KeyCode

pub data KeyEvent : Type 0 where
  press release : KeyCode → KeyEvent

pub record KeyboardState : Type 0 where
  pub shift : Bool
  pub caps_lock : Bool

unfoldable pub xor : Bool → Bool → Bool
xor true b = not b
xor false b = b

abbrev pub new : KeyboardState
new = record { shift = false; caps_lock = false }

-- The arms of the match on the code for the keys of the number row and of the symbols, with the
-- characters without and with shift, and those of `map_alpha`.
abbrev pub symbol_keys : List (ℕ × ℕ × ℕ)
symbol_keys =
    (0x02, 49, 33)
    ∷ (0x03, 50, 64)
    ∷ (0x04, 51, 35)
    ∷ (0x05, 52, 36)
    ∷ (0x06, 53, 37)
    ∷ (0x07, 54, 94)
    ∷ (0x08, 55, 38)
    ∷ (0x09, 56, 42)
    ∷ (0x0a, 57, 40)
    ∷ (0x0b, 48, 41)
    ∷ (0x0c, 45, 95)
    ∷ (0x0d, 61, 43)
    ∷ (0x1a, 91, 123)
    ∷ (0x1b, 93, 125)
    ∷ (0x27, 59, 58)
    ∷ (0x28, 39, 34)
    ∷ (0x29, 96, 126)
    ∷ (0x2b, 92, 124)
    ∷ (0x33, 44, 60)
    ∷ (0x34, 46, 62)
    ∷ (0x35, 47, 63)
    ∷ []

abbrev pub alpha_keys : List (ℕ × ℕ)
alpha_keys =
    (0x1e, 97)
    ∷ (0x30, 98)
    ∷ (0x2e, 99)
    ∷ (0x20, 100)
    ∷ (0x12, 101)
    ∷ (0x21, 102)
    ∷ (0x22, 103)
    ∷ (0x23, 104)
    ∷ (0x17, 105)
    ∷ (0x24, 106)
    ∷ (0x25, 107)
    ∷ (0x26, 108)
    ∷ (0x32, 109)
    ∷ (0x31, 110)
    ∷ (0x18, 111)
    ∷ (0x19, 112)
    ∷ (0x10, 113)
    ∷ (0x13, 114)
    ∷ (0x1f, 115)
    ∷ (0x14, 116)
    ∷ (0x16, 117)
    ∷ (0x2f, 118)
    ∷ (0x11, 119)
    ∷ (0x2d, 120)
    ∷ (0x15, 121)
    ∷ (0x2c, 122)
    ∷ []

unfoldable pub find_symbol : ℕ → List (ℕ × ℕ × ℕ) → Option (ℕ × ℕ)
find_symbol code [] = none
find_symbol code ((k, normal, shifted) ∷ ks) =
    let rest = find_symbol code ks in if k == code then some (normal, shifted) else rest

unfoldable pub find_alpha : ℕ → List (ℕ × ℕ) → ℕ
find_alpha code [] = 0
find_alpha code ((k, c) ∷ ks) = let rest = find_alpha code ks in if k == code then c else rest

unfoldable pub map_alpha : ℕ → ℕ
map_alpha code = find_alpha code alpha_keys

-- `to_ascii_uppercase` of what `map_alpha` gives, and `is_ascii_alphabetic`.
unfoldable pub to_ascii_uppercase : ℕ → ℕ
to_ascii_uppercase c = if leb 97 c && leb c 122 then c - 32 else c

unfoldable pub is_ascii_alphabetic : ℕ → Bool
is_ascii_alphabetic c = leb 65 c && leb c 90 || leb 97 c && leb c 122

unfoldable pub alpha_key : ℕ → KeyCode
alpha_key code =
    let c = map_alpha code in if c == 0 then unknown else printable c (to_ascii_uppercase c)

unfoldable pub key_of : ℕ → KeyCode
key_of code =
    if code == 0x2a || code == 0x36
    then shift
    else if code == 0x3a
    then caps_lock
    else if code == 0x1c
    then enter
    else if code == 0x0e
    then backspace
    else if code == 0x39
    then space
    else elim (find_symbol code symbol_keys) [
      | some (normal, shifted) ↦ printable normal shifted
      | none ↦ (if leb 0x10 code && leb code 0x32 then alpha_key code else unknown)
    ]

unfoldable pub apply_state : KeyboardState → KeyEvent → KeyboardState
apply_state s (press shift) = record s { shift = true }
apply_state s (release shift) = record s { shift = false }
apply_state s (press caps_lock) = record s { caps_lock = not s.caps_lock }
apply_state s e = s

unfoldable pub decode_scancode : KeyboardState → ℕ → KeyEvent × KeyboardState
decode_scancode s scancode =
    let key = key_of (scancode % 128) in
    let event = if scancode / 128 % 2 == 0 then press key else release key in
    (event, apply_state s event)

unfoldable pub keyevent_to_char : KeyboardState → KeyEvent → Option ℕ
keyevent_to_char s (release k) = none
keyevent_to_char s (press (printable normal shifted)) =
    if is_ascii_alphabetic normal
    then some (if xor s.shift s.caps_lock then shifted else normal)
    else some (if s.shift then shifted else normal)
keyevent_to_char s (press enter) = some 10
keyevent_to_char s (press backspace) = some 8
keyevent_to_char s (press space) = some 32
keyevent_to_char s (press k) = none

-- The state of the keys and of the terminal; what goes to the screen is left to `input_char`.
unfoldable pub handle_scancode : KeyboardState → Inner → ℕ → KeyboardState × Inner
handle_scancode s tty scancode =
    let r = decode_scancode s scancode in
    elim (keyevent_to_char r.1 r.0) [
      | none ↦ (r.1, tty)
      | some c ↦ (r.1, (input_char tty (c % 256)).1)
    ]
