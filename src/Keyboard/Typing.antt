-- ===== src/Keyboard/Typing.antt =====
-- Every printable character can be typed, and a line that is typed on the keys is read.
use core_os.Base.{
  ℕ, ◌+◌, ◌-◌, ◌%◌, ◌≤◌, ◌<◌, ◌≡◌, refl, ap, ◌∙◌, Bool, true, false, not, ◌&&◌, List, [], ◌∷◌, ◌++◌,
  Option, none, some, arith, Option-cases, inl, inr, list_eq, list_eq_iff, if◌then◌else◌, ◌==◌,
  length,
}
use core_os.Tty.{Inner, input_char, input_all, read, newline, line_capacity}
use core_os.Tty.Cooked.{waiting, IsValid}
use core_os.Base.Tables.{holds_below, holds_below_at}
use core_os.Tty.Lines.{Printable, typed_line_read}
use core_os.Keyboard.{
  KeyboardState, new, handle_scancode, decode_scancode, keyevent_to_char, key_of, find_symbol,
  find_alpha, map_alpha, to_ascii_uppercase, is_ascii_alphabetic, alpha_key, apply_state, xor,
  symbol_keys, alpha_keys,
}

-- The keys pressed one after another.
unfoldable pub handle_all : List ℕ → KeyboardState → Inner → KeyboardState × Inner
handle_all [] s tty = (s, tty)
handle_all (c ∷ cs) s tty = let r = handle_scancode s tty c in handle_all cs r.0 r.1

-- The code of the key that carries a character, and whether shift is held for it.
unfoldable pub symbol_stroke : ℕ → List (ℕ × ℕ × ℕ) → Option (ℕ × Bool)
symbol_stroke c [] = none
symbol_stroke c ((k, normal, shifted) ∷ ks) =
    let rest = symbol_stroke c ks in
    if normal == c then some (k, false) else if shifted == c then some (k, true) else rest

unfoldable pub alpha_stroke : ℕ → List (ℕ × ℕ) → Option (ℕ × Bool)
alpha_stroke c [] = none
alpha_stroke c ((k, d) ∷ ks) =
    let rest = alpha_stroke c ks in
    if d == c then some (k, false) else if d == c + 32 then some (k, true) else rest

-- A key pressed and released, with shift pressed before and released after where it is needed.
unfoldable pub tap : ℕ × Bool → List ℕ
tap (k, false) = k ∷ (k + 128) ∷ []
tap (k, true) = 0x2a ∷ k ∷ (k + 128) ∷ 0xaa ∷ []

unfoldable pub strokes : ℕ → List ℕ
strokes c = if c == 32 then tap (0x39, false) else elim (alpha_stroke c alpha_keys) [
  | some t ↦ tap t
  | none ↦ elim (symbol_stroke c symbol_keys) [ some t ↦ tap t | none ↦ [] ]
]

-- The characters that a sequence of scan codes gives, and the state after it.
unfoldable pub chars_of : List ℕ → KeyboardState → List ℕ × KeyboardState
chars_of [] s = ([], s)
chars_of (c ∷ cs) s =
    let r = decode_scancode s c in
    let rest = chars_of cs r.1 in
    elim (keyevent_to_char r.1 r.0) [ none ↦ rest | some d ↦ (d % 256 ∷ rest.0, rest.1) ]

handle_all-chars_of :
    (cs : List ℕ) (s : KeyboardState) (tty : Inner)
    → handle_all cs s tty ≡ ((chars_of cs s).1, input_all (chars_of cs s).0 tty)
unfolding handle_all chars_of handle_scancode input_all
handle_all-chars_of [] s tty = refl
handle_all-chars_of (c ∷ cs) s tty =
    elim (Option-cases (keyevent_to_char (decode_scancode s c).1 (decode_scancode s c).0)) [
      | inl silent ↦
          rw (handle_all, handle_scancode, chars_of, silent)
            (handle_all-chars_of cs (decode_scancode s c).1 tty)
      | inr (d, e) ↦
          rw (handle_all, handle_scancode, chars_of, e)
            (handle_all-chars_of cs (decode_scancode s c).1 (input_char tty (d % 256)).1)
    ]

-- The strokes of a character give that character and end with no key held.
unfoldable is_typed : ℕ → Bool
is_typed c =
    let r = chars_of (strokes c) new in list_eq r.0 (c ∷ []) && not r.1.shift && not r.1.caps_lock

printable_typed : holds_below (λ i. is_typed (i + 32)) 95 ≡ true
unfolding holds_below is_typed chars_of strokes alpha_stroke symbol_stroke tap decode_scancode
    keyevent_to_char key_of find_symbol find_alpha map_alpha to_ascii_uppercase is_ascii_alphabetic
    alpha_key apply_state xor
printable_typed = refl

-- What `is_typed` tests.
is_typed-chars_of : (c : ℕ) → is_typed c ≡ true → chars_of (strokes c) new ≡ (c ∷ [], new)
unfolding is_typed
is_typed-chars_of c h =
    go (chars_of (strokes c) new).0 (chars_of (strokes c) new).1.shift
      (chars_of (strokes c) new).1.caps_lock h
  where
    go :
        (cs : List ℕ) (held locked : Bool)
        → list_eq cs (c ∷ []) && not held && not locked ≡ true
        → ◌≡◌ {A = List ℕ × KeyboardState}
            (cs, record { shift = held; caps_lock = locked })
            (c ∷ [], new)
    go cs true locked e = absurd (ground (arith, e))
    go cs false true e = absurd (ground (arith, e))
    go cs false false e =
        ap (λ (ds : List ℕ). (ds, new)) ((list_eq_iff cs (c ∷ [])).0 (ground (arith, e)))

pub strokes_lem : (c : ℕ) → 32 ≤ c → c ≤ 126 → chars_of (strokes c) new ≡ (c ∷ [], new)
strokes_lem c a b =
    let same : c ≡ c - 32 + 32 = omega arith in
    is_typed-chars_of c (
      ap is_typed same
      ∙ holds_below_at (λ i. is_typed (i + 32)) 95 printable_typed (c - 32) (omega arith))

-- The keys of a whole line, with the enter key at its end.
unfoldable pub line_strokes : List ℕ → List ℕ
line_strokes [] = tap (0x1c, false)
line_strokes (c ∷ cs) = strokes c ++ line_strokes cs

chars_of-append :
    (xs ys : List ℕ) (s : KeyboardState)
    → chars_of (xs ++ ys) s
      ≡ ((chars_of xs s).0 ++ (chars_of ys (chars_of xs s).1).0, (chars_of ys (chars_of xs s).1).1)
unfolding chars_of
chars_of-append [] ys s = refl
chars_of-append (x ∷ xs) ys s =
    elim (Option-cases (keyevent_to_char (decode_scancode s x).1 (decode_scancode s x).0)) [
      | inl silent ↦ rw (chars_of, silent) (chars_of-append xs ys (decode_scancode s x).1)
      | inr (d, e) ↦
          rw (chars_of, e)
            (ap (λ (r : List ℕ × KeyboardState). (d % 256 ∷ r.0, r.1))
              (chars_of-append xs ys (decode_scancode s x).1))
    ]

enter_typed : chars_of (tap (0x1c, false)) new ≡ (newline ∷ [], new)
unfolding chars_of tap decode_scancode keyevent_to_char key_of apply_state find_symbol find_alpha
    map_alpha alpha_key
enter_typed = refl

chars_of-line_strokes :
    (cs : List ℕ) → Printable cs → chars_of (line_strokes cs) new ≡ (cs ++ newline ∷ [], new)
unfolding line_strokes
chars_of-line_strokes [] a = enter_typed
chars_of-line_strokes (c ∷ cs) a =
    chars_of-append (strokes c) (line_strokes cs) new
    ∙ rw (strokes_lem c a.0 a.1)
        (ap (λ (r : List ℕ × KeyboardState). (c ∷ r.0, r.1)) (chars_of-line_strokes cs a.2))

-- On a valid terminal on which nothing waits and nothing is typed, with no key held and no caps
-- lock, pressing and releasing the keys of at most 256 printable characters, with shift where a
-- character needs it, and then the enter key makes a reader who asks for more bytes than the line
-- has read that line with its newline.
pub read-line_strokes :
    (tty : Inner) (cs : List ℕ) (n : ℕ)
    → IsValid tty
    → waiting tty ≡ []
    → tty.line_len ≡ 0
    → Printable cs
    → length cs ≤ line_capacity
    → length cs < n
    → (read n [] (handle_all (line_strokes cs) new tty).1).0 ≡ some (cs ++ newline ∷ [])
read-line_strokes tty cs n v e z a fits more =
    ap (λ (t : Inner). (read n [] t).0)
      (ap (λ (r : KeyboardState × Inner). r.1) (handle_all-chars_of (line_strokes cs) new tty)
        ∙ ap (λ (r : List ℕ × KeyboardState). input_all r.0 tty) (chars_of-line_strokes cs a))
    ∙ typed_line_read tty cs n v e z a fits more
