-- ===== src/Tty/Reading.antt =====
-- `read`, and what it gives for a line that was typed.
use core_os.Base.{
  ℕ, zero, suc, ◌≡◌, refl, sym, ap, ap₂, ◌∙◌, List, [], ◌∷◌, Option, none, some, arith, ◌==◌,
  Bool-cases, inl, inr, take, List-cases,
}
use core_os.Base.Bounded.{dequeue}
use core_os.Tty.{
  Inner, newline, cooked_pop, copy_out, discipline, input_char, input_all, read, Echo,
}
use core_os.Tty.Cooked.{IsValid, waiting, cooked_pop-IsValid, cooked_pop-line, waiting-cooked_pop}
use core_os.Tty.Console.{Console, type_all, take_line, read_line}
use core_os.Tty.Discipline.{view, discipline-IsValid, discipline-refines}

-- What a copy to the reader leaves behind: all but the line being edited may have changed.
record Copied (n : ℕ) (s : Inner) (out : List ℕ × Inner) : Type 0 where
  valid : IsValid out.1
  bytes : out.0 ≡ (take_line n (waiting s)).0
  left : waiting out.1 ≡ (take_line n (waiting s)).1
  line : out.1.line ≡ s.line
  line_len : out.1.line_len ≡ s.line_len

copy_out-Copied : (n : ℕ) (s : Inner) → IsValid s → Copied n s (copy_out n s)
unfolding copy_out take_line dequeue
copy_out-Copied zero s v = record {
  valid = v;
  bytes = refl;
  left = refl;
  line = refl;
  line_len = refl;
}
copy_out-Copied (suc n) s v =
    step (waiting s) refl (copy_out-Copied n (cooked_pop s).1 (cooked_pop-IsValid s v))
  where
    step :
        (q : List ℕ)
        → waiting s ≡ q
        → Copied n (cooked_pop s).1 (copy_out n (cooked_pop s).1)
        → Copied (suc n) s (copy_out (suc n) s)
    step [] e rest =
        let nothing : (cooked_pop s).0 ≡ none = (waiting-cooked_pop s v).0 ∙ rw (e, dequeue) refl in
        rw (nothing, copy_out)
          (record {
            valid = v;
            bytes = rw (e, take_line) refl;
            left = e ∙ rw (e, take_line) refl;
            line = refl;
            line_len = refl;
          })
    step (c ∷ q) e rest = elim (Bool-cases (c == newline)) [
      | inl ends ↦
          rw (found, ends, copy_out)
            (record {
              valid = cooked_pop-IsValid s v;
              bytes = rw (e, ends, take_line) refl;
              left = after ∙ rw (e, ends, take_line) refl;
              line = (cooked_pop-line s).0;
              line_len = (cooked_pop-line s).1;
            })
      | inr goes_on ↦
          rw (found, goes_on, copy_out)
            (record {
              valid = rest.valid;
              bytes =
                  rw (e, goes_on, take_line)
                    (ap (◌∷◌ c) (rest.bytes ∙ ap (λ t. (take_line n t).0) after));
              left = rest.left ∙ rw (e, goes_on, after, take_line) refl;
              line = rest.line ∙ (cooked_pop-line s).0;
              line_len = rest.line_len ∙ (cooked_pop-line s).1;
            })
    ]
      where
        found : (cooked_pop s).0 ≡ some c
        found = (waiting-cooked_pop s v).0 ∙ rw (e, dequeue) refl

        after : waiting (cooked_pop s).1 ≡ q
        after = (waiting-cooked_pop s v).1 ∙ rw (e, dequeue) refl

pub input_all-refines :
    (cs : List ℕ) (s : Inner)
    → IsValid s
    → IsValid (input_all cs s) × (view (input_all cs s) ≡ type_all cs (view s))
unfolding input_all input_char type_all
input_all-refines [] s v = (v, refl)
input_all-refines (c ∷ cs) s v =
    let rest = input_all-refines cs (discipline s c).1 (discipline-IsValid s c v) in
    (rest.0, rest.1 ∙ ap (λ (r : Echo × Console). type_all cs r.1) (discipline-refines s c v))

-- `take_line` gives nothing only if there is nothing.
take_line_some :
    (n c : ℕ) (q : List ℕ) → (d : ℕ) × (ds : List ℕ) × ((take_line (suc n) (c ∷ q)).0 ≡ d ∷ ds)
unfolding take_line
take_line_some n c q = elim (Bool-cases (c == newline)) [
  | inl ends ↦ (c, [], rw (ends, take_line) refl)
  | inr goes_on ↦ (c, (take_line n q).0, rw (goes_on, take_line) refl)
]

-- With an empty queue a copy finds nothing and changes nothing that shows.
Copied-empty :
    (n : ℕ) (s : Inner) (out : List ℕ × Inner)
    → Copied (suc n) s out
    → waiting s ≡ []
    → (out.0 ≡ []) × (view out.1 ≡ view s)
unfolding take_line
Copied-empty n s out d e = (
  d.bytes ∙ rw (e, take_line) refl,
  ap₂ (λ q (l : List ℕ). record { queue = q; line = l })
      (d.left ∙ ap (λ t. (take_line (suc n) t).1) e ∙ sym e) (ap₂ take d.line_len d.line),
)

Copied-some :
    (n c : ℕ) (q : List ℕ) (s : Inner) (out : List ℕ × Inner)
    → Copied (suc n) s out
    → waiting s ≡ c ∷ q
    → view out.1 ≡ record (view s) { queue = (take_line (suc n) (c ∷ q)).1 }
Copied-some n c q s out d e =
    ap₂ (λ q (l : List ℕ). record { queue = q; line = l })
      (d.left ∙ ap (λ t. (take_line (suc n) t).1) e) (ap₂ take d.line_len d.line)

read_line_waits : (n : ℕ) (k : Console) → k.queue ≡ [] → read_line (suc n) [] k ≡ (none, k)
unfolding read_line
read_line_waits n k e = ground arith

read_line_again :
    (n : ℕ) (b : List ℕ) (bs : List (List ℕ)) (k : Console)
    → k.queue ≡ []
    → read_line (suc n) (b ∷ bs) k ≡ read_line (suc n) bs (type_all b k)
unfolding read_line
read_line_again n b bs k e = ground arith

read_some :
    (batches : List (List ℕ)) (n c : ℕ) (q : List ℕ) (s : Inner)
    → IsValid s
    → waiting s ≡ c ∷ q
    → ◌≡◌ {A = Option (List ℕ) × Console}
        ((read (suc n) batches s).0, view (read (suc n) batches s).1)
        (
          some (take_line (suc n) (c ∷ q)).0,
          record (view s) { queue = (take_line (suc n) (c ∷ q)).1 },
        )
unfolding read
read_some batches n c q s v e = go batches
  where
    done : Copied (suc n) s (copy_out (suc n) s)
    done = copy_out-Copied (suc n) s v

    got : (copy_out (suc n) s).0 ≡ (take_line (suc n) (c ∷ q)).0
    got = done.bytes ∙ ap (λ t. (take_line (suc n) t).0) e

    some_lem : (d : ℕ) × (ds : List ℕ) × ((take_line (suc n) (c ∷ q)).0 ≡ d ∷ ds)
    some_lem = take_line_some n c q

    go :
        (bs : List (List ℕ))
        → ◌≡◌ {A = Option (List ℕ) × Console}
            ((read (suc n) bs s).0, view (read (suc n) bs s).1)
            (
              some (take_line (suc n) (c ∷ q)).0,
              record (view s) { queue = (take_line (suc n) (c ∷ q)).1 },
            )
    go [] =
        rw (got, some_lem.2, read)
          (ap (λ k. (some (some_lem.0 ∷ some_lem.1), k)) (Copied-some n c q s _ done e))
    go (b ∷ bs) =
        rw (got, some_lem.2, read)
          (ap (λ k. (some (some_lem.0 ∷ some_lem.1), k)) (Copied-some n c q s _ done e))

-- On a valid terminal read returns what a reader of the queue is promised, for every sequence of
-- characters that arrive while it waits.
pub read-refines :
    (batches : List (List ℕ)) (n : ℕ) (s : Inner)
    → IsValid s
    → ((read n batches s).0, view (read n batches s).1) ≡ read_line n batches (view s)
unfolding read read_line
read-refines [] zero s v = refl
read-refines (b ∷ bs) zero s v = refl
read-refines [] (suc n) s v = elim (List-cases (waiting s)) [
  | inl e ↦
      (let idle = Copied-empty n s (copy_out (suc n) s) (copy_out-Copied (suc n) s v) e in
        rw (idle.0, read) (ap (λ k. (none, k)) idle.1 ∙ sym (read_line_waits n (view s) e)))
  | inr (c, q, e) ↦ rw (read_some [] n c q s v e, e, read_line) refl
]
read-refines (b ∷ bs) (suc n) s v = elim (List-cases (waiting s)) [
  | inl e ↦
      (let done = copy_out-Copied (suc n) s v in
        let idle = Copied-empty n s (copy_out (suc n) s) done e in
        let typed = input_all-refines b (copy_out (suc n) s).1 done.valid in
        rw (idle.0, read)
          (read-refines bs (suc n) (input_all b (copy_out (suc n) s).1) typed.0
            ∙ ap (read_line (suc n) bs) (typed.1 ∙ ap (type_all b) idle.1)
            ∙ sym (read_line_again n b bs (view s) e)))
  | inr (c, q, e) ↦ rw (read_some (b ∷ bs) n c q s v e, e, read_line) refl
]
