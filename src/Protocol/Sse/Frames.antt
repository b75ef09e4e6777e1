-- ===== src/Protocol/Sse/Frames.antt =====
-- internal/protocol/sse.go: what Next returns, for streams cut in any way.
use clash_of_tokens.Base.{
  ℕ, zero, suc, ◌+◌, ◌≤◌, ◌<◌, ◌≡◌, refl, sym, ap, subst, ◌∙◌, inl, inr, ◌⊎◌, Bool, true, false,
  ◌&&◌, List, [], ◌∷◌, ◌++◌, Option, none, some, arith, ltb, length, length-append, Bool-cases,
  if_true, if_false, ltb→lt, is_empty,
}
use mathlib.Core.List.{append_assoc, append-nil}
use clash_of_tokens.Protocol.Sse.{
  Cut, newline, buffer_full, ended, read_slice, is_blank_line, Event, frame, eof, exceeds_limit,
  truncated, after_slice, next_loop, next,
}
use clash_of_tokens.Protocol.Sse.Split.{
  Phase, line_start, inside, split, prepend, closes_line, from_slice, split-read_slice,
  read_slice-append, Sliced, IsLine, read_slice-Sliced, NoNewline, closes_line_start,
  closes_line_later, phase_after_full,
}

-- What the answer must be, with the bytes `acc` of the event read and the others to come: the first
-- event where it is within the limit, and the error that fits where there is none.
abbrev pub Answers : ℕ → Bool → List ℕ → Option (List ℕ × List ℕ) → List ℕ → Event × List ℕ → Type 0
Answers limit eof_end acc found input (frame f, rest) =
    (g : List ℕ) × (f ≡ acc ++ g) × (found ≡ some (g, rest)) × (length f ≤ limit)
Answers limit eof_end acc found input (exceeds_limit, rest) =
    ((g : List ℕ) × (r : List ℕ) × (found ≡ some (g, r)) × (limit < length acc + length g))
    ⊎ ((found ≡ none) × (limit < length acc + length input))
Answers limit eof_end acc found input (truncated, rest) =
    (found ≡ none)
    × (length acc + length input ≤ limit)
    × ((eof_end && is_empty (acc ++ input)) ≡ false)
Answers limit eof_end acc found input (eof, rest) =
    (found ≡ none)
    × (length acc + length input ≤ limit)
    × ((eof_end && is_empty (acc ++ input)) ≡ true)

below_of_false : (a b : ℕ) → ltb a b ≡ false → b ≤ a
below_of_false a b h = ground arith

IsLine-pos : (line : List ℕ) → IsLine line → 0 < length line
IsLine-pos [] h = absurd h
IsLine-pos (x ∷ xs) h = omega arith

shift :
    (acc line rest : List ℕ)
    → length acc + length (line ++ rest) ≡ length (acc ++ line) + length rest
shift acc line rest = omega (arith, length-append {0} acc line, length-append {0} line rest)

-- One more slice of the event has been read.
Answers-slice :
    (limit : ℕ) (eof_end : Bool) (acc line rest : List ℕ) (found : Option (List ℕ × List ℕ))
    (a : Event × List ℕ)
    → Answers limit eof_end (acc ++ line) found rest a
    → Answers limit eof_end acc (prepend line found) (line ++ rest) a
Answers-slice limit eof_end acc line rest found (frame f, r) (g, h, k, l) =
    (line ++ g, h ∙ append_assoc acc line g, ap (prepend line) k, l)
Answers-slice limit eof_end acc line rest found (exceeds_limit, r) (inl (g, q, k, l)) =
    inl (line ++ g, q, ap (prepend line) k, omega (arith, shift acc line g))
Answers-slice limit eof_end acc line rest found (exceeds_limit, r) (inr (k, l)) =
    inr (ap (prepend line) k, omega (arith, shift acc line rest))
Answers-slice limit eof_end acc line rest found (truncated, r) (k, l, m) = (
  ap (prepend line) k,
  omega (arith, shift acc line rest),
  ap (λ z. eof_end && is_empty z) (sym (append_assoc acc line rest)) ∙ m,
)
Answers-slice limit eof_end acc line rest found (eof, r) (k, l, m) = (
  ap (prepend line) k,
  omega (arith, shift acc line rest),
  ap (λ z. eof_end && is_empty z) (sym (append_assoc acc line rest)) ∙ m,
)

-- A slice that is too long for the limit is part of an event, or of bytes, that are.
over :
    (limit : ℕ) (eof_end : Bool) (acc line rest : List ℕ) (o : Option (List ℕ × List ℕ))
    → limit < length acc + length line
    → Answers limit eof_end acc (prepend line o) (line ++ rest) (exceeds_limit, rest)
over limit eof_end acc line rest none h = inr (refl, omega (arith, length-append {0} line rest))
over limit eof_end acc line rest (some (g, r)) h =
    inl (line ++ g, r, refl, omega (arith, length-append {0} line g))

-- The bytes of a line so far, and the phase in which the next byte stands.
abbrev At : ℕ → Phase → Type 0
At n p = ((n ≡ 0) × (p ≡ line_start)) ⊎ ((2 ≤ n) × (p ≡ inside))

blank-At :
    (n : ℕ) (p : Phase) (line : List ℕ)
    → At n p
    → IsLine line
    → closes_line p line ≡ is_blank_line (n + length line) line
blank-At n p line (inl (e, k)) h =
    rw (e, k) (closes_line_start line h ∙ ap (λ z. is_blank_line z line) (omega arith))
blank-At n p line (inr (e, k)) h = rw k (closes_line_later n line e h)

abbrev Read :
    ℕ → Bool → List ℕ → Option (List ℕ × List ℕ) → List ℕ → Option (Event × List ℕ) → Type 0
Read limit eof_end acc found input o =
    (a : Event × List ℕ) × (o ≡ some a) × Answers limit eof_end acc found input a

module _ (limit : ℕ) (eof_end : Bool) (acc : List ℕ) (n : ℕ) (p : Phase) (line rest : List ℕ)
    (more fresh : Option (Event × List ℕ)) (at : At n p) where
  abbrev AfterSlice : Cut → Type 0
  AfterSlice cut =
      Read limit eof_end acc (from_slice p (line, rest, cut)) (line ++ rest)
        (after_slice limit eof_end acc n (line, rest, cut) more fresh)

  full_round :
      2 ≤ length line
      → NoNewline line
      → Read limit eof_end (acc ++ line) (split inside rest) rest more
      → AfterSlice buffer_full
  unfolding after_slice from_slice
  full_round h k (a, e, w) = elim (Bool-cases (ltb limit (length acc + length line))) [
    | inl t ↦
        ((exceeds_limit, rest), if_true _ _ _ t, over limit eof_end acc line rest _ (ltb→lt _ _ t))
    | inr f ↦ (
      a,
      if_false _ _ _ f ∙ e,
      Answers-slice limit eof_end acc line rest _ a (
          subst (λ q. Answers limit eof_end (acc ++ line) (split q rest) rest a)
            (sym (phase_after_full p line h k)) w),
    )
  ]

  over_newline :
      limit < length acc + length line
      → Answers limit eof_end acc
          (from_slice p (line, rest, newline))
          (line ++ rest)
          (exceeds_limit, rest)
  unfolding from_slice
  over_newline h = elim (Bool-cases (closes_line p line)) [
    | inl c ↦ inl (line, rest, if_true _ _ _ c, h)
    | inr c ↦
        subst (λ z. Answers limit eof_end acc z (line ++ rest) (exceeds_limit, rest))
          (sym (if_false _ _ _ c)) (over limit eof_end acc line rest _ h)
  ]

  newline_round :
      IsLine line
      → Read limit eof_end (acc ++ line) (split line_start rest) rest fresh
      → AfterSlice newline
  unfolding after_slice from_slice
  newline_round h (a, e, w) = elim (Bool-cases (ltb limit (length acc + length line))) [
    | inl t ↦ ((exceeds_limit, rest), if_true _ _ _ t, over_newline (ltb→lt _ _ t))
    | inr f ↦ elim (Bool-cases (closes_line p line)) [
      | inl c ↦ (
        (frame (acc ++ line), rest),
        if_false _ _ _ f ∙ if_true _ _ _ (sym (blank-At n p line at h) ∙ c),
        (
          line,
          refl,
          if_true _ _ _ c,
          omega (arith, length-append {0} acc line, below_of_false _ _ f),
        ),
      )
      | inr c ↦ (
        a,
        if_false _ _ _ f ∙ (if_false _ _ _ (sym (blank-At n p line at h) ∙ c) ∙ e),
        subst (λ z. Answers limit eof_end acc z (line ++ rest) a) (sym (if_false _ _ _ c))
            (Answers-slice limit eof_end acc line rest _ a w),
      )
    ]
  ]

  ended_round : rest ≡ [] → AfterSlice ended
  unfolding after_slice from_slice
  ended_round h =
      let e : line ++ rest ≡ line = ap (λ z. line ++ z) h ∙ append-nil line in
      let l : length (line ++ rest) ≡ length line = ap length e in
      let z : is_empty (acc ++ (line ++ rest)) ≡ is_empty (acc ++ line) =
        ap (λ y. is_empty (acc ++ y)) e in
      elim (Bool-cases (ltb limit (length acc + length line))) [
        | inl t ↦
            ((exceeds_limit, rest), if_true _ _ _ t, inr (refl, omega (arith, l, ltb→lt _ _ t)))
        | inr f ↦ elim (Bool-cases (eof_end && is_empty (acc ++ line))) [
          | inl c ↦ (
            (eof, rest),
            if_false _ _ _ f ∙ ap (λ y. some (y, rest)) (if_true _ _ _ c),
            (refl, omega (arith, l, below_of_false _ _ f), ap (λ y. eof_end && y) z ∙ c),
          )
          | inr c ↦ (
            (truncated, rest),
            if_false _ _ _ f ∙ ap (λ y. some (y, rest)) (if_false _ _ _ c),
            (refl, omega (arith, l, below_of_false _ _ f), ap (λ y. eof_end && y) z ∙ c),
          )
        ]
      ]

module _ (fuel size limit : ℕ) (eof_end : Bool) where
  abbrev Loops : Type 0
  Loops =
      (acc : List ℕ) (n : ℕ) (p : Phase) (input : List ℕ)
      → At n p
      → length input < fuel
      → Read limit eof_end acc (split p input) input (next_loop fuel size limit eof_end acc n input)

  any_round :
      2 ≤ size
      → Loops
      → (acc : List ℕ) (n : ℕ) (p : Phase) → At n p
      → (s : List ℕ × List ℕ × Cut) → Sliced size s
      → length (s.0 ++ s.1) < suc fuel
      → Read limit eof_end acc (from_slice p s) (s.0 ++ s.1) (
          after_slice limit eof_end acc n s
            (next_loop fuel size limit eof_end (acc ++ s.0) (n + length s.0) s.1)
            (next_loop fuel size limit eof_end (acc ++ s.0) 0 s.1))
  any_round big ih acc n p at (line, rest, newline) h l =
      newline_round limit eof_end acc n p line rest _ _ at h (
        ih (acc ++ line) 0 line_start rest (inl (refl, refl))
          (omega (arith, length-append {0} line rest, IsLine-pos line h)))
  any_round big ih acc n p at (line, rest, buffer_full) h l =
      full_round limit eof_end acc n p line rest _ _ at (omega (arith, h.0)) h.1 (
        ih (acc ++ line) (n + length line) inside rest (inr (omega (arith, h.0), refl))
          (omega (arith, length-append {0} line rest, h.0)))
  any_round big ih acc n p at (line, rest, ended) h l =
      ended_round limit eof_end acc n p line rest _ _ at h

next_loop-Answers :
    (fuel size limit : ℕ) (eof_end : Bool) → 2 ≤ size → Loops fuel size limit eof_end
unfolding next_loop
next_loop-Answers zero size limit eof_end big acc n p input at short = absurd (omega arith)
next_loop-Answers (suc fuel) size limit eof_end big acc n p input at short =
    let s = read_slice size input in
    let e : input ≡ s.0 ++ s.1 = read_slice-append size input in
    let o = next_loop (suc fuel) size limit eof_end acc n input in
    subst (λ z. Read limit eof_end acc z input o) (sym (split-read_slice size p input))
      (subst (λ z. Read limit eof_end acc (from_slice p s) z o) (sym e)
        (any_round fuel size limit eof_end big (next_loop-Answers fuel size limit eof_end big) acc n
          p at s (read_slice-Sliced size input) (omega (arith, ap length e))))

-- With a buffer of two bytes or more Next always returns. It returns the first event of the stream,
-- found byte by byte and whole, where that is within the limit, and leaves the bytes that follow it.
-- Otherwise an event, or a stream with no event, that is over the limit is refused as such; and
-- within the limit a stream with no event is at its end when there are no bytes and the end is
-- io.EOF, and truncated otherwise.
pub next-Answers :
    (size limit : ℕ) (eof_end : Bool) (input : List ℕ)
    → 2 ≤ size
    → (a : Event × List ℕ) × (next size limit eof_end input ≡ some a)
      × Answers limit eof_end [] (split line_start input) input a
unfolding next
next-Answers size limit eof_end input big =
    next_loop-Answers (suc (length input)) size limit eof_end big [] 0 line_start input
      (inl (refl, refl)) (omega arith)
