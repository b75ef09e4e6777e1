-- ===== src/Protocol/Sse/Split.antt =====
-- internal/protocol/sse.go: where an event ends, byte by byte, and what ReadSlice shows of it.
use clash_of_tokens.Base.{
  ℕ, zero, suc, ◌+◌, ◌≤◌, ◌<◌, ◌≡◌, refl, sym, ap, subst, ◌∙◌, inl, inr, Bool, true, false, not,
  ◌&&◌, List, [], ◌∷◌, ◌++◌, Option, none, some, arith, eqb, if◌then◌else◌, length, Bool-cases,
  if_true, if_false,
}
use clash_of_tokens.Protocol.Sse.{Cut, newline, buffer_full, ended, read_slice, is_blank_line}

-- Where a byte stands: first of its line, after a CR that is first, or elsewhere.
pub data Phase : Type 0 where
  line_start after_cr inside : Phase

abbrev pub is_inside : Phase → Bool
is_inside line_start = false
is_inside after_cr = false
is_inside inside = true

abbrev pub cr_phase : Phase → Phase
cr_phase line_start = after_cr
cr_phase after_cr = inside
cr_phase inside = inside

abbrev pub step : Phase → ℕ → Phase
step p x = if eqb x 10 then line_start else if eqb x 13 then cr_phase p else inside

abbrev pub closes : Phase → ℕ → Bool
closes p x = eqb x 10 && not (is_inside p)

abbrev pub prepend : List ℕ → Option (List ℕ × List ℕ) → Option (List ℕ × List ℕ)
prepend l none = none
prepend l (some (f, r)) = some (l ++ f, r)

-- The first event of the bytes, up to and with its empty line, and what follows.
unfoldable pub split : Phase → List ℕ → Option (List ℕ × List ℕ)
split p [] = none
split p (x ∷ xs) =
    let rest = split (step p x) xs in
    if closes p x then some (x ∷ [], xs) else prepend (x ∷ []) rest

pub prepend_cons :
    (x : ℕ) (l : List ℕ) (o : Option (List ℕ × List ℕ))
    → prepend (x ∷ []) (prepend l o) ≡ prepend (x ∷ l) o
prepend_cons x l none = refl
prepend_cons x l (some (f, r)) = refl

unfoldable pub closes_line : Phase → List ℕ → Bool
closes_line p [] = false
closes_line p (x ∷ xs) =
    let rest = closes_line (step p x) xs in if eqb x 10 then not (is_inside p) else rest

unfoldable pub phase_after : Phase → List ℕ → Phase
phase_after p [] = p
phase_after p (x ∷ xs) = phase_after (step p x) xs

-- What split makes of the bytes, by the slice that ReadSlice takes of them.
unfoldable pub from_slice : Phase → List ℕ × List ℕ × Cut → Option (List ℕ × List ℕ)
from_slice p (line, rest, newline) =
    if closes_line p line then some (line, rest) else prepend line (split line_start rest)
from_slice p (line, rest, buffer_full) = prepend line (split (phase_after p line) rest)
from_slice p (line, rest, ended) = none

prepend_nil : (o : Option (List ℕ × List ℕ)) → prepend [] o ≡ o
prepend_nil none = refl
prepend_nil (some (f, r)) = refl

from_slice-cons :
    (p : Phase) (x : ℕ) (line rest : List ℕ) (cut : Cut)
    → eqb x 10 ≡ false
    → prepend (x ∷ []) (from_slice (step p x) (line, rest, cut))
      ≡ from_slice p (x ∷ line, rest, cut)
unfolding from_slice closes_line phase_after
from_slice-cons p x line rest newline h = elim (Bool-cases (closes_line (step p x) line)) [
  | inl e ↦ rw (e, h) refl
  | inr e ↦ rw (e, h) (prepend_cons x line _)
]
from_slice-cons p x line rest buffer_full h = prepend_cons x line _
from_slice-cons p x line rest ended h = refl

at_newline :
    (p : Phase) (x : ℕ) (xs : List ℕ)
    → eqb x 10 ≡ true
    → (if closes p x then some (x ∷ [], xs) else prepend (x ∷ []) (split (step p x) xs)) ≡ (
        if closes_line p (x ∷ [])
        then some (x ∷ [], xs)
        else prepend (x ∷ []) (split line_start xs))
unfolding closes_line
at_newline line_start x xs e = ground arith
at_newline after_cr x xs e = ground arith
at_newline inside x xs e = rw e refl

split_other :
    (p : Phase) (x : ℕ) (xs : List ℕ)
    → eqb x 10 ≡ false
    → split p (x ∷ xs) ≡ prepend (x ∷ []) (split (step p x) xs)
unfolding split
split_other p x xs e = rw e refl

pub split-read_slice :
    (k : ℕ) (p : Phase) (xs : List ℕ) → split p xs ≡ from_slice p (read_slice k xs)
unfolding split read_slice from_slice closes_line phase_after
split-read_slice zero p xs = sym (prepend_nil (split p xs))
split-read_slice (suc k) p [] = refl
split-read_slice (suc k) p (x ∷ xs) = elim (Bool-cases (eqb x 10)) [
  | inl e ↦ at_newline p x xs e ∙ ap (from_slice p) (sym (if_true _ _ _ e))
  | inr e ↦
      split_other p x xs e
      ∙ (ap (prepend (x ∷ [])) (split-read_slice k (step p x) xs)
          ∙ (from_slice-cons p x (read_slice k xs).0 (read_slice k xs).1 (read_slice k xs).2 e
              ∙ ap (from_slice p) (sym (if_false _ _ _ e))))
]

-- The bytes are the slice and what follows.
pub read_slice-append : (k : ℕ) (xs : List ℕ) → xs ≡ (read_slice k xs).0 ++ (read_slice k xs).1
unfolding read_slice
read_slice-append zero xs = refl
read_slice-append (suc k) [] = refl
read_slice-append (suc k) (x ∷ xs) = elim (Bool-cases (eqb x 10)) [
  | inl e ↦ rw e refl
  | inr e ↦ rw e (ap (λ l. x ∷ l) (read_slice-append k xs))
]

abbrev pub NoNewline : List ℕ → Type 0
NoNewline [] = Unit
NoNewline (x ∷ xs) = (eqb x 10 ≡ false) × NoNewline xs

-- Its only newline is its last byte.
abbrev pub IsLine : List ℕ → Type 0
IsLine [] = ⊥
IsLine (x ∷ []) = eqb x 10 ≡ true
IsLine (x ∷ (y ∷ ys)) = (eqb x 10 ≡ false) × IsLine (y ∷ ys)

-- What a slice is, by its cause: a line, a full buffer without a newline, or all that is left.
abbrev pub Sliced : ℕ → List ℕ × List ℕ × Cut → Type 0
Sliced k (line, rest, newline) = IsLine line
Sliced k (line, rest, buffer_full) = (length line ≡ k) × NoNewline line
Sliced k (line, rest, ended) = rest ≡ []

IsLine-cons : (x : ℕ) (line : List ℕ) → eqb x 10 ≡ false → IsLine line → IsLine (x ∷ line)
IsLine-cons x [] e h = absurd h
IsLine-cons x (y ∷ ys) e h = (e, h)

longer :
    (k x : ℕ) (s : List ℕ × List ℕ × Cut)
    → eqb x 10 ≡ false
    → Sliced k s
    → Sliced (suc k) (x ∷ s.0, s.1, s.2)
longer k x (line, rest, newline) e h = IsLine-cons x line e h
longer k x (line, rest, buffer_full) e h = (ap suc h.0, (e, h.1))
longer k x (line, rest, ended) e h = h

pub read_slice-Sliced : (k : ℕ) (xs : List ℕ) → Sliced k (read_slice k xs)
unfolding read_slice
read_slice-Sliced zero xs = (refl, tt)
read_slice-Sliced (suc k) [] = refl
read_slice-Sliced (suc k) (x ∷ xs) = elim (Bool-cases (eqb x 10)) [
  | inl e ↦ subst (Sliced (suc k)) (sym (if_true _ _ _ e)) e
  | inr e ↦
      subst (Sliced (suc k)) (sym (if_false _ _ _ e))
        (longer k x (read_slice k xs) e (read_slice-Sliced k xs))
]

closes_line_inside : (line : List ℕ) → closes_line inside line ≡ false
unfolding closes_line
closes_line_inside [] = refl
closes_line_inside (x ∷ xs) = ground (arith, closes_line_inside xs)

pub closes_line_start :
    (line : List ℕ) → IsLine line → closes_line line_start line ≡ is_blank_line (length line) line
unfolding closes_line is_blank_line
closes_line_start [] h = absurd h
closes_line_start (x ∷ []) h = ground arith
closes_line_start (x ∷ (y ∷ [])) h = ground arith
closes_line_start (x ∷ (y ∷ (z ∷ zs))) h = ground (arith, closes_line_inside (z ∷ zs))

pub closes_line_later :
    (n : ℕ) (line : List ℕ)
    → 2 ≤ n
    → IsLine line
    → closes_line inside line ≡ is_blank_line (n + length line) line
unfolding is_blank_line
closes_line_later n [] h k = absurd k
closes_line_later n (x ∷ xs) h k = closes_line_inside (x ∷ xs) ∙ ground arith

phase_after_inside : (line : List ℕ) → NoNewline line → phase_after inside line ≡ inside
unfolding phase_after
phase_after_inside [] h = refl
phase_after_inside (x ∷ xs) h = ground (arith, phase_after_inside xs)

pub phase_after_full :
    (p : Phase) (line : List ℕ) → 2 ≤ length line → NoNewline line → phase_after p line ≡ inside
unfolding phase_after
phase_after_full p [] h k = absurd (omega arith)
phase_after_full p (x ∷ []) h k = absurd (omega arith)
phase_after_full p (x ∷ (y ∷ ys)) h k =
    ap (λ q. phase_after q ys) (twice p) ∙ phase_after_inside ys k.1.1
  where
    twice : (p : Phase) → step (step p x) y ≡ inside
    twice line_start = ground arith
    twice after_cr = ground arith
    twice inside = ground arith

prepend_parts :
    (x : ℕ) (xs : List ℕ) (o : Option (List ℕ × List ℕ)) (f r : List ℕ)
    → ((g q : List ℕ) → o ≡ some (g, q) → xs ≡ g ++ q)
    → prepend (x ∷ []) o ≡ some (f, r)
    → x ∷ xs ≡ f ++ r
prepend_parts x xs none f r ih h = cc
prepend_parts x xs (some (g, q)) f r ih h = ground (arith, ih g q refl)

-- An event is the front of the bytes.
pub split_parts : (p : Phase) (xs f r : List ℕ) → split p xs ≡ some (f, r) → xs ≡ f ++ r
unfolding split
split_parts p [] f r h = cc
split_parts p (x ∷ xs) f r h = elim (Bool-cases (closes p x)) [
  | inl c ↦
      let e : ◌≡◌ {A = Option (List ℕ × List ℕ)} (some (x ∷ [], xs)) (some (f, r)) =
        sym (if_true _ _ _ c) ∙ h in
      ground arith
  | inr c ↦ prepend_parts x xs _ f r (split_parts (step p x) xs) (sym (if_false _ _ _ c) ∙ h)
]

prepend_pos :
    (x : ℕ) (o : Option (List ℕ × List ℕ)) (f r : List ℕ)
    → prepend (x ∷ []) o ≡ some (f, r)
    → 0 < length f
prepend_pos x none f r h = cc
prepend_pos x (some (g, q)) f r h = ground arith

-- An event has a byte at least.
pub split_pos : (p : Phase) (xs f r : List ℕ) → split p xs ≡ some (f, r) → 0 < length f
unfolding split
split_pos p [] f r h = cc
split_pos p (x ∷ xs) f r h = elim (Bool-cases (closes p x)) [
  | inl c ↦
      let e : ◌≡◌ {A = Option (List ℕ × List ℕ)} (some (x ∷ [], xs)) (some (f, r)) =
        sym (if_true _ _ _ c) ∙ h in
      ground arith
  | inr c ↦ prepend_pos x _ f r (sym (if_false _ _ _ c) ∙ h)
]
