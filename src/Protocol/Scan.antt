-- ===== src/Protocol/Scan.antt =====
-- internal/protocol/request.go: space, stringEnd and valueEnd, which find where the parts of a JSON text
-- end.
use clash_of_tokens.Base.{
  ℕ, zero, suc, ◌+◌, ◌-◌, ◌%◌, ◌≤◌, ◌<◌, ◌≡◌, refl, inl, inr, Bool, ◌&&◌, ◌||◌, List, [], ◌∷◌,
  Option, none, some, arith, eqb, if◌then◌else◌, length, length-drop, get_elem?, drop, Bool-cases,
  if_intro,
}

abbrev pub is_space_byte : ℕ → Bool
is_space_byte c = eqb c 32 || (eqb c 13 || (eqb c 10 || eqb c 9))

unfoldable pub spaces : List ℕ → ℕ
spaces [] = 0
spaces (c ∷ cs) = let n = spaces cs in if is_space_byte c then n + 1 else 0

-- The loop of space runs over the bytes from `i` on.
unfoldable pub space : List ℕ → ℕ → ℕ
unfolding spaces
space b i = i + spaces (drop i b)

-- The backslashes in a row after one more byte. A quote that does not end the text starts anew.
abbrev pub next_run : ℕ → ℕ → ℕ
next_run run c = if eqb c 92 then run + 1 else 0

-- The loop of stringEnd in one pass: `run` is the number of backslashes right before the byte at
-- `i`, which the code counts backwards from each quote.
unfoldable pub string_rest : ℕ → List ℕ → ℕ → ℕ
string_rest run [] i = i
string_rest run (c ∷ cs) i =
    let rest = string_rest (next_run run c) cs (i + 1) in
    if eqb c 34 && eqb (run % 2) 0 then i + 1 else rest

unfoldable pub string_end : List ℕ → ℕ → ℕ
unfolding string_rest
string_end b i = string_rest 0 (drop (i + 1) b) (i + 1)

abbrev pub opens : ℕ → Bool
opens c = eqb c b'[' || eqb c b'{'

abbrev pub shuts : ℕ → Bool
shuts c = eqb c b']' || eqb c b'}'

-- A round of valueEnd at the byte `c`; `more` is the next round, from a place and at a depth.
unfoldable pub value_step : List ℕ → ℕ → ℕ → ℕ → (ℕ → ℕ → Option ℕ) → Option ℕ
unfolding string_end
value_step b c i depth more =
    if eqb c 34
    then more (string_end b i) depth
    else if opens c
    then more (i + 1) (depth + 1)
    else if shuts c
    then (if eqb depth 0
        then some i
        else if eqb depth 1
        then some (i + 1)
        else more (i + 1) (depth - 1))
    else if eqb c b',' && eqb depth 0
    then some i
    else more (i + 1) depth

-- `none` means that the fuel ran out.
unfoldable pub value_loop : ℕ → List ℕ → ℕ → ℕ → Option ℕ
unfolding value_step
value_loop zero b i depth = none
value_loop (suc fuel) b i depth = elim (get_elem? b i) [
  | none ↦ some i
  | some c ↦ value_step b c i depth (value_loop fuel b)
]

-- valueEnd, where there is a byte at `i`.
unfoldable pub value_end : List ℕ → ℕ → ℕ → Option ℕ
unfolding value_loop string_end
value_end b c i = if eqb c 34 then some (string_end b i) else value_loop (suc (length b)) b i 0

spaces-le : (cs : List ℕ) → spaces cs ≤ length cs
unfolding spaces
spaces-le [] = omega arith
spaces-le (c ∷ cs) = ground (arith, spaces-le cs)

pub space_bounds : (b : List ℕ) (i : ℕ) → (i ≤ space b i) × (i ≤ length b → space b i ≤ length b)
unfolding space
space_bounds b i = (omega arith, λ h. omega (arith, spaces-le (drop i b), length-drop {0} i b))

string_rest_bounds :
    (run : ℕ) (cs : List ℕ) (i : ℕ)
    → (i ≤ string_rest run cs i) × (string_rest run cs i ≤ i + length cs)
unfolding string_rest
string_rest_bounds run [] i = (omega arith, omega arith)
string_rest_bounds run (c ∷ cs) i =
    let (l, h) = string_rest_bounds (next_run run c) cs (i + 1) in
    elim (Bool-cases (eqb c 34 && eqb (run % 2) 0)) [
      | inl e ↦ rw e (omega arith, omega arith)
      | inr e ↦ rw e (omega arith, omega arith)
    ]

-- A text that starts within the bytes ends after its first and within them.
pub string_end_bounds :
    (b : List ℕ) (i : ℕ) → i < length b → (i + 1 ≤ string_end b i) × (string_end b i ≤ length b)
unfolding string_end
string_end_bounds b i h =
    let (l, k) = string_rest_bounds 0 (drop (i + 1) b) (i + 1) in
    (l, omega (arith, length-drop {0} (i + 1) b))

pub get_elem?-lt : (b : List ℕ) (i c : ℕ) → get_elem? b i ≡ some c → i < length b
get_elem?-lt [] i c h = cc
get_elem?-lt (x ∷ xs) zero c h = omega arith
get_elem?-lt (x ∷ xs) (suc i) c h = omega (arith, get_elem?-lt xs i c h)

-- A place from `i` on, and within the bytes.
abbrev pub EndsIn : List ℕ → ℕ → Option ℕ → Type 0
EndsIn b i o = (e : ℕ) × (o ≡ some e) × (i ≤ e) × (e ≤ length b)

value_step-EndsIn :
    (b : List ℕ) (c i depth : ℕ) (more : ℕ → ℕ → Option ℕ)
    → i < length b
    → ((j d : ℕ) → i < j → j ≤ length b → EndsIn b j (more j d))
    → EndsIn b i (value_step b c i depth more)
unfolding value_step
value_step-EndsIn b c i depth more h k =
    let (l, u) = string_end_bounds b i h in
    if_intro (EndsIn b i) (eqb c 34) _ _ (go (string_end b i) depth l u) (
      if_intro (EndsIn b i) (opens c) _ _ (go (i + 1) (depth + 1) (omega arith) (omega arith)) (
        if_intro (EndsIn b i) (shuts c) _ _
          (if_intro (EndsIn b i) (eqb depth 0) _ _ here (
            if_intro (EndsIn b i) (eqb depth 1) _ _ (i + 1, refl, omega arith, omega arith)
              (go (i + 1) (depth - 1) (omega arith) (omega arith))))
          (if_intro (EndsIn b i) (eqb c b',' && eqb depth 0) _ _ here
            (go (i + 1) depth (omega arith) (omega arith)))))
  where
    here : EndsIn b i (some i)
    here = (i, refl, omega arith, omega arith)

    go : (j d : ℕ) → i + 1 ≤ j → j ≤ length b → EndsIn b i (more j d)
    go j d l u = let (e, p, q, r) = k j d (omega arith) u in (e, p, omega arith, r)

value_byte-EndsIn :
    (b : List ℕ) (i depth : ℕ) (more : ℕ → ℕ → Option ℕ) (o : Option ℕ)
    → i ≤ length b
    → get_elem? b i ≡ o
    → ((j d : ℕ) → i < j → j ≤ length b → EndsIn b j (more j d))
    → EndsIn b i (elim o [ none ↦ some i | some c ↦ value_step b c i depth more ])
value_byte-EndsIn b i depth more none h e k = (i, refl, omega arith, h)
value_byte-EndsIn b i depth more (some c) h e k =
    value_step-EndsIn b c i depth more (get_elem?-lt b i c e) k

value_loop-EndsIn :
    (fuel : ℕ) (b : List ℕ) (i depth : ℕ)
    → i ≤ length b
    → length b < fuel + i
    → EndsIn b i (value_loop fuel b i depth)
unfolding value_loop
value_loop-EndsIn zero b i depth h m = absurd (omega arith)
value_loop-EndsIn (suc fuel) b i depth h m =
    value_byte-EndsIn b i depth (value_loop fuel b) (get_elem? b i) h refl
      (λ j d l u. value_loop-EndsIn fuel b j d u (omega arith))

-- A value that starts within the bytes has an end there: the fuel is enough.
pub value_end-EndsIn : (b : List ℕ) (c i : ℕ) → i < length b → EndsIn b i (value_end b c i)
unfolding value_end
value_end-EndsIn b c i h =
    let (l, u) = string_end_bounds b i h in
    if_intro (EndsIn b i) (eqb c 34) _ _ (string_end b i, refl, omega arith, u)
      (value_loop-EndsIn (suc (length b)) b i 0 (omega arith) (omega arith))
