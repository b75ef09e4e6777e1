-- ===== src/Protocol/Observer/Choices.antt =====
-- internal/protocol/execution.go: what the observer makes of the choices of a chat stream.
use clash_of_tokens.Base.{ℕ, ◌≡◌, Bool, true, false, ◌&&◌, ◌||◌, List, [], ◌∷◌, eqb}
use clash_of_tokens.Base.Int.{pos, pos_part, leb_ℤ}
use clash_of_tokens.Protocol.Usage.{ChatChoice}
use clash_of_tokens.Protocol.Observer.{has_reason}

-- The choices seen, the last first: their indices, and whether they have a reason to finish.
abbrev pub seen_in : ℕ → List (ℕ × Bool) → Bool
seen_in i [] = false
seen_in i ((n, f) ∷ ms) = eqb n i || seen_in i ms

abbrev pub done_in : ℕ → List (ℕ × Bool) → Bool
done_in i [] = false
done_in i ((n, f) ∷ ms) = (eqb n i && f) || done_in i ms

abbrev has_key : ℕ → List (ℕ × Bool) → Bool
has_key i [] = false
has_key i ((n, d) ∷ cs) = eqb n i || has_key i cs

abbrev Distinct : List (ℕ × Bool) → Type 0
Distinct [] = Unit
Distinct ((i, d) ∷ cs) = (has_key i cs ≡ false) × Distinct cs

abbrev Entries : List (ℕ × Bool) → List (ℕ × Bool) → Type 0
Entries ms [] = Unit
Entries ms ((i, d) ∷ cs) = ((d ≡ done_in i ms) × (seen_in i ms ≡ true)) × Entries ms cs

-- The map of choices, against what has been seen.
pub record Maps (ms : List (ℕ × Bool)) (cs : List (ℕ × Bool)) : Type 0 where
  distinct : Distinct cs
  entries : Entries ms cs
  keys : (i : ℕ) → seen_in i ms ≡ has_key i cs

-- The marks of a chat stream's choices.
abbrev pub marks_of : List ChatChoice → List (ℕ × Bool)
marks_of [] = []
marks_of (c ∷ cs) = (pos_part c.index, has_reason c.finish_reason) ∷ marks_of cs

abbrev history : List ChatChoice → List (ℕ × Bool) → List (ℕ × Bool)
history [] ms = ms
history (c ∷ cs) ms = history cs ((pos_part c.index, has_reason c.finish_reason) ∷ ms)

-- An index that is not refused.
abbrev pub InRange : ChatChoice → Type 0
InRange c = (leb_ℤ (pos 0) c.index ≡ true) × (leb_ℤ c.index (pos 1024) ≡ true)
