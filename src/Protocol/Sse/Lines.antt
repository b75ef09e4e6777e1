-- ===== src/Protocol/Sse/Lines.antt =====
-- internal/protocol/sse.go: SSEData on frames of data lines.
use clash_of_tokens.Base.{ℕ, ◌≢◌, List, [], ◌∷◌, ◌++◌, Option, none, some, get_last?}
use clash_of_tokens.Protocol.Sse.{data_field, join_line}
use clash_of_tokens.Protocol.Sse.Split.{NoNewline}

-- A data line on the wire, as a server writes it.
pub data_line : List ℕ → List ℕ
data_line v = data_field ++ (32 ∷ v)

-- A frame with a data line for each text, and the empty line.
unfoldable pub data_frame : List (List ℕ) → List ℕ
unfolding data_line
data_frame [] = 10 ∷ []
data_frame (v ∷ vs) = data_line v ++ (10 ∷ data_frame vs)

-- The texts with newlines between them; nothing where there are none.
unfoldable pub joined : Option (List ℕ) → List (List ℕ) → Option (List ℕ)
joined acc [] = acc
joined acc (v ∷ vs) = joined (join_line acc v) vs

-- A text that stands on one line and is not taken for the CR of a line end.
pub record IsText (v : List ℕ) : Type 0 where
  pub one_line : NoNewline v
  pub no_cr : get_last? v ≢ some 13

abbrev code_of : Option ℕ → ℕ
code_of none = 0
code_of (some x) = x
