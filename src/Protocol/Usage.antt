-- ===== src/Protocol/Usage.antt =====
-- internal/protocol/execution.go: the tokens that an upstream declares, and how an observer of a
-- stream merges them.
--
-- What encoding/json makes of bytes is the record Json, a parameter, with what bytes.TrimSpace
-- leaves of them: a decoder answers `none` where Unmarshal gives an error.
use clash_of_tokens.Base.{
  ℕ, String, Bool, true, false, not, ◌&&◌, ◌||◌, List, [], ◌∷◌, Option, none, some, eqb,
  if◌then◌else◌, is_empty, lookup,
}
use clash_of_tokens.Base.Int.{ℤ, pos, negsuc, add_int64}

-- The parts of a frame that Observe reads, with the fields of its local types.
pub record ChatChoice : Type 0 where
  pub index : ℤ
  pub finish_reason : Option String
  pub content : List ℕ
  pub refusal : List ℕ
  pub tool_calls : List (List ℕ)
  pub function_call : List ℕ

pub record Part : Type 0 where
  pub text : List ℕ
  pub function_call : List ℕ

pub record Candidate : Type 0 where
  pub index : ℤ
  pub finish_reason : String
  pub parts : List Part

pub record Chunk : Type 0 where
  pub kind : List ℕ
  pub error : List ℕ
  pub delta : List ℕ
  pub choices : List ChatChoice
  pub candidates : List Candidate
  pub block_reason : List ℕ

pub record BlockDelta : Type 0 where
  pub text : List ℕ
  pub partial_json : List ℕ

pub record Json : Type 0 where
  pub trim_space : List ℕ → List ℕ
  pub chunk : List ℕ → Option Chunk
  pub block_delta : List ℕ → Option BlockDelta
  pub text : List ℕ → Option (List ℕ)
  pub object : List ℕ → Option (List (String × List ℕ))
  pub int64 : List ℕ → Option ℤ

-- bytes.Equal.
unfoldable pub bytes_equal : List ℕ → List ℕ → Bool
bytes_equal [] [] = true
bytes_equal [] (y ∷ ys) = false
bytes_equal (x ∷ xs) [] = false
bytes_equal (x ∷ xs) (y ∷ ys) = eqb x y && bytes_equal xs ys

abbrev pub null_bytes : List ℕ
null_bytes = b'n' ∷ b'u' ∷ b'l' ∷ b'l' ∷ []

pub record CompletionObserver : Type 0 where
  pub input_tokens : ℤ
  pub output_tokens : ℤ
  pub total_tokens : ℤ
  pub usage_seen : Bool
  pub protocol : String
  pub complete : Bool
  pub terminal : Bool
  pub saw_output : Bool
  pub error : String
  pub choices : List (ℕ × Bool)
  pub input_seen : Bool
  pub output_seen : Bool
  pub total_seen : Bool

pub record UsageValue : Type 0 where
  pub input : ℤ
  pub output : ℤ
  pub total : ℤ
  pub input_set : Bool
  pub output_set : Bool
  pub total_set : Bool

abbrev pub no_usage : UsageValue
no_usage = record {
  input = pos 0;
  output = pos 0;
  total = pos 0;
  input_set = false;
  output_set = false;
  total_set = false;
}

-- `value >= 0`, where the bytes are an int64.
abbrev pub non_negative : Option ℤ → Option ℤ
non_negative none = none
non_negative (some (pos n)) = some (pos n)
non_negative (some (negsuc n)) = none

abbrev pub found_or {ℓ} : {A : Type ℓ} → Option A → Option A → Option A
found_or none d = d
found_or (some a) d = some a

abbrev pub value_or_zero : Option ℤ → ℤ
value_or_zero none = pos 0
value_or_zero (some v) = v

abbrev pub is_set : Option ℤ → Bool
is_set none = false
is_set (some v) = true

module _ (json : Json) where
  abbrev pub field_value : Option (List ℕ) → Option ℤ
  field_value none = none
  field_value (some raw) = non_negative (json.int64 raw)

  -- The first of the names that has a value.
  unfoldable pub usage_field : List (String × List ℕ) → List String → Option ℤ
  usage_field fields [] = none
  usage_field fields (name ∷ names) =
      found_or (field_value (lookup name fields)) (usage_field fields names)

  unfoldable pub usage_of : List (String × List ℕ) → UsageValue
  unfolding usage_field
  usage_of fields =
      let input = usage_field fields (
        "prompt_tokens" ∷ "promptTokens" ∷ "input_tokens" ∷ "inputTokens" ∷ "promptTokenCount"
        ∷ []) in
      let output = usage_field fields (
        "completion_tokens" ∷ "completionTokens" ∷ "output_tokens" ∷ "outputTokens"
        ∷ "candidatesTokenCount" ∷ []) in
      let total = usage_field fields ("total_tokens" ∷ "totalTokens" ∷ "totalTokenCount" ∷ []) in
      record {
        input = value_or_zero input;
        output = value_or_zero output;
        total = value_or_zero total;
        input_set = is_set input;
        output_set = is_set output;
        total_set = is_set total;
      }

  unfoldable pub parse_usage_value : List ℕ → UsageValue
  unfolding bytes_equal usage_of
  parse_usage_value raw =
      if is_empty raw || bytes_equal (json.trim_space raw) null_bytes
      then no_usage
      else (elim (json.object raw) [ none ↦ no_usage | some fields ↦ usage_of fields ])

abbrev pub take_input : UsageValue → CompletionObserver → CompletionObserver
take_input v o = if v.input_set then record o { input_tokens = v.input; input_seen = true } else o

abbrev pub take_output : UsageValue → CompletionObserver → CompletionObserver
take_output v o =
    if v.output_set then record o { output_tokens = v.output; output_seen = true } else o

abbrev pub take_total : UsageValue → CompletionObserver → CompletionObserver
take_total v o = if v.total_set then record o { total_tokens = v.total; total_seen = true } else o

abbrev pub add_up : CompletionObserver → CompletionObserver
add_up o =
    if not o.total_seen && (o.input_seen && o.output_seen)
    then record o { total_tokens = add_int64 o.input_tokens o.output_tokens }
    else o

unfoldable pub merge_usage : UsageValue → CompletionObserver → CompletionObserver
merge_usage v o =
    if not v.input_set && (not v.output_set && not v.total_set)
    then o
    else add_up (take_total v (take_output v (take_input v (record o { usage_seen = true }))))

abbrev pub usage_keys : List String
usage_keys = "usage" ∷ "usageMetadata" ∷ "usage_metadata" ∷ []

module _ (json : Json) where
  unfoldable pub merge_named :
      List (String × List ℕ) → List String → CompletionObserver → CompletionObserver
  unfolding merge_usage parse_usage_value
  merge_named envelope [] o = o
  merge_named envelope (key ∷ keys) o = merge_named envelope keys (elim (lookup key envelope) [
    | none ↦ o
    | some raw ↦ merge_usage (parse_usage_value json raw) o
  ])

  -- The usage nested in `message`.
  abbrev pub merge_message : Option (List ℕ) → CompletionObserver → CompletionObserver
  merge_message none o = o
  merge_message (some raw) o = elim (json.object raw) [
    | none ↦ o
    | some nested ↦ merge_named nested usage_keys o
  ]

  unfoldable pub observe_usage : List ℕ → CompletionObserver → CompletionObserver
  unfolding merge_named
  observe_usage input o = elim (json.object input) [
    | none ↦ o
    | some envelope ↦ merge_message (lookup "message" envelope) (merge_named envelope usage_keys o)
  ]

  unfoldable pub observe_json : List ℕ → CompletionObserver → CompletionObserver
  unfolding observe_usage
  observe_json input o = observe_usage (json.trim_space input) o
