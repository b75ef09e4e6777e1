-- ===== src/Protocol/Observer.antt =====
-- internal/protocol/execution.go: CompletionObserver, which reads each frame of a stream for its
-- usage, its errors and its end.
pub mod Complete
pub mod Choices
use Prim.Native.Char.{code}
use clash_of_tokens.Base.{
  ℕ, String, Bool, true, false, not, ◌&&◌, ◌||◌, List, [], ◌∷◌, Option, none, some, eqb, ltb, ◌==◌,
  if◌then◌else◌, is_empty,
}
use clash_of_tokens.Base.Int.{ℤ, pos, negsuc}
use clash_of_tokens.Protocol.Sse.{strip_prefix, sse_data}
use clash_of_tokens.Protocol.Usage.{
  ChatChoice, Part, Candidate, Chunk, BlockDelta, Json, bytes_equal, null_bytes, CompletionObserver,
  observe_usage,
}

-- The bytes of a text in ASCII.
abbrev pub ascii : String → List ℕ
ascii String.[] = []
ascii (String.◌∷◌ c s) = code c ∷ ascii s

-- bytes.Split at newlines.
unfoldable pub split_lines : List ℕ → List (List ℕ)
split_lines [] = [] ∷ []
split_lines (x ∷ xs) = add_head (split_lines xs)
  where
    add_head : List (List ℕ) → List (List ℕ)
    add_head [] = []
    add_head (l ∷ ls) = if eqb x 10 then [] ∷ (l ∷ ls) else (x ∷ l) ∷ ls

unfoldable pub bytes_contain : List (List ℕ) → List ℕ → Bool
unfolding bytes_equal
bytes_contain [] v = false
bytes_contain (x ∷ xs) v = bytes_equal x v || bytes_contain xs v

abbrev pub present {ℓ} : {A : Type ℓ} → List A → Bool
present xs = not (is_empty xs)

abbrev pub failed : String → CompletionObserver → CompletionObserver
failed e o = record o { error = e }

abbrev pub completed : CompletionObserver → CompletionObserver
completed o = record o { complete = true; terminal = true }

abbrev pub saw : Bool → CompletionObserver → CompletionObserver
saw b o = if b then record o { saw_output = true } else o

-- `o.choices[index] = o.choices[index] || finished`.
unfoldable pub mark_choice : ℕ → Bool → List (ℕ × Bool) → List (ℕ × Bool)
mark_choice index finished [] = (index, finished) ∷ []
mark_choice index finished ((i, done) ∷ rest) =
    if eqb i index
    then (i, (done || finished)) ∷ rest
    else (i, done) ∷ mark_choice index finished rest

unfoldable pub all_done : List (ℕ × Bool) → Bool
all_done [] = true
all_done ((i, done) ∷ rest) = done && all_done rest

unfoldable pub is_complete : List (ℕ × Bool) → Bool
unfolding all_done
is_complete choices = present choices && all_done choices

abbrev pub with_choices : List (ℕ × Bool) → CompletionObserver → CompletionObserver
with_choices choices o = record o { choices = choices; complete = is_complete choices }

-- CompletionObserver.choice.
unfoldable pub choice : ℤ → Bool → CompletionObserver → CompletionObserver
unfolding mark_choice is_complete
choice (negsuc n) finished o = failed "invalid_choice_index" o
choice (pos n) finished o =
    if ltb 1024 n
    then failed "invalid_choice_index" o
    else with_choices (mark_choice n finished o.choices) o

-- `choice.FinishReason != nil && *choice.FinishReason != ""`.
abbrev pub has_reason : Option String → Bool
has_reason none = false
has_reason (some r) = not (r == "")

abbrev pub has_delta : ChatChoice → Bool
has_delta c =
    present c.content || (present c.refusal || (present c.tool_calls || present c.function_call))

unfoldable pub observe_choices : List ChatChoice → CompletionObserver → CompletionObserver
unfolding choice
observe_choices [] o = o
observe_choices (c ∷ cs) o =
    observe_choices cs (saw (has_delta c) (choice c.index (has_reason c.finish_reason) o))

abbrev pub has_part : List Part → Bool
has_part [] = false
has_part (p ∷ ps) = (present p.text || present p.function_call) || has_part ps

unfoldable pub observe_candidates : List Candidate → CompletionObserver → CompletionObserver
unfolding choice
observe_candidates [] o = o
observe_candidates (c ∷ cs) o =
    observe_candidates cs (saw (has_part c.parts) (choice c.index (not (c.finish_reason == "")) o))

abbrev pub text_of : Option (List ℕ) → Bool
text_of none = false
text_of (some t) = present t

abbrev pub block_text : Option BlockDelta → Bool
block_text none = false
block_text (some d) = present d.text || present d.partial_json

abbrev pub failure_events : List (List ℕ)
failure_events = ascii "error" ∷ ascii "response.failed" ∷ ascii "response.incomplete" ∷ []

abbrev pub output_events : List (List ℕ)
output_events =
    ascii "response.output_text.delta"
    ∷ ascii "response.function_call_arguments.delta"
    ∷ ascii "response.refusal.delta"
    ∷ []

module _ (json : Json) where
  -- The last `event:` line, over the lines of the frame.
  unfoldable pub event_in : List ℕ → List (List ℕ) → List ℕ
  unfolding strip_prefix
  event_in event [] = event
  event_in event (line ∷ lines) =
      event_in
        (elim (strip_prefix (ascii "event:") line) [ none ↦ event | some v ↦ json.trim_space v ])
        lines

  abbrev pub observe_messages : List ℕ → Chunk → CompletionObserver → CompletionObserver
  observe_messages event v o =
      let stopped = if bytes_equal event (ascii "message_stop") then completed o else o in
      saw (bytes_equal event (ascii "content_block_delta") && block_text (json.block_delta v.delta))
        stopped

  abbrev pub observe_responses : List ℕ → Chunk → CompletionObserver → CompletionObserver
  observe_responses event v o =
      let stopped = if bytes_equal event (ascii "response.completed") then completed o else o in
      saw (bytes_contain output_events event && text_of (json.text v.delta)) stopped

  -- The switch on the protocol.
  unfoldable pub observe_protocol : List ℕ → Chunk → CompletionObserver → CompletionObserver
  unfolding observe_choices observe_candidates bytes_equal bytes_contain
  observe_protocol event v o =
      if o.protocol == "chat"
      then observe_choices v.choices o
      else if o.protocol == "messages"
      then observe_messages event v o
      else if o.protocol == "responses"
      then observe_responses event v o
      else if o.protocol == "gemini"
      then (if present v.block_reason
          then failed "upstream_blocked" o
          else observe_candidates v.candidates o)
      else failed "unknown_stream_protocol" o

  abbrev pub checked_event : List ℕ → Chunk → CompletionObserver → CompletionObserver
  checked_event event v o =
      if bytes_contain failure_events event
      then failed "upstream_incomplete" o
      else observe_protocol event v o

  unfoldable pub observe_chunk : List ℕ → List ℕ → Chunk → CompletionObserver → CompletionObserver
  unfolding observe_usage observe_protocol bytes_equal bytes_contain
  observe_chunk event input v o =
      if present v.error && not (bytes_equal v.error null_bytes)
      then failed "upstream_error" o
      else checked_event (if present v.kind then v.kind else event) v (observe_usage json input o)

  unfoldable pub observe_data : List ℕ → List ℕ → CompletionObserver → CompletionObserver
  unfolding observe_chunk bytes_equal
  observe_data event input o =
      if bytes_equal event (ascii "error")
      then failed "upstream_error" o
      else if is_empty input
      then o
      else if bytes_equal input (ascii "[DONE]")
      then (if o.protocol == "chat" then completed o else failed "unexpected_completion_marker" o)
      else (elim (json.chunk input) [
        | none ↦ failed "invalid_sse_json" o
        | some v ↦ observe_chunk event input v o
      ])

  -- CompletionObserver.Observe.
  unfoldable pub observe : List ℕ → CompletionObserver → CompletionObserver
  unfolding observe_data event_in split_lines sse_data
  observe frame o =
      observe_data (event_in [] (split_lines frame)) (json.trim_space (sse_data frame)) o
