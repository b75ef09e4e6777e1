-- ===== src/Tests/Streams.antt =====
-- Witnesses: events, observers, relayed streams and uploads.
use clash_of_tokens.Base.{
  ℕ, ◌≡◌, refl, Bool, true, false, List, [], ◌∷◌, ◌++◌, Option, none, some, arith, lookup, eqb,
  if◌then◌else◌,
}
use clash_of_tokens.Base.Int.{pos}
use clash_of_tokens.Protocol.Result.{ExecutionResult, successful}
use clash_of_tokens.Protocol.Sse.{
  Event, frame, read_slice, next_loop, next, after_slice, is_blank_line, cut_line, trim_cr,
  strip_prefix, join_line, add_line, sse_loop, sse_data,
}
use clash_of_tokens.Protocol.Sse.Split.{line_start, split}
use clash_of_tokens.Protocol.Sse.Frames.{Answers, next-Answers}
use clash_of_tokens.Protocol.Usage.{Json, Chunk, ChatChoice, bytes_equal}
use clash_of_tokens.Protocol.Observer.{ascii, observe}
use clash_of_tokens.Protocol.Scan.{spaces, space, string_rest, string_end, value_end}
use clash_of_tokens.Protocol.Request.{
  Codec, Request, no_request, has_byte, find_quoted, spelled, byte_is,
}
use clash_of_tokens.Protocol.Inspect.{inspected, model_field, apply_field, inspect_loop, inspect}
use clash_of_tokens.Protocol.Inspect.Settles.{Settles, inspect-Settles}
use clash_of_tokens.Api.Stream.{Upstream, Client, Progress, Relayed, stream_loop, stream_response}
use clash_of_tokens.Api.Stream.Reports.{Relays, Says}
use clash_of_tokens.Api.Stream.Relay.{stream_response-Relays}
use clash_of_tokens.Api.Ingress.{ReadAnswer}

abbrev stop_event : List ℕ
stop_event = ascii "event: message_stop" ++ (10 ∷ (ascii "data: {}" ++ (10 ∷ (10 ∷ []))))

abbrev empty_chunk : Chunk
empty_chunk = record {
  kind = [];
  error = [];
  delta = [];
  choices = [];
  candidates = [];
  block_reason = [];
}

abbrev trimmed : List ℕ → List ℕ
trimmed [] = []
trimmed (x ∷ xs) = if eqb x 32 then xs else x ∷ xs

-- A space before a text is trimmed, and each object is empty.
abbrev small_json : Json
small_json = record {
  trim_space = trimmed;
  chunk = λ b. some empty_chunk;
  block_delta = λ b. none;
  text = λ b. none;
  object = λ b. some [];
  int64 = λ b. none;
}

next-Answers_example :
    (a : Event × List ℕ) × (next 8192 100 true (stop_event ++ ascii "data") ≡ some a)
    × Answers 100 true []
        (split line_start (stop_event ++ ascii "data"))
        (stop_event ++ ascii "data")
        a
next-Answers_example = next-Answers 8192 100 true (stop_event ++ ascii "data") (omega arith)

next_stop : next 8192 100 true (stop_event ++ ascii "data") ≡ some (frame stop_event, ascii "data")
unfolding next next_loop after_slice is_blank_line read_slice
next_stop = refl

abbrev last_choice : ChatChoice
last_choice = record {
  index = pos 0;
  finish_reason = some "stop";
  content = [];
  refusal = [];
  tool_calls = [];
  function_call = [];
}

abbrev upstream : Upstream
upstream = record { body = stop_event; ends_with_eof = true; gone = false }

abbrev ready : ℕ → Client
ready i = record { written = 30; write_ok = true; flush_ok = true }

stream_response-Relays_example :
    (r : ExecutionResult) × (p : Progress) × (rest : List ℕ) × (stream_response small_json 4096
        upstream ready "messages" 0
      ≡ some (r, p))
    × Relays stop_event 4096 rest p
    × Says rest r p
stream_response-Relays_example = stream_response-Relays small_json 4096 upstream ready "messages" 0

abbrev succeeds : Relayed → Bool
succeeds none = false
succeeds (some (r, p)) = successful r

stream_succeeds : succeeds (stream_response small_json 4096 upstream ready "messages" 0) ≡ true
unfolding stream_response stream_loop next next_loop after_slice is_blank_line read_slice observe
    sse_data sse_loop add_line cut_line trim_cr strip_prefix join_line successful lookup
stream_succeeds = refl

abbrev one_byte : ℕ → ReadAnswer
one_byte i = record { bytes = 7 ∷ []; error = none }

-- A codec for texts without escapes: the bytes between the quotes.
abbrev unquoted : List ℕ → List ℕ
unquoted [] = []
unquoted (x ∷ []) = []
unquoted (x ∷ (y ∷ ys)) = x ∷ unquoted (y ∷ ys)

abbrev text_of_bytes : List ℕ → Option (List ℕ)
text_of_bytes [] = none
text_of_bytes (x ∷ xs) = some (unquoted xs)

abbrev plain_codec : Codec
plain_codec = record {
  valid = λ b. true;
  text = text_of_bytes;
  boolean = λ b. none;
  int64 = λ b. none;
  output_limits = λ b. none;
  quote = λ t. 34 ∷ (t ++ (34 ∷ []));
}

-- {"model":"x"}
abbrev model_body : List ℕ
model_body = b'{' ∷ (34 ∷ ascii "model") ++ (34 ∷ (b':' ∷ (34 ∷ (b'x' ∷ (34 ∷ (b'}' ∷ []))))))

abbrev model_request : Request
model_request = record no_request { model = ascii "x"; model_start = some 9; model_end = 12 }

inspect_model : inspect plain_codec model_body ≡ some (inspected model_request)
unfolding inspect inspect_loop apply_field model_field spelled find_quoted has_byte byte_is
    bytes_equal value_end string_end string_rest space spaces
inspect_model = refl

inspect-Settles_example :
    Settles plain_codec model_body (ascii "y") (inspect plain_codec model_body)
inspect-Settles_example = inspect-Settles plain_codec model_body (ascii "y")
