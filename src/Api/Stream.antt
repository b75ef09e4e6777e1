-- ===== src/Api/Stream.antt =====
-- internal/api/stream.go: streamResponse, which relays the events of an upstream stream to the client
-- and reports how the stream went.
--
-- The upstream is the bytes of the response body and how they end; the client is what its connection
-- answers in each round. Frames are relayed whole, each by one Write.
pub mod Reports
pub mod Relay
use clash_of_tokens.Base.{
  ℕ, zero, suc, ◌+◌, String, Bool, true, false, not, ◌&&◌, List, [], ◌∷◌, ◌++◌, Option, none, some,
  ltb, ◌==◌, if◌then◌else◌, length,
}
use clash_of_tokens.Base.Int.{pos}
use clash_of_tokens.Protocol.Result.{ExecutionResult}
use clash_of_tokens.Protocol.Sse.{Event, frame, eof, exceeds_limit, truncated, next}
use clash_of_tokens.Protocol.Usage.{Json, CompletionObserver}
use clash_of_tokens.Protocol.Observer.{observe}
use clash_of_tokens.Routing.Types.{u64}

-- `gone` is `ctx.Err() != nil` when the stream breaks off.
pub record Upstream : Type 0 where
  pub body : List ℕ
  pub ends_with_eof : Bool
  pub gone : Bool

-- The answers of Write and Flush in a round.
pub record Client : Type 0 where
  pub written : ℕ
  pub write_ok : Bool
  pub flush_ok : Bool

-- The variables of the loop, the frames given to the client, the gateway's counter of bytes, and the
-- number of calls of FirstOutput.
pub record Progress : Type 0 where
  pub observer : CompletionObserver
  pub sent : Bool
  pub observed_output : Bool
  pub total : ℕ
  pub relayed : List (List ℕ)
  pub output_bytes : ℕ
  pub first_outputs : ℕ

-- A result with the usage of the observer.
abbrev pub report : CompletionObserver → Bool → Bool → String → Bool → ExecutionResult
report o transport complete e canceled = record {
  input_tokens = o.input_tokens;
  output_tokens = o.output_tokens;
  total_tokens = o.total_tokens;
  usage_known = o.usage_seen;
  upstream_status = pos 0;
  transport_ok = transport;
  protocol_complete = complete;
  upstream_error = e;
  client_canceled = canceled;
}

abbrev pub fresh_observer : String → CompletionObserver
fresh_observer protocol = record {
  input_tokens = pos 0;
  output_tokens = pos 0;
  total_tokens = pos 0;
  usage_seen = false;
  protocol = protocol;
  complete = false;
  terminal = false;
  saw_output = false;
  error = "";
  choices = [];
  input_seen = false;
  output_seen = false;
  total_seen = false;
}

-- The lease hears of the first output once.
abbrev pub note_output : Progress → Progress
note_output p =
    if p.observer.saw_output && not p.observed_output
    then record p { first_outputs = p.first_outputs + 1; observed_output = true }
    else p

abbrev pub deliver_frame : List ℕ → Client → Progress → Progress
deliver_frame f c p = record p {
  sent = true;
  relayed = p.relayed ++ (f ∷ []);
  output_bytes = u64 (p.output_bytes + c.written);
}

abbrev pub Relayed : Type 0
Relayed = Option (ExecutionResult × Progress)

-- The end of a round, after the frame has been written.
unfoldable pub after_write : Client → Progress → Relayed → Relayed
after_write c p more =
    if not c.write_ok
    then some (report p.observer false false "" true, p)
    else if not c.flush_ok
    then some (report p.observer false false "" true, p)
    else if p.observer.terminal
    then some (report p.observer true p.observer.complete "" false, p)
    else more

module _ (json : Json) (max_output : ℕ) where
  abbrev pub counted_frame : List ℕ → Progress → Progress
  counted_frame f p = record p { total = p.total + length f }

  abbrev pub observed_frame : List ℕ → Progress → Progress
  observed_frame f p = record p { total = p.total + length f; observer = observe json f p.observer }

  -- The round for a frame; `more` is what the rounds after it come to.
  unfoldable pub relay : List ℕ → Client → Progress → (Progress → Relayed) → Relayed
  unfolding after_write
  relay f c p more =
      let q = observed_frame f p in
      if ltb max_output (p.total + length f)
      then some (report p.observer false false "output_limit" false, counted_frame f p)
      else if not (q.observer.error == "")
      then some (report q.observer false false q.observer.error false, q)
      else after_write c (deliver_frame f c (note_output q))
          (more (deliver_frame f c (note_output q)))

  unfoldable pub after_event : Event → Bool → Client → Progress → (Progress → Relayed) → Relayed
  unfolding relay
  after_event (frame f) gone c p more = relay f c p more
  after_event eof gone c p more = some (
    report p.observer true p.observer.complete
        (if p.observer.complete then "" else "missing_completion") false,
    p,
  )
  after_event exceeds_limit gone c p more =
      some (report p.observer false false "truncated_stream" gone, p)
  after_event truncated gone c p more =
      some (report p.observer false false "truncated_stream" gone, p)

  -- int(min(MaxOutputBytes, 1<<20)).
  abbrev pub event_limit : ℕ
  event_limit = if ltb max_output 1_048_576 then max_output else 1_048_576

  -- `none` means that the fuel ran out.
  unfoldable pub stream_loop : ℕ → Upstream → (ℕ → Client) → ℕ → List ℕ → Progress → Relayed
  unfolding after_event
  stream_loop zero up client round input p = none
  stream_loop (suc fuel) up client round input p =
      elim (next 8192 event_limit up.ends_with_eof input) [
        | none ↦ none
        | some (event, rest) ↦
            after_event event up.gone (client round) p (stream_loop fuel up client (round + 1) rest)
      ]

  abbrev pub at_start : String → ℕ → Progress
  at_start protocol output_bytes = record {
    observer = fresh_observer protocol;
    sent = false;
    observed_output = false;
    total = 0;
    relayed = [];
    output_bytes = output_bytes;
    first_outputs = 0;
  }

  -- streamResponse: a frame is a byte at least, so that this fuel is enough.
  unfoldable pub stream_response : Upstream → (ℕ → Client) → String → ℕ → Relayed
  unfolding stream_loop
  stream_response up client protocol output_bytes =
      stream_loop (suc (length up.body)) up client 0 up.body (at_start protocol output_bytes)
