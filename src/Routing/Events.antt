-- ===== src/Routing/Events.antt =====
-- internal/routing/events.go: the ring of execution events.
pub mod Ring
use clash_of_tokens.Base.{
  ℕ, zero, suc, String, Bool, true, false, not, ◌&&◌, List, [], ◌∷◌, ◌++◌, Option, none, some, ◌+◌,
  ◌*◌, ◌-◌, ◌/◌, ◌%◌, ltb, if◌then◌else◌, get_or, set, length,
}
use clash_of_tokens.Base.Int.{ℤ, pos, leb_ℤ, ltb_ℤ, eqb_ℤ}
use clash_of_tokens.Base.Float.{Float64, zero_f}
use clash_of_tokens.Protocol.Result.{ExecutionResult, successful, redacted}
use clash_of_tokens.Routing.Types.{Router, Capacity, System, Lease, ExecutionEvent, u64, source_of}

unfoldable pub max_execution_events : ℕ
max_execution_events = 1000

-- The two branches that store an event, over a ring of at most `max` places.
unfoldable pub ring_push : {A : Type 0} → ℕ → A → List A × ℕ → List A × ℕ
ring_push max e (events, cursor) =
    if ltb (length events) max
    then (events ++ e ∷ [], cursor)
    else (set events cursor e, (cursor + 1) % max)

-- The loop of ExecutionEvents from i on, with n rounds left.
unfoldable pub ring_read : {A : Type 0} → A → ℕ → ℕ → ℕ → List A → List A
ring_read d zero i cursor events = []
ring_read d (suc n) i cursor events =
    get_or events ((cursor + i) % length events) d ∷ ring_read d n (i + 1) cursor events

-- 200 ≤ status < 300.
abbrev pub is_2xx : ℤ → Bool
is_2xx status = leb_ℤ (pos 200) status && ltb_ℤ status (pos 300)

-- The outcome of a release: the status decides, and a recorded execution overrides it.
unfoldable pub outcome_of : ℤ → Option ExecutionResult → String
outcome_of status none =
    if eqb_ℤ status (pos 499) then "canceled" else if is_2xx status then "succeeded" else "failed"
outcome_of status (some x) =
    let r = redacted x in
    if r.client_canceled
    then "canceled"
    else if not (successful r)
    then "failed"
    else if eqb_ℤ status (pos 499)
    then "canceled"
    else if is_2xx status
    then "succeeded"
    else "failed"

abbrev pub redact_copy : Option ExecutionResult → Option ExecutionResult
redact_copy none = none
redact_copy (some x) = some (redacted x)

module _ {F : Type 0} ⦃fl : Float64 F⦄ where
  -- float64(d.Microseconds()) / 1000 of a duration in nanoseconds.
  abbrev pub micro_ms : ℕ → F
  micro_ms d = fl.div (fl.of_int (pos (d / 1000))) (fl.decimal 1000 0)

  unfoldable pub event_of : System F → Lease F → ℤ → ℕ → ℕ → ExecutionEvent F
  unfolding outcome_of source_of
  event_of sys l status finished now = record {
    sequence = u64 (sys.event_sequence + 1);
    finished_at = finished;
    source = (source_of (sys.router_at l.router) l.target.source).id;
    model = l.target.model.id;
    protocol = l.protocol;
    validation = l.probe;
    status = status;
    outcome = outcome_of status l.execution;
    duration_ms = micro_ms (now - l.started);
    ttft_ms = l.ttft_ms;
    execution = redact_copy l.execution;
  }

  -- `clock` numbers the readings of the time in a release: here the first and the second.
  unfoldable pub record_event : (ℕ → ℕ) → ℤ → Lease F → System F → System F
  unfolding event_of ring_push max_execution_events
  record_event clock status l sys =
      let (events, cursor) =
        ring_push max_execution_events (event_of sys l status (clock 0) (clock 1))
          (sys.events, sys.event_cursor) in
      record sys {
        capacity = record (sys.capacity) {
          event_sequence = u64 (sys.event_sequence + 1);
          events = events;
          event_cursor = cursor;
        };
      }

  abbrev no_event : ExecutionEvent F
  no_event = record {
    sequence = 0;
    finished_at = 0;
    source = "";
    model = "";
    protocol = "";
    validation = false;
    status = pos 0;
    outcome = "";
    duration_ms = zero_f;
    ttft_ms = zero_f;
    execution = none;
  }

  -- Oldest first.
  unfoldable pub execution_events : System F → List (ExecutionEvent F)
  unfolding ring_read
  execution_events sys = ring_read no_event (length sys.events) 0 sys.event_cursor sys.events
