-- ===== src/Tests/Records.antt =====
-- Witnesses: events, metadata, prices and results.
use clash_of_tokens.Base.{
  Option, get_last?, subst, ◌⊎◌, ◌+◌, ◌^◌, ◌<◌, some, ℕ, ◌≡◌, true, [], ◌∷◌, none, some, arith,
  length,
}
use clash_of_tokens.Base.Float.{milli}
use clash_of_tokens.Routing.Events.{ring_read}
use clash_of_tokens.Routing.Events.Ring.{push_all, recent, ring_read-recent}
use clash_of_tokens.Routing.Output.{record_execution}
use clash_of_tokens.Routing.Output.Accounts.{Accounted, record_execution-Accounted}
use clash_of_tokens.Base.Int.{pos}
use clash_of_tokens.Evidence.{Entry, Disk, append}
use clash_of_tokens.Evidence.History.{IsHistory, Numbered, append-IsHistory}
use clash_of_tokens.Tests.Run.{everything}
use clash_of_tokens.Tests.Data.{leaked, first_lease, served}

ring_read-recent_example :
    let s = push_all {A = ℕ} 2 (1 ∷ 2 ∷ 3 ∷ []) ([], 0) in
    ring_read 0 (length s.0) 0 s.1 s.0 ≡ recent 2 (1 ∷ 2 ∷ 3 ∷ [])
ring_read-recent_example = ring_read-recent 0 2 (1 ∷ 2 ∷ 3 ∷ []) (omega arith)

none_executed : Accounted (served.state_at 0)
unfolding everything
none_executed = record { fewer = omega arith; known = ground arith }

few_executed : (served.state_at 0).executions + 1 < 2 ^ 64
unfolding everything
few_executed = omega arith

record_execution-Accounted_example :
    Accounted ((record_execution leaked first_lease served).1.state_at 0)
record_execution-Accounted_example =
    record_execution-Accounted leaked first_lease served 0 none_executed few_executed

abbrev empty_disk : Disk
empty_disk = record { encoded_size = λ es. some 300; written = λ es. true }

abbrev first_entry : Entry
first_entry = record {
  binding = "";
  sequence = 1;
  revision = 1;
  kind = "source";
  resource = "alpha";
  model = "m1";
  protocol = "chat";
  checked_at = 5;
  method = "probe";
  status = "ok";
  upstream_status = pos 200;
  protocol_complete = true;
  output_observed = true;
  count = pos 1;
}

small_numbers : (l : Entry) → get_last? (first_entry ∷ []) ≡ some l → l.sequence + 1 < 2 ^ 64
small_numbers l h = subst (λ o. last_below o) h (omega arith)
  where
    last_below : Option Entry → Type 0
    last_below none = Unit
    last_below (some x) = x.sequence + 1 < 2 ^ 64

one_entry : IsHistory (first_entry ∷ [])
unfolding Numbered
one_entry = record { few = omega arith; numbered = tt }

append-IsHistory_example :
    IsHistory (append empty_disk 9 first_entry (first_entry ∷ [])).1
    × (((append empty_disk 9 first_entry (first_entry ∷ [])).0 ≡ none)
        ⊎ ((append empty_disk 9 first_entry (first_entry ∷ [])).1 ≡ first_entry ∷ []))
append-IsHistory_example =
    append-IsHistory empty_disk 9 first_entry (first_entry ∷ []) small_numbers one_entry
