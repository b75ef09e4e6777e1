-- ===== src/Protocol/Result.antt =====
-- internal/protocol: ExecutionResult of execution.go and its redaction in redaction.go.
use clash_of_tokens.Base.{
  String, ◌≡◌, refl, inl, inr, Bool, true, not, ◌&&◌, List, [], ◌∷◌, arith, ◌==◌, eq_iff, contains,
  if◌then◌else◌, Bool-cases,
}
use clash_of_tokens.Base.Int.{ℤ}

pub record ExecutionResult : Type 0 where
  pub input_tokens : ℤ
  pub output_tokens : ℤ
  pub total_tokens : ℤ
  pub usage_known : Bool
  pub upstream_status : ℤ
  pub transport_ok : Bool
  pub protocol_complete : Bool
  pub upstream_error : String
  pub client_canceled : Bool

unfoldable pub successful : ExecutionResult → Bool
successful r =
    r.transport_ok && (r.protocol_complete && (r.upstream_error == "" && not r.client_canceled))

-- The error categories that the gateway itself makes, the empty one included.
abbrev pub categories : List String
categories =
    "" ∷ "upstream_error" ∷ "unexpected_completion_marker" ∷ "invalid_sse_json"
    ∷ "upstream_incomplete" ∷ "upstream_blocked" ∷ "unknown_stream_protocol"
    ∷ "invalid_choice_index" ∷ "missing_completion" ∷ "truncated_stream" ∷ "output_limit"
    ∷ "transport_or_adapter_error" ∷ "upstream_rejected" ∷ "expected_stream" ∷ []

unfoldable pub redacted : ExecutionResult → ExecutionResult
redacted r =
    if contains categories r.upstream_error
    then r
    else record r { upstream_error = "upstream_error" }

upstream_error_known : contains categories "upstream_error" ≡ true
unfolding contains
upstream_error_known = refl

empty_known : contains categories "" ≡ true
unfolding contains
empty_known = refl

-- A redacted result carries a category of the gateway and no other text, succeeds exactly when the
-- result did, and is left alone by another redaction.
pub redacted_lem :
    (r : ExecutionResult)
    → (contains categories (redacted r).upstream_error ≡ true)
      × (successful (redacted r) ≡ successful r)
      × (redacted (redacted r) ≡ redacted r)
unfolding redacted successful
redacted_lem r = elim (Bool-cases (contains categories r.upstream_error)) [
  | inl known ↦ (rw known known, rw known, rw known (rw known))
  | inr other ↦ (
    rw other upstream_error_known,
    rw other (ground (arith, eq_iff r.upstream_error "", empty_known)),
    rw other (rw upstream_error_known),
  )
]
