-- ===== src/Protocol/Observer/Complete.antt =====
-- internal/protocol/execution.go: when an observer holds a stream for complete.
use clash_of_tokens.Base.{
  ℕ, String, ◌≡◌, refl, ◌⊎◌, inl, inr, Bool, true, false, not, List, [], ◌∷◌, Option, none, some,
  arith, ◌==◌, if◌then◌else◌, lookup, if_intro,
}
use clash_of_tokens.Base.Int.{ℤ, pos, negsuc}
use clash_of_tokens.Protocol.Sse.{sse_data}
use clash_of_tokens.Protocol.Usage.{
  ChatChoice, Candidate, Chunk, Json, UsageValue, CompletionObserver, parse_usage_value,
  merge_usage, merge_named, merge_message, observe_usage, usage_keys,
}
use clash_of_tokens.Protocol.Observer.{
  is_complete, choice, observe_choices, observe_candidates, saw, has_delta, has_reason, has_part,
  observe_protocol, observe_chunk, observe_data, observe, completed, failed, present, event_in,
  split_lines,
}

-- The stream goes on, and is complete when some choice was seen and all seen are done.
pub record Goes (o : CompletionObserver) : Type 0 where
  pub going : o.terminal ≡ false
  pub tracks : o.complete ≡ is_complete o.choices

-- Or its end has been seen.
pub record Ends (o : CompletionObserver) : Type 0 where
  pub closed : o.terminal ≡ true
  pub whole : o.complete ≡ true

abbrev pub Consistent : CompletionObserver → Type 0
Consistent o = Goes o ⊎ Ends o

merge_usage-Goes : (v : UsageValue) (o : CompletionObserver) → Goes o → Goes (merge_usage v o)
unfolding merge_usage
merge_usage-Goes v o g = ground arith

module _ (json : Json) where
  merge_named-Goes :
      (envelope : List (String × List ℕ)) (keys : List String) (o : CompletionObserver)
      → Goes o
      → Goes (merge_named json envelope keys o)
  unfolding merge_named
  merge_named-Goes envelope [] o g = g
  merge_named-Goes envelope (key ∷ keys) o g =
      merge_named-Goes envelope keys _ (one (lookup key envelope))
    where
      one :
          (found : Option (List ℕ))
          → Goes (elim found [ none ↦ o | some raw ↦ merge_usage (parse_usage_value json raw) o ])
      one none = g
      one (some raw) = merge_usage-Goes (parse_usage_value json raw) o g

  merge_message-Goes :
      (found : Option (List ℕ)) (o : CompletionObserver)
      → Goes o
      → Goes (merge_message json found o)
  merge_message-Goes none o g = g
  merge_message-Goes (some raw) o g = nested (json.object raw)
    where
      nested :
          (fields : Option (List (String × List ℕ)))
          → Goes (elim fields [ none ↦ o | some n ↦ merge_named json n usage_keys o ])
      nested none = g
      nested (some n) = merge_named-Goes n usage_keys o g

  observe_usage-Goes :
      (input : List ℕ) (o : CompletionObserver) → Goes o → Goes (observe_usage json input o)
  unfolding observe_usage
  observe_usage-Goes input o g = envelope (json.object input)
    where
      envelope :
          (fields : Option (List (String × List ℕ)))
          → Goes (elim fields [
            | none ↦ o
            | some e ↦ merge_message json (lookup "message" e) (merge_named json e usage_keys o)
          ])
      envelope none = g
      envelope (some e) =
          merge_message-Goes (lookup "message" e) _ (merge_named-Goes e usage_keys o g)

choice-Goes : (i : ℤ) (b : Bool) (o : CompletionObserver) → Goes o → Goes (choice i b o)
unfolding choice
choice-Goes (negsuc n) b o g = ground arith
choice-Goes (pos n) b o g = ground arith

saw-Goes : (b : Bool) (o : CompletionObserver) → Goes o → Goes (saw b o)
saw-Goes b o g = ground arith

pub observe_choices-Goes :
    (cs : List ChatChoice) (o : CompletionObserver) → Goes o → Goes (observe_choices cs o)
unfolding observe_choices
observe_choices-Goes [] o g = g
observe_choices-Goes (c ∷ cs) o g =
    observe_choices-Goes cs _
      (saw-Goes (has_delta c) _ (choice-Goes c.index (has_reason c.finish_reason) o g))

observe_candidates-Goes :
    (cs : List Candidate) (o : CompletionObserver) → Goes o → Goes (observe_candidates cs o)
unfolding observe_candidates
observe_candidates-Goes [] o g = g
observe_candidates-Goes (c ∷ cs) o g =
    observe_candidates-Goes cs _
      (saw-Goes (has_part c.parts) _ (choice-Goes c.index (not (c.finish_reason == "")) o g))

saw-Consistent : (b : Bool) (o : CompletionObserver) → Consistent o → Consistent (saw b o)
saw-Consistent b o (inl g) = inl (saw-Goes b o g)
saw-Consistent b o (inr e) = inr (ground arith)

completed-Ends : (o : CompletionObserver) → Ends (completed o)
completed-Ends o = record { closed = refl; whole = refl }

failed-Goes : (e : String) (o : CompletionObserver) → Goes o → Goes (failed e o)
failed-Goes e o g = ground arith

stopped-Consistent :
    (b : Bool) (o : CompletionObserver) → Goes o → Consistent (if b then completed o else o)
stopped-Consistent b o g = if_intro Consistent b _ _ (inr (completed-Ends o)) (inl g)

module _ (json : Json) where
  observe_protocol-Consistent :
      (event : List ℕ) (v : Chunk) (o : CompletionObserver)
      → Goes o
      → Consistent (observe_protocol json event v o)
  unfolding observe_protocol
  observe_protocol-Consistent event v o g =
      if_intro Consistent (o.protocol == "chat") _ _ (inl (observe_choices-Goes v.choices o g)) (
        if_intro Consistent (o.protocol == "messages") _ _
          (saw-Consistent _ _ (stopped-Consistent _ o g))
          (if_intro Consistent (o.protocol == "responses") _ _
            (saw-Consistent _ _ (stopped-Consistent _ o g))
            (if_intro Consistent (o.protocol == "gemini") _ _
              (if_intro Consistent (present v.block_reason) _ _
                (inl (failed-Goes "upstream_blocked" o g))
                (inl (observe_candidates-Goes v.candidates o g)))
              (inl (failed-Goes "unknown_stream_protocol" o g)))))

  observe_chunk-Consistent :
      (event input : List ℕ) (v : Chunk) (o : CompletionObserver)
      → Goes o
      → Consistent (observe_chunk json event input v o)
  unfolding observe_chunk
  observe_chunk-Consistent event input v o g =
      let u = observe_usage-Goes json input o g in
      if_intro Consistent _ _ _ (inl (failed-Goes "upstream_error" o g)) (
        if_intro Consistent _ _ _ (inl (failed-Goes "upstream_incomplete" _ u))
          (observe_protocol-Consistent (if present v.kind then v.kind else event) v _ u))

  observe_data-Consistent :
      (event input : List ℕ) (o : CompletionObserver)
      → Goes o
      → Consistent (observe_data json event input o)
  unfolding observe_data
  observe_data-Consistent event input o g =
      if_intro Consistent _ _ _ (inl (failed-Goes "upstream_error" o g)) (
        if_intro Consistent _ _ _ (inl g) (
          if_intro Consistent _ _ _
            (if_intro Consistent (o.protocol == "chat") _ _ (inr (completed-Ends o))
              (inl (failed-Goes "unexpected_completion_marker" o g)))
            (decoded (json.chunk input))))
    where
      decoded :
          (chunk : Option Chunk)
          → Consistent (elim chunk [
            | none ↦ failed "invalid_sse_json" o
            | some v ↦ observe_chunk json event input v o
          ])
      decoded none = inl (failed-Goes "invalid_sse_json" o g)
      decoded (some v) = observe_chunk-Consistent event input v o g

  pub observe-Consistent :
      (frame : List ℕ) (o : CompletionObserver) → Goes o → Consistent (observe json frame o)
  unfolding observe
  observe-Consistent frame o g =
      observe_data-Consistent (event_in json [] (split_lines frame))
        (json.trim_space (sse_data frame)) o g
