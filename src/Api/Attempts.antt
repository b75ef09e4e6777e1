-- ===== src/Api/Attempts.antt =====
-- internal/api/attempts.go: how often and when a request is tried again. Acquire waits in between, so
-- that a round of acquireResponse is Acquire's steps and then, with the lease, one step here: what
-- the upstream answered decides whether the lease and the answer are returned, or the lease is
-- released and the loop goes on with another query.
pub mod Retries
use clash_of_tokens.Base.{
  ℕ, String, Bool, true, false, not, ◌&&◌, ◌||◌, List, [], ◌∷◌, ◌++◌, Option, none, some,
  if◌then◌else◌, ◌==◌, ◌+◌, contains, get_or, length, leb,
}
use clash_of_tokens.Base.Int.{ℤ, pos, ltb_ℤ, leb_ℤ, eqb_ℤ, max_ℤ, min_ℤ}
use clash_of_tokens.Base.Float.{Float64}
use clash_of_tokens.Config.{Config, Source, Group}
use clash_of_tokens.Routing.Types.{Query, System, Lease, no_source}
use clash_of_tokens.Routing.Eligible.{estimated_request_cost, group_key}
use clash_of_tokens.Routing.Pools.{Sha256}
use clash_of_tokens.Routing.Release.{release}

-- What the call of the upstream gave: a transport error, which says whether it came before the
-- request was submitted, or a response with its status and its Retry-After.
pub data Answer : Type 0 where
  failed_transport : (before_submission : Bool) → Answer
  responded : (status retry_after : ℤ) → Answer

-- What a round leads to.
pub data Next (F : Type 0) : Type 0 where
  returned : Lease F → Next F
  again : Query F → ℕ → Next F

-- The adapters with the rejection contract.
abbrev pub native_adapters : List String
native_adapters = "openai" ∷ "anthropic" ∷ "gemini" ∷ []

abbrev pub native_kinds : List String
native_kinds = "vendor_api" ∷ "cloud_api" ∷ "aggregator_api" ∷ "custom_api" ∷ "local_model" ∷ []

abbrev pub status_of : Answer → ℤ
status_of (failed_transport before) = pos 502
status_of (responded status retry_after) = status

abbrev pub cooldown_of : Answer → ℤ
cooldown_of (failed_transport before) = pos 0
cooldown_of (responded status retry_after) = retry_after

module _ {F : Type 0} ⦃fl : Float64 F⦄ where
  -- The loop of attemptLimit.
  unfoldable pub limit_in : String → List (Group F) → ℤ
  limit_in id [] = pos 1
  limit_in id (g ∷ gs) =
      let rest = limit_in id gs in
      if not (g.id == id) || g.type == "select"
      then rest
      else if ltb_ℤ (pos 0) g.max_attempts
      then g.max_attempts
      else if g.type == "fallback"
      then max_ℤ (pos 1) (min_ℤ (pos 8) (pos (length g.sources)))
      else rest

  -- The loop of acquireResponse asks once, and a retry changes nothing that it reads.
  unfoldable pub attempt_limit : Config F → Query F → ℤ
  unfolding limit_in
  attempt_limit c q = if q.stateful then pos 1 else limit_in (group_key q) c.groups

  unfoldable pub rejected_before_generation : Source F → ℤ → Bool
  rejected_before_generation s status =
      contains native_adapters s.adapter
      && (contains native_kinds s.source_kind
          && (eqb_ℤ status (pos 401) || (eqb_ℤ status (pos 403) || eqb_ℤ status (pos 429))))

  -- `safe`, for the source of the lease.
  unfoldable pub is_safe : Source F → Answer → Bool
  unfolding rejected_before_generation
  is_safe s (failed_transport before) = before
  is_safe s (responded status retry_after) = rejected_before_generation s status

  -- A response costs its estimate, if that is known.
  unfoldable pub spend : Answer → Option F → Query F → Query F
  spend (failed_transport before) cost q = q
  spend (responded status retry_after) none q = q
  spend (responded status retry_after) (some cost) q = record q {
    spent_usd = fl.add q.spent_usd cost;
  }

  abbrev pub exclude : String → Query F → Query F
  exclude id q = record q { excluded_sources = q.excluded_sources ++ id ∷ [] }

module _ {F : Type 0} ⦃fl : Float64 F⦄ ⦃sha : Sha256⦄ where
  -- The end of a round, for the attempt of a number.
  unfoldable pub answered :
      (ℕ → Bool)
      → (ℕ → ℕ)
      → Config F
      → ℕ
      → Query F
      → ℕ
      → Lease F
      → Answer
      → System F
      → Next F × System F
  unfolding is_safe attempt_limit spend
  answered canceled clock c ctx q attempt l answer sys =
      let source = get_or c.sources l.target.source no_source in
      if not (is_safe source answer)
        || (leb_ℤ (attempt_limit c q) (pos (attempt + 1)) || canceled ctx)
      then (returned l, sys)
      else (
        again (exclude source.id (spend answer (estimated_request_cost l.target.model q) q))
            (attempt + 1),
        (release canceled clock (status_of answer) (cooldown_of answer) l sys).1,
      )
