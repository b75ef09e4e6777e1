-- ===== src/Config/Validate/Groups.antt =====
-- internal/config/config.go, Validate: the loop over the groups.
use Prim.Native.String.{String}
use clash_of_tokens.Base.{Bool, not, ◌&&◌, ◌||◌, List, [], ◌∷◌, ◌++◌, ◌==◌, contains}
use clash_of_tokens.Base.Int.{pos, ltb_ℤ}
use clash_of_tokens.Base.Float.{Float64}
use clash_of_tokens.Config.{Group}
use clash_of_tokens.Config.Pricing.{valid_price}
use clash_of_tokens.Config.Text.{is_identifier}
use clash_of_tokens.Config.Accounts.{outside}
use clash_of_tokens.Config.Tiers.{tier}

pub data GroupError : Type 0 where
  bad_budget : GroupError
  bad_preference : GroupError
  preferences_not_allowed : GroupError
  bad_max_attempts : GroupError
  bad_group_id : GroupError
  bad_group_type : GroupError
  bad_min_tier : GroupError
  unknown_source : GroupError

abbrev pub preference_names : List String
preference_names =
    "lower_latency" ∷ "existing_subscription" ∷ "lower_cost" ∷ "official_api" ∷ "reverse_source"
    ∷ []

abbrev pub group_types : List String
group_types = "auto" ∷ "select" ∷ "fallback" ∷ "latency" ∷ "load-balance" ∷ "weighted" ∷ []

-- The loop over a group's preferences, with those seen.
unfoldable pub preference_guards : String → List String → List String → List (Bool × GroupError)
preference_guards type seen [] = []
preference_guards type seen (p ∷ ps) =
    (not (contains preference_names p), bad_preference)
    ∷ (
      contains seen p
          || not (type == "auto") && (not (type == "latency") && not (type == "load-balance")),
      preferences_not_allowed,
    )
    ∷ preference_guards type (p ∷ seen) ps

-- The loop over a group's sources.
unfoldable pub member_guards : List String → List String → List (Bool × GroupError)
member_guards ids [] = []
member_guards ids (id ∷ rest) = (not (contains ids id), unknown_source) ∷ member_guards ids rest

module _ {F : Type 0} ⦃fl : Float64 F⦄ where
  -- One round: the ids of the sources, those of the groups before, and the group.
  unfoldable pub group_guards_of : List String → List String → Group F → List (Bool × GroupError)
  unfolding preference_guards member_guards
  group_guards_of sources met g =
      (
        not (valid_price g.max_usd_per_million) || not (valid_price g.max_usd_per_request),
        bad_budget,
      )
        ∷ preference_guards g.type [] g.preferences
      ++ (outside (pos 0) (pos 8) g.max_attempts, bad_max_attempts)
        ∷ (not (is_identifier g.id) || contains met g.id, bad_group_id)
        ∷ (not (contains group_types g.type), bad_group_type)
        ∷ (ltb_ℤ (tier g.min_tier) (pos 0), bad_min_tier)
        ∷ member_guards sources g.sources
