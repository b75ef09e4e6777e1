-- ===== src/Routing/Eligible.antt =====
-- internal/routing/router.go: eligible and estimatedRequestCost.
-- The answer (true, "") is `none`, and (false, reason) the reason.
pub mod Policy
use clash_of_tokens.Base.{
  ℕ, String, Bool, true, false, not, ◌&&◌, ◌||◌, List, [], ◌∷◌, ◌++◌, Option, none, some, ◌==◌,
  starts_with, trim_prefix, ◌⧺◌, if◌then◌else◌, contains, lookup, or_else, get_or, is_empty,
  first_failure,
}
use clash_of_tokens.Base.Int.{ℤ, pos, negsuc, ltb_ℤ, leb_ℤ, max_ℤ, minus_one}
use clash_of_tokens.Base.Float.{Float64, zero_f}
use clash_of_tokens.Config.{Model, Source, Group}
use clash_of_tokens.Config.Pricing.{valid_price, unit_cost}
use clash_of_tokens.Config.Tiers.{tier}
use clash_of_tokens.Config.Metadata.{local_inference, billing_allowed}
use clash_of_tokens.Routing.Types.{
  Target, State, CompiledGroup, Query, Router, System, source_of, state_of,
}

pub data Reason : Type 0 where
  probe_requires_explicit_source already_attempted model_disabled disabled : Reason
  provider_or_account_disabled authentication_or_policy_block protocol input_limit : Reason
  native_tools_required vision_required invalid_tier model_not_approved : Reason
  stateful_requires_explicit_source not_approved local_only paid_not_allowed source_kind : Reason
  cost_unknown cost_ceiling request_cost_unknown request_cost_budget not_selected : Reason
  quality_floor model : Reason

-- `p != nil && !*p`.
abbrev pub refused : Option Bool → Bool
refused p = not (or_else p true)

abbrev pub is_some {ℓ} : {A : Type ℓ} → Option A → Bool
is_some none = false
is_some (some a) = true

-- `g.Sources[0] != s.ID`, or no source at all.
abbrev pub not_first : List String → String → Bool
not_first [] id = true
not_first (x ∷ xs) id = not (x == id)

module _ {F : Type 0} ⦃fl : Float64 F⦄ where
  unfoldable pub estimated_request_cost : Model F → Query F → Option F
  estimated_request_cost m q = elim m.input_usd_per_million [
    | none ↦ none
    | some i ↦ elim m.output_usd_per_million [
      | none ↦ none
      | some o ↦
          if ltb_ℤ q.bytes (pos 0) || leb_ℤ q.output_tokens (pos 0)
          then none
          else if not (valid_price (some i)) || not (valid_price (some o))
          then none
          else some (
              fl.add (fl.mul (fl.div (fl.of_int q.bytes) (fl.decimal 1000000 0)) i)
                (fl.mul (fl.div (fl.of_int q.output_tokens) (fl.decimal 1000000 0)) o))
    ]
  ]

  unfoldable pub is_auto : Query F → Bool
  is_auto q = starts_with q.model "auto/"

  -- `groupID` of eligible, and `key` of choose and Simulate.
  unfoldable pub group_key : Query F → String
  unfolding is_auto
  group_key q = if is_auto q then "auto" else q.model

  unfoldable pub full_id : Source F → Model F → String
  full_id s m = s.id ⧺ ("/" ⧺ m.id)

  -- The guards above the choice of a route.
  unfoldable pub request_guards : System F → Router F → Target F → Query F → List (Bool × Reason)
  unfolding full_id source_of state_of
  request_guards sys r t q =
      let s = source_of r t.source in
      let st = state_of sys r t.source in
      let m = t.model in
      (q.probe && not (q.model == full_id s m), Reason.probe_requires_explicit_source)
      ∷ (contains q.excluded_sources s.id, Reason.already_attempted)
      ∷ (not q.probe && refused m.enabled, Reason.model_disabled)
      ∷ (not q.probe && not st.enabled, Reason.disabled)
      ∷ (
        not q.probe && not (get_or r.parent_enabled t.source false),
        Reason.provider_or_account_disabled,
      )
      ∷ (not q.probe && st.blocked, Reason.authentication_or_policy_block)
      ∷ (not (contains m.protocols q.protocol), Reason.protocol)
      ∷ (ltb_ℤ m.max_input_bytes q.bytes, Reason.input_limit)
      ∷ (q.tools && not (m.tools == "native"), Reason.native_tools_required)
      ∷ (q.vision && not m.vision, Reason.vision_required)
      ∷ []

  unfoldable pub unit_cost_guard : Option F → Model F → Bool × Reason
  unit_cost_guard none m = (false, Reason.cost_unknown)
  unit_cost_guard (some cap) m = elim (unit_cost m) [
    | none ↦ (true, Reason.cost_unknown)
    | some c ↦ (fl.lt cap c, Reason.cost_ceiling)
  ]

  unfoldable pub request_cost_guard : Option F → Model F → Query F → Bool × Reason
  request_cost_guard none m q = (false, Reason.request_cost_unknown)
  request_cost_guard (some cap) m q = elim (estimated_request_cost m q) [
    | none ↦ (true, Reason.request_cost_unknown)
    | some c ↦
        (fl.lt q.spent_usd zero_f || fl.lt cap (fl.add q.spent_usd c), Reason.request_cost_budget)
  ]

  -- `min` after both assignments.
  unfoldable pub tier_floor : CompiledGroup F → Query F → ℤ
  unfolding is_auto
  tier_floor g q =
      let min = if is_auto q then tier (trim_prefix q.model "auto/") else minus_one in
      if ltb_ℤ min (tier g.min_tier) then tier g.min_tier else min

  -- The guards of the branch for a query that names a group.
  unfoldable pub group_guards :
      Router F → Target F → Query F → CompiledGroup F → List (Bool × Reason)
  group_guards r t q g =
      let s = source_of r t.source in
      let m = t.model in
      let level = tier m.tier in
      (refused m.auto_approved, Reason.model_not_approved)
      ∷ (q.stateful, Reason.stateful_requires_explicit_source)
      ∷ (
        not s.auto_approved
            || (not (get_or r.parent_approved t.source false)
                || not (is_some (lookup s.id g.members))),
        Reason.not_approved,
      )
      ∷ (g.local_only && not (local_inference s), Reason.local_only)
      ∷ (not (billing_allowed g.group s), Reason.paid_not_allowed)
      ∷ (
        not (is_empty g.allowed_source_kinds)
            && not (contains g.allowed_source_kinds s.source_kind),
        Reason.source_kind,
      )
      ∷ (g.require_tools && not (m.tools == "native"), Reason.native_tools_required)
      ∷ (g.require_vision && not m.vision, Reason.vision_required)
      ∷ unit_cost_guard g.max_usd_per_million m
      ∷ request_cost_guard g.max_usd_per_request m q
      ∷ (g.type == "select" && not_first g.sources s.id, Reason.not_selected)
      ∷ (
        (ltb_ℤ level (pos 0) && not g.allow_unrated)
            || (leb_ℤ (pos 0) level && ltb_ℤ level (tier_floor g q)),
        Reason.quality_floor,
      )
      ∷ []

  unfoldable pub explicit_guards : Router F → Target F → Query F → List (Bool × Reason)
  unfolding full_id
  explicit_guards r t q =
      (
        not (q.model == full_id (source_of r t.source) t.model)
            && not (not q.stateful && q.model == t.model.id),
        Reason.model,
      )
      ∷ []

  unfoldable pub route_guards : Router F → Target F → Query F → List (Bool × Reason)
  unfolding group_guards explicit_guards
  route_guards r t q =
      (is_auto q && ltb_ℤ (tier (trim_prefix q.model "auto/")) (pos 0), Reason.invalid_tier)
      ∷ (elim (lookup (group_key q) r.groups) [
        | some g ↦ group_guards r t q g
        | none ↦ explicit_guards r t q
      ])

  unfoldable pub eligible : System F → Router F → Target F → Query F → Option Reason
  unfolding request_guards route_guards
  eligible sys r t q = first_failure (request_guards sys r t q ++ route_guards r t q)
