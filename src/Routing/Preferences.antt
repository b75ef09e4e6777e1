-- ===== src/Routing/Preferences.antt =====
-- internal/routing/preferences.go: candidates compared by a group's preferences, in their order.
use Prim.Native.Nat.{Ordering}
use Prim.Native.String.{len, slice}
use clash_of_tokens.Base.{
  ℕ, String, Bool, ◌&&◌, ◌||◌, List, [], ◌∷◌, Option, none, some, ◌==◌, ◌-◌, leb, if◌then◌else◌,
}
use clash_of_tokens.Base.Float.{Float64, zero_f}
use clash_of_tokens.Config.Pricing.{unit_cost}
use clash_of_tokens.Routing.Types.{Router, System, source_of, target_of, state_of}

-- strings.HasSuffix.
unfoldable pub has_suffix : String → String → Bool
has_suffix s p = leb (len p) (len s) && slice s (len s - len p) (len s) == p

module _ {F : Type 0} ⦃fl : Float64 F⦄ where
  unfoldable pub preference_value : System F → Router F → ℕ → String → F
  unfolding has_suffix source_of target_of state_of
  preference_value sys r index p =
      let t = target_of r index in
      let s = source_of r t.source in
      let one = fl.decimal 1 0 in
      let latency = (state_of sys r t.source).latency in
      if p == "lower_latency"
      then (if fl.lt zero_f latency then latency else fl.inf)
      else if p == "lower_cost"
      then (elim (unit_cost t.model) [ none ↦ fl.inf | some c ↦ c ])
      else if p == "existing_subscription"
      then (if s.billing_mode == "subscription" then zero_f else one)
      else if p == "official_api"
      then (if s.source_kind == "vendor_api" || s.source_kind == "cloud_api" then zero_f else one)
      else if p == "reverse_source"
      then (if has_suffix s.source_kind "_reverse" then zero_f else one)
      else one

  -- The loop of comparePreferences: -1, 0 and 1 are `lt`, `eq` and `gt`.
  unfoldable pub compare_values : System F → Router F → ℕ → ℕ → List String → Ordering
  compare_values sys r candidate current [] = Ordering.eq
  compare_values sys r candidate current (p ∷ ps) =
      let a = preference_value sys r candidate p in
      let b = preference_value sys r current p in
      let rest = compare_values sys r candidate current ps in
      if fl.lt a b then Ordering.lt else if fl.lt b a then Ordering.gt else rest

  unfoldable pub compare_preferences : System F → Router F → ℕ → Option ℕ → List String → Ordering
  unfolding compare_values
  compare_preferences sys r candidate none ps = Ordering.lt
  compare_preferences sys r candidate (some current) ps = compare_values sys r candidate current ps
