-- ===== src/Routing/Explain.antt =====
-- internal/routing/router.go: explainReason, Explain, Simulate and the health of Status.
pub mod Agree
use clash_of_tokens.Base.{
  ℕ, zero, suc, String, ◌≡◌, refl, Bool, true, false, not, ◌&&◌, ◌||◌, List, [], ◌∷◌, ◌++◌, Option,
  none, some, ◌==◌, ◌+◌, eqb, ltb, if◌then◌else◌, lookup, insert, or_else, get_or, length, map,
  is_empty,
}
use clash_of_tokens.Base.Int.{ℤ, pos, leb_ℤ}
use clash_of_tokens.Base.Float.{Float64, zero_f}
use clash_of_tokens.Protocol.Result.{ExecutionResult}
use clash_of_tokens.Routing.Types.{
  Target, State, Quota, Query, Router, System, source_of, target_of, state_of, quota_of,
}
use clash_of_tokens.Routing.Eligible.{Reason, eligible, full_id}
use clash_of_tokens.Routing.Pools.{Sha256, account_full}
use clash_of_tokens.Routing.Choose.{saturated, candidates_of, choose}

pub data Explanation : Type 0 where
  excluded : Reason → Explanation
  account_capacity cooldown capacity eligible_now : Explanation

-- maxTime.
abbrev pub max_time : ℕ → ℕ → ℕ
max_time a b = if ltb b a then a else b

abbrev pub is_eligible_now : Explanation → Bool
is_eligible_now eligible_now = true
is_eligible_now _ = false

pub record SimulationCandidate : Type 0 where
  pub id : String
  pub order : ℕ
  pub reason : Explanation
  pub eligible : Bool
  pub selected : Bool

pub record Simulation : Type 0 where
  pub selected : String
  pub candidates : List SimulationCandidate

pub data Health : Type 0 where
  disabled blocked cooldown exhausted broken degraded healthy untested : Health

-- `idx == selected`, where nothing selected is -1.
abbrev pub is_selected : Option ℕ → ℕ → Bool
is_selected none i = false
is_selected (some j) i = eqb i j

abbrev pub up_to : ℕ → ℕ → List ℕ
up_to i zero = []
up_to i (suc n) = i ∷ up_to (suc i) n

module _ {F : Type 0} ⦃fl : Float64 F⦄ where
  -- The switch of explainReason, for an eligible target.
  unfoldable pub explain_room : System F → Router F → ℕ → ℕ → Explanation
  unfolding saturated source_of state_of quota_of
  explain_room sys r i now =
      let s = state_of sys r i in
      let qt = quota_of sys r i in
      if account_full sys r i
      then account_capacity
      else if ltb now (max_time s.cooldown qt.cooldown)
      then Explanation.cooldown
      else if leb_ℤ (source_of r i).max_inflight (pos s.active)
          || (leb_ℤ qt.limit (pos qt.active) || saturated sys r)
      then capacity
      else eligible_now

  unfoldable pub explain_reason : System F → Router F → Target F → Query F → ℕ → Explanation
  unfolding explain_room
  explain_reason sys r t q now = elim (eligible sys r t q) [
    | some reason ↦ excluded reason
    | none ↦ explain_room sys r t.source now
  ]

  unfoldable pub target_id : Router F → ℕ → String
  unfolding full_id source_of target_of
  target_id r i = full_id (source_of r (target_of r i).source) (target_of r i).model

  -- The loop of Explain.
  unfoldable pub explain :
      System F
      → Router F
      → Query F
      → ℕ
      → List (Target F)
      → List (String × Explanation)
      → List (String × Explanation)
  unfolding explain_reason full_id source_of
  explain sys r q now [] out = out
  explain sys r q now (t ∷ ts) out =
      explain sys r q now ts
        (insert (full_id (source_of r t.source) t.model) (explain_reason sys r t q now) out)

  unfoldable pub simulate_one :
      System F → Router F → Query F → ℕ → Option ℕ → ℕ → ℕ → SimulationCandidate
  unfolding explain_reason target_id target_of
  simulate_one sys r q now selected order idx =
      let reason = explain_reason sys r (target_of r idx) q now in
      record {
        id = target_id r idx;
        order = order + 1;
        reason = reason;
        eligible = is_eligible_now reason;
        selected = is_selected selected idx;
      }

  -- The loop of Simulate from a place in the order on.
  unfoldable pub simulate_loop :
      System F → Router F → Query F → ℕ → Option ℕ → ℕ → List ℕ → Simulation → Simulation
  unfolding simulate_one
  simulate_loop sys r q now selected order [] out = out
  simulate_loop sys r q now selected order (idx ∷ rest) out =
      simulate_loop sys r q now selected (suc order) rest (record {
        candidates = out.candidates ++ simulate_one sys r q now selected order idx ∷ [];
        selected = if is_selected selected idx then target_id r idx else out.selected;
      })

  -- `indices` of Simulate: the candidates, or all targets where there are none.
  unfoldable pub simulated : Router F → Query F → List ℕ
  unfolding candidates_of
  simulated r q =
      if is_empty (candidates_of r q) then up_to 0 (length r.targets) else candidates_of r q

  -- `health` of a source in Status.
  unfoldable pub health_of : System F → Router F → ℕ → ℕ → Health
  unfolding source_of state_of quota_of
  health_of sys r i now =
      let s = state_of sys r i in
      let qt = quota_of sys r i in
      if not (s.enabled && get_or r.parent_enabled i false)
      then Health.disabled
      else if s.blocked
      then Health.blocked
      else if ltb now (max_time s.cooldown qt.cooldown)
      then Health.cooldown
      else if leb_ℤ (source_of r i).max_inflight (pos s.active) || leb_ℤ qt.limit (pos qt.active)
      then exhausted
      else if ltb 0 s.failures && eqb s.completed 0
      then broken
      else if ltb 0 s.failures
      then degraded
      else if ltb 0 s.completed
      then healthy
      else untested

module _ {F : Type 0} ⦃fl : Float64 F⦄ ⦃sha : Sha256⦄ where
  unfoldable pub simulate : System F → Router F → Query F → ℕ → Simulation
  unfolding simulate_loop simulated
  simulate sys r q now =
      simulate_loop sys r q now (choose sys r q now).0 0 (simulated r q)
        (record { selected = ""; candidates = [] })
