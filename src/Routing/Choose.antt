-- ===== src/Routing/Choose.antt =====
-- internal/routing/router.go: choose, the scan over a query's candidates in rotated order.
pub mod Visits
pub mod Rounds
pub mod Sound
pub mod Optimal
use Prim.Native.Nat.{Ordering}
use clash_of_tokens.Base.{
  ℕ, zero, suc, String, ◌≡◌, refl, ◌⊎◌, inl, inr, Bool, true, false, not, ◌&&◌, ◌||◌, List, [], ◌∷◌,
  Option, none, some, arith, ◌==◌, ◌+◌, ◌%◌, eqb, if◌then◌else◌, lookup, get_or, or_else, length,
  is_empty,
}
use clash_of_tokens.Base.Int.{ℤ, pos, leb_ℤ}
use clash_of_tokens.Base.Float.{Float64, zero_f}
use clash_of_tokens.Routing.Types.{
  Target, State, CompiledGroup, Query, Router, System, no_group, source_of, target_of, state_of,
}
use clash_of_tokens.Routing.Eligible.{Reason, eligible, group_key}
use clash_of_tokens.Routing.Preferences.{compare_preferences}
use clash_of_tokens.Routing.Pools.{Sha256, busy, account_full, pool_preferences}

-- The variables of the loop: `best` is -1 as `none`.
pub record Best (F : Type 0) : Type 0 where
  pub best : Option ℕ
  pub score : F
  pub eligible : Bool

-- How a round ends: with the result of the whole loop, or with new variables.
pub data Round (F : Type 0) : Type 0 where
  stop : Option ℕ → Bool → Round F
  go : Best F → Round F

-- n rounds of the position that starts at p and wraps to 0.
unfoldable pub visit : {A : Type 0} → A → ℕ → ℕ → List A → List A
visit d zero p cs = []
visit d (suc n) p cs = get_or cs p d ∷ visit d n (if eqb (p + 1) (length cs) then 0 else p + 1) cs

module _ {F : Type 0} ⦃fl : Float64 F⦄ where
  -- `r.active >= r.cfg.Runtime.MaxInflight`.
  unfoldable pub saturated : System F → Router F → Bool
  saturated sys r = leb_ℤ r.cfg.runtime.max_inflight (pos sys.active)

  -- Another account of the provider's pool is preferred.
  unfoldable pub passed_over : Router F → List (String × String) → ℕ → Bool
  unfolding source_of
  passed_over r preferred i =
      let source = source_of r i in
      elim (lookup source.provider preferred) [
        | none ↦ false
        | some account ↦ not (source.account_id == "") && not (account == source.account_id)
      ]

  unfoldable pub group_of : Router F → Query F → CompiledGroup F
  group_of r q = or_else (lookup (group_key q) r.groups) no_group

  unfoldable pub candidates_of : Router F → Query F → List ℕ
  candidates_of r q = or_else (lookup (group_key q) r.candidates) []

  -- `value` of a target, by the group's type.
  unfoldable pub value_of : System F → Router F → CompiledGroup F → ℕ → F
  unfolding source_of state_of
  value_of sys r g i =
      let st = state_of sys r i in
      let source = source_of r i in
      let load = fl.div (fl.of_int (pos st.active)) (fl.of_int source.max_inflight) in
      if g.type == "weighted"
      then st.virtual_finish
      else if g.type == "fallback" || g.type == "select"
      then fl.of_int (pos (or_else (lookup source.id g.members) 0))
      else if g.type == "latency"
      then st.latency
      else if g.type == "auto"
      then fl.add load (fl.div st.latency (fl.decimal 1000000 0))
      else load

  -- `best < 0 || preference < 0 || (preference == 0 && value < score)`.
  unfoldable pub beats : Option ℕ → Ordering → F → F → Bool
  beats none preference value score = true
  beats (some b) Ordering.lt value score = true
  beats (some b) Ordering.eq value score = fl.lt value score
  beats (some b) Ordering.gt value score = false

  -- The end of a round, for a candidate that has capacity.
  unfoldable pub consider : System F → Router F → CompiledGroup F → ℕ → Best F → Round F
  unfolding beats value_of target_of
  consider sys r g idx b =
      let value = value_of sys r g (target_of r idx).source in
      let preference = compare_preferences sys r idx b.best g.preferences in
      if beats b.best preference value b.score
      then (if fl.eq value zero_f && is_empty g.preferences
          then stop (some idx) b.eligible
          else go (record b { best = some idx; score = value }))
      else go b

  unfoldable pub round :
      System F
      → Router F
      → Query F
      → CompiledGroup F
      → List (String × String)
      → ℕ
      → ℕ
      → Best F
      → Round F
  unfolding saturated passed_over target_of
  round sys r q g preferred now idx b =
      let t = target_of r idx in
      let b' = record b { eligible = true } in
      elim (eligible sys r t q) [
        | some reason ↦ go b
        | none ↦
            if saturated sys r
            then stop none true
            else if passed_over r preferred t.source
            then go b'
            else if account_full sys r t.source
            then go b'
            else if busy sys r t.source now
            then go b'
            else consider sys r g idx b'
      ]

  -- On to the next round, unless this one ends the loop.
  abbrev pub proceed : Round F → (Best F → Option ℕ × Bool) → Option ℕ × Bool
  proceed (stop result e) next = (result, e)
  proceed (go b) next = next b

  unfoldable pub scan :
      System F
      → Router F
      → Query F
      → CompiledGroup F
      → List (String × String)
      → ℕ
      → List ℕ
      → Best F
      → Option ℕ × Bool
  unfolding round
  scan sys r q g preferred now [] b = (b.best, b.eligible)
  scan sys r q g preferred now (idx ∷ rest) b =
      proceed (round sys r q g preferred now idx b) (scan sys r q g preferred now rest)

  abbrev pub start : Best F
  start = record { best = none; score = fl.inf; eligible = false }

module _ {F : Type 0} ⦃fl : Float64 F⦄ ⦃sha : Sha256⦄ where
  -- `preferred`, nil unless the router has pools and the group's type leaves the order to them.
  unfoldable pub preferred_of : System F → Router F → Query F → ℕ → List (String × String)
  unfolding group_of candidates_of
  preferred_of sys r q now =
      let type = (group_of r q).type in
      if r.has_pools
        && (not (type == "fallback") && (not (type == "select") && not (type == "weighted")))
      then pool_preferences sys r q (candidates_of r q) now
      else []

  unfoldable pub choose : System F → Router F → Query F → ℕ → Option ℕ × Bool
  unfolding group_of candidates_of preferred_of scan visit
  choose sys r q now =
      let cs = candidates_of r q in
      if r.retired
      then (none, false)
      else scan sys r q (group_of r q) (preferred_of sys r q now) now
          (visit 0 (length cs) (r.cursor % length cs) cs) start
