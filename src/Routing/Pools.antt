-- ===== src/Routing/Pools.antt =====
-- internal/routing/pools.go: the account that each provider's pool would use.
use clash_of_tokens.Base.{
  ℕ, String, Bool, true, false, not, ◌&&◌, ◌||◌, List, [], ◌∷◌, Option, none, some, ◌==◌, ◌-◌, ◌^◌,
  ltb, if◌then◌else◌, lookup, insert, get_or, map,
}
use clash_of_tokens.Base.Int.{pos, leb_ℤ}
use clash_of_tokens.Base.Float.{Float64, zero_f}
use clash_of_tokens.Routing.Types.{
  Quota, Query, Router, System, source_of, target_of, state_of, quota_of, account_addr,
}
use clash_of_tokens.Routing.Eligible.{eligible, is_some}

-- The first eight bytes, as a number, of the SHA-256 sum of a query's affinity, a zero byte and an
-- account's id.
pub record Sha256 : Type 0 where
  pub affinity_digest : String → String → ℕ

pub record Preference (F : Type 0) : Type 0 where
  pub id : String
  pub score : F
  pub last : ℕ

module _ {F : Type 0} ⦃fl : Float64 F⦄ where
  -- The capacity test that pools and choose share.
  unfoldable pub busy : System F → Router F → ℕ → ℕ → Bool
  unfolding source_of state_of quota_of
  busy sys r i now =
      let st = state_of sys r i in
      let quota = quota_of sys r i in
      leb_ℤ (source_of r i).max_inflight (pos st.active)
      || (leb_ℤ quota.limit (pos quota.active) || (ltb now st.cooldown || ltb now quota.cooldown))

  -- `a.active >= a.limit`.
  unfoldable pub full : Quota F → Bool
  full a = leb_ℤ a.limit (pos a.active)

  unfoldable pub account_full : System F → Router F → ℕ → Bool
  unfolding full account_addr
  account_full sys r i = elim (account_addr r i) [ none ↦ false | some a ↦ full (sys.quota_at a) ]

module _ {F : Type 0} ⦃fl : Float64 F⦄ ⦃sha : Sha256⦄ where
  unfoldable pub pool_score : Router F → Quota F → Query F → ℕ → F
  unfolding source_of
  pool_score r a q i =
      let strategy = get_or r.pool_strategies i "" in
      if strategy == "weighted"
      then a.virtual_finish
      else if strategy == "least-load"
      then fl.div (fl.of_int (pos a.active)) (fl.of_int a.limit)
      else if strategy == "sticky" && not (q.affinity == "")
      then fl.div (fl.of_int (pos (sha.affinity_digest q.affinity (source_of r i).account_id)))
          (fl.of_int (pos (2 ^ 64 - 1)))
      else zero_f

  -- `!exists || score < old.score || (score == old.score && a.lastDispatch < old.last)`.
  unfoldable pub improves : F → ℕ → Option (Preference F) → Bool
  improves score last none = true
  improves score last (some old) =
      fl.lt score old.score || (fl.eq score old.score && ltb last old.last)

  -- One round of the loop, for a candidate with the account at an address.
  unfoldable pub pool_round :
      System F
      → Router F
      → Query F
      → ℕ
      → ℕ
      → List (String × Preference F)
      → List (String × Preference F)
  unfolding source_of target_of account_addr
  pool_round sys r q now index best =
      let t = target_of r index in
      let source = source_of r t.source in
      elim (account_addr r t.source) [
        | none ↦ best
        | some addr ↦
            let a = sys.quota_at addr in
            let score = pool_score r a q t.source in
            if is_some (eligible sys r t q) || (full a || busy sys r t.source now)
            then best
            else if improves score a.last_dispatch (lookup source.provider best)
            then insert source.provider
                (record { id = source.account_id; score = score; last = a.last_dispatch }) best
            else best
      ]

  unfoldable pub pool_loop :
      System F
      → Router F
      → Query F
      → ℕ
      → List ℕ
      → List (String × Preference F)
      → List (String × Preference F)
  unfolding pool_round
  pool_loop sys r q now [] best = best
  pool_loop sys r q now (index ∷ rest) best =
      pool_loop sys r q now rest (pool_round sys r q now index best)

  unfoldable pub pool_preferences :
      System F → Router F → Query F → List ℕ → ℕ → List (String × String)
  unfolding pool_loop
  pool_preferences sys r q candidates now =
      map (λ p. (p.0, p.1.id)) (pool_loop sys r q now candidates [])
