-- ===== src/Tests/Leases.antt =====
-- Witnesses: a request that is granted on the small configuration, the lease released, and the
-- configuration adopted anew.
use clash_of_tokens.Base.{
  lookup, get_elem?, length, ◌≡◌, ◌≢◌, ◌↔◌, refl, inl, true, false, [], ◌∷◌, none, some, arith, ◌<◌,
  ◌+◌,
}
use clash_of_tokens.Base.Int.{pos}
use clash_of_tokens.Base.Float.{milli}
use clash_of_tokens.Routing.Types.{quota_of, target_of, state_addr, quota_addr}
use clash_of_tokens.Routing.Compile.{new}
use clash_of_tokens.Routing.Eligible.{eligible}
use clash_of_tokens.Routing.Pools.{busy}
use clash_of_tokens.Routing.Choose.{choose}
use clash_of_tokens.Routing.Queue.{turn, is_id}
use clash_of_tokens.Routing.Queue.Fair.{AllLetPass, ahead, turn_iff}
use clash_of_tokens.Routing.Acquire.{grant, attempt, acquire}
use clash_of_tokens.Routing.Acquire.Held.{Held}
use clash_of_tokens.Routing.Acquire.Waiting.{AllQueued, acquire-Queued}
use clash_of_tokens.Routing.Acquire.Limits.{Separate, Limited, grant-Limited}
use clash_of_tokens.Routing.Acquire.Policy.{Decides, attempt-Decides}
use clash_of_tokens.Routing.Compile.Apart.{new-Separate}
use clash_of_tokens.Routing.Release.{release}
use clash_of_tokens.Routing.Release.Once.{
  release-Held, release_again, release_blocks, release_cools, by_default,
}
use clash_of_tokens.Routing.Adopt.{adopt}
use clash_of_tokens.Routing.Adopt.Shares.{adopt_shares}
use clash_of_tokens.Routing.Adopt.Keeps.{adopt-Held}
use clash_of_tokens.Routing.Traces.{Reaches, starts, acquires, Reaches-conserves}
use clash_of_tokens.Tests.Run.{everything}
use clash_of_tokens.Tests.Data.{
  alpha, config, query, fresh, flat_digest, first_router, going_on, ticks, first_lease, served,
}

chosen_first : (choose fresh (fresh.router_at 0) query 5).0 ≡ some 0
unfolding everything
chosen_first = refl

one_grant : Reaches fresh served (first_lease ∷ [])
unfolding everything
one_grant = acquires fresh [] going_on ticks 6 0 query 1 none starts

Reaches-conserves_example : Held served (first_lease ∷ [])
unfolding new
Reaches-conserves_example = Reaches-conserves config served (first_lease ∷ []) one_grant

apart : Separate first_router
unfolding new
apart = new-Separate config (omega arith)

grant-Limited_example :
    Limited fresh first_router (target_of first_router 0).source (grant 0 0 query 5 fresh).1
grant-Limited_example = grant-Limited fresh 0 query 5 0 apart chosen_first

attempt-Decides_example :
    Decides going_on ticks 0 query 1 none fresh (attempt going_on ticks 0 query 1 none fresh)
attempt-Decides_example = attempt-Decides going_on ticks 0 query 1 none fresh

served_counts : Held served (first_lease ∷ [])
unfolding new
served_counts = Reaches-conserves config served (first_lease ∷ []) one_grant

still_open : first_lease.once ≡ false
unfolding everything
still_open = refl

release-Held_example : Held (release going_on ticks (pos 200) (pos 0) first_lease served).1 []
release-Held_example =
    release-Held going_on ticks (pos 200) (pos 0) [] [] first_lease served still_open served_counts

adopt-Held_example : Held (adopt going_on 9 0 first_router served) (first_lease ∷ [])
adopt-Held_example = adopt-Held going_on 9 0 first_router served (first_lease ∷ []) served_counts

release_again_example :
    let released = (release going_on ticks (pos 429) (pos 0) first_lease served).0 in
    release going_on ticks (pos 500) (pos 3) released fresh ≡ (released, fresh)
release_again_example =
    release_again going_on ticks (pos 429) (pos 0) going_on ticks (pos 500) (pos 3) first_lease
      served fresh

same_state : state_addr first_router (target_of first_router 0).source ≡ first_lease.state
unfolding everything
same_state = refl

release_blocks_example :
    eligible
      (release going_on ticks (pos 401) (pos 0) first_lease served).1
      first_router
      (target_of first_router 0)
      query
    ≢ none
release_blocks_example =
    release_blocks going_on ticks (pos 401) (pos 0) first_lease served first_router
      (target_of first_router 0) query still_open (inl refl) same_state refl

same_quota : quota_addr first_router 1 ≡ first_lease.quota
unfolding everything
same_quota = refl

cooling : 1000 < ticks 2 + 30000000000
unfolding everything
cooling = omega arith

release_cools_example :
    let after = (release going_on ticks (pos 429) (pos 0) first_lease served).1 in
    ((quota_of after first_router 1).cooldown ≡ ticks 2 + 30000000000)
    × (busy after first_router 1 1000 ≡ true)
release_cools_example =
    release_cools going_on ticks (pos 429) (pos 0) first_lease served first_router 1 1000
      30000000000 still_open refl same_quota (by_default (omega arith)) cooling

turn_iff_example :
    (turn served first_router going_on ticks none ≡ true)
    ↔ AllLetPass served first_router going_on ticks 1
        (ahead (λ w. is_id none w.id) first_router.waiters)
turn_iff_example = turn_iff served first_router going_on ticks none

known_alpha : lookup alpha.id served.source_states ≡ some 0
unfolding everything
known_alpha = refl

alpha_first : get_elem? first_router.cfg.sources 0 ≡ some alpha
unfolding everything
alpha_first = refl

two_states : 0 < length first_router.state
unfolding everything
two_states = omega arith

two_quotas : 0 < length first_router.quotas
unfolding everything
two_quotas = omega arith

adopt_shares_example :
    (lookup alpha.id served.source_states ≡ some 0
      → state_addr ((adopt going_on 9 0 first_router served).router_at served.next_router) 0 ≡ 0)
    × (lookup alpha.quota_domain served.quota_states ≡ some 0
        → quota_addr ((adopt going_on 9 0 first_router served).router_at served.next_router) 0 ≡ 0)
adopt_shares_example =
    adopt_shares going_on 9 0 first_router served 0 alpha 0 alpha_first two_states two_quotas

none_waiting : AllQueued served
unfolding everything
none_waiting ρ = record { counted = ground arith; bounded = ground arith }

acquire-Queued_example : AllQueued (acquire going_on ticks 9 0 query 1 none served).1
acquire-Queued_example = acquire-Queued going_on ticks 9 0 query 1 none served none_waiting
