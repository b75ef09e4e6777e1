-- ===== src/Tests/Retries.antt =====
-- Witnesses: a request that the first source rejects with a 429 and that is tried again.
use clash_of_tokens.Base.{ℕ, ◌≡◌, ◌≢◌, refl, [], ◌∷◌, some}
use clash_of_tokens.Base.Int.{pos}
use clash_of_tokens.Base.Float.{milli}
use clash_of_tokens.Config.{Config}
use clash_of_tokens.Routing.Types.{Query, System, source_of, target_of}
use clash_of_tokens.Routing.Eligible.{estimated_request_cost}
use clash_of_tokens.Routing.Choose.{choose}
use clash_of_tokens.Routing.Release.{release}
use clash_of_tokens.Api.Attempts.{responded, Next, again, spend, exclude, answered}
use clash_of_tokens.Api.Attempts.Retries.{Retry, tried, answered-Retry, retry_elsewhere}
use clash_of_tokens.Tests.Run.{everything}
use clash_of_tokens.Tests.Data.{
  config, auto_group, gold, query, fresh, flat_digest, first_router, going_on, ticks, first_lease,
  served,
}

abbrev twice : Config ℕ
twice = record config { groups = record auto_group { max_attempts = pos 2 } ∷ [] }

abbrev second_query : Query ℕ
second_query =
    exclude "alpha" (spend (responded (pos 429) (pos 0)) (estimated_request_cost gold query) query)

abbrev let_go : System ℕ
let_go = (release going_on ticks (pos 429) (pos 0) first_lease served).1

tried_again :
    ◌≡◌ {A = Next ℕ × System ℕ}
      (answered going_on ticks twice 1 query 0 first_lease (responded (pos 429) (pos 0)) served)
      (again second_query 1, let_go)
unfolding everything
tried_again = refl

answered-Retry_example :
    Retry going_on ticks twice 1 query 0 first_lease
      (responded (pos 429) (pos 0))
      served
      second_query
      1
      let_go
answered-Retry_example =
    answered-Retry going_on ticks twice 1 query 0 first_lease (responded (pos 429) (pos 0)) served
      second_query 1 let_go tried_again

then_beta : (choose fresh first_router second_query 9).0 ≡ some 1
unfolding everything
then_beta = refl

retry_elsewhere_example :
    (source_of first_router (target_of first_router 1).source).id
    ≢ (tried going_on ticks twice 1 query 0 first_lease (responded (pos 429) (pos 0)) served).id
retry_elsewhere_example =
    retry_elsewhere going_on ticks twice 1 query 0 first_lease (responded (pos 429) (pos 0)) served
      second_query 1 let_go tried_again fresh first_router 9 1 then_beta
