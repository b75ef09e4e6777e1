-- ===== src/Tests/Routing.antt =====
-- Runs of the router on the small configuration.
use clash_of_tokens.Base.{◌≡◌, refl, true, none, some}
use clash_of_tokens.Routing.Types.{target_of}
use clash_of_tokens.Routing.Choose.{choose}
use clash_of_tokens.Routing.Eligible.{eligible}
use clash_of_tokens.Tests.Run.{everything}
use clash_of_tokens.Tests.Data.{query, fresh, flat_digest}
use clash_of_tokens.Base.Float.{milli}

eligible_run : eligible fresh (fresh.router_at 0) (target_of (fresh.router_at 0) 0) query ≡ none
unfolding everything
eligible_run = refl

choose_run : (choose fresh (fresh.router_at 0) query 5) ≡ (some 0, true)
unfolding everything
choose_run = refl
