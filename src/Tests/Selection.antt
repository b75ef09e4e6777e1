-- ===== src/Tests/Selection.antt =====
-- Witnesses: eligibility, the choice, and the simulator on the small configuration.
use clash_of_tokens.Base.{
  inr, ℕ, ◌≡◌, ◌↔◌, refl, inl, true, false, [], none, some, arith, In, lookup,
}
use clash_of_tokens.Base.Float.{milli, milli-StrictOrder}
use clash_of_tokens.Routing.Types.{target_of}
use clash_of_tokens.Routing.Eligible.{eligible, group_key}
use clash_of_tokens.Routing.Eligible.Policy.{
  eligible-group, eligible-explicit, Serves, NamesTier, Admits, Named,
}
use clash_of_tokens.Routing.Choose.{choose, candidates_of, group_of, preferred_of, passed_over}
use clash_of_tokens.Routing.Choose.Sound.{choose-runs, choose_complete, choose-eligible, MayRun}
use clash_of_tokens.Routing.Choose.Optimal.{choose-least, value}
use clash_of_tokens.Routing.Explain.{simulate, target_id, explain_reason, eligible_now}
use clash_of_tokens.Routing.Explain.Agree.{explain-agrees, simulate-selected}
use clash_of_tokens.Tests.Run.{everything}
use clash_of_tokens.Tests.Data.{query, fresh, flat_digest, by_name, first_router}

chosen : (choose fresh first_router query 5).0 ≡ some 0
unfolding everything
chosen = refl

runs_now : MayRun fresh first_router query 5 0
unfolding everything
runs_now = record {
  admitted = refl;
  room = refl;
  own_turn = refl;
  account_room = refl;
  idle = refl;
}

a_candidate : In 0 (candidates_of first_router query)
unfolding everything
a_candidate = inl refl

choose-runs_example :
    (first_router.retired ≡ false)
    × In 0 (candidates_of first_router query)
    × MayRun fresh first_router query 5 0
    × ((choose fresh first_router query 5).1 ≡ true)
choose-runs_example = choose-runs fresh first_router query 5 0 chosen

not_retired : first_router.retired ≡ false
unfolding everything
not_retired = refl

choose_complete_example : (j : ℕ) × ((choose fresh first_router query 5).0 ≡ some j)
choose_complete_example =
    choose_complete fresh first_router query 5 not_retired 0 a_candidate runs_now

choose-eligible_example : ((choose fresh first_router query 5).1 ≡ true) ↔ (
    (first_router.retired ≡ false)
    × ((i : ℕ) × In i (candidates_of first_router query)
        × (eligible fresh first_router (target_of first_router i) query ≡ none)))
choose-eligible_example = choose-eligible fresh first_router query 5

plain_group : (group_of first_router query).preferences ≡ []
unfolding everything
plain_group = refl

beta_too : MayRun fresh first_router query 5 1
unfolding everything
beta_too = record {
  admitted = refl;
  room = refl;
  own_turn = refl;
  account_room = refl;
  idle = refl;
}

another_candidate : In 1 (candidates_of first_router query)
unfolding everything
another_candidate = inr (inl refl)

choose-least_example :
    milli.lt (value fresh first_router query 5 1) (value fresh first_router query 5 0) ≡ false
choose-least_example =
    choose-least fresh first_router query 5 milli-StrictOrder plain_group
      (λ x m r. (ground arith, refl)) 0 chosen 1 another_candidate beta_too

named_group : lookup (group_key query) first_router.groups ≡ some (group_of first_router query)
unfolding everything
named_group = refl

eligible-group_example : (eligible fresh first_router (target_of first_router 0) query ≡ none) ↔ (
    Serves fresh first_router (target_of first_router 0) query
    × (NamesTier query
        × Admits first_router (target_of first_router 0) query (group_of first_router query)))
eligible-group_example =
    eligible-group fresh first_router (target_of first_router 0) query (group_of first_router query)
      named_group

no_named_group : lookup (group_key by_name) first_router.groups ≡ none
unfolding everything
no_named_group = refl

eligible-explicit_example :
    (eligible fresh first_router (target_of first_router 0) by_name ≡ none) ↔ (
      Serves fresh first_router (target_of first_router 0) by_name
      × (NamesTier by_name × Named first_router (target_of first_router 0) by_name))
eligible-explicit_example =
    eligible-explicit fresh first_router (target_of first_router 0) by_name no_named_group

explain-agrees_example :
    ((i : ℕ)
      → (choose fresh first_router query 5).0 ≡ some i
      → explain_reason fresh first_router (target_of first_router i) query 5 ≡ eligible_now)
    × ((i : ℕ)
        → first_router.retired ≡ false
        → In i (candidates_of first_router query)
        → explain_reason fresh first_router (target_of first_router i) query 5 ≡ eligible_now
        → passed_over first_router
            (preferred_of fresh first_router query 5)
            (target_of first_router i).source
          ≡ false
        → (j : ℕ) × ((choose fresh first_router query 5).0 ≡ some j))
explain-agrees_example = explain-agrees fresh first_router query 5

simulate-selected_example :
    (simulate fresh first_router query 5).selected
    ≡ (elim (choose fresh first_router query 5).0 [ none ↦ "" | some i ↦ target_id first_router i ])
simulate-selected_example = simulate-selected fresh first_router query 5
