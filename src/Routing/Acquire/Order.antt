-- ===== src/Routing/Acquire/Order.antt =====
-- internal/routing/router.go: the branches of a round of Acquire, for proofs by cases.
use clash_of_tokens.Base.{
  ℕ, suc, ◌≡◌, refl, sym, subst, ap, ◌⊎◌, inl, inr, Bool, true, false, Option, none, some, arith,
  Bool-cases, if_true, if_false, length,
}
use clash_of_tokens.Base.Int.{pos, leb_ℤ, ◌≤ℤ◌}
use clash_of_tokens.Base.Float.{Float64}
use clash_of_tokens.Routing.Types.{Query, Router, System}
use clash_of_tokens.Routing.Pools.{Sha256}
use clash_of_tokens.Routing.Choose.{choose}
use clash_of_tokens.Routing.Queue.{turn}
use clash_of_tokens.Routing.Acquire.{
  context_error, unavailable, queue_full, Outcome, granted, failed, waits, grant, enqueue, settle,
  decide, attempt,
}

module _ {F : Type 0} ⦃fl : Float64 F⦄ ⦃sha : Sha256⦄ (canceled : ℕ → Bool) (clock : ℕ → ℕ) (ρ : ℕ)
    (q : Query F) (ctx : ℕ) (queued : Option ℕ) (sys : System F) where
  abbrev pub router : Router F
  router = sys.router_at ρ

  abbrev pub found : Option ℕ × Bool
  found = choose sys router q (clock 0)

  abbrev pub my_turn : Bool
  my_turn = turn sys router canceled clock queued

  -- When a grant reads the clock, after choose and the waiters that turn asks.
  abbrev pub dispatched : ℕ
  dispatched = clock (suc (length router.waiters))

  -- The ways a round of Acquire goes, each with what it takes and the state that it leaves.
  pub data Attempts : Outcome F × System F → Type 0 where
    over : canceled ctx ≡ true → Attempts (failed context_error, sys)
    grants :
        (idx : ℕ)
        → canceled ctx ≡ false
        → found.0 ≡ some idx
        → my_turn ≡ true
        → Attempts (granted (grant ρ idx q dispatched sys).0, (grant ρ idx q dispatched sys).1)
    gives_up : canceled ctx ≡ false → found.1 ≡ false → Attempts (failed unavailable, sys)
    stays :
        (id : ℕ)
        → queued ≡ some id
        → canceled ctx ≡ false
        → found.1 ≡ true
        → (found.0 ≡ none) ⊎ (my_turn ≡ false)
        → Attempts (waits id, sys)
    finds_full :
        queued ≡ none
        → canceled ctx ≡ false
        → found.1 ≡ true
        → (found.0 ≡ none) ⊎ (my_turn ≡ false)
        → router.cfg.runtime.max_queued ≤ℤ pos router.waiting
        → Attempts (failed queue_full, sys)
    queues :
        queued ≡ none
        → canceled ctx ≡ false
        → found.1 ≡ true
        → (found.0 ≡ none) ⊎ (my_turn ≡ false)
        → leb_ℤ router.cfg.runtime.max_queued (pos router.waiting) ≡ false
        → Attempts (waits sys.next_waiter, enqueue ρ q ctx sys)

  settle-Attempts :
      (o : Option ℕ) (b : Bool)
      → queued ≡ o
      → found.1 ≡ b
      → canceled ctx ≡ false
      → (found.0 ≡ none) ⊎ (my_turn ≡ false)
      → Attempts (settle ρ q ctx o b sys)
  unfolding settle
  settle-Attempts o false e k c h = gives_up c k
  settle-Attempts (some id) true e k c h = stays id e c k h
  settle-Attempts none true e k c h =
      elim (Bool-cases (leb_ℤ router.cfg.runtime.max_queued (pos router.waiting))) [
        | inl full ↦ rw full (finds_full e c k h (ground arith))
        | inr room ↦ rw room (queues e c k h room)
      ]

  decide-Attempts :
      (res : Option ℕ × Bool) (mine : Bool)
      → found ≡ res
      → my_turn ≡ mine
      → canceled ctx ≡ false
      → Attempts (decide ρ q ctx queued dispatched res mine sys)
  unfolding decide
  decide-Attempts (none, b) mine e m c =
      settle-Attempts queued b refl (ap (λ x. x.1) e) c (inl (ap (λ x. x.0) e))
  decide-Attempts (some idx, b) true e m c = grants idx c (ap (λ x. x.0) e) m
  decide-Attempts (some idx, b) false e m c =
      settle-Attempts queued b refl (ap (λ x. x.1) e) c (inr m)

  -- The branches of a round, for the proofs by cases.
  pub attempt-Attempts : Attempts (attempt canceled clock ρ q ctx queued sys)
  unfolding attempt
  attempt-Attempts = elim (Bool-cases (canceled ctx)) [
    | inl e ↦ subst Attempts (sym (if_true (canceled ctx) _ _ e)) (over e)
    | inr e ↦
        subst Attempts (sym (if_false (canceled ctx) _ _ e))
          (decide-Attempts found my_turn refl refl e)
  ]
