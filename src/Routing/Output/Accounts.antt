-- ===== src/Routing/Output/Accounts.antt =====
-- internal/routing/output.go: the accounts of a source's executions.
use clash_of_tokens.Base.{
  ℕ, ◌≡◌, refl, sym, subst, inl, inr, true, Option, none, some, if◌then◌else◌, eqb, ◌+◌, ◌≤◌, ◌<◌,
  ◌^◌, arith, if_true, if_false, Bool-cases, eqb_iff, ◌↔◌,
}
use clash_of_tokens.Base.Float.{Float64}
use clash_of_tokens.Protocol.Result.{ExecutionResult, redacted}
use clash_of_tokens.Routing.Types.{State, System, Lease}
use clash_of_tokens.Routing.Output.{
  is_first, price_of, counted, priced, marked_known, account_for, record_execution,
}

module _ {F : Type 0} where
  -- Two states with the same counters, prices and health.
  pub record SameAccounts (s t : State F) : Type 0 where
    pub input : s.input_tokens ≡ t.input_tokens
    pub output : s.output_tokens ≡ t.output_tokens
    pub total : s.total_tokens ≡ t.total_tokens
    pub executions : s.executions ≡ t.executions
    pub priced : s.priced_executions ≡ t.priced_executions
    pub cost : s.estimated_cost ≡ t.estimated_cost
    pub known : s.cost_known ≡ t.cost_known
    pub active : s.active ≡ t.active

  -- No more executions are priced than there are, and the cost is known when all of them are.
  pub record Accounted (st : State F) : Type 0 where
    pub fewer : st.priced_executions ≤ st.executions
    pub known :
        (st.cost_known ≡ true) ↔ ((0 < st.executions) × (st.priced_executions ≡ st.executions))

module _ {F : Type 0} ⦃fl : Float64 F⦄ where
  -- A second result of a lease replaces the one that the lease and its source show, redacted, and
  -- leaves every account of every source as the first left it.
  pub record_execution_again :
      (a b : ExecutionResult) (l : Lease F) (sys : System F) (addr : ℕ)
      → let (l1, s1) = record_execution a l sys in
        let (l2, s2) = record_execution b l1 s1 in
        SameAccounts (s2.state_at addr) (s1.state_at addr)
        × (l2.execution ≡ some (redacted b))
        × ((s2.state_at l.state).last_execution ≡ some (redacted b))
  unfolding record_execution
  record_execution_again a b l sys addr = (
    record {
      input = ground arith;
      output = ground arith;
      total = ground arith;
      executions = ground arith;
      priced = ground arith;
      cost = ground arith;
      known = ground arith;
      active = ground arith;
    },
    refl,
    ground arith,
  )

  priced-Accounted :
      (o : Option F) (r : ExecutionResult) (st : State F)
      → Accounted st
      → st.executions + 1 < 2 ^ 64
      → Accounted (marked_known (priced o (counted r st)))
  priced-Accounted none r st h small = record {
    fewer = omega (arith, h.fewer);
    known = ground arith;
  }
  priced-Accounted (some c) r st h small = record {
    fewer = omega (arith, h.fewer);
    known = ground arith;
  }

  -- Recording a result keeps a source's accounts: no more executions are priced than counted, and
  -- the cost is known exactly when there are executions and all of them are priced. While their
  -- number stays below 2^64.
  pub record_execution-Accounted :
      (r : ExecutionResult) (l : Lease F) (sys : System F) (addr : ℕ)
      → Accounted (sys.state_at addr)
      → (sys.state_at addr).executions + 1 < 2 ^ 64
      → Accounted ((record_execution r l sys).1.state_at addr)
  unfolding record_execution account_for
  record_execution-Accounted r l sys addr h small = elim (Bool-cases (eqb l.state addr)) [
    | inl e ↦
        subst {A = State F} Accounted (sym (if_true (eqb l.state addr) _ (sys.state_at addr) e))
          (here l.execution ((eqb_iff l.state addr).0 e))
    | inr e ↦
        subst {A = State F} Accounted (sym (if_false (eqb l.state addr) _ (sys.state_at addr) e)) h
  ]
    where
      here :
          (o : Option ExecutionResult)
          → l.state ≡ addr
          → Accounted
              (record (if is_first o
                then account_for l.target.model (redacted r) (sys.state_at l.state)
                else sys.state_at l.state) { last_execution = some (redacted r) })
      here none e =
          let st = sys.state_at l.state in
          let k =
            priced-Accounted (price_of l.target.model (redacted r)) (redacted r) st
              (subst (λ x. Accounted (sys.state_at x)) (sym e) h)
              (subst (λ x. (sys.state_at x).executions + 1 < 2 ^ 64) (sym e) small) in
          record { fewer = k.fewer; known = k.known }
      here (some x) e =
          let k = subst (λ x. Accounted (sys.state_at x)) (sym e) h in
          record { fewer = k.fewer; known = k.known }
