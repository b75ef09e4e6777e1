-- ===== src/Routing/Output.antt =====
-- internal/routing/output.go: RecordExecution and FirstOutput, which a lease's holder calls while
-- the request runs.
pub mod Accounts
pub mod Kept
use clash_of_tokens.Base.{
  ℕ, Bool, true, false, ◌&&◌, ◌||◌, Option, none, some, if◌then◌else◌, ltb, eqb, ◌+◌, ◌-◌, ◌≡◌, ◌≤◌,
}
use clash_of_tokens.Base.Int.{ℤ, pos, pos_part}
use clash_of_tokens.Base.Float.{Float64, zero_f}
use clash_of_tokens.Config.{Model}
use clash_of_tokens.Protocol.Result.{ExecutionResult, redacted}
use clash_of_tokens.Routing.Types.{State, System, Lease, u64}
use clash_of_tokens.Routing.Heap.{modify_state}
use clash_of_tokens.Routing.Events.{micro_ms}

-- `total`, where the result gives none but has tokens; maxInt64(n, 0) is `pos_part`.
unfoldable pub total_of : ExecutionResult → ℕ
total_of r =
    let total = pos_part r.total_tokens in
    if eqb total 0 && (ltb 0 (pos_part r.input_tokens) || ltb 0 (pos_part r.output_tokens))
    then pos_part r.input_tokens + pos_part r.output_tokens
    else total

abbrev pub is_first : Option ExecutionResult → Bool
is_first none = true
is_first (some r) = false

module _ {F : Type 0} ⦃fl : Float64 F⦄ where
  -- The cost of a result at a model's rates.
  abbrev pub execution_cost : ExecutionResult → F → F → F
  execution_cost r i o =
      fl.add (fl.mul (fl.div (fl.of_int (pos (pos_part r.input_tokens))) (fl.decimal 1000000 0)) i)
        (fl.mul (fl.div (fl.of_int (pos (pos_part r.output_tokens))) (fl.decimal 1000000 0)) o)

  unfoldable pub price_of : Model F → ExecutionResult → Option F
  price_of m r = elim m.input_usd_per_million [
    | none ↦ none
    | some i ↦ elim m.output_usd_per_million [
      | none ↦ none
      | some o ↦ if r.usage_known then some (execution_cost r i o) else none
    ]
  ]

  abbrev pub counted : ExecutionResult → State F → State F
  counted r st = record st {
    input_tokens = u64 (st.input_tokens + pos_part r.input_tokens);
    output_tokens = u64 (st.output_tokens + pos_part r.output_tokens);
    total_tokens = u64 (st.total_tokens + total_of r);
    executions = u64 (st.executions + 1);
  }

  abbrev pub priced : Option F → State F → State F
  priced none st = st
  priced (some cost) st = record st {
    priced_executions = u64 (st.priced_executions + 1);
    estimated_cost = fl.add st.estimated_cost cost;
  }

  abbrev pub marked_known : State F → State F
  marked_known st = record st {
    cost_known = ltb 0 st.executions && eqb st.priced_executions st.executions;
  }

  -- The body of the `if`, for the first result of a lease.
  unfoldable pub account_for : Model F → ExecutionResult → State F → State F
  unfolding total_of price_of
  account_for m r st = marked_known (priced (price_of m r) (counted r st))

  unfoldable pub record_execution : ExecutionResult → Lease F → System F → Lease F × System F
  unfolding account_for
  record_execution result l sys =
      let r = redacted result in
      (
        record l { execution = some r },
        modify_state l.state
            (λ st. record (if is_first l.execution then account_for l.target.model r st else st) {
              last_execution = some r;
            })
            sys,
      )

  -- FirstOutput, at a reading of the time.
  unfoldable pub first_output : ℕ → Lease F → System F → Lease F × System F
  first_output now l sys =
      if l.first_output
      then (l, sys)
      else (let ms = micro_ms (now - l.started) in
          (
            record l { first_output = true; ttft_ms = ms },
            modify_state l.state
                (λ st. record st {
                  ttft_ms =
                      (if fl.eq st.ttft_ms zero_f
                        then ms
                        else fl.add (fl.mul st.ttft_ms (fl.decimal 8 1))
                            (fl.mul ms (fl.decimal 2 1)));
                })
                sys,
          ))
