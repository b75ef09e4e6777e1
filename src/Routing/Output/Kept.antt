-- ===== src/Routing/Output/Kept.antt =====
-- internal/routing/output.go: the slots in use while a lease's holder records what it has.
use clash_of_tokens.Base.{ℕ, ◌≡◌, refl, List, [], ◌∷◌, ◌++◌, arith, length}
use clash_of_tokens.Base.Float.{Float64}
use clash_of_tokens.Protocol.Result.{ExecutionResult}
use clash_of_tokens.Routing.Types.{System, Lease}
use clash_of_tokens.Routing.Acquire.Held.{Held, in_state, in_quota}
use clash_of_tokens.Routing.Output.{account_for, record_execution, first_output}

module _ {F : Type 0} where
  -- Two leases of the same slots.
  pub record SameSlots (l k : Lease F) : Type 0 where
    pub state : k.state ≡ l.state
    pub quota : k.quota ≡ l.quota
    pub account : k.account ≡ l.account
    pub once : k.once ≡ l.once

  swap-length :
      (xs ys : List (Lease F)) (l k : Lease F) → length (xs ++ k ∷ ys) ≡ length (xs ++ l ∷ ys)
  swap-length [] ys l k = refl
  swap-length (x ∷ xs) ys l k = omega (arith, swap-length xs ys l k)

  swap-state :
      (a : ℕ) (xs ys : List (Lease F)) (l k : Lease F)
      → SameSlots l k
      → in_state a (xs ++ k ∷ ys) ≡ in_state a (xs ++ l ∷ ys)
  swap-state a [] ys l k s = ground (arith, s.state)
  swap-state a (x ∷ xs) ys l k s = omega (arith, swap-state a xs ys l k s)

  swap-quota :
      (a : ℕ) (xs ys : List (Lease F)) (l k : Lease F)
      → SameSlots l k
      → in_quota a (xs ++ k ∷ ys) ≡ in_quota a (xs ++ l ∷ ys)
  swap-quota a [] ys l k s = ground (arith, s.quota, s.account)
  swap-quota a (x ∷ xs) ys l k s = omega (arith, swap-quota a xs ys l k s)

  pub swap-Held :
      (sys : System F) (xs ys : List (Lease F)) (l k : Lease F)
      → SameSlots l k
      → Held sys (xs ++ l ∷ ys)
      → Held sys (xs ++ k ∷ ys)
  swap-Held sys xs ys l k s h = record {
    total = omega (arith, h.total, swap-length xs ys l k);
    states = λ a. omega (arith, h.states a, swap-state a xs ys l k s);
    quotas = λ a. omega (arith, h.quotas a, swap-quota a xs ys l k s);
  }

module _ {F : Type 0} ⦃fl : Float64 F⦄ where
  pub record_execution-Held :
      (r : ExecutionResult) (l : Lease F) (sys : System F) (ls : List (Lease F))
      → Held sys ls
      → Held (record_execution r l sys).1 ls
  unfolding record_execution account_for
  record_execution-Held r l sys ls h = record {
    total = h.total;
    states = λ a. ground (arith, h.states a);
    quotas = h.quotas;
  }

  pub record_execution-SameSlots :
      (r : ExecutionResult) (l : Lease F) (sys : System F)
      → SameSlots l (record_execution r l sys).0
  unfolding record_execution
  record_execution-SameSlots r l sys = record {
    state = refl;
    quota = refl;
    account = refl;
    once = refl;
  }

  pub first_output-Held :
      (now : ℕ) (l : Lease F) (sys : System F) (ls : List (Lease F))
      → Held sys ls
      → Held (first_output now l sys).1 ls
  unfolding first_output
  first_output-Held now l sys ls h = record {
    total = ground (arith, h.total);
    states = λ a. ground (arith, h.states a);
    quotas = λ a. ground (arith, h.quotas a);
  }

  pub first_output-SameSlots :
      (now : ℕ) (l : Lease F) (sys : System F) → SameSlots l (first_output now l sys).0
  unfolding first_output
  first_output-SameSlots now l sys = record {
    state = ground arith;
    quota = ground arith;
    account = ground arith;
    once = ground arith;
  }
