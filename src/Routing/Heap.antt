-- ===== src/Routing/Heap.antt =====
-- Writes through the pointers of internal/routing: one object of the heap changes.
use clash_of_tokens.Base.{ℕ, Option, none, some, update}
use clash_of_tokens.Routing.Types.{State, Quota, Router, Capacity, System}

module _ {F : Type 0} where
  abbrev pub modify_state : ℕ → (State F → State F) → System F → System F
  modify_state a f sys = record sys { state_at = update sys.state_at a (f (sys.state_at a)) }

  abbrev pub modify_quota : ℕ → (Quota F → Quota F) → System F → System F
  modify_quota a f sys = record sys { quota_at = update sys.quota_at a (f (sys.quota_at a)) }

  -- A nil pointer is left alone.
  abbrev pub modify_account : Option ℕ → (Quota F → Quota F) → System F → System F
  modify_account none f sys = sys
  modify_account (some a) f sys = modify_quota a f sys

  abbrev pub modify_router : ℕ → (Router F → Router F) → System F → System F
  modify_router ρ f sys = record sys { router_at = update sys.router_at ρ (f (sys.router_at ρ)) }

  abbrev pub modify_capacity : (Capacity F → Capacity F) → System F → System F
  modify_capacity f sys = record sys { capacity = f sys.capacity }
