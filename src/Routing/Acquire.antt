-- ===== src/Routing/Acquire.antt =====
-- internal/routing/router.go: Acquire. Between two waits it runs under the lock, and one such run
-- is a step here: the first when the request comes in, the others when its waiter wakes, by a token,
-- the timer or a cancellation. `clock` numbers the readings of the time in a step, and `canceled`
-- tells which contexts have ended.
pub mod Held
pub mod Order
pub mod Line
pub mod Policy
pub mod Limits
pub mod Waiting
use clash_of_tokens.Base.{
  ℕ, zero, suc, ◌≡◌, refl, ◌⊎◌, inl, inr, Bool, true, false, not, ◌&&◌, ◌||◌, List, [], ◌∷◌, ◌++◌,
  Option, none, some, arith, ◌+◌, ◌-◌, eqb, if◌then◌else◌, get_or, length,
}
use clash_of_tokens.Base.Int.{ℤ, pos, leb_ℤ, max_ℤ}
use clash_of_tokens.Base.Float.{Float64, zero_f}
use clash_of_tokens.Routing.Types.{
  Target, State, Quota, Query, Waiter, Router, Capacity, System, Lease, u64, source_of, target_of,
  state_addr, quota_addr, account_addr,
}
use clash_of_tokens.Routing.Pools.{Sha256}
use clash_of_tokens.Routing.Choose.{choose}
use clash_of_tokens.Routing.Heap.{
  modify_state, modify_quota, modify_account, modify_router, modify_capacity,
}
use clash_of_tokens.Routing.Queue.{remove_waiter, signal, turn}

pub data Error : Type 0 where
  context_error unavailable queue_full : Error

-- How a step ends: Acquire returns, or its request waits under a waiter.
pub data Outcome (F : Type 0) : Type 0 where
  granted : Lease F → Outcome F
  failed : Error → Outcome F
  waits : ℕ → Outcome F

-- The sequence number that an account's grant takes; a source without one takes none.
abbrev next_dispatch : Option ℕ → ℕ → ℕ
next_dispatch none n = n
next_dispatch (some a) n = u64 (n + 1)

module _ {F : Type 0} ⦃fl : Float64 F⦄ where
  abbrev one_over : F → F
  one_over w = fl.div (fl.decimal 1 0) w

  abbrev state_granted : F → State F → State F
  state_granted w st = record st {
    active = st.active + 1;
    virtual_finish = fl.add st.virtual_finish (one_over w);
  }

  abbrev quota_granted : Quota F → Quota F
  quota_granted a = record a { active = a.active + 1 }

  abbrev account_granted : ℕ → F → Quota F → Quota F
  account_granted sequence w a = record a {
    active = a.active + 1;
    last_dispatch = sequence;
    virtual_finish = fl.add a.virtual_finish (one_over w);
  }

  -- The counters of the router, of a state, of a quota and of an account go up.
  unfoldable pub take_slots : ℕ → ℕ → ℕ → Option ℕ → F → F → System F → System F
  take_slots ρ state quota account weight account_weight sys =
      let sequence = next_dispatch account sys.dispatch_sequence in
      modify_router ρ (λ r. record r { cursor = u64 (r.cursor + 1) })
        (modify_account account (account_granted sequence account_weight) (
          modify_quota quota quota_granted (
            modify_state state (state_granted weight) (
              modify_capacity
                (λ c. record c { active = c.active + 1; dispatch_sequence = sequence }) sys))))

  -- The body of the first `if`: the slots are taken, and the lease holds what they stand in.
  unfoldable pub grant : ℕ → ℕ → Query F → ℕ → System F → Lease F × System F
  unfolding source_of target_of state_addr quota_addr account_addr
  grant ρ idx q now sys =
      let r = sys.router_at ρ in
      let t = target_of r idx in
      (
        record {
          protocol = q.protocol;
          probe = q.probe;
          execution = none;
          ttft_ms = zero_f;
          first_output = false;
          router = ρ;
          target = t;
          once = false;
          started = now;
          state = state_addr r t.source;
          quota = quota_addr r t.source;
          account = account_addr r t.source;
        },
        take_slots ρ (state_addr r t.source) (quota_addr r t.source) (account_addr r t.source)
            (fl.of_int (max_ℤ (pos 1) (source_of r t.source).weight))
            (get_or r.account_weights t.source zero_f) sys,
      )

  -- A new waiter at the end of the queue.
  unfoldable pub enqueue : ℕ → Query F → ℕ → System F → System F
  enqueue ρ q ctx sys =
      let id = sys.next_waiter in
      modify_router ρ
        (λ r. record r {
          waiting = r.waiting + 1;
          waiters = r.waiters ++ record { id = id; query = q; ctx = ctx; ready = false } ∷ [];
        })
        (record sys { next_waiter = id + 1 })

module _ {F : Type 0} ⦃fl : Float64 F⦄ ⦃sha : Sha256⦄ where
  -- Where no grant was made: give up, queue, or go on waiting.
  unfoldable pub settle : ℕ → Query F → ℕ → Option ℕ → Bool → System F → Outcome F × System F
  unfolding enqueue
  settle ρ q ctx queued false sys = (failed unavailable, sys)
  settle ρ q ctx (some id) true sys = (waits id, sys)
  settle ρ q ctx none true sys =
      let r = sys.router_at ρ in
      if leb_ℤ r.cfg.runtime.max_queued (pos r.waiting)
      then (failed queue_full, sys)
      else (waits sys.next_waiter, enqueue ρ q ctx sys)

  -- What choose and turn found.
  unfoldable pub decide :
      ℕ → Query F → ℕ → Option ℕ → ℕ → Option ℕ × Bool → Bool → System F → Outcome F × System F
  unfolding settle
  decide ρ q ctx queued now (none, eligible) mine sys = settle ρ q ctx queued eligible sys
  decide ρ q ctx queued now (some idx, eligible) mine sys =
      if mine
      then (let (lease, sys') = grant ρ idx q now sys in (granted lease, sys'))
      else settle ρ q ctx queued eligible sys

  -- One round of the loop.
  unfoldable pub attempt :
      (ℕ → Bool) → (ℕ → ℕ) → ℕ → Query F → ℕ → Option ℕ → System F → Outcome F × System F
  unfolding decide
  attempt canceled clock ρ q ctx queued sys =
      let r = sys.router_at ρ in
      if canceled ctx
      then (failed context_error, sys)
      else decide ρ q ctx queued (clock (suc (length r.waiters))) (choose sys r q (clock 0))
          (turn sys r canceled clock queued) sys

  -- The deferred call: who returns and was queued leaves the queue and passes the baton.
  unfoldable pub leave : (ℕ → Bool) → ℕ → ℕ → Option ℕ → Outcome F × System F → Outcome F × System F
  leave canceled now ρ none (out, sys) = (out, sys)
  leave canceled now ρ (some id) (waits w, sys) = (waits w, sys)
  leave canceled now ρ (some id) (granted l, sys) =
      (granted l, signal canceled now ρ (modify_router ρ (remove_waiter id) sys))
  leave canceled now ρ (some id) (failed e, sys) =
      (failed e, signal canceled now ρ (modify_router ρ (remove_waiter id) sys))

  unfoldable pub acquire :
      (ℕ → Bool) → (ℕ → ℕ) → ℕ → ℕ → Query F → ℕ → Option ℕ → System F → Outcome F × System F
  unfolding attempt leave
  acquire canceled clock later ρ q ctx queued sys =
      leave canceled later ρ queued (attempt canceled clock ρ q ctx queued sys)
