-- ===== src/Routing/Queue.antt =====
-- internal/routing/router.go: signal, turn and removeWaiter over the queue of waiters.
pub mod Fair
use clash_of_tokens.Base.{
  ℕ, zero, suc, ◌≡◌, refl, ◌⊎◌, inl, inr, Bool, true, false, not, ◌&&◌, ◌||◌, List, [], ◌∷◌, Option,
  none, some, arith, ◌+◌, ◌-◌, eqb, if◌then◌else◌,
}
use clash_of_tokens.Base.Float.{Float64}
use clash_of_tokens.Routing.Types.{Waiter, Router, System}
use clash_of_tokens.Routing.Eligible.{is_some}
use clash_of_tokens.Routing.Pools.{Sha256}
use clash_of_tokens.Routing.Choose.{choose}
use clash_of_tokens.Routing.Heap.{modify_router}

-- `w == current` on pointers; nil is no waiter.
abbrev pub is_id : Option ℕ → ℕ → Bool
is_id none id = false
is_id (some c) id = eqb id c

module _ {F : Type 0} where
  -- The list without the target, and whether it was there.
  unfoldable pub unlink : ℕ → List (Waiter F) → List (Waiter F) × Bool
  unlink target [] = ([], false)
  unlink target (w ∷ ws) =
      let rest = unlink target ws in if eqb w.id target then (ws, true) else (w ∷ rest.0, rest.1)

  unfoldable pub remove_waiter : ℕ → Router F → Router F
  remove_waiter target r =
      let (ws, found) = unlink target r.waiters in
      if found then record r { waiters = ws; waiting = r.waiting - 1 } else r

module _ {F : Type 0} ⦃fl : Float64 F⦄ ⦃sha : Sha256⦄ where
  -- Whether signal wakes a waiter: it is canceled, can run, or has nothing to wait for.
  unfoldable pub rouses : System F → Router F → (ℕ → Bool) → ℕ → Waiter F → Bool
  rouses sys r canceled now w =
      let (idx, eligible) = choose sys r w.query now in
      canceled w.ctx || (is_some idx || not eligible)

  -- The loop of signal: a token for the first waiter that it wakes, unless it holds one.
  unfoldable pub wake_first :
      System F → Router F → (ℕ → Bool) → ℕ → List (Waiter F) → List (Waiter F)
  wake_first sys r canceled now [] = []
  wake_first sys r canceled now (w ∷ ws) =
      let rest = wake_first sys r canceled now ws in
      if rouses sys r canceled now w then record w { ready = true } ∷ ws else w ∷ rest

  unfoldable pub signal : (ℕ → Bool) → ℕ → ℕ → System F → System F
  unfolding wake_first
  signal canceled now ρ sys =
      modify_router ρ
        (λ r. record r { waiters = wake_first sys (sys.router_at ρ) canceled now r.waiters }) sys

  -- The loop of turn from the k-th reading of the clock on.
  unfoldable pub turn_loop :
      System F → Router F → (ℕ → Bool) → (ℕ → ℕ) → Option ℕ → ℕ → List (Waiter F) → Bool
  turn_loop sys r canceled clock current k [] = true
  turn_loop sys r canceled clock current k (w ∷ ws) =
      let rest = turn_loop sys r canceled clock current (suc k) ws in
      if is_id current w.id
      then true
      else if canceled w.ctx
      then rest
      else if is_some (choose sys r w.query (clock k)).0
      then false
      else rest

  unfoldable pub turn : System F → Router F → (ℕ → Bool) → (ℕ → ℕ) → Option ℕ → Bool
  unfolding turn_loop
  turn sys r canceled clock current = turn_loop sys r canceled clock current 1 r.waiters
