-- ===== src/Routing/Queue/Fair.antt =====
-- internal/routing/router.go: the order of the queue.
use clash_of_tokens.Base.{
  ℕ, suc, ◌≡◌, refl, ◌⊎◌, inl, inr, ◌↔◌, Bool, true, false, List, [], ◌∷◌, ◌++◌, Option, arith, ◌+◌,
  ◌≤◌, if◌then◌else◌, length, All, Bool-cases,
}
use clash_of_tokens.Base.Float.{Float64}
use clash_of_tokens.Routing.Types.{Waiter, Router, System}
use clash_of_tokens.Routing.Eligible.{is_some}
use clash_of_tokens.Routing.Pools.{Sha256}
use clash_of_tokens.Routing.Choose.{choose}
use clash_of_tokens.Routing.Queue.{
  is_id, unlink, remove_waiter, rouses, wake_first, turn_loop, turn,
}

-- The waiters ahead of the current one; all of them for a request that is not queued.
abbrev pub ahead {ℓ} : {W : Type ℓ} → (W → Bool) → List W → List W
ahead here [] = []
ahead here (w ∷ ws) = if here w then [] else w ∷ ahead here ws

module _ {F : Type 0} ⦃fl : Float64 F⦄ ⦃sha : Sha256⦄ (sys : System F) (r : Router F)
    (canceled : ℕ → Bool) where
  -- A waiter lets others pass while its context has ended or no target has room for it.
  abbrev pub LetsPass : ℕ → Waiter F → Type 0
  LetsPass now w = (canceled w.ctx ≡ true) ⊎ (is_some (choose sys r w.query now).0 ≡ false)

  abbrev pub AllLetPass : (ℕ → ℕ) → ℕ → List (Waiter F) → Type 0
  AllLetPass clock k [] = Unit
  AllLetPass clock k (w ∷ ws) = LetsPass (clock k) w × AllLetPass clock (suc k) ws

  turn_loop_iff :
      (clock : ℕ → ℕ) (current : Option ℕ) (k : ℕ) (ws : List (Waiter F))
      → (turn_loop sys r canceled clock current k ws ≡ true)
        ↔ AllLetPass clock k (ahead (λ w. is_id current w.id) ws)
  unfolding turn_loop
  turn_loop_iff clock current k [] = ((λ h. tt), λ h. refl)
  turn_loop_iff clock current k (w ∷ ws) =
      let ih = turn_loop_iff clock current (suc k) ws in
      elim (Bool-cases (is_id current w.id)) [
        | inl here ↦ rw here ((λ h. tt), λ h. refl)
        | inr other ↦
            rw other ((λ h. (ground arith, ih.0 (ground arith))), λ h. ground (arith, ih.1 h.1))
      ]

  -- A request has its turn exactly when every waiter ahead of it lets others pass.
  pub turn_iff :
      (clock : ℕ → ℕ) (current : Option ℕ)
      → (turn sys r canceled clock current ≡ true)
        ↔ AllLetPass clock 1 (ahead (λ w. is_id current w.id) r.waiters)
  unfolding turn
  turn_iff clock current = turn_loop_iff clock current 1 r.waiters

  -- What signal does to the queue: nothing when it wakes nobody, and otherwise it gives a token
  -- to the first waiter that it wakes and leaves the others as they are.
  pub data Wakes (now : ℕ) (ws vs : List (Waiter F)) : Type 0 where
    nobody : All (λ w. rouses sys r canceled now w ≡ false) ws → vs ≡ ws → Wakes now ws vs
    first :
        (before after : List (Waiter F)) (w : Waiter F)
        → ws ≡ before ++ w ∷ after
        → All (λ u. rouses sys r canceled now u ≡ false) before
        → rouses sys r canceled now w ≡ true
        → vs ≡ before ++ record w { ready = true } ∷ after
        → Wakes now ws vs

  pub length-wake_first :
      (now : ℕ) (ws : List (Waiter F)) → length (wake_first sys r canceled now ws) ≡ length ws
  unfolding wake_first
  length-wake_first now [] = refl
  length-wake_first now (w ∷ ws) = ground (arith, length-wake_first now ws)

module _ {F : Type 0} where
  length-unlink :
      (id : ℕ) (ws : List (Waiter F))
      → length (unlink id ws).0 + (if (unlink id ws).1 then 1 else 0) ≡ length ws
  unfolding unlink
  length-unlink id [] = omega arith
  length-unlink id (w ∷ ws) = ground (arith, length-unlink id ws)

  -- That the counter of waiting requests is the length of the queue.
  abbrev pub Counted : Router F → Type 0
  Counted r = r.waiting ≡ length r.waiters

  -- Where the counter of waiting requests is the length of the queue, it is so again after a waiter
  -- is removed, whether or not it was in the queue.
  pub remove_waiter-Counted : (id : ℕ) (r : Router F) → Counted r → Counted (remove_waiter id r)
  unfolding remove_waiter
  remove_waiter-Counted id r h = ground (arith, length-unlink id r.waiters)

  pub remove_waiter-le : (id : ℕ) (r : Router F) → (remove_waiter id r).waiting ≤ r.waiting
  unfolding remove_waiter
  remove_waiter-le id r = ground arith
