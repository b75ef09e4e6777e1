-- ===== src/Routing/Acquire/Waiting.antt =====
-- internal/routing/router.go: the length of the queue beside its counter and its limit.
use clash_of_tokens.Base.{
  ℕ, ◌≡◌, sym, subst, ◌∙◌, Bool, false, [], ◌∷◌, ◌++◌, Option, none, some, arith, ◌+◌, ◌≤◌, eqb,
  length, length-append, Bool-cases, inl, inr, update, if_true, if_false,
}
use clash_of_tokens.Base.Int.{pos, leb_ℤ, pos_part}
use clash_of_tokens.Base.Float.{Float64}
use clash_of_tokens.Routing.Types.{Query, Router, System, Waiter, u64}
use clash_of_tokens.Routing.Heap.{modify_router}
use clash_of_tokens.Routing.Pools.{Sha256}
use clash_of_tokens.Routing.Queue.{remove_waiter, signal, wake_first}
use clash_of_tokens.Routing.Queue.Fair.{remove_waiter-Counted, length-wake_first}
use clash_of_tokens.Routing.Acquire.{
  Outcome, granted, failed, waits, take_slots, grant, enqueue, attempt, leave, acquire,
}
use clash_of_tokens.Routing.Acquire.Order.{
  Attempts, attempt-Attempts, over, grants, gives_up, stays, finds_full, queues,
}

module _ {F : Type 0} where
  -- The counter is that of the queue, and no more than max_queued.
  pub record Queued (r : Router F) : Type 0 where
    pub counted : r.waiting ≡ length r.waiters
    pub bounded : r.waiting ≤ pos_part r.cfg.runtime.max_queued

  abbrev pub AllQueued : System F → Type 0
  AllQueued sys = (ρ : ℕ) → Queued (sys.router_at ρ)

  -- An update of one router.
  update-Queued :
      (h : ℕ → Router F) (ρ : ℕ) (r : Router F)
      → ((σ : ℕ) → Queued (h σ))
      → Queued r
      → (σ : ℕ) → Queued (update h ρ r σ)
  update-Queued h ρ r all q σ = elim (Bool-cases (eqb ρ σ)) [
    | inl e ↦ subst {A = Router F} Queued (sym (if_true (eqb ρ σ) r (h σ) e)) q
    | inr e ↦ subst {A = Router F} Queued (sym (if_false (eqb ρ σ) r (h σ) e)) (all σ)
  ]

  remove_waiter-Queued : (id : ℕ) (r : Router F) → Queued r → Queued (remove_waiter id r)
  unfolding remove_waiter
  remove_waiter-Queued id r q = record {
    counted = remove_waiter-Counted id r q.counted;
    bounded = ground (arith, q.bounded);
  }

module _ {F : Type 0} ⦃fl : Float64 F⦄ where
  take_slots-Queued :
      (ρ s k : ℕ) (acc : Option ℕ) (w v : F) (sys : System F)
      → AllQueued sys
      → AllQueued (take_slots ρ s k acc w v sys)
  unfolding take_slots
  take_slots-Queued ρ s k none w v sys h =
      update-Queued sys.router_at ρ
        (record (sys.router_at ρ) { cursor = u64 ((sys.router_at ρ).cursor + 1) }) h
        (record { counted = (h ρ).counted; bounded = (h ρ).bounded })
  take_slots-Queued ρ s k (some a) w v sys h =
      update-Queued sys.router_at ρ
        (record (sys.router_at ρ) { cursor = u64 ((sys.router_at ρ).cursor + 1) }) h
        (record { counted = (h ρ).counted; bounded = (h ρ).bounded })

  enqueue-Queued :
      (ρ : ℕ) (q : Query F) (ctx : ℕ) (sys : System F)
      → leb_ℤ (sys.router_at ρ).cfg.runtime.max_queued (pos (sys.router_at ρ).waiting) ≡ false
      → AllQueued sys
      → AllQueued (enqueue ρ q ctx sys)
  unfolding enqueue
  enqueue-Queued ρ q ctx sys room h =
      let r = sys.router_at ρ in
      let w : Waiter F = record { id = sys.next_waiter; query = q; ctx = ctx; ready = false } in
      update-Queued sys.router_at ρ
        (record r { waiting = r.waiting + 1; waiters = r.waiters ++ w ∷ [] }) h
        (record {
          counted = omega (arith, (h ρ).counted, length-append r.waiters (w ∷ []));
          bounded = ground (arith, room);
        })

module _ {F : Type 0} ⦃fl : Float64 F⦄ ⦃sha : Sha256⦄ (canceled : ℕ → Bool) where
  pub signal-Queued :
      (now ρ : ℕ) (sys : System F) → AllQueued sys → AllQueued (signal canceled now ρ sys)
  unfolding signal
  signal-Queued now ρ sys h =
      let r = sys.router_at ρ in
      update-Queued sys.router_at ρ (record r { waiters = wake_first sys r canceled now r.waiters })
        h
        (record {
          counted = (h ρ).counted ∙ sym (length-wake_first sys r canceled now r.waiters);
          bounded = (h ρ).bounded;
        })

  Attempts-Queued :
      (clock : ℕ → ℕ) (ρ : ℕ) (q : Query F) (ctx : ℕ) (queued : Option ℕ) (sys : System F)
      (z : Outcome F × System F)
      → Attempts canceled clock ρ q ctx queued sys z
      → AllQueued sys
      → AllQueued z.1
  unfolding grant
  Attempts-Queued clock ρ q ctx queued sys z (over a) h = h
  Attempts-Queued clock ρ q ctx queued sys z (grants idx a b c) h =
      take_slots-Queued ρ _ _ _ _ _ sys h
  Attempts-Queued clock ρ q ctx queued sys z (gives_up a b) h = h
  Attempts-Queued clock ρ q ctx queued sys z (stays id a b c d) h = h
  Attempts-Queued clock ρ q ctx queued sys z (finds_full a b c d e) h = h
  Attempts-Queued clock ρ q ctx queued sys z (queues a b c d e) h = enqueue-Queued ρ q ctx sys e h

  left :
      (now ρ id : ℕ) (sys : System F)
      → AllQueued sys
      → AllQueued (signal canceled now ρ (modify_router ρ (remove_waiter id) sys))
  left now ρ id sys h = signal-Queued now ρ (modify_router ρ (remove_waiter id) sys) (
      update-Queued sys.router_at ρ (remove_waiter id (sys.router_at ρ)) h
        (remove_waiter-Queued id (sys.router_at ρ) (h ρ)))

  leave-Queued :
      (now ρ : ℕ) (queued : Option ℕ) (z : Outcome F × System F)
      → AllQueued z.1
      → AllQueued (leave canceled now ρ queued z).1
  unfolding leave
  leave-Queued now ρ none (out, sys) h = h
  leave-Queued now ρ (some id) (waits w, sys) h = h
  leave-Queued now ρ (some id) (granted l, sys) h = left now ρ id sys h
  leave-Queued now ρ (some id) (failed e, sys) h = left now ρ id sys h

  -- A step of Acquire keeps every router's queue: the counter of waiting requests is its length, and
  -- no more than max_queued.
  pub acquire-Queued :
      (clock : ℕ → ℕ) (later ρ : ℕ) (q : Query F) (ctx : ℕ) (queued : Option ℕ) (sys : System F)
      → AllQueued sys
      → AllQueued (acquire canceled clock later ρ q ctx queued sys).1
  unfolding acquire
  acquire-Queued clock later ρ q ctx queued sys h =
      leave-Queued later ρ queued (attempt canceled clock ρ q ctx queued sys) (
        Attempts-Queued clock ρ q ctx queued sys (attempt canceled clock ρ q ctx queued sys)
          (attempt-Attempts canceled clock ρ q ctx queued sys) h)
