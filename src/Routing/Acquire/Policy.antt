-- ===== src/Routing/Acquire/Policy.antt =====
-- internal/routing/router.go: a round of Acquire beside what it promises: who is served, who waits and
-- who is turned away, said of the candidates and of the queue, without the scan and the walk that
-- find it out.
use clash_of_tokens.Base.{
  ℕ, ◌≡◌, refl, ap, ◌⊎◌, inl, inr, Bool, true, false, [], ◌∷◌, ◌++◌, Option, none, some, arith, ◌+◌,
  eqb, In, update_self,
}
use clash_of_tokens.Base.Int.{pos, ◌≤ℤ◌, ◌<ℤ◌}
use clash_of_tokens.Base.Float.{Float64}
use clash_of_tokens.Routing.Types.{
  Query, Router, System, Lease, target_of, state_addr, quota_addr, account_addr,
}
use clash_of_tokens.Routing.Pools.{Sha256}
use clash_of_tokens.Routing.Choose.{choose, candidates_of}
use clash_of_tokens.Routing.Choose.Sound.{MayRun, choose-runs, choose-eligible}
use clash_of_tokens.Routing.Queue.{is_id, turn}
use clash_of_tokens.Routing.Queue.Fair.{ahead, turn_iff}
use clash_of_tokens.Routing.Acquire.{
  context_error, unavailable, queue_full, Outcome, granted, failed, waits, take_slots, grant,
  enqueue, attempt,
}
use clash_of_tokens.Routing.Acquire.Held.{
  one_if, at, take_slots-active, take_slots-states, take_slots-quotas,
}
use clash_of_tokens.Routing.Acquire.Order.{
  Attempts, attempt-Attempts, over, grants, gives_up, stays, finds_full, queues,
}
use clash_of_tokens.Routing.Acquire.Line.{
  CanRun, CanServe, NobodyRuns, none-CanRun, passes-NobodyRuns, NobodyRuns-passes,
}

-- What a grant takes and what the lease says of it, at a target: a slot of the router, of the target's
-- source, of its quota and of its account if it has one, and nobody's place in the queue.
pub record Takes {F : Type 0} (ρ idx : ℕ) (q : Query F) (sys : System F) (l : Lease F)
    (after : System F) : Type 0 where
  pub target : l.target ≡ target_of (sys.router_at ρ) idx
  pub held : l.once ≡ false
  pub state : l.state ≡ state_addr (sys.router_at ρ) l.target.source
  pub quota : l.quota ≡ quota_addr (sys.router_at ρ) l.target.source
  pub account : l.account ≡ account_addr (sys.router_at ρ) l.target.source
  pub protocol : l.protocol ≡ q.protocol
  pub total : after.active ≡ sys.active + 1
  pub states :
      (a : ℕ) → (after.state_at a).active ≡ (sys.state_at a).active + one_if (eqb l.state a)
  pub quotas :
      (a : ℕ)
      → (after.quota_at a).active
        ≡ (sys.quota_at a).active + one_if (eqb l.quota a) + one_if (at l.account a)
  pub queue : (after.router_at ρ).waiters ≡ (sys.router_at ρ).waiters

-- A place at the end of the queue, under a name of its own, and nothing taken.
pub record Joins {F : Type 0} (ρ : ℕ) (q : Query F) (ctx : ℕ) (sys after : System F) : Type 0 where
  pub queue :
      (after.router_at ρ).waiters
      ≡ (sys.router_at ρ).waiters
        ++ record { id = sys.next_waiter; query = q; ctx = ctx; ready = false } ∷ []
  pub counted : (after.router_at ρ).waiting ≡ (sys.router_at ρ).waiting + 1
  pub fresh : after.next_waiter ≡ sys.next_waiter + 1
  pub total : after.active ≡ sys.active
  pub states : after.state_at ≡ sys.state_at
  pub quotas : after.quota_at ≡ sys.quota_at

module _ {F : Type 0} ⦃fl : Float64 F⦄ where
  take_slots-queue :
      (ρ s k : ℕ) (acc : Option ℕ) (w v : F) (sys : System F)
      → ((take_slots ρ s k acc w v sys).router_at ρ).waiters ≡ (sys.router_at ρ).waiters
  unfolding take_slots
  take_slots-queue ρ s k none w v sys = ap (λ r. r.waiters) (update_self sys.router_at ρ _)
  take_slots-queue ρ s k (some b) w v sys = ap (λ r. r.waiters) (update_self sys.router_at ρ _)

  grant-Takes :
      (ρ idx : ℕ) (q : Query F) (now : ℕ) (sys : System F)
      → Takes ρ idx q sys (grant ρ idx q now sys).0 (grant ρ idx q now sys).1
  unfolding grant
  grant-Takes ρ idx q now sys = record {
    target = refl;
    held = refl;
    state = refl;
    quota = refl;
    account = refl;
    protocol = refl;
    total = take_slots-active _ _ _ _ _ _ sys;
    states = λ a. take_slots-states _ _ _ _ _ _ sys a;
    quotas = λ a. take_slots-quotas _ _ _ _ _ _ sys a;
    queue = take_slots-queue _ _ _ _ _ _ sys;
  }

  enqueue-Joins :
      (ρ : ℕ) (q : Query F) (ctx : ℕ) (sys : System F) → Joins ρ q ctx sys (enqueue ρ q ctx sys)
  unfolding enqueue
  enqueue-Joins ρ q ctx sys = record {
    queue = ap (λ r. r.waiters) (update_self sys.router_at ρ _);
    counted = ap (λ r. r.waiting) (update_self sys.router_at ρ _);
    fresh = refl;
    total = refl;
    states = refl;
    quotas = refl;
  }

module _ {F : Type 0} ⦃fl : Float64 F⦄ ⦃sha : Sha256⦄ (canceled : ℕ → Bool) (clock : ℕ → ℕ) (ρ : ℕ)
    (q : Query F) (ctx : ℕ) (queued : Option ℕ) (sys : System F) where
  abbrev pub asked : Router F
  asked = sys.router_at ρ

  -- Whoever is ahead of the request cannot run; all waiters are ahead of one that is not queued.
  abbrev pub FirstInLine : Type 0
  FirstInLine = NobodyRuns sys asked canceled clock 1 (ahead (λ w. is_id queued w.id) asked.waiters)

  -- The request cannot run now, for want of room or out of turn.
  abbrev pub MustWait : Type 0
  MustWait = (CanRun sys asked q (clock 0) → ⊥) ⊎ (FirstInLine → ⊥)

  -- What a round of Acquire promises.
  pub data Decides : Outcome F × System F → Type 0 where
    ended : canceled ctx ≡ true → Decides (failed context_error, sys)
    served :
        (idx : ℕ) (l : Lease F) (after : System F)
        → canceled ctx ≡ false
        → asked.retired ≡ false
        → In idx (candidates_of asked q)
        → MayRun sys asked q (clock 0) idx
        → FirstInLine
        → Takes ρ idx q sys l after
        → Decides (granted l, after)
    refused : canceled ctx ≡ false → (CanServe sys asked q → ⊥) → Decides (failed unavailable, sys)
    keeps_place :
        (id : ℕ)
        → queued ≡ some id
        → canceled ctx ≡ false
        → CanServe sys asked q
        → MustWait
        → Decides (waits id, sys)
    turned_away :
        queued ≡ none
        → canceled ctx ≡ false
        → CanServe sys asked q
        → MustWait
        → asked.cfg.runtime.max_queued ≤ℤ pos asked.waiting
        → Decides (failed queue_full, sys)
    takes_place :
        (after : System F)
        → queued ≡ none
        → canceled ctx ≡ false
        → CanServe sys asked q
        → MustWait
        → pos asked.waiting <ℤ asked.cfg.runtime.max_queued
        → Joins ρ q ctx sys after
        → Decides (waits sys.next_waiter, after)

  turn-FirstInLine : turn sys asked canceled clock queued ≡ true → FirstInLine
  turn-FirstInLine h =
      passes-NobodyRuns sys asked canceled clock 1 _
        ((turn_iff sys asked canceled clock queued).0 h)

  turned-FirstInLine : turn sys asked canceled clock queued ≡ false → FirstInLine → ⊥
  turned-FirstInLine h f =
      let t =
        (turn_iff sys asked canceled clock queued).1
          (NobodyRuns-passes sys asked canceled clock 1 _ f) in
      cc (h, t)

  kept-MustWait :
      ((choose sys asked q (clock 0)).0 ≡ none) ⊎ (turn sys asked canceled clock queued ≡ false)
      → MustWait
  kept-MustWait (inl n) = inl (none-CanRun sys asked q (clock 0) n)
  kept-MustWait (inr f) = inr (turned-FirstInLine f)

  found-CanServe : (choose sys asked q (clock 0)).1 ≡ true → CanServe sys asked q
  found-CanServe h =
      let (live, t) = (choose-eligible sys asked q (clock 0)).0 h in
      record { active = live; some_target = t }

  missed-CanServe : (choose sys asked q (clock 0)).1 ≡ false → CanServe sys asked q → ⊥
  missed-CanServe h c =
      let t = (choose-eligible sys asked q (clock 0)).1 (c.active, c.some_target) in cc (h, t)

  chosen-Decides :
      (idx now : ℕ)
      → canceled ctx ≡ false
      → (choose sys asked q (clock 0)).0 ≡ some idx
      → FirstInLine
      → Decides (granted (grant ρ idx q now sys).0, (grant ρ idx q now sys).1)
  chosen-Decides idx now c e first =
      let (live, m, run, t) = choose-runs sys asked q (clock 0) idx e in
      served idx (grant ρ idx q now sys).0 (grant ρ idx q now sys).1 c live m run first
        (grant-Takes ρ idx q now sys)

  Attempts-Decides :
      (z : Outcome F × System F) → Attempts canceled clock ρ q ctx queued sys z → Decides z
  Attempts-Decides _ (over c) = ended c
  Attempts-Decides _ (grants idx c e t) = chosen-Decides idx _ c e (turn-FirstInLine t)
  Attempts-Decides _ (gives_up c e) = refused c (missed-CanServe e)
  Attempts-Decides _ (stays id n c e w) = keeps_place id n c (found-CanServe e) (kept-MustWait w)
  Attempts-Decides _ (finds_full n c e w full) =
      turned_away n c (found-CanServe e) (kept-MustWait w) full
  Attempts-Decides _ (queues n c e w room) =
      takes_place (enqueue ρ q ctx sys) n c (found-CanServe e) (kept-MustWait w) (ground arith)
        (enqueue-Joins ρ q ctx sys)

  -- A round of Acquire ends with the context; or it grants a candidate that may run, whose slots the
  -- lease takes, in an active router and while no live waiter ahead could run; or it gives up, where
  -- no candidate of an active router is eligible. Else some candidate is eligible, but none may run or
  -- a live waiter ahead could: a queued request keeps its place, and another takes the last one, or
  -- is told that the queue is full.
  pub attempt-Decides : Decides (attempt canceled clock ρ q ctx queued sys)
  attempt-Decides = Attempts-Decides _ (attempt-Attempts canceled clock ρ q ctx queued sys)
