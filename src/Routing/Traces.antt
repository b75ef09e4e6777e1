-- ===== src/Routing/Traces.antt =====
-- internal/routing: histories of the router. Requests are granted, wait and give up, leases record
-- their results and are released, sources are switched, and routers take over the capacity, in any
-- order.
use clash_of_tokens.Base.{
  ◌∙◌, ℕ, suc, String, ◌≡◌, refl, Bool, false, List, [], ◌∷◌, ◌++◌, Option, none, some, arith, All,
  length,
}
use clash_of_tokens.Base.Int.{ℤ}
use clash_of_tokens.Base.Float.{Float64}
use clash_of_tokens.Config.{Config}
use clash_of_tokens.Routing.Types.{Query, Router, System, Lease}
use clash_of_tokens.Protocol.Result.{ExecutionResult}
use clash_of_tokens.Routing.Output.{record_execution, first_output}
use clash_of_tokens.Routing.Output.Kept.{
  SameSlots, swap-Held, record_execution-Held, record_execution-SameSlots, first_output-Held,
  first_output-SameSlots,
}
use clash_of_tokens.Routing.Pools.{Sha256}
use clash_of_tokens.Routing.Compile.{new}
use clash_of_tokens.Routing.Compile.Idle.{new-Idle}
use clash_of_tokens.Routing.Queue.{signal}
use clash_of_tokens.Routing.Acquire.{
  Outcome, granted, failed, waits, grant, enqueue, attempt, leave, acquire,
}
use clash_of_tokens.Routing.Acquire.Held.{Held, grant-Held}
use clash_of_tokens.Routing.Acquire.Order.{
  Attempts, attempt-Attempts, over, grants, gives_up, stays, finds_full, queues,
}
use clash_of_tokens.Routing.Release.{release}
use clash_of_tokens.Routing.Release.Once.{release-Held}
use clash_of_tokens.Routing.Adopt.{adopt, set_enabled}
use clash_of_tokens.Routing.Adopt.Keeps.{adopt-Held}

module _ {F : Type 0} where
  -- The leases held after a step of Acquire.
  abbrev pub holding : Outcome F → List (Lease F) → List (Lease F)
  holding (granted l) ls = l ∷ ls
  holding (failed e) ls = ls
  holding (waits w) ls = ls

  abbrev pub Open : List (Lease F) → Type 0
  Open ls = All (λ l. l.once ≡ false) ls

module _ {F : Type 0} ⦃fl : Float64 F⦄ ⦃sha : Sha256⦄ where
  -- The states that a process gets to from one, each with the leases that are held in it.
  pub data Reaches (init : System F) : System F → List (Lease F) → Type 0 where
    starts : Reaches init init []
    acquires :
        (sys : System F) (ls : List (Lease F)) (canceled : ℕ → Bool) (clock : ℕ → ℕ) (later ρ : ℕ)
        (q : Query F) (ctx : ℕ) (queued : Option ℕ)
        → Reaches init sys ls
        → Reaches init
            (acquire canceled clock later ρ q ctx queued sys).1
            (holding (acquire canceled clock later ρ q ctx queued sys).0 ls)
    releases :
        (sys : System F) (xs ys : List (Lease F)) (l : Lease F) (canceled : ℕ → Bool)
        (clock : ℕ → ℕ) (status retry : ℤ)
        → Reaches init sys (xs ++ l ∷ ys)
        → Reaches init (release canceled clock status retry l sys).1 (xs ++ ys)
    records :
        (sys : System F) (xs ys : List (Lease F)) (l : Lease F) (result : ExecutionResult)
        → Reaches init sys (xs ++ l ∷ ys)
        → Reaches init
            (record_execution result l sys).1
            (xs ++ (record_execution result l sys).0 ∷ ys)
    outputs :
        (sys : System F) (xs ys : List (Lease F)) (l : Lease F) (now : ℕ)
        → Reaches init sys (xs ++ l ∷ ys)
        → Reaches init (first_output now l sys).1 (xs ++ (first_output now l sys).0 ∷ ys)
    switches :
        (sys : System F) (ls : List (Lease F)) (canceled : ℕ → Bool) (now ρ : ℕ) (id : String)
        (on : Bool)
        → Reaches init sys ls
        → Reaches init (set_enabled canceled now ρ id on sys).1 ls
    adopts :
        (sys : System F) (ls : List (Lease F)) (canceled : ℕ → Bool) (now ρ : ℕ) (next : Router F)
        → Reaches init sys ls
        → Reaches init (adopt canceled now ρ next sys) ls

  set_enabled-Held :
      (canceled : ℕ → Bool) (now ρ : ℕ) (id : String) (on : Bool) (sys : System F)
      (ls : List (Lease F))
      → Held sys ls
      → Held (set_enabled canceled now ρ id on sys).1 ls
  unfolding set_enabled signal
  set_enabled-Held canceled now ρ id on sys ls h = record {
    total = ground (arith, h.total);
    states = λ a. ground (arith, h.states a);
    quotas = λ a. ground (arith, h.quotas a);
  }

  Attempts-Held :
      (canceled : ℕ → Bool) (clock : ℕ → ℕ) (ρ : ℕ) (q : Query F) (ctx : ℕ) (queued : Option ℕ)
      (sys : System F) (ls : List (Lease F)) (z : Outcome F × System F)
      → Attempts canceled clock ρ q ctx queued sys z
      → Held sys ls
      → Held z.1 (holding z.0 ls)
  unfolding enqueue
  Attempts-Held canceled clock ρ q ctx queued sys ls z (over a) h = h
  Attempts-Held canceled clock ρ q ctx queued sys ls z (grants idx a b c) h =
      grant-Held ρ idx q (clock (suc (length (sys.router_at ρ).waiters))) sys ls h
  Attempts-Held canceled clock ρ q ctx queued sys ls z (gives_up a b) h = h
  Attempts-Held canceled clock ρ q ctx queued sys ls z (stays id a b c d) h = h
  Attempts-Held canceled clock ρ q ctx queued sys ls z (finds_full a b c d e) h = h
  Attempts-Held canceled clock ρ q ctx queued sys ls z (queues a b c d e) h = record {
    total = h.total;
    states = h.states;
    quotas = h.quotas;
  }

  Attempts-Open :
      (canceled : ℕ → Bool) (clock : ℕ → ℕ) (ρ : ℕ) (q : Query F) (ctx : ℕ) (queued : Option ℕ)
      (sys : System F) (ls : List (Lease F)) (z : Outcome F × System F)
      → Attempts canceled clock ρ q ctx queued sys z
      → Open ls
      → Open (holding z.0 ls)
  unfolding grant
  Attempts-Open canceled clock ρ q ctx queued sys ls z (over a) h = h
  Attempts-Open canceled clock ρ q ctx queued sys ls z (grants idx a b c) h = (refl, h)
  Attempts-Open canceled clock ρ q ctx queued sys ls z (gives_up a b) h = h
  Attempts-Open canceled clock ρ q ctx queued sys ls z (stays id a b c d) h = h
  Attempts-Open canceled clock ρ q ctx queued sys ls z (finds_full a b c d e) h = h
  Attempts-Open canceled clock ρ q ctx queued sys ls z (queues a b c d e) h = h

  leave-Held :
      (canceled : ℕ → Bool) (now ρ : ℕ) (queued : Option ℕ) (z : Outcome F × System F)
      (ls : List (Lease F))
      → Held z.1 (holding z.0 ls)
      → Held (leave canceled now ρ queued z).1 (holding (leave canceled now ρ queued z).0 ls)
  unfolding leave signal
  leave-Held canceled now ρ none (out, sys) ls h = h
  leave-Held canceled now ρ (some id) (waits w, sys) ls h = h
  leave-Held canceled now ρ (some id) (granted l, sys) ls h = record {
    total = h.total;
    states = h.states;
    quotas = h.quotas;
  }
  leave-Held canceled now ρ (some id) (failed e, sys) ls h = record {
    total = h.total;
    states = h.states;
    quotas = h.quotas;
  }

  leave-Open :
      (canceled : ℕ → Bool) (now ρ : ℕ) (queued : Option ℕ) (z : Outcome F × System F)
      (ls : List (Lease F))
      → Open (holding z.0 ls)
      → Open (holding (leave canceled now ρ queued z).0 ls)
  unfolding leave
  leave-Open canceled now ρ none (out, sys) ls h = h
  leave-Open canceled now ρ (some id) (waits w, sys) ls h = h
  leave-Open canceled now ρ (some id) (granted l, sys) ls h = h
  leave-Open canceled now ρ (some id) (failed e, sys) ls h = h

  swap-Open :
      (xs ys : List (Lease F)) (l k : Lease F)
      → SameSlots l k
      → Open (xs ++ l ∷ ys)
      → Open (xs ++ k ∷ ys)
  swap-Open [] ys l k s (e, h) = (s.once ∙ e, h)
  swap-Open (x ∷ xs) ys l k s (e, h) = (e, swap-Open xs ys l k s h)

  Open-without :
      (xs ys : List (Lease F)) (l : Lease F)
      → Open (xs ++ l ∷ ys)
      → (l.once ≡ false) × Open (xs ++ ys)
  Open-without [] ys l h = h
  Open-without (x ∷ xs) ys l (e, h) = let (o, k) = Open-without xs ys l h in (o, (e, k))

  Reaches-Held :
      (init sys : System F) (ls : List (Lease F))
      → Held init []
      → Reaches init sys ls
      → Held sys ls × Open ls
  unfolding acquire
  Reaches-Held init sys ls h starts = (h, tt)
  Reaches-Held init sys' ls' h (acquires sys ls canceled clock later ρ q ctx queued r) =
      let (k, o) = Reaches-Held init sys ls h r in
      let z = attempt canceled clock ρ q ctx queued sys in
      let a = attempt-Attempts canceled clock ρ q ctx queued sys in
      (
        leave-Held canceled later ρ queued z ls
            (Attempts-Held canceled clock ρ q ctx queued sys ls z a k),
        leave-Open canceled later ρ queued z ls
            (Attempts-Open canceled clock ρ q ctx queued sys ls z a o),
      )
  Reaches-Held init sys' ls' h (releases sys xs ys l canceled clock status retry r) =
      let (k, o) = Reaches-Held init sys (xs ++ l ∷ ys) h r in
      let (e, o') = Open-without xs ys l o in
      (release-Held canceled clock status retry xs ys l sys e k, o')
  Reaches-Held init sys' ls' h (records sys xs ys l result r) =
      let (k, o) = Reaches-Held init sys (xs ++ l ∷ ys) h r in
      let same = record_execution-SameSlots result l sys in
      let l' = (record_execution result l sys).0 in
      let sys1 = (record_execution result l sys).1 in
      (
        swap-Held sys1 xs ys l l' same (record_execution-Held result l sys (xs ++ l ∷ ys) k),
        swap-Open xs ys l l' same o,
      )
  Reaches-Held init sys' ls' h (outputs sys xs ys l now r) =
      let (k, o) = Reaches-Held init sys (xs ++ l ∷ ys) h r in
      let same = first_output-SameSlots now l sys in
      let l' = (first_output now l sys).0 in
      let sys1 = (first_output now l sys).1 in
      (
        swap-Held sys1 xs ys l l' same (first_output-Held now l sys (xs ++ l ∷ ys) k),
        swap-Open xs ys l l' same o,
      )
  Reaches-Held init sys' ls h (switches sys ls0 canceled now ρ id on r) =
      let (k, o) = Reaches-Held init sys ls h r in
      (set_enabled-Held canceled now ρ id on sys ls k, o)
  Reaches-Held init sys' ls h (adopts sys ls0 canceled now ρ next r) =
      let (k, o) = Reaches-Held init sys ls h r in (adopt-Held canceled now ρ next sys ls k, o)

  -- However a process goes on from a new router, what its counters say is in use, in all, of each
  -- source and of each quota and account, is what the leases held in the end hold.
  pub Reaches-conserves :
      (c : Config F) (sys : System F) (ls : List (Lease F)) → Reaches (new c) sys ls → Held sys ls
  Reaches-conserves c sys ls r =
      let i = new-Idle c in
      (Reaches-Held (new c) sys ls
        (record { total = i.total; states = i.states; quotas = i.quotas }) r).0
