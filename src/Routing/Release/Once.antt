-- ===== src/Routing/Release/Once.antt =====
-- internal/routing/router.go: Release beside the leases held, and after its statuses.
use clash_of_tokens.Base.{
  ℕ, ◌≡◌, ◌≢◌, refl, sym, subst, ap, ◌∙◌, ◌⊎◌, Bool, true, false, List, [], ◌∷◌, ◌++◌, Option, none,
  some, arith, ◌+◌, ◌-◌, ◌<◌, ◌≤◌, eqb, if◌then◌else◌, length-append, if_true, if_false,
}
use clash_of_tokens.Base.Int.{ℤ, pos, eqb_ℤ, minus_one, ◌≤ℤ◌}
use clash_of_tokens.Base.Float.{Float64}
use clash_of_tokens.Routing.Types.{
  State, Quota, Query, Router, System, Lease, Target, state_of, quota_of, state_addr, quota_addr,
}
use clash_of_tokens.Routing.Eligible.{eligible}
use clash_of_tokens.Routing.Eligible.Policy.{eligible-Serves}
use clash_of_tokens.Routing.Pools.{Sha256, busy}
use clash_of_tokens.Routing.Acquire.Held.{one_if, at, in_state, in_quota, Held}
use clash_of_tokens.Routing.Queue.{signal}
use clash_of_tokens.Routing.Release.{
  quota_cooldown, free_slots, settle_state, settle_quota, settle_release, release,
}

-- How long a 429 is to close a quota, in nanoseconds, by the time that its answer asks for.
pub data Pause : ℤ → ℕ → Type 0 where
  by_default : {asked : ℤ} → asked ≤ℤ pos 0 → Pause asked 30000000000
  as_asked : (n : ℕ) → 0 < n → n ≤ 86400000000000 → Pause (pos n) n
  a_day : (n : ℕ) → 86400000000000 < n → Pause (pos n) 86400000000000

quota_cooldown-Pause : (asked : ℤ) (wait : ℕ) → Pause asked wait → quota_cooldown asked ≡ wait
unfolding quota_cooldown
quota_cooldown-Pause asked _ (by_default h) = ground arith
quota_cooldown-Pause _ _ (as_asked n l u) = ground arith
quota_cooldown-Pause _ _ (a_day n u) = ground arith

module _ {F : Type 0} where
  in_state-append :
      (a : ℕ) (xs ys : List (Lease F)) → in_state a (xs ++ ys) ≡ in_state a xs + in_state a ys
  in_state-append a [] ys = omega arith
  in_state-append a (x ∷ xs) ys = omega (arith, in_state-append a xs ys)

  in_quota-append :
      (a : ℕ) (xs ys : List (Lease F)) → in_quota a (xs ++ ys) ≡ in_quota a xs + in_quota a ys
  in_quota-append a [] ys = omega arith
  in_quota-append a (x ∷ xs) ys = omega (arith, in_quota-append a xs ys)

module _ {F : Type 0} ⦃fl : Float64 F⦄ where
  free_slots-active :
      (s k : ℕ) (acc : Option ℕ) (sys : System F) → (free_slots s k acc sys).active ≡ sys.active - 1
  unfolding free_slots
  free_slots-active s k none sys = refl
  free_slots-active s k (some b) sys = refl

  free_slots-states :
      (s k : ℕ) (acc : Option ℕ) (sys : System F) (a : ℕ)
      → ((free_slots s k acc sys).state_at a).active ≡ (sys.state_at a).active - one_if (eqb s a)
  unfolding free_slots
  free_slots-states s k none sys a = ground arith
  free_slots-states s k (some b) sys a = ground arith

  free_slots-quotas :
      (s k : ℕ) (acc : Option ℕ) (sys : System F) (a : ℕ)
      → ((free_slots s k acc sys).quota_at a).active
        ≡ (sys.quota_at a).active - one_if (eqb k a) - one_if (at acc a)
  unfolding free_slots
  free_slots-quotas s k none sys a = ground arith
  free_slots-quotas s k (some b) sys a = ground arith

  free_slots-Held :
      (xs ys : List (Lease F)) (l : Lease F) (sys : System F)
      → Held sys (xs ++ l ∷ ys)
      → Held (free_slots l.state l.quota l.account sys) (xs ++ ys)
  free_slots-Held xs ys l sys h = record {
    total = omega (
      arith,
      h.total,
      free_slots-active l.state l.quota l.account sys,
      length-append xs (l ∷ ys),
      length-append xs ys,
    );
    states = λ a. omega (
      arith,
      h.states a,
      free_slots-states l.state l.quota l.account sys a,
      in_state-append a xs (l ∷ ys),
      in_state-append a xs ys,
    );
    quotas = λ a. omega (
      arith,
      h.quotas a,
      free_slots-quotas l.state l.quota l.account sys a,
      in_quota-append a xs (l ∷ ys),
      in_quota-append a xs ys,
    );
  }

  settle_state-active :
      (clock : ℕ → ℕ) (status : ℤ) (started : ℕ) (st : State F)
      → (settle_state clock status started st).active ≡ st.active
  unfolding settle_state
  settle_state-active clock status started st = ground arith

  settle_quota-active :
      (now : ℕ) (status retry : ℤ) (a : Quota F)
      → (settle_quota now status retry a).active ≡ a.active
  unfolding settle_quota
  settle_quota-active now status retry a = ground arith

  settle_release-Held :
      (clock : ℕ → ℕ) (status retry : ℤ) (l : Lease F) (ls : List (Lease F)) (sys : System F)
      → Held sys ls
      → Held (settle_release clock status retry l sys) ls
  unfolding settle_release
  settle_release-Held clock status retry l ls sys h = record {
    total = h.total;
    states = λ a.
        ground
          (arith, h.states a, settle_state-active clock status l.started (sys.state_at l.state));
    quotas = λ a.
        ground
          (arith, h.quotas a, settle_quota-active (clock 2) status retry (sys.quota_at l.quota));
  }

module _ {F : Type 0} ⦃fl : Float64 F⦄ ⦃sha : Sha256⦄ (canceled : ℕ → Bool) (clock : ℕ → ℕ)
    (status retry : ℤ) where
  pub signal-Held :
      (now ρ : ℕ) (sys : System F) (ls : List (Lease F))
      → Held sys ls
      → Held (signal canceled now ρ sys) ls
  unfolding signal
  signal-Held now ρ sys ls h = record { total = h.total; states = h.states; quotas = h.quotas }

  if-Held :
      (b : Bool) (x y : System F) (ls : List (Lease F))
      → Held x ls
      → Held y ls
      → Held (if b then x else y) ls
  if-Held true x y ls hx hy = hx
  if-Held false x y ls hx hy = hy

  release-once :
      (l : Lease F) (sys : System F) → (release canceled clock status retry l sys).0.once ≡ true
  unfolding release
  release-once l sys = ground arith

  -- The release of a lease that is held takes the lease, and nothing else, from what the counters
  -- of the router, the sources, the quotas and the accounts say is held. With every status.
  pub release-Held :
      (xs ys : List (Lease F)) (l : Lease F) (sys : System F)
      → l.once ≡ false
      → Held sys (xs ++ l ∷ ys)
      → Held (release canceled clock status retry l sys).1 (xs ++ ys)
  unfolding release
  release-Held xs ys l sys e h =
      subst {A = Lease F × System F} (λ z. Held z.1 (xs ++ ys)) (sym (if_false l.once _ _ e))
        (signal-Held (clock 5) _ _ (xs ++ ys) (
          if-Held (eqb_ℤ status minus_one) _ _ (xs ++ ys) freed
            (settle_release-Held clock status retry l (xs ++ ys) _ freed)))
    where
      freed : Held (free_slots l.state l.quota l.account sys) (xs ++ ys)
      freed = free_slots-Held xs ys l sys h

  -- Releasing a lease again changes nothing.
  pub release_again :
      (canceled' : ℕ → Bool) (clock' : ℕ → ℕ) (status' retry' : ℤ) (l : Lease F)
      (sys sys' : System F)
      → let released = (release canceled clock status retry l sys).0 in
        release canceled' clock' status' retry' released sys' ≡ (released, sys')
  unfolding release
  release_again canceled' clock' status' retry' l sys sys' = if_true _ _ _ (release-once l sys)

  release-state_at :
      (l : Lease F) (sys : System F) (a : ℕ)
      → l.once ≡ false
      → eqb_ℤ status minus_one ≡ false
      → (release canceled clock status retry l sys).1.state_at a
        ≡ (settle_release clock status retry l (free_slots l.state l.quota l.account sys)).state_at
            a
  unfolding release signal
  release-state_at l sys a e n =
      ap {A = Lease F × System F} (λ z. z.1.state_at a) (if_false l.once _ _ e)
      ∙ ap {A = System F} (λ z. z.state_at a) (if_false (eqb_ℤ status minus_one) _ _ n)

  release-quota_at :
      (l : Lease F) (sys : System F) (a : ℕ)
      → l.once ≡ false
      → eqb_ℤ status minus_one ≡ false
      → (release canceled clock status retry l sys).1.quota_at a
        ≡ (settle_release clock status retry l (free_slots l.state l.quota l.account sys)).quota_at
            a
  unfolding release signal
  release-quota_at l sys a e n =
      ap {A = Lease F × System F} (λ z. z.1.quota_at a) (if_false l.once _ _ e)
      ∙ ap {A = System F} (λ z. z.quota_at a) (if_false (eqb_ℤ status minus_one) _ _ n)

  settle_release-blocked :
      (l : Lease F) (sys : System F)
      → (status ≡ pos 401) ⊎ (status ≡ pos 403)
      → ((settle_release clock status retry l sys).state_at l.state).blocked ≡ true
  unfolding settle_release settle_state
  settle_release-blocked l sys s = ground arith

  -- After a 401 or a 403 no router finds a target of that state eligible, but for a probe.
  pub release_blocks :
      (l : Lease F) (sys : System F) (r : Router F) (t : Target F) (q : Query F)
      → l.once ≡ false
      → (status ≡ pos 401) ⊎ (status ≡ pos 403)
      → state_addr r t.source ≡ l.state
      → q.probe ≡ false
      → eligible (release canceled clock status retry l sys).1 r t q ≢ none
  unfolding state_of
  release_blocks l sys r t q e s same p h =
      let after = (release canceled clock status retry l sys).1 in
      let served = eligible-Serves after r t q h in
      cc (
        served.unblocked p,
        same,
        release-state_at l sys l.state e (ground arith),
        settle_release-blocked l (free_slots l.state l.quota l.account sys) s,
      )

  settle_release-cooldown :
      (l : Lease F) (sys : System F) (wait : ℕ)
      → status ≡ pos 429
      → Pause retry wait
      → ((settle_release clock status retry l sys).quota_at l.quota).cooldown ≡ clock 2 + wait
  unfolding settle_release settle_quota
  settle_release-cooldown l sys wait s c = ground (arith, quota_cooldown-Pause retry wait c)

  busy_while :
      (sys : System F) (r : Router F) (i now : ℕ)
      → now < (quota_of sys r i).cooldown
      → busy sys r i now ≡ true
  unfolding busy
  busy_while sys r i now h = ground arith

  -- After a 429 the cooldown of the quota ends 30 seconds later where the answer asks for no time, at
  -- the time it asks for, and a day later where it asks for more. Until then every source of the
  -- quota is busy. The lease was not released before.
  pub release_cools :
      (l : Lease F) (sys : System F) (r : Router F) (i now wait : ℕ)
      → l.once ≡ false
      → status ≡ pos 429
      → quota_addr r i ≡ l.quota
      → Pause retry wait
      → now < clock 2 + wait
      → let after = (release canceled clock status retry l sys).1 in
        ((quota_of after r i).cooldown ≡ clock 2 + wait) × (busy after r i now ≡ true)
  unfolding quota_of
  release_cools l sys r i now wait e s same c h =
      let after = (release canceled clock status retry l sys).1 in
      let p : (quota_of after r i).cooldown ≡ clock 2 + wait =
        ap (λ a. (after.quota_at a).cooldown) same
        ∙ (ap (λ a. a.cooldown) (release-quota_at l sys l.quota e (ground arith))
            ∙ settle_release-cooldown l (free_slots l.state l.quota l.account sys) wait s c) in
      (p, busy_while after r i now (omega arith))
