-- ===== src/Routing/Acquire/Limits.antt =====
-- internal/routing/router.go: the counters of the heap beside the limits of a router, its sources,
-- quotas and accounts.
use clash_of_tokens.Base.{
  ℕ, String, ◌≡◌, refl, sym, ap, subst, ◌⊎◌, inl, inr, Bool, true, false, List, Option, none, some,
  arith, ◌+◌, ◌<◌, eqb, eqb_iff, length, get_or,
}
use clash_of_tokens.Base.Int.{ℤ, pos, ◌≤ℤ◌, ◌<ℤ◌, max_ℤ}
use clash_of_tokens.Base.Float.{Float64, zero_f}
use clash_of_tokens.Routing.Types.{
  Query, Router, System, source_of, target_of, state_of, quota_of, state_addr, quota_addr,
  account_addr,
}
use clash_of_tokens.Routing.Pools.{Sha256, busy, full, account_full}
use clash_of_tokens.Routing.Choose.{choose, saturated}
use clash_of_tokens.Routing.Choose.Rounds.{Runs}
use clash_of_tokens.Routing.Choose.Sound.{choose-runs}
use clash_of_tokens.Routing.Acquire.{grant, take_slots}
use clash_of_tokens.Routing.Acquire.Held.{
  one_if, at, take_slots-active, take_slots-states, take_slots-quotas,
}

at-true : (o : Option ℕ) (a : ℕ) → at o a ≡ true → o ≡ some a
at-true none a h = cc
at-true (some b) a h = ground arith

at-false : (o : Option ℕ) (k a : ℕ) → at o k ≡ false → eqb k a ≡ true → at o a ≡ false
at-false none k a h e = refl
at-false (some b) k a h e = ground arith

-- A counter that a grant does not raise, or that ends within its limit.
abbrev pub SameOrWithin : ℕ → ℕ → ℤ → Type 0
SameOrWithin n n' limit = (n' ≡ n) ⊎ (pos n' ≤ℤ limit)

-- A counter below its limit may take one slot, of either kind.
one_slot :
    (n n' : ℕ) (limit : ℤ) (own other : Bool)
    → (own ≡ true → pos n <ℤ limit)
    → (other ≡ true → pos n <ℤ limit)
    → (own ≡ true → other ≡ false)
    → n' ≡ n + one_if own + one_if other
    → SameOrWithin n n' limit
one_slot n n' limit true true a b c e = cc (c refl)
one_slot n n' limit true false a b c e = inr (omega (arith, a refl))
one_slot n n' limit false true a b c e = inr (omega (arith, b refl))
one_slot n n' limit false false a b c e = inl (omega arith)

module _ {F : Type 0} ⦃fl : Float64 F⦄ where
  -- What a router's compilation gives: no two sources share a state, and an account's counter is
  -- never a quota's.
  pub record Separate (r : Router F) : Type 0 where
    pub states :
        (i j : ℕ)
        → i < length r.cfg.sources
        → j < length r.cfg.sources
        → state_addr r i ≡ state_addr r j
        → i ≡ j
    pub accounts : (i : ℕ) → at (account_addr r i) (quota_addr r i) ≡ false
    pub targets : (idx : ℕ) → (target_of r idx).source < length r.cfg.sources

  -- A grant on a source: the counters of the router and of what the source counts on end within
  -- their limits, and so does any other counter that is raised.
  pub record Limited (sys : System F) (r : Router F) (i : ℕ) (after : System F) : Type 0 where
    pub total : pos after.active ≤ℤ r.cfg.runtime.max_inflight
    pub source : pos (state_of after r i).active ≤ℤ (source_of r i).max_inflight
    pub quota : pos (quota_of after r i).active ≤ℤ (quota_of after r i).limit
    pub sources :
        (j : ℕ)
        → j < length r.cfg.sources
        → SameOrWithin
            (state_of sys r j).active
            (state_of after r j).active
            (source_of r j).max_inflight
    pub quotas :
        (a : ℕ)
        → SameOrWithin (sys.quota_at a).active (after.quota_at a).active (after.quota_at a).limit

  -- What a target with room leaves below its limits.
  pub record Room (sys : System F) (r : Router F) (i : ℕ) : Type 0 where
    pub total : pos sys.active <ℤ r.cfg.runtime.max_inflight
    pub source : pos (state_of sys r i).active <ℤ (source_of r i).max_inflight
    pub quota : pos (quota_of sys r i).active <ℤ (quota_of sys r i).limit
    pub account :
        (a : ℕ) → account_addr r i ≡ some a → pos (sys.quota_at a).active <ℤ (sys.quota_at a).limit

  account_full-false :
      (sys : System F) (o : Option ℕ)
      → (elim o [ none ↦ false | some a ↦ full (sys.quota_at a) ]) ≡ false
      → (a : ℕ) → o ≡ some a
      → pos (sys.quota_at a).active <ℤ (sys.quota_at a).limit
  unfolding full
  account_full-false sys none h a e = cc
  account_full-false sys (some b) h a e =
      let p : b ≡ a = cc in
      subst (λ z. pos (sys.quota_at z).active <ℤ (sys.quota_at z).limit) p (ground arith)

  pub Runs-Room :
      (sys : System F) (r : Router F) (q : Query F) (ps : List (String × String)) (now idx : ℕ)
      → Runs sys r q ps now idx
      → Room sys r (target_of r idx).source
  unfolding saturated busy account_full
  Runs-Room sys r q ps now idx run = record {
    total = ground (arith, run.room);
    source = ground (arith, run.idle);
    quota = ground (arith, run.idle);
    account = account_full-false sys (account_addr r (target_of r idx).source) run.account_room;
  }

  take_slots-limit :
      (ρ s k : ℕ) (acc : Option ℕ) (w v : F) (sys : System F) (a : ℕ)
      → ((take_slots ρ s k acc w v sys).quota_at a).limit ≡ (sys.quota_at a).limit
  unfolding take_slots
  take_slots-limit ρ s k none w v sys a = ground arith
  take_slots-limit ρ s k (some b) w v sys a = ground arith

  grant-total :
      (sys : System F) (ρ idx : ℕ) (q : Query F) (now : ℕ) (i : ℕ)
      → Room sys (sys.router_at ρ) i
      → pos (grant ρ idx q now sys).1.active ≤ℤ (sys.router_at ρ).cfg.runtime.max_inflight
  unfolding grant
  grant-total sys ρ idx q now i room = omega (arith, room.total, take_slots-active _ _ _ _ _ _ sys)

  grant-quotas :
      (sys : System F) (ρ idx : ℕ) (q : Query F) (now : ℕ)
      → Separate (sys.router_at ρ)
      → Room sys (sys.router_at ρ) (target_of (sys.router_at ρ) idx).source
      → (a : ℕ)
      → let after = (grant ρ idx q now sys).1 in
        SameOrWithin (sys.quota_at a).active (after.quota_at a).active (after.quota_at a).limit
  unfolding grant quota_of
  grant-quotas sys ρ idx q now sep room a =
      let r = sys.router_at ρ in
      let i = (target_of r idx).source in
      let k = quota_addr r i in
      let acc = account_addr r i in
      let w = fl.of_int (max_ℤ (pos 1) (source_of r i).weight) in
      let v = get_or r.account_weights i zero_f in
      let after = take_slots ρ (state_addr r i) k acc w v sys in
      subst (SameOrWithin (sys.quota_at a).active (after.quota_at a).active)
        (sym (take_slots-limit ρ (state_addr r i) k acc w v sys a))
        (one_slot (sys.quota_at a).active _ (sys.quota_at a).limit (eqb k a) (at acc a)
          (λ e.
            subst (λ z. pos (sys.quota_at z).active <ℤ (sys.quota_at z).limit) ((eqb_iff k a).0 e)
              room.quota)
          (λ e. room.account a (at-true acc a e)) (λ e. at-false acc k a (sep.accounts i) e)
          (take_slots-quotas ρ (state_addr r i) k acc w v sys a))

  grant-quota :
      (sys : System F) (ρ idx : ℕ) (q : Query F) (now : ℕ)
      → Separate (sys.router_at ρ)
      → Room sys (sys.router_at ρ) (target_of (sys.router_at ρ) idx).source
      → let r = sys.router_at ρ in
        let i = (target_of r idx).source in
        let after = (grant ρ idx q now sys).1 in
        pos (quota_of after r i).active ≤ℤ (quota_of after r i).limit
  unfolding grant quota_of
  grant-quota sys ρ idx q now sep room =
      let r = sys.router_at ρ in
      let i = (target_of r idx).source in
      let k = quota_addr r i in
      let acc = account_addr r i in
      let w = fl.of_int (max_ℤ (pos 1) (source_of r i).weight) in
      let v = get_or r.account_weights i zero_f in
      subst (λ z. pos ((take_slots ρ (state_addr r i) k acc w v sys).quota_at k).active ≤ℤ z)
        (sym (take_slots-limit ρ (state_addr r i) k acc w v sys k))
        (omega (
          arith,
          room.quota,
          ap one_if (sep.accounts i),
          ap one_if ((eqb_iff k k).1 refl),
          take_slots-quotas ρ (state_addr r i) k acc w v sys k,
        ))

  grant-source :
      (sys : System F) (ρ idx : ℕ) (q : Query F) (now : ℕ)
      → Room sys (sys.router_at ρ) (target_of (sys.router_at ρ) idx).source
      → let r = sys.router_at ρ in
        let i = (target_of r idx).source in
        pos (state_of (grant ρ idx q now sys).1 r i).active ≤ℤ (source_of r i).max_inflight
  unfolding grant state_of
  grant-source sys ρ idx q now room =
      let r = sys.router_at ρ in
      let s = state_addr r (target_of r idx).source in
      omega
        (arith, room.source, ap one_if ((eqb_iff s s).1 refl), take_slots-states ρ s _ _ _ _ sys s)

  grant-sources :
      (sys : System F) (ρ idx : ℕ) (q : Query F) (now : ℕ)
      → Separate (sys.router_at ρ)
      → Room sys (sys.router_at ρ) (target_of (sys.router_at ρ) idx).source
      → (i : ℕ) → i < length (sys.router_at ρ).cfg.sources
      → SameOrWithin
          (state_of sys (sys.router_at ρ) i).active
          (state_of (grant ρ idx q now sys).1 (sys.router_at ρ) i).active
          (source_of (sys.router_at ρ) i).max_inflight
  unfolding grant state_of
  grant-sources sys ρ idx q now sep room i lt =
      let r = sys.router_at ρ in
      let j = (target_of r idx).source in
      let own = eqb (state_addr r j) (state_addr r i) in
      one_slot (state_of sys r i).active _ (source_of r i).max_inflight own false
        (λ e.
          subst (λ z. pos (state_of sys r z).active <ℤ (source_of r z).max_inflight)
            (sep.states j i (sep.targets idx) lt ((eqb_iff _ _).0 e)) room.source)
        (λ e. cc) (λ e. refl)
        (omega (arith, take_slots-states ρ (state_addr r j) _ _ _ _ sys (state_addr r i)))

module _ {F : Type 0} ⦃fl : Float64 F⦄ ⦃sha : Sha256⦄ where
  -- When choose names a target, a grant of it leaves the router, the target's source and its quota
  -- within their limits, and every counter that it raises, an account's too, within its own; the
  -- other counters stay as they were. The router's sources have a state each, which no two share, and
  -- its accounts' counters are no quotas', as New makes them. No counter need be within its limit
  -- before.
  pub grant-Limited :
      (sys : System F) (ρ : ℕ) (q : Query F) (now : ℕ) (idx : ℕ)
      → Separate (sys.router_at ρ)
      → (choose sys (sys.router_at ρ) q now).0 ≡ some idx
      → Limited sys
          (sys.router_at ρ)
          (target_of (sys.router_at ρ) idx).source
          (grant ρ idx q now sys).1
  grant-Limited sys ρ q now idx sep e =
      let r = sys.router_at ρ in
      let run = (choose-runs sys r q now idx e).2 in
      let room = Runs-Room sys r q _ now idx run in
      record {
        total = grant-total sys ρ idx q now _ room;
        source = grant-source sys ρ idx q now room;
        quota = grant-quota sys ρ idx q now sep room;
        sources = λ i lt. grant-sources sys ρ idx q now sep room i lt;
        quotas = λ a. grant-quotas sys ρ idx q now sep room a;
      }
