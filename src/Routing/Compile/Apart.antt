-- ===== src/Routing/Compile/Apart.antt =====
-- internal/routing/router.go: New gives each source a state of its own, and an account's counter is
-- never a quota's.
use clash_of_tokens.Base.{
  ℕ, zero, suc, ◌≡◌, refl, sym, ap, subst, ◌∙◌, List, [], ◌∷◌, ◌++◌, Option, none, some, arith, ◌+◌,
  ◌≤◌, ◌<◌, length, length-append, get_or, lookup, insert, All, All-append,
}
use clash_of_tokens.Base.Float.{Float64}
use clash_of_tokens.Config.{Config, Provider, Account, Source, Model}
use clash_of_tokens.Routing.Types.{
  Target, no_target, target_of, state_addr, quota_addr, account_addr,
}
use clash_of_tokens.Routing.Acquire.Limits.{Separate}
use clash_of_tokens.Routing.Compile.{
  Build, add_providers, add_account, add_accounts, quota_for, add_targets, add_source, add_sources,
  build, index, new, link_source, alloc_state, alloc_quota, new_state, new_quota, empty_router,
  blank,
}
use clash_of_tokens.Routing.Compile.Places.{
  Values, insert-Values, Given, given, lookup-Given, All-map, Numbered, Numbered-append,
  get_or-Numbered, apart_at,
}

module _ {F : Type 0} where
  -- What the loops of New keep: `i` sources are in the router, `n` states are made, and the addresses
  -- from `base` on are of quotas.
  record Apart (base i n : ℕ) (c : Config F) (b : Build F) : Type 0 where
    config : b.router.cfg ≡ c
    numbered : Numbered 0 b.router.state
    state_count : length b.router.state ≡ i
    next_state : b.system.next_state ≡ n
    account_map : Values (λ a. a < base) b.account_states
    quota_map : Values (λ a. base ≤ a) b.quota_states
    next_quota : base ≤ b.system.next_quota
    accounts : All (Given (λ a. a < base)) b.router.accounts
    account_count : length b.router.accounts ≡ i
    quotas : All (λ a. base ≤ a) b.router.quotas
    quota_count : length b.router.quotas ≡ i
    targets : All (λ t. t.source < i) b.router.targets

  record Made (base i n : ℕ) (c : Config F) (z : ℕ × Build F) : Type 0 where
    above : base ≤ z.0
    apart : Apart base i n c z.1

module _ {F : Type 0} ⦃fl : Float64 F⦄ where
  quota_or_new-Made :
      (base i n : ℕ) (c : Config F) (s : Source F) (b : Build F) (o : Option ℕ)
      → Given (λ a. base ≤ a) o
      → Apart base i n c b
      → Made base i n c (elim o [
        | some a ↦ (a, b)
        | none ↦ (
          (b.system).next_quota,
          record b {
            quota_states = insert s.quota_domain (b.system).next_quota b.quota_states;
            system = alloc_quota (new_quota s.quota_max_inflight) b.system;
          },
        )
      ])
  quota_or_new-Made base i n c s b (some a) (given g) h = record { above = g; apart = h }
  quota_or_new-Made base i n c s b none g h = record {
    above = h.next_quota;
    apart = record {
      config = h.config;
      numbered = h.numbered;
      state_count = h.state_count;
      next_state = h.next_state;
      account_map = h.account_map;
      quota_map =
          insert-Values (λ a. base ≤ a) s.quota_domain _ b.quota_states h.next_quota h.quota_map;
      next_quota = omega (arith, h.next_quota);
      accounts = h.accounts;
      account_count = h.account_count;
      quotas = h.quotas;
      quota_count = h.quota_count;
      targets = h.targets;
    };
  }

  quota_for-Made :
      (base i n : ℕ) (c : Config F) (s : Source F) (b : Build F)
      → Apart base i n c b
      → Made base i n c (quota_for s b)
  unfolding quota_for
  quota_for-Made base i n c s b h =
      quota_or_new-Made base i n c s b (lookup s.quota_domain b.quota_states)
        (lookup-Given (λ a. base ≤ a) s.quota_domain b.quota_states h.quota_map) h

  add_targets-source :
      (i : ℕ) (ms : List (Model F)) (ts : List (Target F))
      → All (λ t. t.source < suc i) ts
      → All (λ t. t.source < suc i) (add_targets i ms ts)
  unfolding add_targets
  add_targets-source i [] ts h = h
  add_targets-source i (m ∷ ms) ts h =
      add_targets-source i ms (ts ++ record { source = i; model = m } ∷ []) (
        All-append (λ t. t.source < suc i) ts (record { source = i; model = m } ∷ []) h
          (omega arith, tt))

  link_source-Apart :
      (base i : ℕ) (c : Config F) (s : Source F) (account : Option ℕ) (p : Option Provider)
      (a : Option Account) (z : ℕ × Build F)
      → Given (λ x. x < base) account
      → Made base i (suc i) c z
      → Apart base (suc i) (suc i) c (link_source i s i account p a z)
  unfolding link_source
  link_source-Apart base i c s account p a (quota, b) g m =
      let h = m.apart in
      record {
        config = h.config;
        numbered = Numbered-append 0 i b.router.state h.numbered (omega (arith, h.state_count));
        state_count = omega (arith, length-append b.router.state (i ∷ []), h.state_count);
        next_state = h.next_state;
        account_map = h.account_map;
        quota_map = h.quota_map;
        next_quota = h.next_quota;
        accounts =
            All-append (Given (λ x. x < base)) b.router.accounts (account ∷ []) h.accounts (g, tt);
        account_count =
            omega (arith, length-append b.router.accounts (account ∷ []), h.account_count);
        quotas = All-append (λ x. base ≤ x) b.router.quotas (quota ∷ []) h.quotas (m.above, tt);
        quota_count = omega (arith, length-append b.router.quotas (quota ∷ []), h.quota_count);
        targets = add_targets-source i s.models b.router.targets (
            All-map (λ t. t.source < i) (λ t. t.source < suc i) b.router.targets
              (λ t l. omega (arith, l)) h.targets);
      }

  add_source-Apart :
      (base i : ℕ) (c : Config F) (s : Source F) (b : Build F)
      → Apart base i i c b
      → Apart base (suc i) (suc i) c (add_source i s b)
  unfolding add_source
  add_source-Apart base i c s b h =
      subst
        (λ n. Apart base (suc i) (suc i) c (
          link_source i s n (lookup s.account_id b.account_states)
            (lookup s.provider b.provider_config) (lookup s.account_id b.account_config)
            (quota_for s (record b {
              source_states = insert s.id (b.system).next_state b.source_states;
              system = alloc_state (new_state s.enabled) b.system;
            }))))
        (sym h.next_state)
        (link_source-Apart base i c s (lookup s.account_id b.account_states)
          (lookup s.provider b.provider_config) (lookup s.account_id b.account_config) _
          (lookup-Given (λ x. x < base) s.account_id b.account_states h.account_map)
          (quota_for-Made base i (suc i) c s _ (record {
            config = h.config;
            numbered = h.numbered;
            state_count = h.state_count;
            next_state = omega (arith, h.next_state);
            account_map = h.account_map;
            quota_map = h.quota_map;
            next_quota = h.next_quota;
            accounts = h.accounts;
            account_count = h.account_count;
            quotas = h.quotas;
            quota_count = h.quota_count;
            targets = h.targets;
          })))

  add_sources-Apart :
      (base i : ℕ) (c : Config F) (ss : List (Source F)) (b : Build F)
      → Apart base i i c b
      → let n = i + length ss in Apart base n n c (add_sources i ss b)
  unfolding add_sources
  add_sources-Apart base i c [] b h =
      let e : i ≡ i + 0 = omega arith in subst (λ n. Apart base n n c b) e h
  add_sources-Apart base i c (s ∷ ss) b h =
      let e : suc i + length ss ≡ i + length (s ∷ ss) = omega arith in
      subst (λ n. Apart base n n c (add_sources (suc i) ss (add_source i s b))) e
        (add_sources-Apart base (suc i) c ss (add_source i s b) (add_source-Apart base i c s b h))

  -- The loops of New up to the accounts.
  record Begun (c : Config F) (b : Build F) : Type 0 where
    router : b.router ≡ empty_router c
    next_state : b.system.next_state ≡ 0
    quota_map : b.quota_states ≡ []
    account_map : Values (λ a. a < b.system.next_quota) b.account_states

  add_providers-Begun :
      (c : Config F) (ps : List Provider) (b : Build F) → Begun c b → Begun c (add_providers ps b)
  unfolding add_providers
  add_providers-Begun c [] b h = h
  add_providers-Begun c (p ∷ ps) b h = add_providers-Begun c ps _ (record {
    router = h.router;
    next_state = h.next_state;
    quota_map = h.quota_map;
    account_map = h.account_map;
  })

  add_account-Begun :
      (c : Config F) (a : Account) (b : Build F) → Begun c b → Begun c (add_account a b)
  unfolding add_account
  add_account-Begun c a b h =
      let n = b.system.next_quota in
      record {
        router = h.router;
        next_state = h.next_state;
        quota_map = h.quota_map;
        account_map =
            insert-Values (λ x. x < n + 1) a.id n b.account_states (omega arith)
              (All-map (λ e. e.1 < n) (λ e. e.1 < n + 1) b.account_states (λ e l. omega (arith, l))
                h.account_map);
      }

  add_accounts-Begun :
      (c : Config F) (as' : List Account) (b : Build F) → Begun c b → Begun c (add_accounts as' b)
  unfolding add_accounts
  add_accounts-Begun c [] b h = h
  add_accounts-Begun c (a ∷ as') b h =
      add_accounts-Begun c as' (add_account a b) (add_account-Begun c a b h)

  Begun-Apart : (c : Config F) (b : Build F) → Begun c b → Apart b.system.next_quota 0 0 c b
  Begun-Apart c b h =
      let e = sym h.router in
      record {
        config = ap (λ r. r.cfg) h.router;
        numbered = subst (λ r. Numbered 0 r.state) e tt;
        state_count = ap (λ r. length r.state) h.router;
        next_state = h.next_state;
        account_map = h.account_map;
        quota_map = subst (Values (λ a. b.system.next_quota ≤ a)) (sym h.quota_map) tt;
        next_quota = omega arith;
        accounts = subst (λ r. All (Given (λ a. a < b.system.next_quota)) r.accounts) e tt;
        account_count = ap (λ r. length r.accounts) h.router;
        quotas = subst (λ r. All (λ a. b.system.next_quota ≤ a) r.quotas) e tt;
        quota_count = ap (λ r. length r.quotas) h.router;
        targets = subst (λ r. All (λ t. t.source < 0) r.targets) e tt;
      }

  target-source :
      (n idx : ℕ) (ts : List (Target F))
      → 0 < n
      → All (λ t. t.source < n) ts
      → (get_or ts idx no_target).source < n
  target-source n idx [] p h = p
  target-source n zero (t ∷ ts) p h = h.0
  target-source n (suc idx) (t ∷ ts) p h = target-source n idx ts p h.1

  Apart-Separate :
      (base n : ℕ) (c : Config F) (b : Build F)
      → Apart base n n c b
      → length c.sources ≡ n
      → 0 < n
      → Separate (index b.router)
  unfolding index state_addr quota_addr account_addr target_of
  Apart-Separate base n c b h e p =
      let count : length b.router.cfg.sources ≡ n = ap (λ x. length x.sources) h.config ∙ e in
      record {
        states = λ i j li lj s. omega (
          arith,
          s,
          get_or-Numbered 0 i b.router.state h.numbered (omega (arith, h.state_count, count)),
          get_or-Numbered 0 j b.router.state h.numbered (omega (arith, h.state_count, count)),
        );
        accounts = λ i.
            apart_at base i b.router.accounts b.router.quotas h.accounts h.quotas
              (h.account_count ∙ sym h.quota_count);
        targets = λ idx.
            subst (λ m. (get_or b.router.targets idx no_target).source < m) (sym count)
              (target-source n idx b.router.targets p h.targets);
      }

  abbrev unbuilt : Config F → Build F
  unbuilt c = record {
    system = blank c;
    router = empty_router c;
    account_config = [];
    provider_config = [];
    source_states = [];
    quota_states = [];
    account_states = [];
  }

  -- New gives each of the sources a state of its own, and no account the counter of a quota.
  pub new-Separate : (c : Config F) → 0 < length c.sources → Separate ((new c).router_at 0)
  unfolding new build
  new-Separate c p =
      let n = 0 + length c.sources in
      let b = add_accounts c.accounts (add_providers c.providers (unbuilt c)) in
      let begun = add_accounts-Begun c c.accounts (add_providers c.providers (unbuilt c)) (
        add_providers-Begun c c.providers (unbuilt c)
          (record { router = refl; next_state = refl; quota_map = refl; account_map = tt })) in
      Apart-Separate b.system.next_quota n c (add_sources 0 c.sources b)
        (add_sources-Apart b.system.next_quota 0 c c.sources b (Begun-Apart c b begun))
        (omega arith) (omega (arith, p))
