-- ===== src/Routing/Compile.antt =====
-- internal/routing/router.go: New. The objects are allocated in the heap of the system; the maps of
-- the new router's own capacity are returned beside it, since Adopt puts the shared ones in place.
-- `accountLimits` and r.accountStates hold the same entries, and so do `qs` and r.quotaStates.
pub mod Idle
pub mod Places
pub mod Apart
use clash_of_tokens.Base.{
  ℕ, suc, String, Bool, true, false, ◌&&◌, List, [], ◌∷◌, ◌++◌, Option, none, some, ◌==◌, ◌+◌,
  if◌then◌else◌, lookup, insert, or_else, update,
}
use clash_of_tokens.Base.Int.{ℤ, pos, max_ℤ}
use clash_of_tokens.Base.Float.{Float64, zero_f}
use clash_of_tokens.Config.{Config, Provider, Account, Source, Group, Model}
use clash_of_tokens.Routing.Types.{Target, State, Quota, CompiledGroup, Router, System, source_of}
use clash_of_tokens.Routing.Eligible.{is_some, full_id}

-- The variables of New: the system with its heap, the router, and the maps.
pub record Build (F : Type 0) : Type 0 where
  pub system : System F
  pub router : Router F
  pub account_config : List (String × Account)
  pub provider_config : List (String × Provider)
  pub source_states : List (String × ℕ)
  pub quota_states : List (String × ℕ)
  pub account_states : List (String × ℕ)

abbrev append_at : String → ℕ → List (String × List ℕ) → List (String × List ℕ)
append_at k i m = insert k (or_else (lookup k m) [] ++ i ∷ []) m

-- The switches of a source's provider and account, on where it has none.
unfoldable pub parent_switch :
    (Provider → Bool) → (Account → Bool) → Option Provider → Option Account → Bool
parent_switch f g none none = true
parent_switch f g (some p) none = f p
parent_switch f g none (some a) = g a
parent_switch f g (some p) (some a) = f p && g a

unfoldable pub members_of : ℕ → List String → List (String × ℕ) → List (String × ℕ)
members_of i [] m = m
members_of i (id ∷ ids) m = members_of (suc i) ids (insert id i m)

module _ {F : Type 0} ⦃fl : Float64 F⦄ where
  abbrev pub new_state : Bool → State F
  new_state enabled = record {
    input_tokens = 0;
    output_tokens = 0;
    total_tokens = 0;
    estimated_cost = zero_f;
    cost_known = false;
    executions = 0;
    priced_executions = 0;
    last_execution = none;
    ttft_ms = zero_f;
    last_success = 0;
    last_failure = 0;
    last_http_status = pos 0;
    virtual_finish = zero_f;
    enabled = enabled;
    active = 0;
    cooldown = 0;
    failures = 0;
    completed = 0;
    latency = zero_f;
    blocked = false;
  }

  abbrev pub new_quota : ℤ → Quota F
  new_quota limit = record {
    last_dispatch = 0;
    virtual_finish = zero_f;
    active = 0;
    limit = limit;
    cooldown = 0;
  }

  abbrev pub alloc_state : State F → System F → System F
  alloc_state st sys = record sys {
    state_at = update sys.state_at sys.next_state st;
    next_state = sys.next_state + 1;
  }

  abbrev pub alloc_quota : Quota F → System F → System F
  alloc_quota q sys = record sys {
    quota_at = update sys.quota_at sys.next_quota q;
    next_quota = sys.next_quota + 1;
  }

  unfoldable pub add_providers : List Provider → Build F → Build F
  add_providers [] b = b
  add_providers (p ∷ ps) b =
      add_providers ps (record b { provider_config = insert p.id p b.provider_config })

  unfoldable pub add_account : Account → Build F → Build F
  add_account a b = record b {
    account_config = insert a.id a b.account_config;
    account_states = insert a.id (b.system).next_quota b.account_states;
    system = alloc_quota (new_quota a.max_inflight) b.system;
  }

  unfoldable pub add_accounts : List Account → Build F → Build F
  unfolding add_account
  add_accounts [] b = b
  add_accounts (a ∷ as') b = add_accounts as' (add_account a b)

  -- The quota of a source's domain, made when it is the domain's first.
  unfoldable pub quota_for : Source F → Build F → ℕ × Build F
  quota_for s b = elim (lookup s.quota_domain b.quota_states) [
    | some a ↦ (a, b)
    | none ↦ (
      (b.system).next_quota,
      record b {
        quota_states = insert s.quota_domain (b.system).next_quota b.quota_states;
        system = alloc_quota (new_quota s.quota_max_inflight) b.system;
      },
    )
  ]

  unfoldable pub add_targets : ℕ → List (Model F) → List (Target F) → List (Target F)
  add_targets i [] ts = ts
  add_targets i (m ∷ ms) ts = add_targets i ms (ts ++ record { source = i; model = m } ∷ [])

  -- The i-th source in the router, with its objects, and its provider and account if it has them.
  unfoldable pub link_source :
      ℕ → Source F → ℕ → Option ℕ → Option Provider → Option Account → ℕ × Build F → Build F
  unfolding parent_switch add_targets
  link_source i s state account p a (quota, b) =
      let r = b.router in
      record b {
        router = record r {
          state = r.state ++ state ∷ [];
          quotas = r.quotas ++ quota ∷ [];
          accounts = r.accounts ++ account ∷ [];
          parent_enabled =
              r.parent_enabled ++ parent_switch (λ x. x.enabled) (λ x. x.enabled) p a ∷ [];
          parent_approved =
              r.parent_approved
              ++ parent_switch (λ x. x.auto_approved) (λ x. x.auto_approved) p a ∷ [];
          pool_strategies =
              r.pool_strategies ++ (elim p [ none ↦ "" | some x ↦ x.pool_strategy ]) ∷ [];
          account_weights =
              r.account_weights
              ++ fl.of_int (max_ℤ (pos 1) (elim a [ none ↦ pos 0 | some x ↦ x.weight ])) ∷ [];
          has_pools = if is_some account then true else r.has_pools;
          targets = add_targets i s.models r.targets;
        };
      }

  -- One round of the loop over the sources, for the i-th.
  unfoldable pub add_source : ℕ → Source F → Build F → Build F
  unfolding quota_for link_source
  add_source i s b =
      link_source i s (b.system).next_state (lookup s.account_id b.account_states)
        (lookup s.provider b.provider_config) (lookup s.account_id b.account_config)
        (quota_for s (record b {
          source_states = insert s.id (b.system).next_state b.source_states;
          system = alloc_state (new_state s.enabled) b.system;
        }))

  unfoldable pub add_sources : ℕ → List (Source F) → Build F → Build F
  unfolding add_source
  add_sources i [] b = b
  add_sources i (s ∷ ss) b = add_sources (suc i) ss (add_source i s b)

  unfoldable pub compile_groups :
      List (Group F) → List (String × CompiledGroup F) → List (String × CompiledGroup F)
  unfolding members_of
  compile_groups [] m = m
  compile_groups (g ∷ gs) m =
      compile_groups gs (insert g.id (record { group = g; members = members_of 0 g.sources [] }) m)

  -- The candidates under a target's full id and under its model's.
  unfoldable pub index_targets :
      Router F → ℕ → List (Target F) → List (String × List ℕ) → List (String × List ℕ)
  unfolding full_id source_of
  index_targets r i [] m = m
  index_targets r i (t ∷ ts) m =
      index_targets r (suc i) ts
        (append_at t.model.id i (append_at (full_id (source_of r t.source) t.model) i m))

  -- The targets of one source of a group, in their order.
  unfoldable pub index_member :
      Router F
      → String
      → String
      → ℕ
      → List (Target F)
      → List (String × List ℕ)
      → List (String × List ℕ)
  unfolding source_of
  index_member r id source i [] m = m
  index_member r id source i (t ∷ ts) m =
      index_member r id source (suc i) ts
        (if (source_of r t.source).id == source then append_at id i m else m)

  unfoldable pub index_group :
      Router F → String → List String → List (String × List ℕ) → List (String × List ℕ)
  unfolding index_member
  index_group r id [] m = m
  index_group r id (s ∷ ss) m = index_group r id ss (index_member r id s 0 r.targets m)

  unfoldable pub index_groups :
      Router F → List (String × CompiledGroup F) → List (String × List ℕ) → List (String × List ℕ)
  unfolding index_group
  index_groups r [] m = m
  index_groups r ((id, g) ∷ gs) m = index_groups r gs (index_group r id g.sources m)

  abbrev pub empty_router : Config F → Router F
  empty_router c = record {
    cfg = c;
    targets = [];
    groups = [];
    candidates = [];
    state = [];
    quotas = [];
    accounts = [];
    parent_enabled = [];
    parent_approved = [];
    pool_strategies = [];
    account_weights = [];
    has_pools = false;
    waiting = 0;
    retired = false;
    cursor = 0;
    waiters = [];
  }

  -- The loops of New up to the sources.
  unfoldable pub build : Config F → System F → Build F
  unfolding add_providers add_accounts add_sources
  build c sys = add_sources 0 c.sources (
      add_accounts c.accounts (
        add_providers c.providers (record {
          system = sys;
          router = empty_router c;
          account_config = [];
          provider_config = [];
          source_states = [];
          quota_states = [];
          account_states = [];
        })))

  -- The loops of New over the groups and the targets.
  unfoldable pub index : Router F → Router F
  unfolding compile_groups index_targets index_groups
  index r =
      let groups = compile_groups r.cfg.groups [] in
      record r {
        groups = groups;
        candidates = index_groups r groups (index_targets r 0 r.targets []);
      }

  -- An empty heap.
  abbrev pub blank : Config F → System F
  blank c = record {
    capacity = record {
      events = [];
      event_cursor = 0;
      event_sequence = 0;
      active = 0;
      dispatch_sequence = 0;
      source_states = [];
      quota_states = [];
      account_states = [];
      current = 0;
    };
    state_at = λ a. new_state false;
    next_state = 0;
    quota_at = λ a. new_quota (pos 0);
    next_quota = 0;
    router_at = λ ρ. empty_router c;
    next_router = 0;
    next_waiter = 0;
  }

  -- The first router of a process, at the address 0, and its own capacity.
  unfoldable pub new : Config F → System F
  unfolding build index
  new c =
      let b = build c (blank c) in
      let sys = b.system in
      record sys {
        capacity = record (sys.capacity) {
          source_states = b.source_states;
          quota_states = b.quota_states;
          account_states = b.account_states;
        };
        router_at = update sys.router_at 0 (index b.router);
        next_router = 1;
      }
