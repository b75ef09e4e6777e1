-- ===== src/Routing/Adopt.antt =====
-- internal/routing/reconfigure.go: Adopt, and SetEnabled of router.go. Adopt puts the objects of the
-- shared capacity in the place of the new router's own where the capacity has them.
pub mod Keeps
pub mod Shares
use clash_of_tokens.Base.{
  ℕ, zero, suc, String, ◌≡◌, refl, Bool, true, false, not, ◌&&◌, ◌||◌, List, [], ◌∷◌, ◌++◌, Option,
  none, some, ◌==◌, ◌+◌, eqb, if◌then◌else◌, lookup, insert, or_else, update, set, get_or, contains,
  map, select,
}
use clash_of_tokens.Base.Int.{ℤ}
use clash_of_tokens.Base.Float.{Float64}
use clash_of_tokens.Config.{Config, Source}
use clash_of_tokens.Routing.Types.{
  State, Quota, Waiter, Router, Capacity, System, state_addr, quota_addr, account_addr,
}
use clash_of_tokens.Routing.Pools.{Sha256}
use clash_of_tokens.Routing.Heap.{modify_state, modify_quota, modify_router}
use clash_of_tokens.Routing.Queue.{signal}

-- The new router beside the system whose capacity it joins.
pub record Joining (F : Type 0) : Type 0 where
  pub system : System F
  pub next : Router F

-- What the three deletion loops leave: the entries that the new configuration names or that are
-- in use.
unfoldable pub keep_entries : List String → (ℕ → ℕ) → List (String × ℕ) → List (String × ℕ)
keep_entries named active m = select (λ e. contains named e.0 || not (eqb (active e.1) 0)) m

module _ {F : Type 0} where
  -- `st.enabled` follows the source, and a source switched on again is no longer blocked.
  unfoldable pub switch_state : Bool → State F → State F
  switch_state on st = record st {
    blocked = if not st.enabled && on then false else st.blocked;
    enabled = on;
  }

  abbrev pub limit_quota : ℤ → Quota F → Quota F
  limit_quota n a = record a { limit = n }

  unfoldable pub join_state : ℕ → Source F → Joining F → Joining F
  unfolding switch_state state_addr
  join_state i s j =
      let sys = j.system in
      let own = state_addr j.next i in
      let addr = or_else (lookup s.id sys.source_states) own in
      record {
        system = modify_state addr (switch_state s.enabled) (record sys {
          capacity = record (sys.capacity) { source_states = insert s.id addr sys.source_states };
        });
        next = record (j.next) { state = set (j.next).state i addr };
      }

  unfoldable pub join_quota : ℕ → Source F → Joining F → Joining F
  unfolding quota_addr
  join_quota i s j =
      let sys = j.system in
      let own = quota_addr j.next i in
      let addr = or_else (lookup s.quota_domain sys.quota_states) own in
      record {
        system = modify_quota addr (limit_quota s.quota_max_inflight) (record sys {
          capacity = record (sys.capacity) {
            quota_states = insert s.quota_domain addr sys.quota_states;
          };
        });
        next = record (j.next) { quotas = set (j.next).quotas i addr };
      }

  -- With `own` the account object that New made, which a bound source of a valid configuration has.
  unfoldable pub join_own : ℕ → Source F → ℕ → Joining F → Joining F
  join_own i s own j =
      let sys = j.system in
      let addr = or_else (lookup s.account_id sys.account_states) own in
      record {
        system = modify_quota addr (limit_quota (sys.quota_at own).limit) (record sys {
          capacity = record (sys.capacity) {
            account_states = insert s.account_id addr sys.account_states;
          };
        });
        next = record (j.next) { accounts = set (j.next).accounts i (some addr) };
      }

  unfoldable pub join_account : ℕ → Source F → Joining F → Joining F
  unfolding join_own account_addr
  join_account i s j = elim (account_addr j.next i) [
    | none ↦ j
    | some own ↦ if s.account_id == "" then j else join_own i s own j
  ]

  unfoldable pub join_sources : ℕ → List (Source F) → Joining F → Joining F
  unfolding join_state join_quota join_account
  join_sources i [] j = j
  join_sources i (s ∷ ss) j =
      join_sources (suc i) ss (join_account i s (join_quota i s (join_state i s j)))

  unfoldable pub prune : Config F → System F → System F
  unfolding keep_entries
  prune c sys = record sys {
    capacity = record (sys.capacity) {
      source_states =
          keep_entries (map (λ s. s.id) c.sources) (λ a. (sys.state_at a).active) sys.source_states;
      quota_states =
          keep_entries (map (λ s. s.quota_domain) c.sources) (λ a. (sys.quota_at a).active)
            sys.quota_states;
      account_states =
          keep_entries (map (λ s. s.account_id) c.sources) (λ a. (sys.quota_at a).active)
            sys.account_states;
    };
  }

  -- Every waiter of the old router gets a token.
  abbrev pub rouse_all : List (Waiter F) → List (Waiter F)
  rouse_all [] = []
  rouse_all (w ∷ ws) = record w { ready = true } ∷ rouse_all ws

  unfoldable pub retire : ℕ → System F → System F
  retire ρ sys =
      modify_router ρ (λ r. record r { retired = true; waiters = rouse_all r.waiters }) sys

module _ {F : Type 0} ⦃fl : Float64 F⦄ ⦃sha : Sha256⦄ where
  -- Adopt, of a router `next` that New compiled, which is then stored at a new address.
  unfoldable pub adopt : (ℕ → Bool) → ℕ → ℕ → Router F → System F → System F
  unfolding join_sources prune retire
  adopt canceled now ρ next sys =
      let j = join_sources 0 next.cfg.sources (record { system = sys; next = next }) in
      let pruned = prune next.cfg j.system in
      let addr = pruned.next_router in
      signal canceled now addr (
        retire ρ (record pruned {
          router_at = update pruned.router_at addr j.next;
          next_router = addr + 1;
          capacity = record (pruned.capacity) { current = addr };
        }))

  unfoldable pub find_source : String → ℕ → List (Source F) → Option ℕ
  find_source id i [] = none
  find_source id i (s ∷ ss) =
      let rest = find_source id (suc i) ss in if s.id == id then some i else rest

  unfoldable pub set_enabled : (ℕ → Bool) → ℕ → ℕ → String → Bool → System F → Bool × System F
  unfolding find_source state_addr
  set_enabled canceled now ρ id on sys =
      let r = sys.router_at ρ in
      elim (find_source id 0 r.cfg.sources) [
        | none ↦ (false, sys)
        | some i ↦ (
          true,
          signal canceled now ρ (
              modify_state (state_addr r i)
                (λ st. record st { enabled = on; blocked = if on then false else st.blocked }) sys),
        )
      ]
