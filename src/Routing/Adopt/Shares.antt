-- ===== src/Routing/Adopt/Shares.antt =====
-- internal/routing/reconfigure.go: the addresses that Adopt leaves in the new router.
use clash_of_tokens.Base.{
  ℕ, zero, suc, String, ◌≡◌, refl, sym, subst, ap, ◌∙◌, inl, inr, Bool, List, [], ◌∷◌, some, arith,
  ◌+◌, ◌<◌, ◌==◌, eq_iff, length, Bool-cases, if_true, if_false, lookup, insert, lookup-insert,
  or_else, set, get_or, get_elem?, length-set,
}
use clash_of_tokens.Base.Float.{Float64}
use clash_of_tokens.Config.{Source}
use clash_of_tokens.Routing.Types.{Router, System, state_addr, quota_addr}
use clash_of_tokens.Routing.Pools.{Sha256}
use clash_of_tokens.Routing.Queue.{signal}
use clash_of_tokens.Routing.Adopt.{
  Joining, join_state, join_quota, join_own, join_account, join_sources, prune, retire, adopt,
}

from_zero : (k : ℕ) → 0 + k ≡ k
from_zero k = omega arith

get_or-set : (xs : List ℕ) (i v : ℕ) → i < length xs → get_or (set xs i v) i 0 ≡ v
get_or-set [] i v l = absurd (omega arith)
get_or-set (x ∷ xs) zero v l = refl
get_or-set (x ∷ xs) (suc i) v l = get_or-set xs i v (omega arith)

get_or-set_other : (xs : List ℕ) (i k v : ℕ) → k < i → get_or (set xs i v) k 0 ≡ get_or xs k 0
get_or-set_other [] i k v l = refl
get_or-set_other (x ∷ xs) zero k v l = absurd (omega arith)
get_or-set_other (x ∷ xs) (suc i) zero v l = refl
get_or-set_other (x ∷ xs) (suc i) (suc k) v l = get_or-set_other xs i k v (omega arith)

-- An entry stays where another key gets its own entry, or the one that it has.
lookup-keep :
    (m : List (String × ℕ)) (key id : String) (own a : ℕ)
    → lookup id m ≡ some a
    → lookup id (insert key (or_else (lookup key m) own) m) ≡ some a
lookup-keep m key id own a h =
    sym (lookup-insert m (or_else (lookup key m) own) key id) ∙ (elim (Bool-cases (key == id)) [
      | inl e ↦
          if_true (key == id) _ _ e
          ∙ ap some (found (ap (λ k. lookup k m) ((eq_iff key id).0 e) ∙ h))
      | inr e ↦ if_false (key == id) _ _ e ∙ h
    ])
  where
    found : lookup key m ≡ some a → or_else (lookup key m) own ≡ a
    found p = ap (λ o. or_else o own) p

module _ {F : Type 0} where
  abbrev one : ℕ → Source F → Joining F → Joining F
  one i s j = join_account i s (join_quota i s (join_state i s j))

  -- What one round leaves of the maps and the lists.
  record Joined (i : ℕ) (s : Source F) (j k : Joining F) : Type 0 where
    states :
        k.system.source_states
        ≡ insert s.id
            (or_else (lookup s.id j.system.source_states) (get_or j.next.state i 0))
            j.system.source_states
    quotas :
        k.system.quota_states
        ≡ insert s.quota_domain
            (or_else (lookup s.quota_domain j.system.quota_states) (get_or j.next.quotas i 0))
            j.system.quota_states
    own_states :
        k.next.state
        ≡ set
            (j.next).state
            i
            (or_else (lookup s.id j.system.source_states) (get_or j.next.state i 0))
    own_quotas :
        k.next.quotas
        ≡ set
            (j.next).quotas
            i
            (or_else (lookup s.quota_domain j.system.quota_states) (get_or j.next.quotas i 0))
    routers : k.system.next_router ≡ j.system.next_router

  one-Joined : (i : ℕ) (s : Source F) (j : Joining F) → Joined i s j (one i s j)
  unfolding join_account join_own join_quota join_state state_addr quota_addr
  one-Joined i s j = record {
    states = ground arith;
    quotas = ground arith;
    own_states = ground arith;
    own_quotas = ground arith;
    routers = ground arith;
  }

  -- Rounds for later sources leave the addresses of earlier ones.
  later-state :
      (i k : ℕ) (ss : List (Source F)) (j : Joining F)
      → k < i
      → get_or (join_sources i ss j).next.state k 0 ≡ get_or j.next.state k 0
  unfolding join_sources
  later-state i k [] j l = refl
  later-state i k (s ∷ ss) j l =
      later-state (suc i) k ss (one i s j) (omega arith)
      ∙ (ap (λ xs. get_or xs k 0) (one-Joined i s j).own_states
          ∙ get_or-set_other (j.next).state i k
              (or_else (lookup s.id j.system.source_states) (get_or j.next.state i 0)) l)

  later-quota :
      (i k : ℕ) (ss : List (Source F)) (j : Joining F)
      → k < i
      → get_or (join_sources i ss j).next.quotas k 0 ≡ get_or j.next.quotas k 0
  unfolding join_sources
  later-quota i k [] j l = refl
  later-quota i k (s ∷ ss) j l =
      later-quota (suc i) k ss (one i s j) (omega arith)
      ∙ (ap (λ xs. get_or xs k 0) (one-Joined i s j).own_quotas
          ∙ get_or-set_other (j.next).quotas i k
              (or_else (lookup s.quota_domain j.system.quota_states) (get_or j.next.quotas i 0)) l)

  joins-state :
      (i k : ℕ) (ss : List (Source F)) (j : Joining F) (s : Source F) (a : ℕ)
      → get_elem? ss k ≡ some s
      → i + k < length j.next.state
      → lookup s.id j.system.source_states ≡ some a
      → get_or (join_sources i ss j).next.state (i + k) 0 ≡ a
  unfolding join_sources
  joins-state i k [] j s a e l h = cc
  joins-state i zero (x ∷ ss) j s a e l h =
      let p : x ≡ s = cc in
      let addr = or_else (lookup x.id j.system.source_states) (get_or j.next.state i 0) in
      let found : addr ≡ a =
        ap (λ o. or_else o (get_or j.next.state i 0))
          (subst (λ y. lookup y.id j.system.source_states ≡ some a) (sym p) h) in
      subst (λ n. get_or (join_sources (suc i) ss (one i x j)).next.state n 0 ≡ a) (omega arith)
        (later-state (suc i) i ss (one i x j) (omega arith)
          ∙ (ap (λ xs. get_or xs i 0) (one-Joined i x j).own_states
              ∙ (get_or-set (j.next).state i addr (omega arith) ∙ found)))
  joins-state i (suc k) (x ∷ ss) j s a e l h =
      let r = one-Joined i x j in
      let own = get_or j.next.state i 0 in
      subst (λ n. get_or (join_sources (suc i) ss (one i x j)).next.state n 0 ≡ a) (omega arith)
        (joins-state (suc i) k ss (one i x j) s a e
          (omega (
            arith,
            ap {A = List ℕ} length r.own_states,
            length-set (j.next).state i (or_else (lookup x.id j.system.source_states) own),
          ))
          (ap (λ m. lookup s.id m) r.states ∙ lookup-keep j.system.source_states x.id s.id own a h))

  joins-quota :
      (i k : ℕ) (ss : List (Source F)) (j : Joining F) (s : Source F) (a : ℕ)
      → get_elem? ss k ≡ some s
      → i + k < length j.next.quotas
      → lookup s.quota_domain j.system.quota_states ≡ some a
      → get_or (join_sources i ss j).next.quotas (i + k) 0 ≡ a
  unfolding join_sources
  joins-quota i k [] j s a e l h = cc
  joins-quota i zero (x ∷ ss) j s a e l h =
      let p : x ≡ s = cc in
      let own = get_or j.next.quotas i 0 in
      let addr = or_else (lookup x.quota_domain j.system.quota_states) own in
      let found : addr ≡ a =
        ap (λ o. or_else o own)
          (subst (λ y. lookup y.quota_domain j.system.quota_states ≡ some a) (sym p) h) in
      subst (λ n. get_or (join_sources (suc i) ss (one i x j)).next.quotas n 0 ≡ a) (omega arith)
        (later-quota (suc i) i ss (one i x j) (omega arith)
          ∙ (ap (λ xs. get_or xs i 0) (one-Joined i x j).own_quotas
              ∙ (get_or-set (j.next).quotas i addr (omega arith) ∙ found)))
  joins-quota i (suc k) (x ∷ ss) j s a e l h =
      let r = one-Joined i x j in
      let own = get_or j.next.quotas i 0 in
      subst (λ n. get_or (join_sources (suc i) ss (one i x j)).next.quotas n 0 ≡ a) (omega arith)
        (joins-quota (suc i) k ss (one i x j) s a e
          (omega (
            arith,
            ap {A = List ℕ} length r.own_quotas,
            length-set (j.next).quotas i
                (or_else (lookup x.quota_domain j.system.quota_states) own),
          ))
          (ap (λ m. lookup s.quota_domain m) r.quotas
            ∙ lookup-keep j.system.quota_states x.quota_domain s.quota_domain own a h))

  joins-routers :
      (i : ℕ) (ss : List (Source F)) (j : Joining F)
      → (join_sources i ss j).system.next_router ≡ j.system.next_router
  unfolding join_sources
  joins-routers i [] j = refl
  joins-routers i (s ∷ ss) j = joins-routers (suc i) ss (one i s j) ∙ (one-Joined i s j).routers

module _ {F : Type 0} ⦃fl : Float64 F⦄ ⦃sha : Sha256⦄ (canceled : ℕ → Bool) (now ρ : ℕ)
    (next : Router F) (sys : System F) where
  -- The router that Adopt stores, with the lists of the addresses that the joining left.
  stored :
      let j = join_sources 0 next.cfg.sources (record { system = sys; next = next }) in
      let r = (adopt canceled now ρ next sys).router_at j.system.next_router in
      (r.state ≡ j.next.state) × (r.quotas ≡ j.next.quotas)
  unfolding adopt prune retire signal
  stored = (ground arith, ground arith)

  -- In the router that Adopt stores, a source whose id the capacity knows has the state object that
  -- it had, and a source whose quota domain it knows the quota that it had.
  pub adopt_shares :
      (k : ℕ) (s : Source F) (a : ℕ)
      → get_elem? next.cfg.sources k ≡ some s
      → k < length next.state
      → k < length next.quotas
      → (lookup s.id sys.source_states ≡ some a
          → state_addr ((adopt canceled now ρ next sys).router_at sys.next_router) k ≡ a)
        × (lookup s.quota_domain sys.quota_states ≡ some a
            → quota_addr ((adopt canceled now ρ next sys).router_at sys.next_router) k ≡ a)
  unfolding state_addr quota_addr
  adopt_shares k s a e l m =
      let j0 : Joining F = record { system = sys; next = next } in
      let fresh = joins-routers 0 next.cfg.sources j0 in
      let after = adopt canceled now ρ next sys in
      (
        (λ h.
            subst (λ n. get_or (after.router_at n).state k 0 ≡ a) fresh
              (ap {A = List ℕ} (λ xs. get_or xs k 0) stored.0
                ∙ subst (λ n. get_or (join_sources 0 next.cfg.sources j0).next.state n 0 ≡ a)
                    (from_zero k)
                    (joins-state 0 k next.cfg.sources j0 s a e (omega (arith, l)) h))),
        (λ h.
            subst (λ n. get_or (after.router_at n).quotas k 0 ≡ a) fresh
              (ap {A = List ℕ} (λ xs. get_or xs k 0) stored.1
                ∙ subst (λ n. get_or (join_sources 0 next.cfg.sources j0).next.quotas n 0 ≡ a)
                    (from_zero k)
                    (joins-quota 0 k next.cfg.sources j0 s a e (omega (arith, m)) h))),
      )
