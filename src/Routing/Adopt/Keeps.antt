-- ===== src/Routing/Adopt/Keeps.antt =====
-- internal/routing/reconfigure.go: the counters across Adopt.
use clash_of_tokens.Base.{
  ℕ, suc, inl, inr, Bool, List, [], ◌∷◌, Option, none, some, arith, ◌==◌, if◌then◌else◌, Bool-cases,
}
use clash_of_tokens.Base.Float.{Float64}
use clash_of_tokens.Config.{Source}
use clash_of_tokens.Routing.Types.{Router, System, Lease, account_addr}
use clash_of_tokens.Routing.Pools.{Sha256}
use clash_of_tokens.Routing.Acquire.Held.{Held}
use clash_of_tokens.Routing.Queue.{signal}
use clash_of_tokens.Routing.Adopt.{
  Joining, join_state, join_quota, join_own, join_account, join_sources, prune, retire, adopt,
}

module _ {F : Type 0} (ls : List (Lease F)) where
  abbrev HeldBy : Joining F → Type 0
  HeldBy j = Held j.system ls

  join_state-Held : (i : ℕ) (s : Source F) (j : Joining F) → HeldBy j → HeldBy (join_state i s j)
  unfolding join_state
  join_state-Held i s j h = record {
    total = h.total;
    states = λ a. ground (arith, h.states a);
    quotas = h.quotas;
  }

  join_quota-Held : (i : ℕ) (s : Source F) (j : Joining F) → HeldBy j → HeldBy (join_quota i s j)
  unfolding join_quota
  join_quota-Held i s j h = record {
    total = h.total;
    states = h.states;
    quotas = λ a. ground (arith, h.quotas a);
  }

  join_own-Held :
      (i : ℕ) (s : Source F) (own : ℕ) (j : Joining F) → HeldBy j → HeldBy (join_own i s own j)
  unfolding join_own
  join_own-Held i s own j h = record {
    total = h.total;
    states = h.states;
    quotas = λ a. ground (arith, h.quotas a);
  }

  join_account-Held :
      (i : ℕ) (s : Source F) (j : Joining F) → HeldBy j → HeldBy (join_account i s j)
  unfolding join_account
  join_account-Held i s j h = go (account_addr j.next i)
    where
      go :
          (o : Option ℕ)
          → HeldBy (elim o [
            | none ↦ j
            | some own ↦ if s.account_id == "" then j else join_own i s own j
          ])
      go none = h
      go (some own) = elim (Bool-cases (s.account_id == "")) [
        | inl e ↦ rw e h
        | inr e ↦ rw e (join_own-Held i s own j h)
      ]

  join_sources-Held :
      (i : ℕ) (ss : List (Source F)) (j : Joining F) → HeldBy j → HeldBy (join_sources i ss j)
  unfolding join_sources
  join_sources-Held i [] j h = h
  join_sources-Held i (s ∷ ss) j h =
      let j1 = join_state i s j in
      let j2 = join_quota i s j1 in
      join_sources-Held (suc i) ss (join_account i s j2)
        (join_account-Held i s j2 (join_quota-Held i s j1 (join_state-Held i s j h)))

module _ {F : Type 0} ⦃fl : Float64 F⦄ ⦃sha : Sha256⦄ (canceled : ℕ → Bool) (now ρ : ℕ)
    (next : Router F) (sys : System F) where
  -- A new configuration changes no counter: the leases held before it are what the counters say
  -- after it, whatever router they come from.
  pub adopt-Held : (ls : List (Lease F)) → Held sys ls → Held (adopt canceled now ρ next sys) ls
  unfolding adopt prune retire signal
  adopt-Held ls h =
      let k = join_sources-Held ls 0 next.cfg.sources (record { system = sys; next = next }) h in
      record { total = k.total; states = k.states; quotas = k.quotas }
