-- ===== src/Routing/Compile/Idle.antt =====
-- internal/routing/router.go: the counters after New.
use clash_of_tokens.Base.{ℕ, suc, ◌≡◌, refl, List, [], ◌∷◌, arith}
use clash_of_tokens.Base.Float.{Float64}
use clash_of_tokens.Config.{Config, Provider, Account, Source}
use clash_of_tokens.Routing.Types.{System}
use clash_of_tokens.Routing.Compile.{
  Build, add_providers, add_account, add_accounts, quota_for, add_source, add_sources, build, new,
}

module _ {F : Type 0} where
  -- No counter says that anything is held.
  pub record Idle (sys : System F) : Type 0 where
    pub total : sys.active ≡ 0
    pub states : (a : ℕ) → (sys.state_at a).active ≡ 0
    pub quotas : (a : ℕ) → (sys.quota_at a).active ≡ 0

module _ {F : Type 0} ⦃fl : Float64 F⦄ where
  add_providers-Idle :
      (ps : List Provider) (b : Build F) → Idle b.system → Idle (add_providers ps b).system
  unfolding add_providers
  add_providers-Idle [] b h = h
  add_providers-Idle (p ∷ ps) b h = add_providers-Idle ps (record b { provider_config = _ }) h

  add_account-Idle : (a : Account) (b : Build F) → Idle b.system → Idle (add_account a b).system
  unfolding add_account
  add_account-Idle a b h = record {
    total = h.total;
    states = h.states;
    quotas = λ x. ground (arith, h.quotas x);
  }

  add_accounts-Idle :
      (as' : List Account) (b : Build F) → Idle b.system → Idle (add_accounts as' b).system
  unfolding add_accounts
  add_accounts-Idle [] b h = h
  add_accounts-Idle (a ∷ as') b h = add_accounts-Idle as' (add_account a b) (add_account-Idle a b h)

  quota_for-Idle : (s : Source F) (b : Build F) → Idle b.system → Idle (quota_for s b).1.system
  unfolding quota_for
  quota_for-Idle s b h = record {
    total = ground (arith, h.total);
    states = λ x. ground (arith, h.states x);
    quotas = λ x. ground (arith, h.quotas x);
  }

  add_source-Idle :
      (i : ℕ) (s : Source F) (b : Build F) → Idle b.system → Idle (add_source i s b).system
  unfolding add_source
  add_source-Idle i s b h =
      quota_for-Idle s _
        (record { total = h.total; states = λ x. ground (arith, h.states x); quotas = h.quotas })

  add_sources-Idle :
      (i : ℕ) (ss : List (Source F)) (b : Build F)
      → Idle b.system
      → Idle (add_sources i ss b).system
  unfolding add_sources
  add_sources-Idle i [] b h = h
  add_sources-Idle i (s ∷ ss) b h =
      add_sources-Idle (suc i) ss (add_source i s b) (add_source-Idle i s b h)

  pub new-Idle : (c : Config F) → Idle (new c)
  unfolding new build
  new-Idle c =
      let h = add_sources-Idle 0 c.sources _ (
        add_accounts-Idle c.accounts _ (
          add_providers-Idle c.providers _
            (record { total = refl; states = λ a. refl; quotas = λ a. refl }))) in
      record { total = h.total; states = h.states; quotas = h.quotas }
