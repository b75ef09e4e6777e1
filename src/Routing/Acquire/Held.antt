-- ===== src/Routing/Acquire/Held.antt =====
-- internal/routing/router.go: the slots that leases hold, counted beside the counters of the heap.
use clash_of_tokens.Base.{
  ℕ, ◌≡◌, refl, Bool, true, false, List, [], ◌∷◌, Option, none, some, arith, ◌+◌, eqb, length,
}
use clash_of_tokens.Base.Float.{Float64}
use clash_of_tokens.Routing.Types.{Query, System, Lease}
use clash_of_tokens.Routing.Acquire.{grant, take_slots}

abbrev pub one_if : Bool → ℕ
one_if true = 1
one_if false = 0

abbrev pub at : Option ℕ → ℕ → Bool
at none a = false
at (some b) a = eqb b a

module _ {F : Type 0} where
  -- How many of the leases hold a slot of the object at an address.
  abbrev pub in_state : ℕ → List (Lease F) → ℕ
  in_state a [] = 0
  in_state a (l ∷ ls) = one_if (eqb l.state a) + in_state a ls

  abbrev pub in_quota : ℕ → List (Lease F) → ℕ
  in_quota a [] = 0
  in_quota a (l ∷ ls) = one_if (eqb l.quota a) + one_if (at l.account a) + in_quota a ls

  pub record Held (sys : System F) (ls : List (Lease F)) : Type 0 where
    pub total : sys.active ≡ length ls
    pub states : (a : ℕ) → (sys.state_at a).active ≡ in_state a ls
    pub quotas : (a : ℕ) → (sys.quota_at a).active ≡ in_quota a ls

module _ {F : Type 0} ⦃fl : Float64 F⦄ where
  pub take_slots-active :
      (ρ s k : ℕ) (acc : Option ℕ) (w v : F) (sys : System F)
      → (take_slots ρ s k acc w v sys).active ≡ sys.active + 1
  unfolding take_slots
  take_slots-active ρ s k none w v sys = refl
  take_slots-active ρ s k (some b) w v sys = refl

  pub take_slots-states :
      (ρ s k : ℕ) (acc : Option ℕ) (w v : F) (sys : System F) (a : ℕ)
      → ((take_slots ρ s k acc w v sys).state_at a).active
        ≡ (sys.state_at a).active + one_if (eqb s a)
  unfolding take_slots
  take_slots-states ρ s k none w v sys a = ground arith
  take_slots-states ρ s k (some b) w v sys a = ground arith

  pub take_slots-quotas :
      (ρ s k : ℕ) (acc : Option ℕ) (w v : F) (sys : System F) (a : ℕ)
      → ((take_slots ρ s k acc w v sys).quota_at a).active
        ≡ (sys.quota_at a).active + one_if (eqb k a) + one_if (at acc a)
  unfolding take_slots
  take_slots-quotas ρ s k none w v sys a = ground arith
  take_slots-quotas ρ s k (some b) w v sys a = ground arith

  -- With the lease of a grant, the leases held are again what the counters say.
  pub grant-Held :
      (ρ idx : ℕ) (q : Query F) (now : ℕ) (sys : System F) (ls : List (Lease F))
      → Held sys ls
      → Held (grant ρ idx q now sys).1 ((grant ρ idx q now sys).0 ∷ ls)
  unfolding grant
  grant-Held ρ idx q now sys ls h = record {
    total = omega (arith, h.total, take_slots-active _ _ _ _ _ _ sys);
    states = λ a. omega (arith, h.states a, take_slots-states _ _ _ _ _ _ sys a);
    quotas = λ a. omega (arith, h.quotas a, take_slots-quotas _ _ _ _ _ _ sys a);
  }
