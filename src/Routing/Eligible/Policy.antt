-- ===== src/Routing/Eligible/Policy.antt =====
-- internal/routing/router.go: the policy of a query and of the group that it names, said without
-- the order of the guards of eligible.
use clash_of_tokens.Base.{
  ◌≡◌, refl, ◌↔◌, ◌⊎◌, inl, inr, true, false, [], ◌++◌, Option, none, some, arith, ◌==◌,
  trim_prefix, contains, lookup, get_or, first_failure-none, AllPass, AllPass-append, Option-cases,
}
use clash_of_tokens.Base.Int.{pos, ◌≤ℤ◌, ◌<ℤ◌}
use clash_of_tokens.Base.Float.{Float64, zero_f}
use clash_of_tokens.Config.{Model}
use clash_of_tokens.Config.Pricing.{unit_cost}
use clash_of_tokens.Config.Metadata.{local_inference, billing_allowed}
use clash_of_tokens.Routing.Types.{
  Target, CompiledGroup, Query, Router, System, source_of, state_of,
}
use clash_of_tokens.Config.Tiers.{tier}
use clash_of_tokens.Routing.Eligible.{
  refused, estimated_request_cost, is_auto, group_key, full_id, request_guards, unit_cost_guard,
  request_cost_guard, is_some, not_first, tier_floor, group_guards, explicit_guards, route_guards,
  eligible,
}

module _ {F : Type 0} ⦃fl : Float64 F⦄ where
  -- What every query asks of a target. A probe looks past the switches and the block, and names
  -- its target in full.
  pub record Serves (sys : System F) (r : Router F) (t : Target F) (q : Query F) : Type 0 where
    pub probe_explicit : q.probe ≡ true → (q.model == full_id (source_of r t.source) t.model) ≡ true
    pub untried : contains q.excluded_sources (source_of r t.source).id ≡ false
    pub model_on : q.probe ≡ false → refused t.model.enabled ≡ false
    pub source_on : q.probe ≡ false → (state_of sys r t.source).enabled ≡ true
    pub parents_on : q.probe ≡ false → get_or r.parent_enabled t.source false ≡ true
    pub unblocked : q.probe ≡ false → (state_of sys r t.source).blocked ≡ false
    pub speaks : contains t.model.protocols q.protocol ≡ true
    pub fits : q.bytes ≤ℤ t.model.max_input_bytes
    pub tools : q.tools ≡ true → (t.model.tools == "native") ≡ true
    pub sees : q.vision ≡ true → t.model.vision ≡ true

  request_guards-Serves :
      (sys : System F) (r : Router F) (t : Target F) (q : Query F)
      → AllPass (request_guards sys r t q)
      → Serves sys r t q
  unfolding request_guards
  request_guards-Serves sys r t q p = record {
    probe_explicit = ground arith;
    untried = ground arith;
    model_on = ground arith;
    source_on = ground arith;
    parents_on = ground arith;
    unblocked = ground arith;
    speaks = ground arith;
    fits = ground arith;
    tools = ground arith;
    sees = ground arith;
  }

  Serves-request_guards :
      (sys : System F) (r : Router F) (t : Target F) (q : Query F)
      → Serves sys r t q
      → AllPass (request_guards sys r t q)
  unfolding request_guards
  Serves-request_guards sys r t q p = ground arith

  -- What a group asks of a target beyond that.
  pub record Admits (r : Router F) (t : Target F) (q : Query F) (g : CompiledGroup F) : Type 0 where
    pub model_approved : refused t.model.auto_approved ≡ false
    pub stateless : q.stateful ≡ false
    pub source_approved : (source_of r t.source).auto_approved ≡ true
    pub parents_approved : get_or r.parent_approved t.source false ≡ true
    pub member : is_some (lookup (source_of r t.source).id g.members) ≡ true
    pub local : g.local_only ≡ true → local_inference (source_of r t.source) ≡ true
    pub billing : billing_allowed g.group (source_of r t.source) ≡ true
    pub kind :
        (g.allowed_source_kinds ≡ [])
        ⊎ (contains g.allowed_source_kinds (source_of r t.source).source_kind ≡ true)
    pub tools : g.require_tools ≡ true → (t.model.tools == "native") ≡ true
    pub sees : g.require_vision ≡ true → t.model.vision ≡ true
    pub under_ceiling :
        (cap : F)
        → g.max_usd_per_million ≡ some cap
        → (c : F) × (unit_cost t.model ≡ some c) × (fl.lt cap c ≡ false)
    pub within_budget :
        (cap : F)
        → g.max_usd_per_request ≡ some cap
        → (c : F) × (estimated_request_cost t.model q ≡ some c)
          × (fl.lt q.spent_usd zero_f ≡ false)
          × (fl.lt cap (fl.add q.spent_usd c) ≡ false)
    pub selected :
        (g.type == "select") ≡ true → not_first g.sources (source_of r t.source).id ≡ false
    pub unrated : tier t.model.tier <ℤ pos 0 → g.allow_unrated ≡ true
    pub rated : pos 0 ≤ℤ tier t.model.tier → tier_floor g q ≤ℤ tier t.model.tier

  unit_cost_guard-false :
      (o : Option F) (m : Model F)
      → (unit_cost_guard o m).0 ≡ false
      → (cap : F) → o ≡ some cap
      → (c : F) × (unit_cost m ≡ some c) × (fl.lt cap c ≡ false)
  unfolding unit_cost_guard
  unit_cost_guard-false none m h cap e = cc
  unit_cost_guard-false (some x) m h cap e = elim (Option-cases (unit_cost m)) [
    | inl n ↦ ground arith
    | inr (c, k) ↦ (c, k, ground arith)
  ]

  request_cost_guard-false :
      (o : Option F) (m : Model F) (q : Query F)
      → (request_cost_guard o m q).0 ≡ false
      → (cap : F) → o ≡ some cap
      → (c : F) × (estimated_request_cost m q ≡ some c)
        × (fl.lt q.spent_usd zero_f ≡ false)
        × (fl.lt cap (fl.add q.spent_usd c) ≡ false)
  unfolding request_cost_guard
  request_cost_guard-false none m q h cap e = cc
  request_cost_guard-false (some x) m q h cap e = elim (Option-cases (estimated_request_cost m q)) [
    | inl n ↦ ground arith
    | inr (c, k) ↦ (c, k, ground arith, ground arith)
  ]

  group_guards-Admits :
      (r : Router F) (t : Target F) (q : Query F) (g : CompiledGroup F)
      → AllPass (group_guards r t q g)
      → Admits r t q g
  unfolding group_guards
  group_guards-Admits r t q g p = record {
    model_approved = ground arith;
    stateless = ground arith;
    source_approved = ground arith;
    parents_approved = ground arith;
    member = ground arith;
    local = ground arith;
    billing = ground arith;
    kind = ground arith;
    tools = ground arith;
    sees = ground arith;
    under_ceiling = unit_cost_guard-false g.max_usd_per_million t.model (ground arith);
    within_budget = request_cost_guard-false g.max_usd_per_request t.model q (ground arith);
    selected = ground arith;
    unrated = ground arith;
    rated = ground arith;
  }

  false-unit_cost_guard :
      (o : Option F) (m : Model F)
      → ((cap : F) → o ≡ some cap → (c : F) × (unit_cost m ≡ some c) × (fl.lt cap c ≡ false))
      → (unit_cost_guard o m).0 ≡ false
  unfolding unit_cost_guard
  false-unit_cost_guard none m h = refl
  false-unit_cost_guard (some x) m h = let (c, k, l) = h x refl in rw (k, unit_cost_guard) l

  false-request_cost_guard :
      (o : Option F) (m : Model F) (q : Query F)
      → ((cap : F)
          → o ≡ some cap
          → (c : F) × (estimated_request_cost m q ≡ some c)
            × (fl.lt q.spent_usd zero_f ≡ false)
            × (fl.lt cap (fl.add q.spent_usd c) ≡ false))
      → (request_cost_guard o m q).0 ≡ false
  unfolding request_cost_guard
  false-request_cost_guard none m q h = refl
  false-request_cost_guard (some x) m q h =
      let (c, k, l, n) = h x refl in rw (k, request_cost_guard) (rw (l, n))

  Admits-group_guards :
      (r : Router F) (t : Target F) (q : Query F) (g : CompiledGroup F)
      → Admits r t q g
      → AllPass (group_guards r t q g)
  unfolding group_guards
  Admits-group_guards r t q g a = (
    a.model_approved,
    (
      a.stateless,
      (
        ground arith,
        (
          ground arith,
          (
            ground arith,
            (
              ground arith,
              (
                ground arith,
                (
                  ground arith,
                  (
                    false-unit_cost_guard g.max_usd_per_million t.model a.under_ceiling,
                    (
                      false-request_cost_guard g.max_usd_per_request t.model q a.within_budget,
                      (ground arith, (ground arith, tt)),
                    ),
                  ),
                ),
              ),
            ),
          ),
        ),
      ),
    ),
  )

  -- An `auto/<tier>` model names one of the five tiers.
  abbrev pub NamesTier : Query F → Type 0
  NamesTier q = is_auto q ≡ true → pos 0 ≤ℤ tier (trim_prefix q.model "auto/")

  -- A target of a query that names no group is named itself, in full or, by a query without
  -- state, by its model.
  abbrev pub Named : Router F → Target F → Query F → Type 0
  Named r t q =
      ((q.model == full_id (source_of r t.source) t.model) ≡ true)
      ⊎ ((q.stateful ≡ false) × ((q.model == t.model.id) ≡ true))

  route_guards-group :
      (r : Router F) (t : Target F) (q : Query F) (g : CompiledGroup F)
      → lookup (group_key q) r.groups ≡ some g
      → AllPass (route_guards r t q) ↔ (NamesTier q × Admits r t q g)
  unfolding route_guards
  route_guards-group r t q g h =
      rw (h, route_guards)
        (
          (λ p. ((λ e. ground arith), group_guards-Admits r t q g p.1)),
          λ p. (ground (arith, p.0), Admits-group_guards r t q g p.1),
        )

  route_guards-explicit :
      (r : Router F) (t : Target F) (q : Query F)
      → lookup (group_key q) r.groups ≡ none
      → AllPass (route_guards r t q) ↔ (NamesTier q × Named r t q)
  unfolding route_guards explicit_guards
  route_guards-explicit r t q h =
      rw (h, route_guards)
        ((λ p. ((λ e. ground arith), ground arith)), λ p. (ground (arith, p.0), (ground arith, tt)))

  eligible-guards :
      (sys : System F) (r : Router F) (t : Target F) (q : Query F)
      → (eligible sys r t q ≡ none)
        ↔ (AllPass (request_guards sys r t q) × AllPass (route_guards r t q))
  unfolding eligible
  eligible-guards sys r t q =
      let gs = request_guards sys r t q ++ route_guards r t q in
      let split = AllPass-append (request_guards sys r t q) (route_guards r t q) in
      ((λ h. split.0 ((first_failure-none gs).0 h)), λ h. (first_failure-none gs).1 (split.1 h))

  -- A target is eligible for a query that names a group exactly when it serves the query, the tier
  -- named is one, and the group admits it.
  pub eligible-group :
      (sys : System F) (r : Router F) (t : Target F) (q : Query F) (g : CompiledGroup F)
      → lookup (group_key q) r.groups ≡ some g
      → (eligible sys r t q ≡ none) ↔ (Serves sys r t q × (NamesTier q × Admits r t q g))
  eligible-group sys r t q g h =
      let both = eligible-guards sys r t q in
      let route = route_guards-group r t q g h in
      (
        (λ e. (request_guards-Serves sys r t q (both.0 e).0, route.0 (both.0 e).1)),
        λ p. both.1 (Serves-request_guards sys r t q p.0, route.1 p.1),
      )

  -- A target is eligible for a query that names no group exactly when it serves the query, the tier of
  -- an `auto/` model is one of the five, and the query names the target: in full, or, where it is not
  -- stateful, by its model.
  pub eligible-explicit :
      (sys : System F) (r : Router F) (t : Target F) (q : Query F)
      → lookup (group_key q) r.groups ≡ none
      → (eligible sys r t q ≡ none) ↔ (Serves sys r t q × (NamesTier q × Named r t q))
  eligible-explicit sys r t q h =
      let both = eligible-guards sys r t q in
      let route = route_guards-explicit r t q h in
      (
        (λ e. (request_guards-Serves sys r t q (both.0 e).0, route.0 (both.0 e).1)),
        λ p. both.1 (Serves-request_guards sys r t q p.0, route.1 p.1),
      )

  -- An eligible target serves the query, by whatever route.
  pub eligible-Serves :
      (sys : System F) (r : Router F) (t : Target F) (q : Query F)
      → eligible sys r t q ≡ none
      → Serves sys r t q
  eligible-Serves sys r t q e = request_guards-Serves sys r t q ((eligible-guards sys r t q).0 e).0
