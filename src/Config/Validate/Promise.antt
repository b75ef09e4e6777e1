-- ===== src/Config/Validate/Promise.antt =====
-- internal/config/config.go: the whole of a configuration after Validate.
use clash_of_tokens.Base.{
  String, ◌≡◌, refl, subst, inl, inr, true, false, List, [], ◌∷◌, ◌++◌, Option, none, some, arith,
  In, contains, AllPass, AllPass-append, first_failure, first_failure-none, check_each-none,
  EachPass-In, is_empty,
}
use clash_of_tokens.Base.Int.{pos, ◌≤ℤ◌}
use clash_of_tokens.Base.Float.{Float64}
use clash_of_tokens.Config.{Config, Source, Group, Runtime}
use clash_of_tokens.Config.Tiers.{tier}
use clash_of_tokens.Config.Text.{is_identifier}
use clash_of_tokens.Config.Profiles.{Net}
use clash_of_tokens.Config.Accounts.{AccountError, effective_source, validate_accounts}
use clash_of_tokens.Config.Validate.Sources.{SourceError, nothing_met, source_round, source_met}
use clash_of_tokens.Config.Validate.Groups.{
  GroupError, group_guards_of, member_guards, preference_guards,
}
use clash_of_tokens.Config.Validate.{
  ConfigError, bad_runtime_limits, listen_guards, top_guards, browser_guards, check_sources,
  check_groups, validate,
}
use clash_of_tokens.Config.Validate.Sound.{
  Capable, ids_of, Distinct, Kept, effective_source-Kept, source_guards-Tested, Rounds,
  Rounds-Distinct, Rounds-agree,
}

pub record Limited (r : Runtime) : Type 0 where
  pub inflight_low : pos 1 ≤ℤ r.max_inflight
  pub inflight_high : r.max_inflight ≤ℤ pos 10000
  pub queued_low : pos 0 ≤ℤ r.max_queued
  pub queued_high : r.max_queued ≤ℤ pos 10000
  pub body_fits : r.max_body_bytes ≤ℤ r.max_buffered_bytes
  pub has_timeout : pos 1 ≤ℤ r.queue_timeout_ms

module _ {F : Type 0} where
  -- A group of known sources.
  pub record Closed (ids : List String) (g : Group F) : Type 0 where
    pub known : (id : String) → In id g.sources → contains ids id ≡ true
    pub attempts_low : pos 0 ≤ℤ g.max_attempts
    pub attempts_high : g.max_attempts ≤ℤ pos 8
    pub tier_named : pos 0 ≤ℤ tier g.min_tier

  pub record Sound (c : Config F) : Type 0 where
    pub runtime : Limited c.runtime
    pub sources : (s : Source F) → In s c.sources → Capable s
    pub distinct : Distinct (ids_of c.sources)
    pub one_limit :
        (s t : Source F)
        → In s c.sources
        → In t c.sources
        → s.quota_domain ≡ t.quota_domain
        → s.quota_max_inflight ≡ t.quota_max_inflight
    pub groups : (g : Group F) → In g c.groups → Closed (ids_of c.sources) g

members-known :
    (ids xs : List String) (id : String)
    → AllPass (member_guards ids xs)
    → In id xs
    → contains ids id ≡ true
unfolding member_guards
members-known ids [] id p m = absurd m
members-known ids (x ∷ xs) id p (inl e) = ground (arith, p.0, e)
members-known ids (x ∷ xs) id p (inr m) = members-known ids xs id p.1 m

runtime-Limited : (r : Runtime) → bad_runtime_limits r ≡ false → Limited r
unfolding bad_runtime_limits
runtime-Limited r h = record {
  inflight_low = ground arith;
  inflight_high = ground arith;
  queued_low = ground arith;
  queued_high = ground arith;
  body_fits = ground arith;
  has_timeout = ground arith;
}

module _ {F : Type 0} ⦃fl : Float64 F⦄ where
  group-Closed :
      (sources met : List String) (g : Group F)
      → AllPass (group_guards_of sources met g)
      → Closed sources g
  unfolding group_guards_of
  group-Closed sources met g p =
      let (own, (attempts, (name, (type, (floor, rest))))) =
        (AllPass-append (preference_guards g.type [] g.preferences) _).0 p.1 in
      record {
        known = λ id m. members-known sources g.sources id rest m;
        attempts_low = ground (arith, attempts);
        attempts_high = ground (arith, attempts);
        tier_named = ground (arith, floor);
      }

module _ {F : Type 0} ⦃net : Net⦄ ⦃fl : Float64 F⦄ (c : Config F) where
  top-Limited : AllPass (top_guards c) → Limited c.runtime
  unfolding top_guards
  top-Limited p = runtime-Limited c.runtime (go (net.split_host c.listen) p.1)
    where
      go :
          (o : Option String)
          → AllPass
              (listen_guards o ++ (bad_runtime_limits c.runtime, ConfigError.bad_runtime) ∷ [])
          → bad_runtime_limits c.runtime ≡ false
      go none q = cc (q.0)
      go (some h) q = q.1.0

  passes :
      validate c ≡ none
      → (first_failure (top_guards c) ≡ none) × (check_sources c ≡ none) × (check_groups c ≡ none)
  unfolding validate
  passes h =
      go (validate_accounts c) (first_failure (top_guards c)) (check_sources c)
        (first_failure (browser_guards c)) (check_groups c) h
    where
      go :
          (a : Option AccountError) (t : Option ConfigError) (s : Option SourceError)
          (b : Option ConfigError) (g : Option GroupError)
          → (elim a [
            | some e ↦ some (ConfigError.accounts e)
            | none ↦ elim t [
              | some e ↦ some e
              | none ↦ elim s [
                | some e ↦ some (ConfigError.source e)
                | none ↦ elim b [
                  | some e ↦ some e
                  | none ↦ elim g [ some e ↦ some (ConfigError.group e) | none ↦ none ]
                ]
              ]
            ]
          ])
            ≡ none
          → (t ≡ none) × (s ≡ none) × (g ≡ none)
      go (some e) t s b g k = cc
      go none (some e) s b g k = cc
      go none none (some e) b g k = cc
      go none none none (some e) g k = cc
      go none none none none (some e) k = cc
      go none none none none none k = (refl, refl, refl)

  Kept-Capable : (s t : Source F) → Kept s t → Capable t → Capable s
  Kept-Capable s t k h = record {
    low = subst (λ n. pos 1 ≤ℤ n) k.max_inflight h.low;
    high = subst (λ n. n ≤ℤ pos 10000) k.max_inflight h.high;
    quota_low = subst (λ n. pos 1 ≤ℤ n) k.quota_max_inflight h.quota_low;
    quota_high = subst (λ n. n ≤ℤ pos 10000) k.quota_max_inflight h.quota_high;
    has_model = subst (λ ms. is_empty ms ≡ false) k.models h.has_model;
    named = subst (λ id. is_identifier id ≡ true) k.id h.named;
  }

  -- A configuration that passes has its limits in their ranges, sources of distinct ids with
  -- capacities from 1 to 10000 and a model, one limit for each quota domain, and groups that name
  -- known sources, a tier, and at most 8 attempts.
  pub validate-Sound : validate c ≡ none → Sound c
  validate-Sound h =
      let (ht, hs, hg) = passes h in
      let rounds : Rounds c nothing_met c.sources =
        check_each-none (source_round c) (source_met c) nothing_met c.sources hs in
      record {
        runtime = top-Limited ((first_failure-none (top_guards c)).0 ht);
        sources = λ s m.
            let (met, p) =
              EachPass-In (source_round c) (source_met c) nothing_met c.sources s rounds m in
            Kept-Capable s (effective_source c s) (effective_source-Kept c s)
              (source_guards-Tested c met (effective_source c s) p).capable;
        distinct = Rounds-Distinct c nothing_met c.sources rounds;
        one_limit = λ s t ms mt d. Rounds-agree c nothing_met c.sources s t rounds ms mt d;
        groups = λ g m.
            let gs = group_guards_of (ids_of c.sources) in
            let (met, p) =
              EachPass-In gs (λ met x. x.id ∷ met) [] c.groups g
                (check_each-none gs (λ met x. x.id ∷ met) [] c.groups hg) m in
            group-Closed (ids_of c.sources) met g p;
      }
