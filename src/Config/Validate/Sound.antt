-- ===== src/Config/Validate/Sound.antt =====
-- internal/config/config.go: sources after the loop of Validate over them.
use clash_of_tokens.Base.{
  String, ◌≡◌, refl, sym, ap, ◌∙◌, inl, inr, Bool, true, false, not, ◌||◌, List, [], ◌∷◌, ◌++◌,
  Option, none, some, arith, ◌==◌, eq_iff, In, contains, In-contains, map, lookup, lookup-insert,
  or_else, is_empty, AllPass, AllPass-append, EachPass, if◌then◌else◌, if_true, if_false,
  Bool-cases,
}
use clash_of_tokens.Base.Int.{ℤ, pos, negsuc, eqb_ℤ, ◌≤ℤ◌}
use clash_of_tokens.Base.Float.{Float64}
use clash_of_tokens.Config.{Config, Account, Source}
use clash_of_tokens.Config.Text.{is_identifier}
use clash_of_tokens.Config.Metadata.{validate_metadata}
use clash_of_tokens.Config.Registry.{Descriptor, lookup_descriptor}
use clash_of_tokens.Config.Profiles.{Net}
use clash_of_tokens.Config.Accounts.{account_named, effective_source}
use clash_of_tokens.Config.Validate.Sources.{
  SourceError, Met, source_round, source_met, source_guards, meet_source, adapter_guards,
  capacity_guards, browser_source_guards, project_guards, url_guards, metadata_failure,
  model_guards, bad_source_id,
}

eqb_ℤ-true : (a b : ℤ) → eqb_ℤ a b ≡ true → a ≡ b
eqb_ℤ-true (pos a) (pos b) h = ap pos (ground arith)
eqb_ℤ-true (pos a) (negsuc b) h = ground arith
eqb_ℤ-true (negsuc a) (pos b) h = ground arith
eqb_ℤ-true (negsuc a) (negsuc b) h = ap negsuc (ground arith)

-- No id stands twice in a list.
abbrev pub Distinct : List String → Type 0
Distinct [] = Unit
Distinct (x ∷ xs) = (contains xs x ≡ false) × Distinct xs

module _ {F : Type 0} where
  -- The capacity of a source, as Validate leaves it.
  pub record Capable (s : Source F) : Type 0 where
    pub low : pos 1 ≤ℤ s.max_inflight
    pub high : s.max_inflight ≤ℤ pos 10000
    pub quota_low : pos 1 ≤ℤ s.quota_max_inflight
    pub quota_high : s.quota_max_inflight ≤ℤ pos 10000
    pub has_model : is_empty s.models ≡ false
    pub named : is_identifier s.id ≡ true

  abbrev pub ids_of : List (Source F) → List String
  ids_of ss = map (λ s. s.id) ss

  -- What EffectiveSource leaves as it is.
  pub record Kept (s t : Source F) : Type 0 where
    pub id : t.id ≡ s.id
    pub max_inflight : t.max_inflight ≡ s.max_inflight
    pub quota_domain : t.quota_domain ≡ s.quota_domain
    pub quota_max_inflight : t.quota_max_inflight ≡ s.quota_max_inflight
    pub models : t.models ≡ s.models

  pub effective_source-Kept : (c : Config F) (s : Source F) → Kept s (effective_source c s)
  unfolding effective_source
  effective_source-Kept c s = go (account_named s.account_id c.accounts)
    where
      go :
          (o : Option Account)
          → Kept s (
              if s.account_id == "" then s else elim o [
                | none ↦ s
                | some a ↦ record s {
                  base_url = if s.base_url == "" then a.base_url else s.base_url;
                  organization = if s.organization == "" then a.organization else s.organization;
                  project = if s.project == "" then a.project else s.project;
                }
              ])
      go none = record {
        id = ground arith;
        max_inflight = ground arith;
        quota_domain = ground arith;
        quota_max_inflight = ground arith;
        models = ground arith;
      }
      go (some a) = record {
        id = ground arith;
        max_inflight = ground arith;
        quota_domain = ground arith;
        quota_max_inflight = ground arith;
        models = ground arith;
      }

module _ {F : Type 0} ⦃net : Net⦄ ⦃fl : Float64 F⦄ (c : Config F) where
  -- What one round of the loop over the sources has tested.
  pub record Tested (met : Met) (s : Source F) : Type 0 where
    pub fresh : contains met.ids s.id ≡ false
    pub capable : Capable s
    pub same_limit :
        eqb_ℤ
          (or_else (lookup s.quota_domain met.domains) s.quota_max_inflight)
          s.quota_max_inflight
        ≡ true

  adapter-capacity :
      (met : Met) (s : Source F) (o : Option Descriptor)
      → AllPass (adapter_guards c met s o)
      → AllPass (capacity_guards c met s)
  unfolding adapter_guards
  adapter-capacity met s none p = cc (p.0)
  adapter-capacity met s (some d) p =
      let models = model_guards s.adapter d [] s.models in
      let limits = capacity_guards c met s ++ models in
      let urls = url_guards s ++ limits in
      let p1 = (AllPass-append (browser_source_guards c met s) (project_guards c s ++ urls)).0 p in
      let p2 = (AllPass-append (project_guards c s) urls).0 p1.1 in
      let p3 = (AllPass-append (url_guards s) limits).0 p2.1 in
      ((AllPass-append (capacity_guards c met s) models).0 p3.1).0

  capacity-Capable :
      (met : Met) (s : Source F)
      → AllPass (capacity_guards c met s)
      → is_identifier s.id ≡ true
      → Capable s
        × (eqb_ℤ
              (or_else (lookup s.quota_domain met.domains) s.quota_max_inflight)
              s.quota_max_inflight
            ≡ true)
  unfolding capacity_guards
  capacity-Capable met s (key, (limits, (models, (same, t)))) named = (
    record {
      low = ground arith;
      high = ground arith;
      quota_low = ground arith;
      quota_high = ground arith;
      has_model = models;
      named = named;
    },
    ground (arith, same),
  )

  id_guard : (b d : Bool) → (not b || d) ≡ false → (b ≡ true) × (d ≡ false)
  id_guard b d h = ground arith

  pub source_guards-Tested :
      (met : Met) (s : Source F) → AllPass (source_guards c met s) → Tested met s
  unfolding source_guards
  source_guards-Tested met s p =
      let named : Bool × SourceError =
        (not (is_identifier s.id) || contains met.ids s.id, bad_source_id) in
      let adapter = adapter_guards c met s (lookup_descriptor s.adapter) in
      let (own, rest) =
        (AllPass-append (metadata_failure (validate_metadata s)) (named ∷ adapter)).0 p.1 in
      let (ident, fresh) = id_guard (is_identifier s.id) (contains met.ids s.id) rest.0 in
      let (capable, same) =
        capacity-Capable met s (adapter-capacity met s (lookup_descriptor s.adapter) rest.1)
          ident in
      record { fresh = fresh; capable = capable; same_limit = same }

  abbrev pub Rounds : Met → List (Source F) → Type 0
  Rounds met ss = EachPass (source_round c) (source_met c) met ss

  -- The id of a source that was met is not given again.
  Rounds-fresh :
      (met : Met) (ss : List (Source F)) (id : String)
      → Rounds met ss
      → In id met.ids
      → contains (ids_of ss) id ≡ false
  unfolding contains meet_source
  Rounds-fresh met [] id p m = refl
  Rounds-fresh met (s ∷ ss) id p m =
      let t = source_guards-Tested met (effective_source c s) p.0 in
      let k = effective_source-Kept c s in
      let ih = Rounds-fresh (source_met c met s) ss id p.1 (inr m) in
      ground (arith, ih, t.fresh, k.id, In-contains met.ids id m, eq_iff s.id id)

  pub Rounds-Distinct : (met : Met) (ss : List (Source F)) → Rounds met ss → Distinct (ids_of ss)
  unfolding meet_source
  Rounds-Distinct met [] p = tt
  Rounds-Distinct met (s ∷ ss) p =
      let k = effective_source-Kept c s in
      (
        Rounds-fresh (source_met c met s) ss s.id p.1 (inl (sym k.id)),
        Rounds-Distinct (source_met c met s) ss p.1,
      )

  -- A domain that was met keeps its limit.
  Rounds-limit :
      (met : Met) (ss : List (Source F)) (domain : String) (n : ℤ) (s : Source F)
      → Rounds met ss
      → lookup domain met.domains ≡ some n
      → In s ss
      → s.quota_domain ≡ domain
      → s.quota_max_inflight ≡ n
  unfolding meet_source
  Rounds-limit met [] domain n s p e m d = absurd m
  Rounds-limit met (x ∷ ss) domain n s p e (inl q) d =
      let t = source_guards-Tested met (effective_source c x) p.0 in
      let k = effective_source-Kept c x in
      let y = effective_source c x in
      let same =
        eqb_ℤ-true (or_else (lookup y.quota_domain met.domains) y.quota_max_inflight)
          y.quota_max_inflight t.same_limit in
      cc (same, k.quota_domain, k.quota_max_inflight, e, q, d)
  Rounds-limit met (x ∷ ss) domain n s p e (inr m) d =
      Rounds-limit (source_met c met x) ss domain n s p.1 next_limit m d
    where
      next_limit : lookup domain (source_met c met x).domains ≡ some n
      next_limit =
          let t = source_guards-Tested met (effective_source c x) p.0 in
          let y = effective_source c x in
          let same =
            eqb_ℤ-true (or_else (lookup y.quota_domain met.domains) y.quota_max_inflight)
              y.quota_max_inflight t.same_limit in
          elim (Bool-cases (y.quota_domain == domain)) [
            | inl q ↦
                sym (lookup-insert met.domains y.quota_max_inflight y.quota_domain domain)
                ∙ (if_true (y.quota_domain == domain) _ _ q
                    ∙ ap some (cc ((eq_iff y.quota_domain domain).0 q, same, e)))
            | inr q ↦
                sym (lookup-insert met.domains y.quota_max_inflight y.quota_domain domain)
                ∙ (if_false (y.quota_domain == domain) _ _ q ∙ e)
          ]

  -- The limit of the first source is that of every later source of its domain.
  head-limit :
      (met : Met) (x : Source F) (ss : List (Source F)) (t : Source F)
      → Rounds met (x ∷ ss)
      → In t ss
      → t.quota_domain ≡ x.quota_domain
      → t.quota_max_inflight ≡ x.quota_max_inflight
  unfolding meet_source
  head-limit met x ss t p m d =
      let y = effective_source c x in
      let k = effective_source-Kept c x in
      let first : lookup y.quota_domain (source_met c met x).domains ≡ some y.quota_max_inflight =
        sym (lookup-insert met.domains y.quota_max_inflight y.quota_domain y.quota_domain)
        ∙ if_true (y.quota_domain == y.quota_domain) _ _
            ((eq_iff y.quota_domain y.quota_domain).1 refl) in
      Rounds-limit (source_met c met x) ss y.quota_domain y.quota_max_inflight t p.1 first m
        (d ∙ sym k.quota_domain)
      ∙ k.quota_max_inflight

  -- Two sources of one domain have one limit.
  pub Rounds-agree :
      (met : Met) (ss : List (Source F)) (s t : Source F)
      → Rounds met ss
      → In s ss
      → In t ss
      → s.quota_domain ≡ t.quota_domain
      → s.quota_max_inflight ≡ t.quota_max_inflight
  unfolding meet_source
  Rounds-agree met [] s t p ms mt d = absurd ms
  Rounds-agree met (x ∷ ss) s t p (inl q) (inl r) d = cc
  Rounds-agree met (x ∷ ss) s t p (inr q) (inr r) d =
      Rounds-agree (source_met c met x) ss s t p.1 q r d
  Rounds-agree met (x ∷ ss) s t p (inl q) (inr r) d =
      sym (head-limit met x ss t p r (cc (q, d)) ∙ cc (q))
  Rounds-agree met (x ∷ ss) s t p (inr q) (inl r) d = head-limit met x ss s p q (cc (r, d)) ∙ cc (r)
