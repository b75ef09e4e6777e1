-- ===== src/Api/Attempts/Retries.antt =====
-- internal/api/attempts.go: the conditions of a retry, and the query of the next attempt.
use clash_of_tokens.Base.{
  ℕ, String, ◌≡◌, ◌≢◌, refl, sym, subst, ap, ◌∙◌, ◌⊎◌, inl, inr, Bool, true, false, not, ◌||◌, List,
  [], ◌∷◌, ◌++◌, Option, none, some, arith, ◌+◌, contains, In, In-contains, get_or, Bool-cases,
  if_true, if_false,
}
use clash_of_tokens.Base.Int.{ℤ, pos, leb_ℤ, ◌≤ℤ◌, ◌<ℤ◌}
use clash_of_tokens.Base.Float.{Float64}
use clash_of_tokens.Config.{Config, Source, Group}
use clash_of_tokens.Config.Validate.Promise.{Sound}
use clash_of_tokens.Routing.Types.{Query, Router, System, Lease, source_of, target_of, no_source}
use clash_of_tokens.Routing.Eligible.{estimated_request_cost, group_key}
use clash_of_tokens.Routing.Eligible.Policy.{eligible-Serves}
use clash_of_tokens.Routing.Pools.{Sha256}
use clash_of_tokens.Routing.Choose.{choose}
use clash_of_tokens.Routing.Choose.Sound.{choose-runs}
use clash_of_tokens.Routing.Release.{release}
use clash_of_tokens.Api.Attempts.{
  Answer, failed_transport, responded, Next, returned, again, native_adapters, native_kinds,
  limit_in, attempt_limit, rejected_before_generation, is_safe, status_of, cooldown_of, spend,
  exclude, answered,
}

module _ {F : Type 0} ⦃fl : Float64 F⦄ where
  limit_in-bounds :
      (id : String) (gs : List (Group F))
      → ((g : Group F) → In g gs → (pos 0 ≤ℤ g.max_attempts) × (g.max_attempts ≤ℤ pos 8))
      → (pos 1 ≤ℤ limit_in id gs) × (limit_in id gs ≤ℤ pos 8)
  unfolding limit_in
  limit_in-bounds id [] h = (omega arith, omega arith)
  limit_in-bounds id (g ∷ gs) h =
      let ih = limit_in-bounds id gs (λ x m. h x (inr m)) in
      let own = h g (inl refl) in (ground (arith, ih.0, own.0), ground (arith, ih.1, own.1))

  -- With a configuration that passes Validate, a request is tried at least once and at most 8 times.
  pub attempt_limit-bounds :
      (c : Config F) (q : Query F)
      → Sound c
      → (pos 1 ≤ℤ attempt_limit c q) × (attempt_limit c q ≤ℤ pos 8)
  unfolding attempt_limit
  attempt_limit-bounds c q s =
      let k =
        limit_in-bounds (group_key q) c.groups
          (λ g m. ((s.groups g m).attempts_low, (s.groups g m).attempts_high)) in
      (ground (arith, k.0), ground (arith, k.1))

  -- What lets a request be tried again: it was not submitted, or a native API rejected it with 401,
  -- 403 or 429.
  pub data Harmless (s : Source F) : Answer → Type 0 where
    unsubmitted : Harmless s (failed_transport true)
    rejected :
        (status retry_after : ℤ)
        → contains native_adapters s.adapter ≡ true
        → contains native_kinds s.source_kind ≡ true
        → (status ≡ pos 401) ⊎ (status ≡ pos 403) ⊎ (status ≡ pos 429)
        → Harmless s (responded status retry_after)

  is_safe-Harmless : (s : Source F) (a : Answer) → is_safe s a ≡ true → Harmless s a
  unfolding is_safe rejected_before_generation
  is_safe-Harmless s (failed_transport true) h = unsubmitted
  is_safe-Harmless s (failed_transport false) h = cc
  is_safe-Harmless s (responded status ra) h =
      rejected status ra (ground arith) (ground arith) (ground arith)

  spend-excluded :
      (a : Answer) (cost : Option F) (q : Query F)
      → ((spend a cost q).excluded_sources ≡ q.excluded_sources)
        × ((spend a cost q).model ≡ q.model)
        × ((spend a cost q).stateful ≡ q.stateful)
  unfolding spend
  spend-excluded (failed_transport b) cost q = (refl, refl, refl)
  spend-excluded (responded s r) none q = (refl, refl, refl)
  spend-excluded (responded s r) (some c) q = (refl, refl, refl)

last-In : (xs : List String) (x : String) → In x (xs ++ x ∷ [])
last-In [] x = inl refl
last-In (y ∷ ys) x = inr (last-In ys x)

module _ {F : Type 0} ⦃fl : Float64 F⦄ ⦃sha : Sha256⦄ (canceled : ℕ → Bool) (clock : ℕ → ℕ)
    (c : Config F) (ctx : ℕ) (q : Query F) (attempt : ℕ) (l : Lease F) (answer : Answer)
    (sys : System F) where
  abbrev pub tried : Source F
  tried = get_or c.sources l.target.source no_source

  -- A retry, taken apart.
  pub record Retry (next : Query F) (n : ℕ) (sys' : System F) : Type 0 where
    pub harmless : Harmless tried answer
    pub more : pos n <ℤ attempt_limit c q
    pub live : canceled ctx ≡ false
    pub number : n ≡ attempt + 1
    pub excluded : next.excluded_sources ≡ q.excluded_sources ++ tried.id ∷ []
    pub same_model : next.model ≡ q.model
    pub released : sys' ≡ (release canceled clock (status_of answer) (cooldown_of answer) l sys).1

  stop : Bool
  stop =
      not (is_safe tried answer) || (leb_ℤ (attempt_limit c q) (pos (attempt + 1)) || canceled ctx)

  -- A request is tried again only when the last attempt did no harm, its context has not ended and
  -- attempts are left; then the lease is released with the status of the answer, and the source that
  -- was tried is excluded, beside those before it.
  pub answered-Retry :
      (next : Query F) (n : ℕ) (sys' : System F)
      → answered canceled clock c ctx q attempt l answer sys ≡ (again next n, sys')
      → Retry next n sys'
  unfolding answered stop
  answered-Retry next n sys' h = elim (Bool-cases stop) [
    | inl e ↦ cc (
        sym (
          if_true {A = Next F × System F} stop (returned l, sys)
            (again retried (attempt + 1), freed) e)
        ∙ h)
    | inr e ↦
        taken
          (sym (
              if_false {A = Next F × System F} stop (returned l, sys)
                (again retried (attempt + 1), freed) e)
            ∙ h)
          e
  ]
    where
      retried : Query F
      retried = exclude tried.id (spend answer (estimated_request_cost l.target.model q) q)

      freed : System F
      freed = (release canceled clock (status_of answer) (cooldown_of answer) l sys).1

      taken :
          ◌≡◌ {A = Next F × System F} (again retried (attempt + 1), freed) (again next n, sys')
          → stop ≡ false
          → Retry next n sys'
      taken k e =
          let pq : retried ≡ next = cc (k) in
          let pn : attempt + 1 ≡ n = cc (k) in
          let ps : freed ≡ sys' = cc (k) in
          let spent = spend-excluded answer (estimated_request_cost l.target.model q) q in
          record {
            harmless = is_safe-Harmless tried answer (ground (arith, e));
            more = subst (λ m. pos m <ℤ attempt_limit c q) pn (ground (arith, e));
            live = ground (arith, e);
            number = sym pn;
            excluded =
                subst (λ x. x.excluded_sources ≡ q.excluded_sources ++ tried.id ∷ []) pq
                  (ap (λ xs. xs ++ tried.id ∷ []) spent.0);
            same_model = subst (λ x. x.model ≡ q.model) pq spent.1;
            released = sym ps;
          }

  -- A retry goes to another source: whatever router takes it, later and in any state, the target that
  -- choose names is of a source with another id.
  pub retry_elsewhere :
      (next : Query F) (n : ℕ) (sys' : System F)
      → answered canceled clock c ctx q attempt l answer sys ≡ (again next n, sys')
      → (later : System F) (r : Router F) (now i : ℕ) → (choose later r next now).0 ≡ some i
      → (source_of r (target_of r i).source).id ≢ tried.id
  retry_elsewhere next n sys' h later r now i e same =
      let retry = answered-Retry next n sys' h in
      let run = (choose-runs later r next now i e).2 in
      let serves = eligible-Serves later r (target_of r i) next run.admitted in
      cc (
        serves.untried,
        same,
        retry.excluded,
        In-contains (q.excluded_sources ++ tried.id ∷ []) tried.id
            (last-In q.excluded_sources tried.id),
      )
