-- ===== src/Routing/Choose/Optimal.antt =====
-- internal/routing/router.go: the values of the candidates in the scan of choose.
use clash_of_tokens.Base.{
  ℕ, String, ◌≡◌, refl, sym, subst, ap, ◌∙◌, inl, inr, Bool, true, false, List, [], ◌∷◌, Option,
  some, In, &&-true, Bool-cases,
}
use clash_of_tokens.Base.Float.{Float64, StrictOrder, asymmetric, zero_f}
use clash_of_tokens.Routing.Types.{CompiledGroup, Query, Router, System}
use clash_of_tokens.Routing.Preferences.{compare_preferences}
use clash_of_tokens.Routing.Pools.{Sha256}
use clash_of_tokens.Routing.Choose.{Best, group_of, candidates_of, preferred_of, choose, beats}
use clash_of_tokens.Routing.Choose.Visits.{In-visit}
use clash_of_tokens.Routing.Choose.Rounds.{
  Runs, Scans, done, reject, full, skip, finish, lead, yield, score_of, better,
}
use clash_of_tokens.Routing.Choose.Sound.{MayRun, choose-Scans, choose-runs}

module _ {F : Type 0} ⦃fl : Float64 F⦄ (sys : System F) (r : Router F) (q : Query F)
    (g : CompiledGroup F) (preferred : List (String × String)) (now : ℕ) (o : StrictOrder fl)
    (plain : g.preferences ≡ []) where
  abbrev val : ℕ → F
  val = score_of sys r q g preferred now

  -- With no preferences a later candidate takes over by a smaller value only.
  better-val :
      (x : ℕ) (b : Best F) (j : ℕ)
      → b.best ≡ some j
      → better sys r q g preferred now x b ≡ fl.lt (val x) b.score
  unfolding beats compare_preferences
  better-val x b j e = rw (plain, e, compare_preferences, beats) refl

  -- The loop's score is that of its best candidate, which is a number.
  abbrev Tracks : Best F → Type 0
  Tracks b = (j : ℕ) → b.best ≡ some j → (b.score ≡ val j) × (fl.is_nan (val j) ≡ false)

  abbrev Least : List ℕ → Best F → ℕ → Type 0
  Least xs b i =
      ((x : ℕ) → In x xs → Runs sys r q preferred now x → fl.lt (val x) (val i) ≡ false)
      × ((j : ℕ) → b.best ≡ some j → fl.lt (val j) (val i) ≡ false)

  -- A candidate that takes over from another has the smaller value.
  taken_over :
      (x : ℕ) (b : Best F) (j : ℕ)
      → Tracks b
      → b.best ≡ some j
      → better sys r q g preferred now x b ≡ true
      → fl.lt (val x) (val j) ≡ true
  taken_over x b j hb k w = ap (fl.lt (val x)) (sym (hb j k).0) ∙ (sym (better-val x b j k) ∙ w)

  kept :
      (x : ℕ) (b : Best F) (j : ℕ)
      → Tracks b
      → b.best ≡ some j
      → better sys r q g preferred now x b ≡ false
      → fl.lt (val x) (val j) ≡ false
  kept x b j hb k w = ap (fl.lt (val x)) (sym (hb j k).0) ∙ (sym (better-val x b j k) ∙ w)

  below :
      (x j i : ℕ)
      → fl.lt (val x) (val j) ≡ true
      → fl.lt (val x) (val i) ≡ false
      → fl.lt (val j) (val i) ≡ false
  below x j i h k = elim (Bool-cases (fl.lt (val j) (val i))) [
    | inl t ↦ cc (o.transitive (val x) (val j) (val i) h t, k)
    | inr f ↦ f
  ]

  at_head :
      (x i : ℕ) (xs : List ℕ)
      → fl.lt (val x) (val i) ≡ false
      → ((y : ℕ) → In y xs → Runs sys r q preferred now y → fl.lt (val y) (val i) ≡ false)
      → (y : ℕ) → In y (x ∷ xs)
      → Runs sys r q preferred now y
      → fl.lt (val y) (val i) ≡ false
  at_head x i xs h rest y (inl e) run = subst (λ z. fl.lt (val z) (val i) ≡ false) (sym e) h
  at_head x i xs h rest y (inr m) run = rest y m run

  pub Scans-Least :
      {xs : List ℕ} {b : Best F} {res : Option ℕ × Bool}
      → Scans sys r q g preferred now xs b res
      → ((x : ℕ)
          → In x xs
          → Runs sys r q preferred now x
          → (fl.lt (val x) zero_f ≡ false) × (fl.is_nan (val x) ≡ false))
      → Tracks b
      → (i : ℕ) → res.0 ≡ some i
      → Least xs b i
  Scans-Least (done b) hx hb i e = (
    (λ x m. absurd m),
    λ j k.
        (let p : j ≡ i = cc in
          subst (λ z. fl.lt (val j) (val z) ≡ false) p (o.irreflexive (val j))),
  )
  Scans-Least (reject x xs b res _ k s) hx hb i e =
      let (l, h) = Scans-Least s (λ y m. hx y (inr m)) hb i e in
      ((λ y m run. elim m [ inl p ↦ cc (run.admitted, p, k) | inr m' ↦ l y m' run ]), h)
  Scans-Least (full x xs b _ _) hx hb i e = cc
  Scans-Least (skip x xs b res _ k s) hx hb i e =
      let (l, h) = Scans-Least s (λ y m. hx y (inr m)) hb i e in
      (
        (λ y m run. elim m [
          | inl p ↦ absurd (k (subst (Runs sys r q preferred now) p run))
          | inr m' ↦ l y m' run
        ]),
        h,
      )
  Scans-Least (finish x xs b run w z) hx hb i e =
      let p : x ≡ i = cc in
      subst (Least (x ∷ xs) b) p (
        at_head x x xs (o.irreflexive (val x))
            (λ y m rn. o.eq_right (val x) zero_f (val y) (&&-true _ _ z).0 ∙ (hx y (inr m) rn).0),
        λ j k. asymmetric o (val x) (val j) (taken_over x b j hb k w),
      )
  Scans-Least (lead x xs b res run w s) hx hb i e =
      let tracks : Tracks (record { best = some x; score = val x; eligible = true }) = λ j k.
        (let p : x ≡ j = cc in
          subst (λ z. (val x ≡ val z) × (fl.is_nan (val z) ≡ false)) p
            (refl, (hx x (inl refl) run).1)) in
      let (l, h) = Scans-Least s (λ y m. hx y (inr m)) tracks i e in
      (at_head x i xs (h x refl) l, λ j k. below x j i (taken_over x b j hb k w) (h x refl))
  Scans-Least (yield x xs b res j run k w s) hx hb i e =
      let (l, h) = Scans-Least s (λ y m. hx y (inr m)) hb i e in
      (
        at_head x i xs (o.between (val x) (val j) (val i) (hb j k).1 (kept x b j hb k w) (h j k)) l,
        h,
      )

module _ {F : Type 0} ⦃fl : Float64 F⦄ ⦃sha : Sha256⦄ (sys : System F) (r : Router F) (q : Query F)
    (now : ℕ) where
  abbrev pub value : ℕ → F
  value = score_of sys r q (group_of r q) (preferred_of sys r q now) now

  -- In a group without preferences, where the values of the candidates with room are numbers and
  -- not negative, the target that choose names has the least value of them, although the scan ends
  -- at the first value zero.
  pub choose-least :
      StrictOrder fl
      → (group_of r q).preferences ≡ []
      → ((x : ℕ)
          → In x (candidates_of r q)
          → MayRun sys r q now x
          → (fl.lt (value x) zero_f ≡ false) × (fl.is_nan (value x) ≡ false))
      → (i : ℕ) → (choose sys r q now).0 ≡ some i
      → (x : ℕ) → In x (candidates_of r q)
      → MayRun sys r q now x
      → fl.lt (value x) (value i) ≡ false
  choose-least o plain hx i e x m run =
      let live = (choose-runs sys r q now i e).0 in
      let back = λ (y : ℕ). In-visit r.cursor (candidates_of r q) y in
      (Scans-Least sys r q (group_of r q) (preferred_of sys r q now) now o plain
          (choose-Scans sys r q now live) (λ y k rn. hx y ((back y).0 k) rn) (λ j k. cc) i e).0
        x ((back x).1 m) run
