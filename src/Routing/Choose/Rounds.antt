-- ===== src/Routing/Choose/Rounds.antt =====
-- internal/routing/router.go: the scan of choose as a relation, round by round.
use clash_of_tokens.Base.{
  ℕ, String, ◌≡◌, inl, inr, Bool, true, false, ◌&&◌, List, [], ◌∷◌, Option, none, some, is_empty,
  Bool-cases, Option-cases,
}
use clash_of_tokens.Base.Float.{Float64, zero_f}
use clash_of_tokens.Routing.Types.{CompiledGroup, Query, Router, System, target_of}
use clash_of_tokens.Routing.Eligible.{Reason, eligible}
use clash_of_tokens.Routing.Preferences.{compare_preferences}
use clash_of_tokens.Routing.Pools.{busy, account_full}
use clash_of_tokens.Routing.Choose.{
  Best, Round, stop, go, saturated, passed_over, consider, round, proceed, scan, beats, value_of,
}

module _ {F : Type 0} ⦃fl : Float64 F⦄ where
  -- A candidate that may run now.
  pub record Runs (sys : System F) (r : Router F) (q : Query F) (preferred : List (String × String))
      (now idx : ℕ) : Type 0 where
    pub admitted : eligible sys r (target_of r idx) q ≡ none
    pub room : saturated sys r ≡ false
    pub own_turn : passed_over r preferred (target_of r idx).source ≡ false
    pub account_room : account_full sys r (target_of r idx).source ≡ false
    pub idle : busy sys r (target_of r idx).source now ≡ false

  module _ (sys : System F) (r : Router F) (q : Query F) (g : CompiledGroup F)
      (preferred : List (String × String)) (now : ℕ) where
    -- How a round goes.
    pub data Goes (idx : ℕ) (b : Best F) : Round F → Type 0 where
      rejected : (e : Reason) → eligible sys r (target_of r idx) q ≡ some e → Goes idx b (go b)
      no_room :
          eligible sys r (target_of r idx) q ≡ none
          → saturated sys r ≡ true
          → Goes idx b (stop none true)
      skipped :
          eligible sys r (target_of r idx) q ≡ none
          → (Runs sys r q preferred now idx → ⊥)
          → saturated sys r ≡ false
          → Goes idx b (go (record b { eligible = true }))
      considered :
          Runs sys r q preferred now idx
          → Goes idx b (consider sys r g idx (record b { eligible = true }))

    admitted-Goes :
        (idx : ℕ) (b : Best F)
        → eligible sys r (target_of r idx) q ≡ none
        → Goes idx b (round sys r q g preferred now idx b)
    unfolding round
    admitted-Goes idx b h = elim (Bool-cases (saturated sys r)) [
      | inl full ↦ rw (h, full, round) (no_room h full)
      | inr room ↦ elim (Bool-cases (passed_over r preferred (target_of r idx).source)) [
        | inl p ↦ rw (h, room, p, round) (skipped h (λ w. cc (w.own_turn)) room)
        | inr p ↦ elim (Bool-cases (account_full sys r (target_of r idx).source)) [
          | inl a ↦ rw (h, room, p, a, round) (skipped h (λ w. cc (w.account_room)) room)
          | inr a ↦ elim (Bool-cases (busy sys r (target_of r idx).source now)) [
            | inl u ↦ rw (h, room, p, a, u, round) (skipped h (λ w. cc (w.idle)) room)
            | inr u ↦
                rw (h, room, p, a, u, round)
                  (considered (record {
                    admitted = h;
                    room = room;
                    own_turn = p;
                    account_room = a;
                    idle = u;
                  }))
          ]
        ]
      ]
    ]

    round-Goes : (idx : ℕ) (b : Best F) → Goes idx b (round sys r q g preferred now idx b)
    unfolding round
    round-Goes idx b = elim (Option-cases (eligible sys r (target_of r idx) q)) [
      | inl h ↦ admitted-Goes idx b h
      | inr (e, h) ↦ rw (h, round) (rejected e h)
    ]

    abbrev pub score_of : ℕ → F
    score_of idx = value_of sys r g (target_of r idx).source

    abbrev pub better : ℕ → Best F → Bool
    better idx b =
        beats b.best (compare_preferences sys r idx b.best g.preferences) (score_of idx) b.score

    -- What becomes of a candidate that may run.
    pub data Weighs (idx : ℕ) (b : Best F) : Round F → Type 0 where
      ends :
          better idx b ≡ true
          → (fl.eq (score_of idx) zero_f && is_empty g.preferences) ≡ true
          → Weighs idx b (stop (some idx) b.eligible)
      leads :
          better idx b ≡ true
          → Weighs idx b (go (record b { best = some idx; score = score_of idx }))
      yields : (i : ℕ) → b.best ≡ some i → better idx b ≡ false → Weighs idx b (go b)

    better-none : (idx : ℕ) (b : Best F) → b.best ≡ none → better idx b ≡ true
    unfolding beats
    better-none idx b e = rw (e, beats)

    consider-Weighs : (idx : ℕ) (b : Best F) → Weighs idx b (consider sys r g idx b)
    unfolding consider
    consider-Weighs idx b = elim (Bool-cases (better idx b)) [
      | inl w ↦ elim (Bool-cases (fl.eq (score_of idx) zero_f && is_empty g.preferences)) [
        | inl z ↦ rw (w, z, consider) (ends w z)
        | inr z ↦ rw (w, z, consider) (leads w)
      ]
      | inr w ↦ elim (Option-cases b.best) [
        | inl e ↦ cc (better-none idx b e)
        | inr (i, e) ↦ rw (w, consider) (yields i e w)
      ]
    ]

    -- The rounds over a list of candidates, from the loop's variables to its result.
    pub data Scans : List ℕ → Best F → Option ℕ × Bool → Type 0 where
      done : (b : Best F) → Scans [] b (b.best, b.eligible)
      reject :
          (x : ℕ) (xs : List ℕ) (b : Best F) (res : Option ℕ × Bool) (e : Reason)
          → eligible sys r (target_of r x) q ≡ some e
          → Scans xs b res
          → Scans (x ∷ xs) b res
      full :
          (x : ℕ) (xs : List ℕ) (b : Best F)
          → eligible sys r (target_of r x) q ≡ none
          → saturated sys r ≡ true
          → Scans (x ∷ xs) b (none, true)
      skip :
          (x : ℕ) (xs : List ℕ) (b : Best F) (res : Option ℕ × Bool)
          → eligible sys r (target_of r x) q ≡ none
          → (Runs sys r q preferred now x → ⊥)
          → Scans xs (record b { eligible = true }) res
          → Scans (x ∷ xs) b res
      finish :
          (x : ℕ) (xs : List ℕ) (b : Best F)
          → Runs sys r q preferred now x
          → better x b ≡ true
          → (fl.eq (score_of x) zero_f && is_empty g.preferences) ≡ true
          → Scans (x ∷ xs) b (some x, true)
      lead :
          (x : ℕ) (xs : List ℕ) (b : Best F) (res : Option ℕ × Bool)
          → Runs sys r q preferred now x
          → better x b ≡ true
          → Scans xs (record { best = some x; score = score_of x; eligible = true }) res
          → Scans (x ∷ xs) b res
      yield :
          (x : ℕ) (xs : List ℕ) (b : Best F) (res : Option ℕ × Bool) (i : ℕ)
          → Runs sys r q preferred now x
          → b.best ≡ some i
          → better x b ≡ false
          → Scans xs (record b { eligible = true }) res
          → Scans (x ∷ xs) b res

    weigh-Scans :
        (x : ℕ) (xs : List ℕ) (b : Best F) (rd : Round F) (next : Best F → Option ℕ × Bool)
        → Runs sys r q preferred now x
        → Weighs x (record b { eligible = true }) rd
        → ((b' : Best F) → Scans xs b' (next b'))
        → Scans (x ∷ xs) b (proceed rd next)
    weigh-Scans x xs b _ next runs (ends w z) ih = finish x xs b runs w z
    weigh-Scans x xs b _ next runs (leads w) ih = lead x xs b _ runs w (ih _)
    weigh-Scans x xs b _ next runs (yields i e w) ih = yield x xs b _ i runs e w (ih _)

    round-Scans :
        (x : ℕ) (xs : List ℕ) (b : Best F) (rd : Round F) (next : Best F → Option ℕ × Bool)
        → Goes x b rd
        → ((b' : Best F) → Scans xs b' (next b'))
        → Scans (x ∷ xs) b (proceed rd next)
    round-Scans x xs b _ next (rejected e h) ih = reject x xs b _ e h (ih b)
    round-Scans x xs b _ next (no_room h s) ih = full x xs b h s
    round-Scans x xs b _ next (skipped h w s) ih = skip x xs b _ h w (ih _)
    round-Scans x xs b _ next (considered runs) ih =
        weigh-Scans x xs b _ next runs (consider-Weighs x (record b { eligible = true })) ih

    pub scan-Scans : (xs : List ℕ) (b : Best F) → Scans xs b (scan sys r q g preferred now xs b)
    unfolding scan
    scan-Scans [] b = done b
    scan-Scans (x ∷ xs) b =
        round-Scans x xs b _ (scan sys r q g preferred now xs) (round-Goes x b)
          (λ b'. scan-Scans xs b')
