-- ===== src/Routing/Choose/Sound.antt =====
-- internal/routing/router.go: the two results of choose.
use clash_of_tokens.Base.{
  ℕ, String, ◌≡◌, refl, sym, subst, inl, inr, ◌↔◌, ◌≢◌, Bool, true, false, List, Option, none, some,
  ◌%◌, length, In, Bool-cases, if_true, if_false,
}
use clash_of_tokens.Base.Float.{Float64}
use clash_of_tokens.Routing.Types.{CompiledGroup, Query, Router, System, target_of}
use clash_of_tokens.Routing.Eligible.{eligible}
use clash_of_tokens.Routing.Pools.{Sha256}
use clash_of_tokens.Routing.Choose.{
  Best, visit, saturated, group_of, candidates_of, start, preferred_of, choose,
}
use clash_of_tokens.Routing.Choose.Visits.{In-visit}
use clash_of_tokens.Routing.Choose.Rounds.{
  Runs, Scans, done, reject, full, skip, finish, lead, yield, scan-Scans,
}

module _ {F : Type 0} ⦃fl : Float64 F⦄ (sys : System F) (r : Router F) (q : Query F)
    (g : CompiledGroup F) (preferred : List (String × String)) (now : ℕ) where
  abbrev Rs : List ℕ → Best F → Option ℕ × Bool → Type 0
  Rs = Scans sys r q g preferred now

  abbrev Run : ℕ → Type 0
  Run = Runs sys r q preferred now

  pub Scans-chosen :
      (Q : ℕ → Type 0) {xs : List ℕ} {b : Best F} {res : Option ℕ × Bool}
      → Rs xs b res
      → ((i : ℕ) → b.best ≡ some i → Q i × (b.eligible ≡ true))
      → ((x : ℕ) → In x xs → Run x → Q x)
      → (i : ℕ) → res.0 ≡ some i
      → Q i × (res.1 ≡ true)
  Scans-chosen Q (done b) hb hx i e = hb i e
  Scans-chosen Q (reject x xs b res _ _ s) hb hx i e = Scans-chosen Q s hb (λ y m. hx y (inr m)) i e
  Scans-chosen Q (full x xs b _ _) hb hx i e = cc
  Scans-chosen Q (skip x xs b res _ _ s) hb hx i e =
      Scans-chosen Q s (λ j k. ((hb j k).0, refl)) (λ y m. hx y (inr m)) i e
  Scans-chosen Q (finish x xs b runs _ _) hb hx i e =
      let k : x ≡ i = cc in (subst Q k (hx x (inl refl) runs), refl)
  Scans-chosen Q (lead x xs b res runs _ s) hb hx i e =
      Scans-chosen Q s (λ j k. (let p : x ≡ j = cc in subst Q p (hx x (inl refl) runs), refl))
        (λ y m. hx y (inr m)) i e
  Scans-chosen Q (yield x xs b res _ _ _ _ s) hb hx i e =
      Scans-chosen Q s (λ j k. ((hb j k).0, refl)) (λ y m. hx y (inr m)) i e

  pub Scans-none :
      {xs : List ℕ} {b : Best F} {res : Option ℕ × Bool}
      → Rs xs b res
      → saturated sys r ≡ false
      → res.0 ≡ none
      → (b.best ≡ none) × ((x : ℕ) → In x xs → Run x → ⊥)
  Scans-none (done b) h e = (e, λ x m. absurd m)
  Scans-none (reject x xs b res _ k s) h e =
      let (n, rest) = Scans-none s h e in
      (n, λ y m run. elim m [ inl p ↦ cc (run.admitted, p, k) | inr m' ↦ rest y m' run ])
  Scans-none (full x xs b _ k) h e = cc
  Scans-none (skip x xs b res _ k s) h e =
      let (n, rest) = Scans-none s h e in
      (n, λ y m run. elim m [ inl p ↦ k (subst Run p run) | inr m' ↦ rest y m' run ])
  Scans-none (finish x xs b _ _ _) h e = cc
  Scans-none (lead x xs b res _ _ s) h e = let p = (Scans-none s h e).0 in cc p
  Scans-none (yield x xs b res i _ k _ s) h e = let p = (Scans-none s h e).0 in cc (p, k)

  pub Scans-ineligible :
      {xs : List ℕ} {b : Best F} {res : Option ℕ × Bool}
      → Rs xs b res
      → res.1 ≡ false
      → (b.eligible ≡ false) × ((x : ℕ) → In x xs → eligible sys r (target_of r x) q ≢ none)
  Scans-ineligible (done b) e = (e, λ x m. absurd m)
  Scans-ineligible (reject x xs b res _ k s) e =
      let (n, rest) = Scans-ineligible s e in
      (n, λ y m h. elim m [ inl p ↦ cc (h, p, k) | inr m' ↦ rest y m' h ])
  Scans-ineligible (full x xs b _ _) e = cc
  Scans-ineligible (skip x xs b res _ _ s) e = let p = (Scans-ineligible s e).0 in cc p
  Scans-ineligible (finish x xs b _ _ _) e = cc
  Scans-ineligible (lead x xs b res _ _ s) e = let p = (Scans-ineligible s e).0 in cc p
  Scans-ineligible (yield x xs b res _ _ _ _ s) e = let p = (Scans-ineligible s e).0 in cc p

  pub Scans-eligible :
      {xs : List ℕ} {b : Best F} {res : Option ℕ × Bool}
      → Rs xs b res
      → b.eligible ≡ false
      → res.1 ≡ true
      → (x : ℕ) × In x xs × (eligible sys r (target_of r x) q ≡ none)
  Scans-eligible (done b) h e = cc
  Scans-eligible (reject x xs b res _ _ s) h e =
      let (y, m, k) = Scans-eligible s h e in (y, inr m, k)
  Scans-eligible (full x xs b k _) h e = (x, inl refl, k)
  Scans-eligible (skip x xs b res k _ _) h e = (x, inl refl, k)
  Scans-eligible (finish x xs b runs _ _) h e = (x, inl refl, runs.admitted)
  Scans-eligible (lead x xs b res runs _ _) h e = (x, inl refl, runs.admitted)
  Scans-eligible (yield x xs b res _ runs _ _ _) h e = (x, inl refl, runs.admitted)

module _ {F : Type 0} ⦃fl : Float64 F⦄ ⦃sha : Sha256⦄ (sys : System F) (r : Router F) (q : Query F)
    (now : ℕ) where
  abbrev pub visited : List ℕ
  visited =
      visit 0 (length (candidates_of r q)) (r.cursor % length (candidates_of r q))
        (candidates_of r q)

  abbrev pub MayRun : ℕ → Type 0
  MayRun i = Runs sys r q (preferred_of sys r q now) now i

  pub choose-Scans :
      r.retired ≡ false
      → Scans sys r q
          (group_of r q)
          (preferred_of sys r q now)
          now
          visited
          start
          (choose sys r q now)
  unfolding choose
  choose-Scans h =
      subst (Scans sys r q (group_of r q) (preferred_of sys r q now) now visited start)
        (sym (if_false r.retired _ _ h))
        (scan-Scans sys r q (group_of r q) (preferred_of sys r q now) now visited start)

  choose-retired : r.retired ≡ true → choose sys r q now ≡ (none, false)
  unfolding choose
  choose-retired h = if_true r.retired _ _ h

  -- The target that choose names is a candidate of the query in an active router, eligible, and has
  -- room for one more request: in the router, the source, the quota and the account, with no cooldown
  -- running and no other account of its pool preferred.
  pub choose-runs :
      (i : ℕ)
      → (choose sys r q now).0 ≡ some i
      → (r.retired ≡ false) × In i (candidates_of r q) × MayRun i × ((choose sys r q now).1 ≡ true)
  choose-runs i e = elim (Bool-cases r.retired) [
    | inl old ↦ cc (choose-retired old, e)
    | inr live ↦
        let ((m, run), t) =
          Scans-chosen sys r q (group_of r q) (preferred_of sys r q now) now
            (λ x. In x visited × MayRun x) (choose-Scans live) (λ j k. cc) (λ x m run. (m, run)) i
            e in
        (live, (In-visit r.cursor (candidates_of r q) i).0 m, run, t)
  ]

  -- An active router that has a candidate with room names one.
  pub choose_complete :
      r.retired ≡ false
      → (i : ℕ) → In i (candidates_of r q)
      → MayRun i
      → (j : ℕ) × ((choose sys r q now).0 ≡ some j)
  choose_complete live i m run = go (choose sys r q now).0 refl
    where
      go : (o : Option ℕ) → (choose sys r q now).0 ≡ o → (j : ℕ) × ((choose sys r q now).0 ≡ some j)
      go (some j) e = (j, e)
      go none e = absurd (
          (Scans-none sys r q (group_of r q) (preferred_of sys r q now) now (choose-Scans live)
              run.room e).1
            i ((In-visit r.cursor (candidates_of r q) i).1 m) run)

  -- The second result says whether the router is active and some candidate is eligible, with room
  -- or without: it decides between waiting and giving up.
  pub choose-eligible : ((choose sys r q now).1 ≡ true) ↔ (
      (r.retired ≡ false)
      × ((i : ℕ) × In i (candidates_of r q) × (eligible sys r (target_of r i) q ≡ none)))
  choose-eligible = (there, back)
    where
      there :
          (choose sys r q now).1 ≡ true
          → (r.retired ≡ false)
            × ((i : ℕ) × In i (candidates_of r q) × (eligible sys r (target_of r i) q ≡ none))
      there e = elim (Bool-cases r.retired) [
        | inl old ↦ cc (choose-retired old, e)
        | inr live ↦
            let (x, m, k) =
              Scans-eligible sys r q (group_of r q) (preferred_of sys r q now) now
                (choose-Scans live) refl e in
            (live, (x, (In-visit r.cursor (candidates_of r q) x).0 m, k))
      ]

      back :
          (r.retired ≡ false)
            × ((i : ℕ) × In i (candidates_of r q) × (eligible sys r (target_of r i) q ≡ none))
          → (choose sys r q now).1 ≡ true
      back (live, (i, m, k)) = elim (Bool-cases (choose sys r q now).1) [
        | inl t ↦ t
        | inr f ↦ absurd (
            (Scans-ineligible sys r q (group_of r q) (preferred_of sys r q now) now
                (choose-Scans live) f).1
              i ((In-visit r.cursor (candidates_of r q) i).1 m) k)
      ]
