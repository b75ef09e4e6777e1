-- ===== src/Routing/Explain/Agree.antt =====
-- internal/routing/router.go: explainReason and Simulate beside choose.
use clash_of_tokens.Base.{
  ℕ, suc, ◌≡◌, refl, sym, ap, ◌⊎◌, inl, inr, true, false, List, [], ◌∷◌, Option, none, some, arith,
  eqb, eqb_iff, eqb_refl, if◌then◌else◌, In, Bool-cases, is_empty,
}
use clash_of_tokens.Base.Float.{Float64}
use clash_of_tokens.Routing.Types.{Query, Router, System, target_of}
use clash_of_tokens.Routing.Eligible.{eligible}
use clash_of_tokens.Routing.Pools.{Sha256, busy, account_full}
use clash_of_tokens.Routing.Choose.{candidates_of, choose, saturated, passed_over, preferred_of}
use clash_of_tokens.Routing.Choose.Sound.{choose-runs, choose_complete}
use clash_of_tokens.Routing.Explain.{
  eligible_now, Simulation, is_selected, explain_room, explain_reason, target_id, simulate_loop,
  simulated, simulate,
}

module _ {F : Type 0} ⦃fl : Float64 F⦄ (sys : System F) (r : Router F) (now : ℕ) where
  explain_room-eligible :
      (i : ℕ)
      → saturated sys r ≡ false
      → account_full sys r i ≡ false
      → busy sys r i now ≡ false
      → explain_room sys r i now ≡ eligible_now
  unfolding explain_room busy
  explain_room-eligible i a b c = ground arith

  eligible-explain_room :
      (i : ℕ)
      → explain_room sys r i now ≡ eligible_now
      → (saturated sys r ≡ false) × (account_full sys r i ≡ false) × (busy sys r i now ≡ false)
  unfolding explain_room busy
  eligible-explain_room i h = ground arith

  explain-eligible :
      (idx : ℕ) (q : Query F)
      → explain_reason sys r (target_of r idx) q now ≡ eligible_now
      → (eligible sys r (target_of r idx) q ≡ none)
        × (explain_room sys r (target_of r idx).source now ≡ eligible_now)
  unfolding explain_reason
  explain-eligible idx q h = ground arith

  eligible-explain :
      (idx : ℕ) (q : Query F)
      → eligible sys r (target_of r idx) q ≡ none
      → explain_room sys r (target_of r idx).source now ≡ eligible_now
      → explain_reason sys r (target_of r idx) q now ≡ eligible_now
  unfolding explain_reason
  eligible-explain idx q h k = rw (h, explain_reason) k

module _ {F : Type 0} ⦃fl : Float64 F⦄ ⦃sha : Sha256⦄ (sys : System F) (r : Router F) (q : Query F)
    (now : ℕ) where
  -- What choose names is explained as eligible; and in an active router where a candidate is
  -- explained as eligible, and no other account of its pool is preferred, choose names a target.
  pub explain-agrees :
      ((i : ℕ)
        → (choose sys r q now).0 ≡ some i
        → explain_reason sys r (target_of r i) q now ≡ eligible_now)
      × ((i : ℕ)
          → r.retired ≡ false
          → In i (candidates_of r q)
          → explain_reason sys r (target_of r i) q now ≡ eligible_now
          → passed_over r (preferred_of sys r q now) (target_of r i).source ≡ false
          → (j : ℕ) × ((choose sys r q now).0 ≡ some j))
  explain-agrees = (there, back)
    where
      there :
          (i : ℕ)
          → (choose sys r q now).0 ≡ some i
          → explain_reason sys r (target_of r i) q now ≡ eligible_now
      there i e =
          let run = (choose-runs sys r q now i e).2 in
          eligible-explain sys r now i q run.admitted (
            explain_room-eligible sys r now (target_of r i).source run.room run.account_room
              run.idle)

      back :
          (i : ℕ)
          → r.retired ≡ false
          → In i (candidates_of r q)
          → explain_reason sys r (target_of r i) q now ≡ eligible_now
          → passed_over r (preferred_of sys r q now) (target_of r i).source ≡ false
          → (j : ℕ) × ((choose sys r q now).0 ≡ some j)
      back i live m h p =
          let (el, room) = explain-eligible sys r now i q h in
          let (sat, acc, idle) = eligible-explain_room sys r now (target_of r i).source room in
          choose_complete sys r q now live i m
            (record { admitted = el; room = sat; own_turn = p; account_room = acc; idle = idle })

  is_selected_iff : (o : Option ℕ) (i : ℕ) → is_selected o i ≡ true → o ≡ some i
  is_selected_iff none i h = cc
  is_selected_iff (some j) i h = ap some (sym ((eqb_iff i j).0 h))

  -- The field `selected` after the loop: the target's id once it was met, and before that what it was.
  simulate_loop-selected :
      (i order : ℕ) (xs : List ℕ) (out : Simulation)
      → In i xs ⊎ (out.selected ≡ target_id r i)
      → (simulate_loop sys r q now (some i) order xs out).selected ≡ target_id r i
  unfolding simulate_loop
  simulate_loop-selected i order [] out (inl m) = absurd m
  simulate_loop-selected i order [] out (inr e) = e
  simulate_loop-selected i order (x ∷ xs) out h = simulate_loop-selected i (suc order) xs _ (step h)
    where
      step :
          In i (x ∷ xs) ⊎ (out.selected ≡ target_id r i)
          → In i xs ⊎ ((if eqb x i then target_id r x else out.selected) ≡ target_id r i)
      step k = elim (Bool-cases (eqb x i)) [
        | inl e ↦ inr (rw e (ap (target_id r) ((eqb_iff x i).0 e)))
        | inr e ↦ elim k [
          | inl m ↦ elim m [ inl p ↦ cc (p, eqb_refl x, e) | inr m' ↦ inl m' ]
          | inr s ↦ inr (rw e s)
        ]
      ]

  simulate_loop-nothing :
      (order : ℕ) (xs : List ℕ) (out : Simulation)
      → (simulate_loop sys r q now none order xs out).selected ≡ out.selected
  unfolding simulate_loop
  simulate_loop-nothing order [] out = refl
  simulate_loop-nothing order (x ∷ xs) out = simulate_loop-nothing (suc order) xs _

  In-simulated : (i : ℕ) → In i (candidates_of r q) → In i (simulated r q)
  unfolding simulated
  In-simulated i m = elim (Bool-cases (is_empty (candidates_of r q))) [
    | inl e ↦ absurd (not_empty (candidates_of r q) m e)
    | inr e ↦ rw e m
  ]
    where
      not_empty : (cs : List ℕ) → In i cs → is_empty cs ≡ true → ⊥
      not_empty [] k e = k
      not_empty (c ∷ cs) k e = cc

  -- The simulator selects the target that choose would take now, and none when it would take none.
  pub simulate-selected :
      (simulate sys r q now).selected
      ≡ (elim (choose sys r q now).0 [ none ↦ "" | some i ↦ target_id r i ])
  unfolding simulate
  simulate-selected = go (choose sys r q now).0 refl
    where
      go :
          (o : Option ℕ)
          → (choose sys r q now).0 ≡ o
          → (simulate_loop sys r q now o 0
              (simulated r q)
              (record { selected = ""; candidates = [] })).selected
            ≡ (elim o [ none ↦ "" | some i ↦ target_id r i ])
      go none e = simulate_loop-nothing 0 (simulated r q) _
      go (some i) e =
          simulate_loop-selected i 0 (simulated r q) _
            (inl (In-simulated i (choose-runs sys r q now i e).1))
