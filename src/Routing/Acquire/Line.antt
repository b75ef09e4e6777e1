-- ===== src/Routing/Acquire/Line.antt =====
-- internal/routing/router.go: who could run, and whether somebody ahead in the queue could.
use clash_of_tokens.Base.{
  ℕ, suc, ◌≡◌, ◌⊎◌, inl, inr, Bool, true, false, List, [], ◌∷◌, none, some, arith, In, Option-cases,
}
use clash_of_tokens.Base.Float.{Float64}
use clash_of_tokens.Routing.Types.{Query, Router, System, Waiter, target_of}
use clash_of_tokens.Routing.Eligible.{eligible, is_some}
use clash_of_tokens.Routing.Pools.{Sha256}
use clash_of_tokens.Routing.Choose.{choose, candidates_of}
use clash_of_tokens.Routing.Choose.Sound.{MayRun, choose-runs, choose_complete}
use clash_of_tokens.Routing.Queue.Fair.{AllLetPass}

module _ {F : Type 0} ⦃fl : Float64 F⦄ ⦃sha : Sha256⦄ (sys : System F) (r : Router F) where
  -- A candidate of the query could run at a time, in an active router.
  pub record CanRun (q : Query F) (now : ℕ) : Type 0 where
    pub active : r.retired ≡ false
    pub some_target : (i : ℕ) × In i (candidates_of r q) × MayRun sys r q now i

  -- A candidate of the query is eligible, in an active router, whether or not it has room.
  pub record CanServe (q : Query F) : Type 0 where
    pub active : r.retired ≡ false
    pub some_target : (i : ℕ) × In i (candidates_of r q) × (eligible sys r (target_of r i) q ≡ none)

  abbrev pub Lets : (ℕ → Bool) → ℕ → Waiter F → Type 0
  Lets canceled now w = (canceled w.ctx ≡ true) ⊎ (CanRun w.query now → ⊥)

  -- Nobody on the list, whom a request comes behind, is live and could run. Each is asked at a later
  -- time.
  pub data NobodyRuns (canceled : ℕ → Bool) (clock : ℕ → ℕ) : ℕ → List (Waiter F) → Type 0 where
    end_of_line : (k : ℕ) → NobodyRuns canceled clock k []
    lets_pass :
        (k : ℕ) (w : Waiter F) (ws : List (Waiter F))
        → Lets canceled (clock k) w
        → NobodyRuns canceled clock (suc k) ws
        → NobodyRuns canceled clock k (w ∷ ws)

  pub chosen-CanRun : (q : Query F) (now idx : ℕ) → (choose sys r q now).0 ≡ some idx → CanRun q now
  chosen-CanRun q now idx e =
      let (live, m, run, t) = choose-runs sys r q now idx e in
      record { active = live; some_target = (idx, m, run) }

  pub none-CanRun : (q : Query F) (now : ℕ) → (choose sys r q now).0 ≡ none → CanRun q now → ⊥
  none-CanRun q now e c =
      let (i, m, run) = c.some_target in
      let (j, k) = choose_complete sys r q now c.active i m run in cc (e, k)

  unchosen-Lets :
      (q : Query F) (now : ℕ) → is_some (choose sys r q now).0 ≡ false → CanRun q now → ⊥
  unchosen-Lets q now h = elim (Option-cases (choose sys r q now).0) [
    | inl n ↦ none-CanRun q now n
    | inr (j, e) ↦ absurd (ground arith)
  ]

  uncalled-Lets :
      (q : Query F) (now : ℕ) → (CanRun q now → ⊥) → is_some (choose sys r q now).0 ≡ false
  uncalled-Lets q now h = elim (Option-cases (choose sys r q now).0) [
    | inl n ↦ ground arith
    | inr (j, e) ↦ absurd (h (chosen-CanRun q now j e))
  ]

  pub passes-NobodyRuns :
      (canceled : ℕ → Bool) (clock : ℕ → ℕ) (k : ℕ) (ws : List (Waiter F))
      → AllLetPass sys r canceled clock k ws
      → NobodyRuns canceled clock k ws
  passes-NobodyRuns canceled clock k [] h = end_of_line k
  passes-NobodyRuns canceled clock k (w ∷ ws) h =
      lets_pass k w ws
        (elim h.0 [ inl c ↦ inl c | inr n ↦ inr (unchosen-Lets w.query (clock k) n) ])
        (passes-NobodyRuns canceled clock (suc k) ws h.1)

  pub NobodyRuns-passes :
      (canceled : ℕ → Bool) (clock : ℕ → ℕ) (k : ℕ) (ws : List (Waiter F))
      → NobodyRuns canceled clock k ws
      → AllLetPass sys r canceled clock k ws
  NobodyRuns-passes canceled clock k _ (end_of_line _) = tt
  NobodyRuns-passes canceled clock k _ (lets_pass _ w ws l rest) = (
    elim l [ inl c ↦ inl c | inr n ↦ inr (uncalled-Lets w.query (clock k) n) ],
    NobodyRuns-passes canceled clock (suc k) ws rest,
  )
