-- ===== src/Base/Guards.antt =====
-- A run of guards with early returns: the first test that holds gives its answer.
use mathlib.Core.Path.{◌≡◌, refl, sym, subst}
use mathlib.Core.Logic.{◌↔◌, inl, inr}
use mathlib.Core.Bool.{Bool, true, false}
use mathlib.Core.List.{List, [], ◌∷◌, ◌++◌}
use mathlib.Core.Option.{Option, none, some}
use clash_of_tokens.Base.Tests.{if◌then◌else◌}
use clash_of_tokens.Base.Lists.{In}

module _ {ℓ} {R : Type ℓ} where
  -- `if b { return r }` for each pair in turn; `none` when every test is false.
  abbrev pub first_failure : List (Bool × R) → Option R
  first_failure [] = none
  first_failure ((b, r) ∷ gs) = if b then some r else first_failure gs

  abbrev pub AllPass : List (Bool × R) → Type 0
  AllPass [] = Unit
  AllPass ((b, r) ∷ gs) = (b ≡ false) × AllPass gs

  pub first_failure-none : (gs : List (Bool × R)) → (first_failure gs ≡ none) ↔ AllPass gs
  first_failure-none [] = ((λ h. tt), λ h. refl)
  first_failure-none ((true, r) ∷ gs) = ((λ h. cc), λ h. cc)
  first_failure-none ((false, r) ∷ gs) =
      ((λ h. (refl, (first_failure-none gs).0 h)), λ h. (first_failure-none gs).1 h.1)

  pub AllPass-append : (xs ys : List (Bool × R)) → AllPass (xs ++ ys) ↔ (AllPass xs × AllPass ys)
  AllPass-append [] ys = ((λ h. (tt, h)), λ h. h.1)
  AllPass-append (x ∷ xs) ys = (
    (λ h. let (a, b) = (AllPass-append xs ys).0 h.1 in ((h.0, a), b)),
    λ h. (h.0.0, (AllPass-append xs ys).1 (h.0.1, h.1)),
  )

module _ {R : Type 0} where
  -- The answer is one of the run's, and its test holds.
  pub first_failure-some :
      (gs : List (Bool × R)) (r : R) → first_failure gs ≡ some r → In (true, r) gs
  first_failure-some [] r h = cc
  first_failure-some ((true, q) ∷ gs) r h = inl (cc)
  first_failure-some ((false, q) ∷ gs) r h = inr (first_failure-some gs r h)

-- A loop that gives up at the first guard that holds, and carries a state from round to round.
module _ {ℓ κ} {S : Type ℓ} {A : Type κ} {R : Type 0} (guards : S → A → List (Bool × R))
    (next : S → A → S) where
  abbrev pub check_each : S → List A → Option R
  check_each st [] = none
  check_each st (x ∷ xs) = elim (first_failure (guards st x)) [
    | some r ↦ some r
    | none ↦ check_each (next st x) xs
  ]

  -- Every round passes, in the state that the rounds before it leave.
  abbrev pub EachPass : S → List A → Type 0
  EachPass st [] = Unit
  EachPass st (x ∷ xs) = AllPass (guards st x) × EachPass (next st x) xs

  pub check_each-none : (st : S) (xs : List A) → check_each st xs ≡ none → EachPass st xs
  check_each-none st [] h = tt
  check_each-none st (x ∷ xs) h =
      go (first_failure (guards st x)) refl h (check_each-none (next st x) xs)
    where
      go :
          (o : Option R)
          → first_failure (guards st x) ≡ o
          → (elim o [ some r ↦ some r | none ↦ check_each (next st x) xs ]) ≡ none
          → (check_each (next st x) xs ≡ none → EachPass (next st x) xs)
          → AllPass (guards st x) × EachPass (next st x) xs
      go (some r) e k ih = cc
      go none e k ih = ((first_failure-none (guards st x)).0 e, ih k)

module _ {S : Type 0} {A : Type 0} {R : Type 0} (guards : S → A → List (Bool × R))
    (next : S → A → S) where
  -- What passes in a loop passes in the state of its own round.
  pub EachPass-In :
      (st : S) (xs : List A) (x : A)
      → EachPass guards next st xs
      → In x xs
      → (st' : S) × AllPass (guards st' x)
  EachPass-In st [] x h m = absurd m
  EachPass-In st (y ∷ ys) x h (inl e) = (st, subst (λ z. AllPass (guards st z)) (sym e) h.0)
  EachPass-In st (y ∷ ys) x h (inr m) = EachPass-In (next st y) ys x h.1 m

-- A loop without a state.
module _ {S : Type 0} {A : Type 0} {R : Type 0} (guards : S → A → List (Bool × R)) where
  pub EachPass-same :
      (st : S) (xs : List A) (x : A)
      → EachPass guards (λ s y. s) st xs
      → In x xs
      → AllPass (guards st x)
  EachPass-same st [] x h m = absurd m
  EachPass-same st (y ∷ ys) x h (inl e) = subst (λ z. AllPass (guards st z)) (sym e) h.0
  EachPass-same st (y ∷ ys) x h (inr m) = EachPass-same st ys x h.1 m
