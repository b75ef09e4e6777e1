-- ===== src/Routing/Compile/Places.antt =====
-- internal/routing/router.go: the addresses in the lists and the maps that New fills.
use clash_of_tokens.Base.{
  ℕ, zero, suc, String, ◌≡◌, refl, false, List, [], ◌∷◌, ◌++◌, Option, none, some, arith, ◌+◌, ◌≤◌,
  ◌<◌, ◌==◌, length, get_or, lookup, insert, All, if_intro,
}
use clash_of_tokens.Routing.Acquire.Held.{at}

abbrev pub Values : (ℕ → Type 0) → List (String × ℕ) → Type 0
Values P m = All (λ e. P e.1) m

pub insert-Values :
    (P : ℕ → Type 0) (key : String) (v : ℕ) (m : List (String × ℕ))
    → P v
    → Values P m
    → Values P (insert key v m)
unfolding insert
insert-Values P key v [] h k = (h, k)
insert-Values P key v (e ∷ rest) h k =
    if_intro (Values P) (e.0 == key) ((key, v) ∷ rest) (e ∷ insert key v rest) (h, k.1)
      (k.0, insert-Values P key v rest h k.1)

-- What a map gives, if it gives something.
pub data Given (P : ℕ → Type 0) : Option ℕ → Type 0 where
  nothing : Given P none
  given : {v : ℕ} → P v → Given P (some v)

pub lookup-Given :
    (P : ℕ → Type 0) (key : String) (m : List (String × ℕ)) → Values P m → Given P (lookup key m)
unfolding lookup
lookup-Given P key [] k = nothing
lookup-Given P key (e ∷ rest) k =
    if_intro (Given P) (e.0 == key) (some e.1) (lookup key rest) (given k.0)
      (lookup-Given P key rest k.1)

pub All-map {ℓ κ μ} :
    {A : Type ℓ} (P : A → Type κ) (Q : A → Type μ) (xs : List A)
    → ((x : A) → P x → Q x)
    → All P xs
    → All Q xs
All-map P Q [] f h = tt
All-map P Q (x ∷ xs) f h = (f x h.0, All-map P Q xs f h.1)

-- The numbers from `k` on.
abbrev pub Numbered : ℕ → List ℕ → Type 0
Numbered k [] = Unit
Numbered k (x ∷ xs) = (x ≡ k) × Numbered (suc k) xs

pub Numbered-append :
    (k v : ℕ) (xs : List ℕ) → Numbered k xs → v ≡ k + length xs → Numbered k (xs ++ v ∷ [])
Numbered-append k v [] h e = (omega arith, tt)
Numbered-append k v (x ∷ xs) h e = (h.0, Numbered-append (suc k) v xs h.1 (omega arith))

pub get_or-Numbered :
    (k i : ℕ) (xs : List ℕ) → Numbered k xs → i < length xs → get_or xs i 0 ≡ k + i
get_or-Numbered k i [] h l = absurd (omega arith)
get_or-Numbered k zero (x ∷ xs) h l = omega (arith, h.0)
get_or-Numbered k (suc i) (x ∷ xs) h l =
    omega (arith, get_or-Numbered (suc k) i xs h.1 (omega arith))

-- The counter of an account, and that of a quota, at a place of both lists.
pub apart_at :
    (base i : ℕ) (os : List (Option ℕ)) (qs : List ℕ)
    → All (Given (λ a. a < base)) os
    → All (λ a. base ≤ a) qs
    → length os ≡ length qs
    → at (get_or os i none) (get_or qs i 0) ≡ false
apart_at base i [] qs ho hq l = refl
apart_at base i (o ∷ os) [] ho hq l = absurd (omega arith)
apart_at base zero (none ∷ os) (q ∷ qs) ho hq l = refl
apart_at base zero (some a ∷ os) (q ∷ qs) ho hq l = elim ho.0 [ given h ↦ ground (arith, hq.0) ]
apart_at base (suc i) (o ∷ os) (q ∷ qs) ho hq l = apart_at base i os qs ho.1 hq.1 (omega arith)
