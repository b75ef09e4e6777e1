-- ===== src/Base/Maps.antt =====
-- A Go map with string keys as an association list, and a heap of objects as a function of addresses.
use Prim.Native.Nat.{ℕ}
use Prim.Native.String.{String}
use mathlib.Core.Path.{◌≡◌, refl}
use mathlib.Core.List.{List, [], ◌∷◌}
use mathlib.Core.Option.{Option, none, some}
use native.Mathlib.Omega.{arith}
use text.Mathlib.Text.{◌==◌}
use text.Mathlib.TextEquality.{eq_iff}
use clash_of_tokens.Base.Tests.{if◌then◌else◌, eqb}

module _ {ℓ} {W : Type ℓ} where
  -- `m[key]`, with `ok` of the two-valued form.
  unfoldable pub lookup : (key : String) → (m : List (String × W)) → Option W
  lookup key [] = none
  lookup key (entry ∷ rest) = if entry.0 == key then some entry.1 else lookup key rest

  -- `m[key] = w`.
  unfoldable pub insert : (key : String) → W → (m : List (String × W)) → List (String × W)
  insert key w [] = (key, w) ∷ []
  insert key w (entry ∷ rest) =
      if entry.0 == key then (key, w) ∷ rest else entry ∷ insert key w rest

  pub lookup-insert :
      (m : List (String × W)) (w : W) (key other : String)
      → (if key == other then some w else lookup other m) ≡ lookup other (insert key w m)
  unfolding insert lookup
  lookup-insert [] w key other = refl
  lookup-insert (entry ∷ rest) w key other =
      let ih = lookup-insert rest w key other in
      ground (arith, ih, eq_iff key other, eq_iff entry.0 other, eq_iff entry.0 key)

module _ {ℓ} {A : Type ℓ} where
  abbrev pub update : (ℕ → A) → ℕ → A → ℕ → A
  update h a v b = if eqb a b then v else h b

  pub update_self : (h : ℕ → A) (a : ℕ) (v : A) → update h a v a ≡ v
  update_self h a v = ground arith
