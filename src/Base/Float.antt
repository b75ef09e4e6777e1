-- ===== src/Base/Float.antt =====
-- Go's float64 and the operations on it that the program uses, as an interface: the arithmetic is
-- the language's. The laws that a theorem needs are named, and hold of IEEE 754 numbers.
use Prim.Native.Nat.{ℕ, ◌+◌, ◌*◌, ◌/◌, ◌^◌}
use mathlib.Core.Path.{◌≡◌}
use mathlib.Core.Bool.{Bool, true, false}
use mathlib.Core.Logic.{inl, inr}
use native.Mathlib.Omega.{arith}
use clash_of_tokens.Base.Tests.{ltb, eqb, if◌then◌else◌, Bool-cases}
use clash_of_tokens.Base.Int.{ℤ, pos_part}

pub record Float64 (F : Type 0) : Type 0 where
  pub lt : F → F → Bool
  pub eq : F → F → Bool
  pub add : F → F → F
  pub mul : F → F → F
  pub div : F → F → F
  pub of_int : ℤ → F
  -- The literal n · 10⁻ᵏ.
  pub decimal : ℕ → ℕ → F
  pub inf : F
  pub is_nan : F → Bool
  pub is_inf : F → Bool

module _ {F : Type 0} ⦃fl : Float64 F⦄ where
  abbrev pub zero_f : F
  zero_f = fl.decimal 0 0

  abbrev pub max_f : F → F → F
  max_f a b = if fl.lt a b then b else a

-- What IEEE 754 says of the order. Every comparison with a NaN is false, so only the last but one
-- law excludes it.
pub record StrictOrder {F : Type 0} (fl : Float64 F) : Type 0 where
  pub irreflexive : (a : F) → fl.lt a a ≡ false
  pub transitive : (a b c : F) → fl.lt a b ≡ true → fl.lt b c ≡ true → fl.lt a c ≡ true
  pub between :
      (a b c : F) → fl.is_nan b ≡ false → fl.lt a b ≡ false → fl.lt b c ≡ false → fl.lt a c ≡ false
  pub eq_right : (a b c : F) → fl.eq a b ≡ true → fl.lt c a ≡ fl.lt c b

pub asymmetric :
    {F : Type 0} {fl : Float64 F}
    → StrictOrder fl
    → (a b : F) → fl.lt a b ≡ true
    → fl.lt b a ≡ false
asymmetric {fl = fl} o a b h = elim (Bool-cases (fl.lt b a)) [
  | inl k ↦ cc (o.transitive a b a h k, o.irreflexive a)
  | inr k ↦ k
]

-- Thousandths as natural numbers: an instance for tests and witnesses.
instance abbrev pub milli : Float64 ℕ
milli = record {
  lt = ltb;
  eq = eqb;
  add = λ a b. a + b;
  mul = λ a b. a * b / 1000;
  div = λ a b. a * 1000 / b;
  of_int = λ n. pos_part n * 1000;
  decimal = λ n k. n * 1000 / 10 ^ k;
  inf = 10 ^ 30;
  is_nan = λ a. false;
  is_inf = λ a. eqb a (10 ^ 30);
}

pub milli-StrictOrder : StrictOrder milli
milli-StrictOrder = record {
  irreflexive = λ a. ground arith;
  transitive = λ a b c h k. ground arith;
  between = λ a b c n h k. ground arith;
  eq_right = λ a b c h. ground arith;
}
