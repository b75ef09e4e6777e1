-- ===== src/Config/Pricing.antt =====
-- internal/config/pricing.go: declared prices. A missing price is unknown, never free.
use clash_of_tokens.Base.{
  ◌↔◌, ◌≡◌, refl, Bool, true, not, ◌&&◌, ◌||◌, Option, none, some, arith, if◌then◌else◌,
}
use clash_of_tokens.Base.Float.{Float64, zero_f, max_f}
use clash_of_tokens.Config.{Model}

module _ {F : Type 0} ⦃fl : Float64 F⦄ where
  unfoldable pub in_range : F → Bool
  in_range p =
      not (fl.is_nan p)
      && (not (fl.is_inf p)
          && ((fl.lt zero_f p || fl.eq zero_f p)
              && (fl.lt p (fl.decimal 1000000000 0) || fl.eq p (fl.decimal 1000000000 0))))

  unfoldable pub valid_price : Option F → Bool
  valid_price none = true
  valid_price (some p) = in_range p

  -- The pair (0, false) of the code is `none`.
  unfoldable pub unit_cost : Model F → Option F
  unfolding valid_price
  unit_cost m = elim m.input_usd_per_million [
    | none ↦ none
    | some a ↦ elim m.output_usd_per_million [
      | none ↦ none
      | some b ↦
          if not (valid_price (some a)) || not (valid_price (some b))
          then none
          else some (max_f a b)
    ]
  ]

  -- The rates that a unit cost stands on.
  pub record Priced (m : Model F) (cost : F) : Type 0 where
    pub input : F
    pub output : F
    pub input_declared : m.input_usd_per_million ≡ some input
    pub output_declared : m.output_usd_per_million ≡ some output
    pub input_valid : in_range input ≡ true
    pub output_valid : in_range output ≡ true
    pub larger : cost ≡ max_f input output

  unit_cost-to : (m : Model F) (c : F) → unit_cost m ≡ some c → Priced m c
  unfolding unit_cost valid_price
  unit_cost-to m c h = go m.input_usd_per_million m.output_usd_per_million refl refl
    where
      go :
          (i o : Option F) → m.input_usd_per_million ≡ i → m.output_usd_per_million ≡ o → Priced m c
      go none o p q = ground arith
      go (some a) none p q = ground arith
      go (some a) (some b) p q = record {
        input = a;
        output = b;
        input_declared = p;
        output_declared = q;
        input_valid = ground arith;
        output_valid = ground arith;
        larger = ground arith;
      }

  unit_cost-from : (m : Model F) (c : F) → Priced m c → unit_cost m ≡ some c
  unfolding unit_cost valid_price
  unit_cost-from m c p =
      ground (arith, p.input_declared, p.output_declared, p.input_valid, p.output_valid, p.larger)

  -- A model has a unit cost exactly when it declares both of its rates and both are valid, and the
  -- cost is then the larger of the two.
  pub unit_cost-Priced : (m : Model F) (c : F) → (unit_cost m ≡ some c) ↔ Priced m c
  unit_cost-Priced m c = (unit_cost-to m c, unit_cost-from m c)
