-- ===== src/Protocol/Inspect/Settles.antt =====
-- internal/protocol/request.go: what Inspect answers, and Rewrite of a request that it accepts.
use clash_of_tokens.Base.{
  ℕ, zero, suc, ◌+◌, ◌-◌, ◌≤◌, ◌<◌, ◌≡◌, refl, sym, ap, subst, inl, inr, Bool, true, false, not,
  List, [], ◌∷◌, ◌++◌, Option, none, some, arith, eqb, if◌then◌else◌, length, get_elem?, take, drop,
  Bool-cases, if_true, if_false, if_intro,
}
use clash_of_tokens.Protocol.Usage.{bytes_equal}
use clash_of_tokens.Protocol.Scan.{
  space, string_end, value_end, space_bounds, string_end_bounds, get_elem?-lt, EndsIn,
  value_end-EndsIn,
}
use clash_of_tokens.Protocol.Request.{Codec, Request, no_request, sub, byte_is}
use clash_of_tokens.Protocol.Inspect.{
  InspectError, invalid_json, not_an_object, Inspection, inspected, rejected, out_of_range, Field,
  apply_field, after_field, key_at, inspect_value, value_start, inspect_loop, inspect, rewritten,
  rewrite,
}
use clash_of_tokens.Protocol.Inspect.Placed.{
  Placed, unplaced, placed, PlacedIn, Sound, kept_sound, refused_sound, apply_field-Sound,
}

-- Another model in a request: the bytes are left alone where there is no model or it is the same, or
-- the text `val` that decodes to the model, and nothing else, gives way to the other model, quoted.
pub data Rewrites (codec : Codec) (b : List ℕ) (r : Request) (model : List ℕ)
    : List ℕ → Type 0 where
  no_model : r.model_start ≡ none → Rewrites codec b r model b
  same_model : bytes_equal r.model model ≡ true → Rewrites codec b r model b
  replaced :
      (pre val post : List ℕ)
      → bytes_equal r.model model ≡ false
      → b ≡ pre ++ (val ++ post)
      → codec.text val ≡ some r.model
      → Rewrites codec b r model (pre ++ (codec.quote model ++ post))

-- Inspect answers, and a request that it accepts can be rewritten.
pub data Settles (codec : Codec) (b model : List ℕ) : Option Inspection → Type 0 where
  accepted :
      (r : Request)
      → Rewrites codec b r model (rewrite codec b r model)
      → Settles codec b model (some (inspected r))
  refused_request : (e : InspectError) → Settles codec b model (some (rejected e))
  panicked : Settles codec b model (some out_of_range)

take-drop : (n : ℕ) (xs : List ℕ) → xs ≡ take n xs ++ drop n xs
take-drop zero xs = refl
take-drop (suc n) [] = refl
take-drop (suc n) (x ∷ xs) = ap (λ z. x ∷ z) (take-drop n xs)

part-split : (b : List ℕ) (i n j : ℕ) → i + n ≡ j → b ≡ take i b ++ (take n (drop i b) ++ drop j b)
part-split b zero n j e =
    let h : n ≡ j = omega arith in subst (λ k. b ≡ take n b ++ drop k b) h (take-drop n b)
part-split [] (suc i) zero zero e = refl
part-split [] (suc i) zero (suc j) e = refl
part-split [] (suc i) (suc n) zero e = refl
part-split [] (suc i) (suc n) (suc j) e = refl
part-split (x ∷ xs) (suc i) n zero e = absurd (omega arith)
part-split (x ∷ xs) (suc i) n (suc j) e = ap (λ z. x ∷ z) (part-split xs i n j (omega arith))

sub-split : (b : List ℕ) (i j : ℕ) → i ≤ j → b ≡ take i b ++ (sub b i j ++ drop j b)
sub-split b i j h = part-split b i (j - i) j (omega arith)

module _ (codec : Codec) (b model : List ℕ) where
  rewritten-Rewrites :
      (r : Request) (o : Option ℕ)
      → r.model_start ≡ o
      → Placed codec b r.model r.model_end o
      → Rewrites codec b r model (rewritten codec b o r model)
  rewritten-Rewrites r none e p = no_model e
  rewritten-Rewrites r (some s) e (placed _ l u t) = elim (Bool-cases (bytes_equal r.model model)) [
    | inl h ↦ subst (Rewrites codec b r model) (sym (if_true _ _ _ h)) (same_model h)
    | inr h ↦ subst (Rewrites codec b r model) (sym (if_false _ _ _ h)) (
        replaced (take s b) (sub b s r.model_end) (drop r.model_end b) h
          (sub-split b s r.model_end l) t)
  ]

  rewrite-Rewrites :
      (r : Request) → PlacedIn codec b r → Rewrites codec b r model (rewrite codec b r model)
  unfolding rewrite
  rewrite-Rewrites r p = rewritten-Rewrites r r.model_start refl p

  -- What the rest of the fields do from a place on.
  abbrev Continues : ℕ → (ℕ → Request → Bool → Option Inspection) → Type 0
  Continues i more =
      (j : ℕ) (r : Request) (seen : Bool)
      → i ≤ j
      → j ≤ length b
      → PlacedIn codec b r
      → Settles codec b model (more j r seen)

  next_field-Settles :
      (i : ℕ) (r : Request) (seen : Bool) (more : ℕ → Request → Bool → Option Inspection)
      (o : Option ℕ)
      → get_elem? b i ≡ o
      → PlacedIn codec b r
      → Continues i more
      → Settles codec b model (elim o [
        | none ↦ some out_of_range
        | some c ↦ more (if eqb c b',' then i + 1 else i) r seen
      ])
  next_field-Settles i r seen more none e p k = panicked
  next_field-Settles i r seen more (some c) e p k =
      let h = get_elem?-lt b i c e in
      k (if eqb c b',' then i + 1 else i) r seen (ground arith) (ground (arith, h)) p

  after_field-Settles :
      (i : ℕ) (f : Field) (more : ℕ → Request → Bool → Option Inspection)
      → Sound codec b f
      → Continues i more
      → Settles codec b model (after_field codec b i f more)
  after_field-Settles i f more (kept_sound r seen p) k =
      next_field-Settles i r seen more (get_elem? b i) refl p k
  after_field-Settles i f more (refused_sound e) k = refused_request e

  value_at-Settles :
      (key : List ℕ) (i : ℕ) (r : Request) (seen : Bool)
      (more : ℕ → Request → Bool → Option Inspection) (o : Option ℕ)
      → EndsIn b i o
      → PlacedIn codec b r
      → Continues i more
      → Settles codec b model (elim o [
        | none ↦ none
        | some end ↦ after_field codec b (space b end) (apply_field codec key b i end r seen) more
      ])
  value_at-Settles key i r seen more o (end, h, l, u) p k = rw h (
      after_field-Settles (space b end) (apply_field codec key b i end r seen) more
        (apply_field-Sound codec b key i end r seen l u p)
        (λ j s v g. k j s v (omega (arith, (space_bounds b end).0))))

  inspect_value-Settles :
      (key : List ℕ) (i : ℕ) (r : Request) (seen : Bool)
      (more : ℕ → Request → Bool → Option Inspection) (o : Option ℕ)
      → get_elem? b i ≡ o
      → PlacedIn codec b r
      → Continues i more
      → Settles codec b model (elim o [
        | none ↦ some out_of_range
        | some c ↦ elim (value_end b c i) [
          | none ↦ none
          | some end ↦ after_field codec b (space b end) (apply_field codec key b i end r seen) more
        ]
      ])
  inspect_value-Settles key i r seen more none e p k = panicked
  inspect_value-Settles key i r seen more (some c) e p k =
      value_at-Settles key i r seen more (value_end b c i)
        (value_end-EndsIn b c i (get_elem?-lt b i c e)) p k

  value_start_le : (i : ℕ) → i < length b → i < value_start codec b i
  value_start_le i h = omega (
    arith,
    (string_end_bounds b i h).0,
    (space_bounds b (string_end b i)).0,
    (space_bounds b (space b (string_end b i) + 1)).0,
  )

  inspect_round-Settles :
      (i : ℕ) (r : Request) (seen : Bool) (more : ℕ → Request → Bool → Option Inspection)
      (o : Option ℕ)
      → get_elem? b i ≡ o
      → PlacedIn codec b r
      → (i < length b → Continues (i + 1) more)
      → Settles codec b model (elim o [
        | none ↦ some out_of_range
        | some c ↦
            if eqb c b'}'
            then some (inspected r)
            else inspect_value codec (key_at codec b i) b (value_start codec b i) r seen more
      ])
  inspect_round-Settles i r seen more none e p k = panicked
  inspect_round-Settles i r seen more (some c) e p k =
      let h = get_elem?-lt b i c e in
      if_intro (Settles codec b model) (eqb c b'}') _ _ (accepted r (rewrite-Rewrites r p)) (
        inspect_value-Settles (key_at codec b i) (value_start codec b i) r seen more
          (get_elem? b (value_start codec b i)) refl p
          (λ j s v g. k h j s v (omega (arith, value_start_le i h))))

  inspect_loop-Settles :
      (fuel i : ℕ) (r : Request) (seen : Bool)
      → 0 < fuel
      → length b < fuel + i
      → PlacedIn codec b r
      → Settles codec b model (inspect_loop codec fuel b i r seen)
  unfolding inspect_loop
  inspect_loop-Settles zero i r seen n h p = absurd (omega arith)
  inspect_loop-Settles (suc fuel) i r seen n h p =
      inspect_round-Settles (space b i) r seen (inspect_loop codec fuel b) (get_elem? b (space b i))
        refl p
        (λ w j s v g u q.
          inspect_loop-Settles fuel j s v (omega (arith, (space_bounds b i).0))
            (omega (arith, (space_bounds b i).0)) q)

  -- Inspect ends on any bytes: it accepts a request, refuses one, or reads past the end. Where it
  -- accepts one, Rewrite with another model changes nothing but the text of the model, and nothing at
  -- all where there is no model or it is that one.
  pub inspect-Settles : Settles codec b model (inspect codec b)
  unfolding inspect
  inspect-Settles =
      if_intro (Settles codec b model) (not (codec.valid b)) _ _ (refused_request invalid_json) (
        if_intro (Settles codec b model) (not (byte_is b (space b 0) b'{')) _ _
          (refused_request not_an_object)
          (inspect_loop-Settles (suc (length b)) (space b 0 + 1) no_request false (omega arith)
            (omega arith) unplaced))
