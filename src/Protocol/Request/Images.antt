-- ===== src/Protocol/Request/Images.antt =====
-- internal/protocol/request.go: hasImage ends.
use clash_of_tokens.Base.{
  ℕ, zero, suc, ◌+◌, ◌≤◌, ◌<◌, ◌≡◌, refl, Bool, true, false, List, Option, none, some, arith, eqb,
  length, get_elem?, if_intro,
}
use clash_of_tokens.Protocol.Scan.{string_end, string_end_bounds, get_elem?-lt}
use clash_of_tokens.Protocol.Request.{
  Codec, has_hint, image_hints, marks_image, image_step, image_loop, has_image,
}

abbrev pub Says : Option Bool → Type 0
Says o = (v : Bool) × (o ≡ some v)

module _ (codec : Codec) where
  image_step-Says :
      (b : List ℕ) (c i : ℕ) (more : ℕ → Option Bool)
      → i < length b
      → ((j : ℕ) → i < j → j ≤ length b → Says (more j))
      → Says (image_step codec b c i more)
  unfolding image_step
  image_step-Says b c i more h k =
      let (l, u) = string_end_bounds b i h in
      if_intro Says (eqb c 34) _ _
        (if_intro Says (marks_image codec b i (string_end b i)) _ _ (true, refl)
          (k (string_end b i) (omega arith) u))
        (k (i + 1) (omega arith) (omega arith))

  image_byte-Says :
      (b : List ℕ) (i : ℕ) (more : ℕ → Option Bool) (o : Option ℕ)
      → get_elem? b i ≡ o
      → ((j : ℕ) → i < j → j ≤ length b → Says (more j))
      → Says (elim o [ none ↦ some false | some c ↦ image_step codec b c i more ])
  image_byte-Says b i more none e k = (false, refl)
  image_byte-Says b i more (some c) e k = image_step-Says b c i more (get_elem?-lt b i c e) k

  image_loop-Says :
      (fuel : ℕ) (b : List ℕ) (i : ℕ)
      → i ≤ length b
      → length b < fuel + i
      → Says (image_loop codec fuel b i)
  unfolding image_loop
  image_loop-Says zero b i h m = absurd (omega arith)
  image_loop-Says (suc fuel) b i h m =
      image_byte-Says b i (image_loop codec fuel b) (get_elem? b i) refl
        (λ j l u. image_loop-Says fuel b j u (omega arith))

  -- The fuel of hasImage is enough.
  pub has_image-Says : (b : List ℕ) → Says (has_image codec b)
  unfolding has_image
  has_image-Says b =
      if_intro Says (has_hint image_hints b) _ _
        (image_loop-Says (suc (length b)) b 0 (omega arith) (omega arith)) (false, refl)
