-- ===== src/Protocol/Inspect/Placed.antt =====
-- internal/protocol/request.go: the place of the model that the fields of a request give.
use clash_of_tokens.Base.{
  ℕ, ◌≤◌, ◌≡◌, refl, Bool, true, ◌||◌, List, [], ◌∷◌, Option, none, some, length, if_intro,
}
use clash_of_tokens.Base.Int.{ℤ, ltb_ℤ}
use clash_of_tokens.Protocol.Usage.{bytes_equal, null_bytes}
use clash_of_tokens.Protocol.Observer.{ascii}
use clash_of_tokens.Protocol.Request.{
  Codec, Request, sub, positive_int, generation_output_limit, has_image, is_some, one_of,
}
use clash_of_tokens.Protocol.Request.Images.{Says, has_image-Says}
use clash_of_tokens.Protocol.Inspect.{
  InspectError, duplicate_model, bad_model, duplicate_stream, bad_stream, Field, kept, refused,
  raised, seen_image, model_field, stream_field, vision_field, other_field, apply_field,
}

-- The value of the model, `model`, stands from the start, if there is one, to `end`.
pub data Placed (codec : Codec) (b model : List ℕ) (end : ℕ) : Option ℕ → Type 0 where
  unplaced : Placed codec b model end none
  placed :
      (start : ℕ)
      → start ≤ end
      → end ≤ length b
      → codec.text (sub b start end) ≡ some model
      → Placed codec b model end (some start)

abbrev pub PlacedIn : Codec → List ℕ → Request → Type 0
PlacedIn codec b r = Placed codec b r.model r.model_end r.model_start

-- A field that ends, and keeps the model in its place.
pub data Sound (codec : Codec) (b : List ℕ) : Field → Type 0 where
  kept_sound : (r : Request) (seen : Bool) → PlacedIn codec b r → Sound codec b (kept r seen)
  refused_sound : (e : InspectError) → Sound codec b (refused e)

module _ (codec : Codec) (b : List ℕ) where
  text_field-Sound :
      (start end : ℕ) (r : Request) (seen : Bool) (o : Option (List ℕ))
      → codec.text (sub b start end) ≡ o
      → start ≤ end
      → end ≤ length b
      → Sound codec b (elim o [
        | none ↦ refused bad_model
        | some t ↦ kept (record r { model = t; model_start = some start; model_end = end }) seen
      ])
  text_field-Sound start end r seen none e l u = refused_sound bad_model
  text_field-Sound start end r seen (some t) e l u = kept_sound _ seen (placed start l u e)

  boolean_field-Sound :
      (r : Request) (o : Option Bool)
      → PlacedIn codec b r
      → Sound codec b
          (elim o [ none ↦ refused bad_stream | some s ↦ kept (record r { stream = s }) true ])
  boolean_field-Sound r none p = refused_sound bad_stream
  boolean_field-Sound r (some s) p = kept_sound _ true p

  raised-PlacedIn :
      (v : Option ℤ) (r : Request) → PlacedIn codec b r → PlacedIn codec b (raised v r)
  raised-PlacedIn none r p = p
  raised-PlacedIn (some v) r p =
      if_intro (λ s. PlacedIn codec b s) (ltb_ℤ r.max_output_tokens v) _ _ p p

  seen_image-Sound :
      (o : Option Bool) (r : Request) (seen : Bool)
      → Says o
      → PlacedIn codec b r
      → Sound codec b (seen_image o r seen)
  seen_image-Sound none r seen (v, e) p = cc
  seen_image-Sound (some w) r seen h p = kept_sound _ seen p

  stream_field-Sound :
      (v : List ℕ) (r : Request) (seen : Bool)
      → PlacedIn codec b r
      → Sound codec b (stream_field codec v r seen)
  unfolding stream_field
  stream_field-Sound v r seen p =
      if_intro (Sound codec b) seen _ _ (refused_sound duplicate_stream)
        (boolean_field-Sound r (codec.boolean v) p)

  vision_field-Sound :
      (v : List ℕ) (r : Request) (seen : Bool)
      → PlacedIn codec b r
      → Sound codec b (vision_field codec v r seen)
  unfolding vision_field
  vision_field-Sound v r seen p =
      if_intro (Sound codec b) r.vision _ _ (kept_sound r seen p)
        (seen_image-Sound (has_image codec v) r seen (has_image-Says codec v) p)

  other_field-Sound :
      (key v : List ℕ) (r : Request) (seen : Bool)
      → PlacedIn codec b r
      → Sound codec b (other_field codec key v r seen)
  unfolding other_field
  other_field-Sound key v r seen p =
      if_intro good (bytes_equal key (ascii "stream")) _ _ (stream_field-Sound v r seen p) (
        if_intro good (one_of key (ascii "tools" ∷ ascii "functions" ∷ [])) _ _
          (if_intro good (bytes_equal v (ascii "[]") || bytes_equal v null_bytes) _ _ same
            (kept_sound _ seen p))
          (if_intro good (one_of key (ascii "previous_response_id" ∷ ascii "conversation" ∷ [])) _ _
            (if_intro good (bytes_equal v null_bytes) _ _ same (kept_sound _ seen p))
            (if_intro good (one_of key (ascii "messages" ∷ ascii "contents" ∷ ascii "input" ∷ [])) _
              _ (vision_field-Sound v r seen p)
              (if_intro good
                (one_of key (
                  ascii "max_tokens"
                  ∷ ascii "max_completion_tokens"
                  ∷ ascii "max_output_tokens"
                  ∷ []))
                _ _ (kept_sound _ seen (raised-PlacedIn (positive_int codec v) r p))
                (if_intro good
                  (one_of key (ascii "generationConfig" ∷ ascii "generation_config" ∷ [])) _ _
                  (kept_sound _ seen (raised-PlacedIn (generation_output_limit codec v) r p))
                  same)))))
    where
      good : Field → Type 0
      good f = Sound codec b f

      same : good (kept r seen)
      same = kept_sound r seen p

  -- A field whose value stands within the bytes is sound.
  pub apply_field-Sound :
      (key : List ℕ) (start end : ℕ) (r : Request) (seen : Bool)
      → start ≤ end
      → end ≤ length b
      → PlacedIn codec b r
      → Sound codec b (apply_field codec key b start end r seen)
  unfolding apply_field model_field
  apply_field-Sound key start end r seen l u p =
      if_intro (Sound codec b) (bytes_equal key (ascii "model")) _ _
        (if_intro (Sound codec b) (is_some r.model_start) _ _ (refused_sound duplicate_model)
          (text_field-Sound start end r seen (codec.text (sub b start end)) refl l u))
        (other_field-Sound key (sub b start end) r seen p)
