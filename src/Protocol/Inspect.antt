-- ===== src/Protocol/Inspect.antt =====
-- internal/protocol/request.go: Inspect, which reads the routing fields of a request from its bytes, and
-- Rewrite, which puts another model in their place.
pub mod Placed
pub mod Settles
use clash_of_tokens.Base.{
  ℕ, zero, suc, ◌+◌, ◌-◌, Bool, true, false, not, ◌&&◌, ◌||◌, List, [], ◌∷◌, ◌++◌, Option, none,
  some, ltb, eqb, if◌then◌else◌, length, get_elem?, take, drop, is_empty,
}
use clash_of_tokens.Base.Int.{ℤ, pos, ltb_ℤ, leb_ℤ}
use clash_of_tokens.Protocol.Usage.{bytes_equal, null_bytes}
use clash_of_tokens.Protocol.Observer.{ascii, bytes_contain}
use clash_of_tokens.Protocol.Scan.{space, string_end, value_end}
use clash_of_tokens.Protocol.Request.{
  Codec, Request, no_request, sub, spelled, routing_keys, larger, positive_int,
  generation_output_limit, has_image, is_some, one_of, byte_is,
}

pub data InspectError : Type 0 where
  invalid_json not_an_object duplicate_model bad_model duplicate_stream bad_stream : InspectError

pub data Inspection : Type 0 where
  inspected : Request → Inspection
  rejected : InspectError → Inspection
  out_of_range : Inspection

-- What a field makes of the request so far, and of whether "stream" was seen; `unfinished` means that
-- fuel ran out.
pub data Field : Type 0 where
  kept : Request → Bool → Field
  refused : InspectError → Field
  unfinished : Field

abbrev pub raised : Option ℤ → Request → Request
raised none r = r
raised (some v) r = if ltb_ℤ r.max_output_tokens v then record r { max_output_tokens = v } else r

abbrev pub seen_image : Option Bool → Request → Bool → Field
seen_image none r seen = unfinished
seen_image (some v) r seen = kept (record r { vision = v }) seen

module _ (codec : Codec) where
  -- The case "model"; the value stands from `start` to `end`.
  unfoldable pub model_field : List ℕ → ℕ → ℕ → Request → Bool → Field
  model_field v start end r seen =
      if is_some r.model_start then refused duplicate_model else (elim (codec.text v) [
        | none ↦ refused bad_model
        | some t ↦ kept (record r { model = t; model_start = some start; model_end = end }) seen
      ])

  unfoldable pub stream_field : List ℕ → Request → Bool → Field
  stream_field v r seen = if seen then refused duplicate_stream else (elim (codec.boolean v) [
    | none ↦ refused bad_stream
    | some s ↦ kept (record r { stream = s }) true
  ])

  unfoldable pub vision_field : List ℕ → Request → Bool → Field
  unfolding has_image
  vision_field v r seen = if r.vision then kept r seen else seen_image (has_image codec v) r seen

  -- The switch of Inspect on the key, but for "model".
  unfoldable pub other_field : List ℕ → List ℕ → Request → Bool → Field
  unfolding bytes_contain bytes_equal stream_field vision_field positive_int generation_output_limit
  other_field key v r seen =
      if bytes_equal key (ascii "stream")
      then stream_field v r seen
      else if one_of key (ascii "tools" ∷ ascii "functions" ∷ [])
      then (if bytes_equal v (ascii "[]") || bytes_equal v null_bytes
          then kept r seen
          else kept (record r { tools = true }) seen)
      else if one_of key (ascii "previous_response_id" ∷ ascii "conversation" ∷ [])
      then (if bytes_equal v null_bytes
          then kept r seen
          else kept (record r { stateful = true }) seen)
      else if one_of key (ascii "messages" ∷ ascii "contents" ∷ ascii "input" ∷ [])
      then vision_field v r seen
      else if one_of key
          (ascii "max_tokens" ∷ ascii "max_completion_tokens" ∷ ascii "max_output_tokens" ∷ [])
      then kept (raised (positive_int codec v) r) seen
      else if one_of key (ascii "generationConfig" ∷ ascii "generation_config" ∷ [])
      then kept (raised (generation_output_limit codec v) r) seen
      else kept r seen

  unfoldable pub apply_field : List ℕ → List ℕ → ℕ → ℕ → Request → Bool → Field
  unfolding model_field other_field bytes_equal
  apply_field key b start end r seen =
      if bytes_equal key (ascii "model")
      then model_field (sub b start end) start end r seen
      else other_field key (sub b start end) r seen

  -- The end of a round of Inspect, at the byte after the field and its spaces.
  abbrev pub after_field :
      List ℕ → ℕ → Field → (ℕ → Request → Bool → Option Inspection) → Option Inspection
  after_field b i (refused e) more = some (rejected e)
  after_field b i unfinished more = none
  after_field b i (kept r seen) more = elim (get_elem? b i) [
    | none ↦ some out_of_range
    | some c ↦ more (if eqb c b',' then i + 1 else i) r seen
  ]

  abbrev pub key_at : List ℕ → ℕ → List ℕ
  key_at b i = spelled codec routing_keys (sub b i (string_end b i))

  -- The value of a field, at `i`.
  abbrev pub inspect_value :
      List ℕ
      → List ℕ
      → ℕ
      → Request
      → Bool
      → (ℕ → Request → Bool → Option Inspection)
      → Option Inspection
  inspect_value key b i r seen more = elim (get_elem? b i) [
    | none ↦ some out_of_range
    | some c ↦ elim (value_end b c i) [
      | none ↦ none
      | some end ↦ after_field b (space b end) (apply_field key b i end r seen) more
    ]
  ]

  abbrev pub value_start : List ℕ → ℕ → ℕ
  value_start b i = space b (space b (string_end b i) + 1)

  -- The loop of Inspect, a round for each field; `none` means that the fuel ran out.
  unfoldable pub inspect_loop : ℕ → List ℕ → ℕ → Request → Bool → Option Inspection
  inspect_loop zero b i r seen = none
  inspect_loop (suc fuel) b i r seen = elim (get_elem? b (space b i)) [
    | none ↦ some out_of_range
    | some c ↦
        if eqb c b'}'
        then some (inspected r)
        else inspect_value (key_at b (space b i)) b (value_start b (space b i)) r seen
            (inspect_loop fuel b)
  ]

  unfoldable pub inspect : List ℕ → Option Inspection
  unfolding inspect_loop byte_is
  inspect b =
      if not (codec.valid b)
      then some (rejected invalid_json)
      else if not (byte_is b (space b 0) b'{')
      then some (rejected not_an_object)
      else inspect_loop (suc (length b)) b (space b 0 + 1) no_request false

  abbrev pub rewritten : List ℕ → Option ℕ → Request → List ℕ → List ℕ
  rewritten b none r model = b
  rewritten b (some start) r model =
      if bytes_equal r.model model
      then b
      else take start b ++ (codec.quote model ++ drop r.model_end b)

  unfoldable pub rewrite : List ℕ → Request → List ℕ → List ℕ
  unfolding bytes_equal
  rewrite b r model = rewritten b r.model_start r model
