-- ===== src/Protocol/Request.antt =====
-- internal/protocol/request.go: a request, the texts of its keys, the numbers of its fields, and
-- whether it has an image.
--
-- What encoding/json and strconv make of bytes and texts is the record Codec; a Go string is its bytes
-- here.
pub mod Images
use clash_of_tokens.Base.{
  ℕ, zero, suc, ◌+◌, ◌-◌, Bool, true, false, ◌&&◌, ◌||◌, List, [], ◌∷◌, ◌++◌, Option, none, some,
  eqb, if◌then◌else◌, length, get_elem?, take, drop, is_empty,
}
use clash_of_tokens.Base.Int.{ℤ, pos, ltb_ℤ, leb_ℤ}
use clash_of_tokens.Protocol.Usage.{bytes_equal}
use clash_of_tokens.Protocol.Observer.{ascii, bytes_contain}
use clash_of_tokens.Protocol.Sse.{strip_prefix}
use clash_of_tokens.Protocol.Scan.{space, string_end}

-- As encoding/json has it, null is the text [], false, or 0.
pub record Codec : Type 0 where
  pub valid : List ℕ → Bool
  pub text : List ℕ → Option (List ℕ)
  pub boolean : List ℕ → Option Bool
  pub int64 : List ℕ → Option ℤ
  -- The fields maxOutputTokens and max_output_tokens of an object.
  pub output_limits : List ℕ → Option (ℤ × ℤ)
  pub quote : List ℕ → List ℕ

pub record Request : Type 0 where
  pub model : List ℕ
  pub stream : Bool
  pub tools : Bool
  pub stateful : Bool
  pub vision : Bool
  pub max_output_tokens : ℤ
  -- `none` is -1.
  pub model_start : Option ℕ
  pub model_end : ℕ

abbrev pub no_request : Request
no_request = record {
  model = [];
  stream = false;
  tools = false;
  stateful = false;
  vision = false;
  max_output_tokens = pos 0;
  model_start = none;
  model_end = 0;
}

-- b[i:j].
abbrev pub sub : List ℕ → ℕ → ℕ → List ℕ
sub b i j = take (j - i) (drop i b)

abbrev pub quoted : List ℕ → List ℕ
quoted s = 34 ∷ (s ++ (34 ∷ []))

unfoldable pub has_byte : ℕ → List ℕ → Bool
has_byte c [] = false
has_byte c (x ∷ xs) = eqb x c || has_byte c xs

unfoldable pub find_quoted : List (List ℕ) → List ℕ → Option (List ℕ)
unfolding bytes_equal
find_quoted [] raw = none
find_quoted (k ∷ ks) raw = if bytes_equal raw (quoted k) then some k else find_quoted ks raw

abbrev pub text_or_empty : Option (List ℕ) → List ℕ
text_or_empty none = []
text_or_empty (some t) = t

abbrev pub routing_keys : List (List ℕ)
routing_keys =
    ascii "model"
    ∷ ascii "stream"
    ∷ ascii "tools"
    ∷ ascii "functions"
    ∷ ascii "previous_response_id"
    ∷ ascii "conversation"
    ∷ ascii "messages"
    ∷ ascii "contents"
    ∷ ascii "input"
    ∷ ascii "max_tokens"
    ∷ ascii "max_completion_tokens"
    ∷ ascii "max_output_tokens"
    ∷ ascii "generationConfig"
    ∷ ascii "generation_config"
    ∷ []

abbrev pub image_markers : List (List ℕ)
image_markers =
    ascii "type"
    ∷ ascii "image"
    ∷ ascii "input_image"
    ∷ ascii "image_url"
    ∷ ascii "inlineData"
    ∷ ascii "inline_data"
    ∷ []

abbrev pub larger : ℤ × ℤ → ℤ
larger (camel, snake) = if ltb_ℤ camel snake then snake else camel

abbrev pub is_some {ℓ} : {A : Type ℓ} → Option A → Bool
is_some none = false
is_some (some a) = true

-- bytes.Contains.
unfoldable pub contains_part : List ℕ → List ℕ → Bool
unfolding strip_prefix
contains_part part [] = is_empty part
contains_part part (x ∷ xs) = is_some (strip_prefix part (x ∷ xs)) || contains_part part xs

-- The texts that a body with an image has one of.
abbrev pub image_hints : List (List ℕ)
image_hints = ascii "image" ∷ ascii "inlineData" ∷ ascii "inline_data" ∷ (92 ∷ (b'u' ∷ [])) ∷ []

unfoldable pub has_hint : List (List ℕ) → List ℕ → Bool
unfolding contains_part
has_hint [] b = false
has_hint (p ∷ ps) b = contains_part p b || has_hint ps b

abbrev pub one_of : List ℕ → List (List ℕ) → Bool
one_of v keys = bytes_contain keys v

-- i < len(b) && b[i] == c.
unfoldable pub byte_is : List ℕ → ℕ → ℕ → Bool
byte_is b i c = elim (get_elem? b i) [ none ↦ false | some x ↦ eqb x c ]

module _ (codec : Codec) where
  -- A literal spelling is one of the keys; an escaped one is decoded.
  unfoldable pub spelled : List (List ℕ) → List ℕ → List ℕ
  unfolding find_quoted has_byte
  spelled keys raw = elim (find_quoted keys raw) [
    | some k ↦ k
    | none ↦ if has_byte 92 raw then text_or_empty (codec.text raw) else []
  ]

  unfoldable pub positive_int : List ℕ → Option ℤ
  positive_int raw = elim (codec.int64 raw) [
    | none ↦ none
    | some v ↦ if leb_ℤ v (pos 0) then none else some v
  ]

  unfoldable pub generation_output_limit : List ℕ → Option ℤ
  generation_output_limit raw = elim (codec.output_limits raw) [
    | none ↦ none
    | some v ↦ if leb_ℤ (larger v) (pos 0) then none else some (larger v)
  ]

  -- The text at `i` of a field of the type, at `value`.
  unfoldable pub is_image_kind : List ℕ → ℕ → Bool
  unfolding byte_is spelled bytes_contain
  is_image_kind b value =
      byte_is b value 34
      && one_of (spelled image_markers (sub b value (string_end b value)))
          (ascii "image" ∷ ascii "image_url" ∷ ascii "input_image" ∷ [])

  -- The text from `i` to `end`, as a key, tells of an image.
  unfoldable pub marks_image : List ℕ → ℕ → ℕ → Bool
  unfolding byte_is spelled bytes_contain is_image_kind bytes_equal
  marks_image b i end =
      let key = spelled image_markers (sub b i end) in
      byte_is b (space b end) b':'
      && (one_of key (ascii "image_url" ∷ ascii "inlineData" ∷ ascii "inline_data" ∷ [])
          || bytes_equal key (ascii "type") && is_image_kind b (space b (space b end + 1)))

  unfoldable pub image_step : List ℕ → ℕ → ℕ → (ℕ → Option Bool) → Option Bool
  unfolding marks_image
  image_step b c i more =
      if eqb c 34
      then (if marks_image b i (string_end b i) then some true else more (string_end b i))
      else more (i + 1)

  -- The loop of hasImage; `none` means that the fuel ran out.
  unfoldable pub image_loop : ℕ → List ℕ → ℕ → Option Bool
  unfolding image_step
  image_loop zero b i = none
  image_loop (suc fuel) b i = elim (get_elem? b i) [
    | none ↦ some false
    | some c ↦ image_step b c i (image_loop fuel b)
  ]

  unfoldable pub has_image : List ℕ → Option Bool
  unfolding has_hint image_loop
  has_image b = if has_hint image_hints b then image_loop (suc (length b)) b 0 else some false
