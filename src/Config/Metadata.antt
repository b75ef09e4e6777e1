-- ===== src/Config/Metadata.antt =====
-- internal/config/metadata.go: what a source says of itself, and which billing a group admits.
use Prim.Native.Char.{code}
use clash_of_tokens.Config.Text.{byte_len}
use clash_of_tokens.Base.{
  String, ◌≡◌, refl, Bool, true, false, not, ◌&&◌, ◌||◌, List, [], ◌∷◌, Option, none, arith,
  if◌then◌else◌, or_else, ltb, eqb, contains, ◌==◌, first_failure, first_failure-none,
}
use clash_of_tokens.Config.{Source, Group}

module _ {F : Type 0} where
  unfoldable pub local_inference : Source F → Bool
  local_inference s = s.inference_location == "local" && (s.source_kind == "local_model" && s.local)

  unfoldable pub effective_billing : Source F → String
  effective_billing s =
      if not (s.billing_mode == "") then s.billing_mode else if s.paid then "metered" else "unknown"

  -- `override` of the code, read after its switch; the last two cases return at once.
  unfoldable pub billing_override : Group F → String → Option Bool
  billing_override g b =
      if b == "metered"
      then g.allow_metered
      else if b == "subscription"
      then g.allow_subscription
      else if b == "unknown"
      then g.allow_unknown_cost
      else none

  unfoldable pub billing_allowed : Group F → Source F → Bool
  unfolding billing_override
  billing_allowed g s =
      let b = effective_billing s in
      if b == "free_allowance" || b == "local"
      then true
      else or_else (billing_override g b) (if b == "unknown" then false else g.allow_paid)

-- strings.ContainsAny(s, "\r\n\x00").
unfoldable pub has_control : String → Bool
has_control String.[] = false
has_control (String.◌∷◌ c s) =
    eqb (code c) 13 || (eqb (code c) 10 || (eqb (code c) 0 || has_control s))

pub data MetadataError : Type 0 where
  -- "invalid <field>".
  invalid_field : String → MetadataError
  local_inference_needs_local_model : MetadataError
  local_model_needs_local_inference : MetadataError
  local_model_needs_local_billing : MetadataError
  local_billing_needs_local_model : MetadataError
  local_model_needs_generic_api : MetadataError

unfoldable pub bad_text : String → Bool
bad_text v = ltb 256 (byte_len v) || has_control v

-- The inner loop over `allowed`: an empty value passes.
unfoldable pub bad_choice : String → List String → Bool
bad_choice v allowed = not (v == "") && not (contains allowed v)

abbrev pub source_kinds : List String
source_kinds =
    "vendor_api" ∷ "cloud_api" ∷ "aggregator_api" ∷ "product_reverse" ∷ "browser_reverse"
    ∷ "app_reverse" ∷ "cli_reverse" ∷ "local_model" ∷ "custom_api" ∷ []

abbrev pub credential_modes : List String
credential_modes =
    "api_key" ∷ "oauth" ∷ "browser_session" ∷ "cookie" ∷ "username_password" ∷ "cli_session"
    ∷ "device_session" ∷ "anonymous" ∷ []

module _ {F : Type 0} where
  unfoldable pub metadata_guards : Source F → List (Bool × MetadataError)
  metadata_guards s =
      (bad_text s.organization, invalid_field "organization")
      ∷ (bad_text s.project, invalid_field "project")
      ∷ (bad_choice s.source_kind source_kinds, invalid_field "source_kind")
      ∷ (
        bad_choice s.execution_location ("local" ∷ "remote" ∷ []),
        invalid_field "execution_location",
      )
      ∷ (
        bad_choice s.inference_location ("local" ∷ "remote" ∷ "unknown" ∷ []),
        invalid_field "inference_location",
      )
      ∷ (
        bad_choice s.billing_mode
            ("metered" ∷ "subscription" ∷ "free_allowance" ∷ "local" ∷ "unknown" ∷ []),
        invalid_field "billing_mode",
      )
      ∷ (bad_choice s.credential_mode credential_modes, invalid_field "credential_mode")
      ∷ (
        s.inference_location == "local" && (not (s.source_kind == "local_model") || not s.local),
        local_inference_needs_local_model,
      )
      ∷ (
        s.source_kind == "local_model" && (not (s.inference_location == "local") || not s.local),
        local_model_needs_local_inference,
      )
      ∷ (
        s.source_kind == "local_model" && not (s.billing_mode == "local"),
        local_model_needs_local_billing,
      )
      ∷ (
        s.billing_mode == "local"
            && (not (s.source_kind == "local_model")
                || (not (s.inference_location == "local") || not s.local)),
        local_billing_needs_local_model,
      )
      ∷ (
        s.source_kind == "local_model"
            && (not (s.adapter == "openai")
                && (not (s.adapter == "anthropic") && not (s.adapter == "gemini"))),
        local_model_needs_generic_api,
      )
      ∷ []

  unfoldable pub validate_metadata : Source F → Option MetadataError
  unfolding metadata_guards
  validate_metadata s = first_failure (metadata_guards s)

  -- In a source that passes, "local" means one thing: the billing mode, the kind and the inference
  -- location say so together, exactly when the router's locality test holds.
  pub validate_metadata-local :
      (s : Source F)
      → validate_metadata s ≡ none
      → ((s.billing_mode == "local") ≡ local_inference s)
        × ((s.source_kind == "local_model") ≡ local_inference s)
        × ((s.inference_location == "local") ≡ local_inference s)
  unfolding validate_metadata local_inference
  validate_metadata-local s h =
      let p = (first_failure-none (metadata_guards s)).0 h in
      (ground arith, ground arith, ground arith)

  -- A source of unknown cost is never admitted by the legacy opt-in for paid sources.
  billing_allowed-unknown :
      (g : Group F) (s : Source F)
      → effective_billing s ≡ "unknown"
      → billing_allowed g s ≡ or_else g.allow_unknown_cost false
  unfolding billing_allowed billing_override
  billing_allowed-unknown g s h = rw (h, or_else) refl
