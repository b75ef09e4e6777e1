-- ===== src/Config/Validate/Sources.antt =====
-- internal/config/config.go, Validate: the loop over the sources, each with what its account fills in.
use Prim.Native.String.{String}
use text.Mathlib.Text.{starts_with}
use clash_of_tokens.Base.{
  Bool, true, false, not, ◌&&◌, ◌||◌, List, [], ◌∷◌, ◌++◌, Option, none, some, if◌then◌else◌, ◌==◌,
  ltb, or_else, contains, lookup, insert, is_empty,
}
use clash_of_tokens.Base.Int.{ℤ, pos, ltb_ℤ, eqb_ℤ}
use clash_of_tokens.Base.Float.{Float64}
use clash_of_tokens.Config.{Config, Device, Model, Source}
use clash_of_tokens.Config.Tiers.{tier}
use clash_of_tokens.Config.Metadata.{MetadataError, has_control, validate_metadata}
use clash_of_tokens.Config.Pricing.{valid_price}
use clash_of_tokens.Config.Registry.{Descriptor, lookup_descriptor, supports}
use clash_of_tokens.Config.Text.{byte_len, is_identifier, has_path_mark, trim_slashes, is_blank}
use clash_of_tokens.Config.Profiles.{Url, Net, is_loopback_ip, source_browser}
use clash_of_tokens.Config.Accounts.{outside, effective_source, source_credential_ref}

pub data SourceError : Type 0 where
  bad_weight : SourceError
  metadata : MetadataError → SourceError
  bad_source_id : SourceError
  unsupported_adapter : SourceError
  one_chatgpt_per_profile : SourceError
  -- "<adapter> requires browser.enabled", and that its concurrency must be one.
  needs_browser : String → SourceError
  needs_capacity_one : String → SourceError
  needs_public_origin : SourceError
  needs_project : SourceError
  needs_book : SourceError
  device_manual_only : SourceError
  device_needs_paths : SourceError
  unknown_device_model : SourceError
  devin_needs_stdio : SourceError
  zcode_needs_stdio : SourceError
  bad_source_url : SourceError
  source_needs_https : SourceError
  local_needs_loopback : SourceError
  needs_key : SourceError
  needs_capacity : SourceError
  needs_model : SourceError
  inconsistent_quota : SourceError
  bad_model : SourceError
  bad_model_rate : SourceError
  needs_rating_basis : SourceError
  needs_model_limits : SourceError
  bad_tools : SourceError
  text_adapter_only : SourceError
  adapter_without_tools : SourceError
  unsupported_protocol : SourceError

-- The maps `ids`, `chatgptProfiles` and `domains`.
pub record Met : Type 0 where
  pub ids : List String
  pub endpoints : List String
  pub domains : List (String × ℤ)

abbrev pub nothing_met : Met
nothing_met = record { ids = []; endpoints = []; domains = [] }

-- The adapters that the five counters count.
abbrev pub is_browser_source : String → Bool
is_browser_source adapter =
    contains ("chatgpt-web" ∷ "doubao" ∷ "gemini-web" ∷ "gigachat-web" ∷ "aistudio-build" ∷ [])
      adapter

-- The adapters that need no key.
abbrev pub keyless_adapters : List String
keyless_adapters =
    "chatgpt-web" ∷ "doubao" ∷ "gemini-web" ∷ "gigachat-web" ∷ "duckduckgo-web" ∷ "aistudio-build"
    ∷ []

-- `models[s.Provider]` of the device adapter.
unfoldable pub device_model : String → String
device_model provider =
    if provider == "meituan-xiaotuan"
    then "meituan_xiaotuan"
    else if provider == "wangzhe-lingbao"
    then "wangzhe_lingbao"
    else if provider == "douyin-xiaohuoren"
    then "douyin_xiaohuoren"
    else ""

module _ {F : Type 0} where
  -- Not one request at a time, in the source or in its quota.
  abbrev pub shared_capacity : Source F → Bool
  shared_capacity s = not (eqb_ℤ s.max_inflight (pos 1)) || not (eqb_ℤ s.quota_max_inflight (pos 1))

  abbrev pub any_model : (Model F → Bool) → List (Model F) → Bool
  any_model p [] = false
  any_model p (m ∷ ms) = p m || any_model p ms

unfoldable pub device_off : ⦃net : Net⦄ → Device → Bool
device_off ⦃net⦄ d =
    not d.enabled
    || (not (net.is_abs d.adb_path)
        || (not (net.is_abs d.ocr_path)
            || (not (net.is_abs d.state_dir)
                || (d.serial == ""
                    || (has_control d.serial
                        || outside (pos 200) (pos 5000) d.clipboard_sync_ms)))))

module _ {F : Type 0} ⦃net : Net⦄ where
  abbrev pub browser_off : Config F → Source F → Bool
  browser_off c s = s.enabled && not (source_browser c s).enabled

  -- The tests of the adapters that drive a browser.
  unfoldable pub browser_source_guards : Config F → Met → Source F → List (Bool × SourceError)
  unfolding trim_slashes
  browser_source_guards c met s =
      (
        s.adapter == "chatgpt-web" && contains met.endpoints (source_browser c s).cdp_url,
        one_chatgpt_per_profile,
      )
      ∷ (s.adapter == "chatgpt-web" && browser_off c s, needs_browser "chatgpt-web")
      ∷ (s.adapter == "chatgpt-web" && shared_capacity s, needs_capacity_one "chatgpt-web")
      ∷ (s.adapter == "doubao" && browser_off c s, needs_browser "doubao")
      ∷ (s.adapter == "gemini-web" && browser_off c s, needs_browser "gemini-web")
      ∷ (s.adapter == "gemini-web" && shared_capacity s, needs_capacity_one "gemini-web")
      ∷ (s.adapter == "gigachat-web" && browser_off c s, needs_browser "gigachat-web")
      ∷ (s.adapter == "gigachat-web" && shared_capacity s, needs_capacity_one "gigachat-web")
      ∷ (
        s.adapter == "cloudflare-playground" && browser_off c s,
        needs_browser "cloudflare-playground",
      )
      ∷ (
        s.adapter == "cloudflare-playground"
            && not (trim_slashes s.base_url == "https://playground.ai.cloudflare.com"),
        needs_public_origin,
      )
      ∷ (
        s.adapter == "cloudflare-playground" && not (eqb_ℤ s.max_inflight (pos 1)),
        needs_capacity_one "cloudflare-playground",
      )
      ∷ (s.adapter == "aistudio-build" && browser_off c s, needs_browser "aistudio-build")
      ∷ (s.adapter == "aistudio-build" && shared_capacity s, needs_capacity_one "aistudio-build")
      ∷ []

  -- The tests on projects, and of the device adapter.
  unfoldable pub project_guards : Config F → Source F → List (Bool × SourceError)
  unfolding is_blank device_model device_off
  project_guards c s =
      ((s.adapter == "gemini-cli" || s.adapter == "antigravity") && s.project == "", needs_project)
      ∷ (s.adapter == "weread-ai" && is_blank s.project, needs_book)
      ∷ (
        s.adapter == "app-device"
            && (device_model s.provider == ""
                || (not (s.base_url == "adb://current-app-session")
                    || (s.local
                        || (s.auto_approved
                            || (not s.anonymous
                                || (not (s.key_env == "")
                                    || (shared_capacity s
                                        || not (s.quota_domain == "android-device")))))))),
        device_manual_only,
      )
      ∷ (
        s.adapter == "app-device"
            && (s.enabled && (device_off c.device || not (s.project == "current-app-session"))),
        device_needs_paths,
      )
      ∷ (
        s.adapter == "app-device"
            && any_model (λ m. not (m.upstream == device_model s.provider)) s.models,
        unknown_device_model,
      )
      ∷ []

  unfoldable pub http_guards : Source F → Option Url → List (Bool × SourceError)
  http_guards s none = (true, bad_source_url) ∷ []
  http_guards s (some u) =
      let loop = u.hostname == "localhost" || is_loopback_ip u.hostname in
      (
        u.host == "" || (u.user || (not (u.raw_query == "") || not (u.fragment == ""))),
        bad_source_url,
      )
      ∷ (not (u.scheme == "https") && not (u.scheme == "http" && loop), source_needs_https)
      ∷ (s.local && not loop, local_needs_loopback)
      ∷ []

  unfoldable pub url_guards : Source F → List (Bool × SourceError)
  unfolding http_guards
  url_guards s =
      if s.adapter == "app-device"
      then []
      else if s.adapter == "devin-cli"
      then (not (s.base_url == "devin://acp/stdio") || not s.local, devin_needs_stdio) ∷ []
      else if s.adapter == "zcode"
      then (not (s.base_url == "zcode://app-server/stdio") || not s.local, zcode_needs_stdio) ∷ []
      else http_guards s (net.parse_url s.base_url)

  -- Keys, capacities and the limit of the quota domain.
  unfoldable pub capacity_guards : Config F → Met → Source F → List (Bool × SourceError)
  capacity_guards c met s =
      (
        not s.local
            && (not s.anonymous
                && (s.key_env == ""
                    && (source_credential_ref c s == ""
                        && not (contains keyless_adapters s.adapter)))),
        needs_key,
      )
      ∷ (
        outside (pos 1) (pos 10000) s.max_inflight
            || (s.quota_domain == "" || outside (pos 1) (pos 10000) s.quota_max_inflight),
        needs_capacity,
      )
      ∷ (is_empty s.models, needs_model)
      ∷ (
        not (
            eqb_ℤ (or_else (lookup s.quota_domain met.domains) s.quota_max_inflight)
              s.quota_max_inflight),
        inconsistent_quota,
      )
      ∷ []

unfoldable pub protocol_guards : String → List String → List (Bool × SourceError)
protocol_guards adapter [] = []
protocol_guards adapter (p ∷ ps) =
    (not (supports adapter p), unsupported_protocol) ∷ protocol_guards adapter ps

module _ {F : Type 0} ⦃fl : Float64 F⦄ where
  -- The loop over the models, with the ids met.
  unfoldable pub model_guards :
      String → Descriptor → List String → List (Model F) → List (Bool × SourceError)
  unfolding protocol_guards has_path_mark byte_len
  model_guards adapter d met [] = []
  model_guards adapter d met (m ∷ ms) =
      (
        m.id == ""
            || (ltb 256 (byte_len m.id)
                || (starts_with m.id "auto"
                    || (contains met m.id
                        || (m.upstream == ""
                            || (ltb 1024 (byte_len m.upstream) || has_path_mark m.upstream))))),
        bad_model,
      )
        ∷ (
          not (valid_price m.input_usd_per_million) || not (valid_price m.output_usd_per_million),
          bad_model_rate,
        )
        ∷ (
          not (m.tier == "unrated") && (ltb_ℤ (tier m.tier) (pos 0) || m.rating_basis == ""),
          needs_rating_basis,
        )
        ∷ (ltb_ℤ m.max_input_bytes (pos 1) || is_empty m.protocols, needs_model_limits)
        ∷ (
          not (m.tools == "native") && (not (m.tools == "none") && not (m.tools == "unknown")),
          bad_tools,
        )
        ∷ (d.text_only && (not (m.tools == "none") || m.vision), text_adapter_only)
        ∷ (not d.tools_allowed && not (m.tools == "none"), adapter_without_tools)
        ∷ protocol_guards adapter m.protocols
      ++ model_guards adapter d (m.id ∷ met) ms

abbrev pub metadata_failure : Option MetadataError → List (Bool × SourceError)
metadata_failure none = []
metadata_failure (some e) = (true, metadata e) ∷ []

module _ {F : Type 0} ⦃net : Net⦄ ⦃fl : Float64 F⦄ where
  -- From the adapter's descriptor on.
  unfoldable pub adapter_guards :
      Config F → Met → Source F → Option Descriptor → List (Bool × SourceError)
  unfolding browser_source_guards project_guards url_guards capacity_guards model_guards
  adapter_guards c met s none = (true, unsupported_adapter) ∷ []
  adapter_guards c met s (some d) =
      browser_source_guards c met s
      ++ (project_guards c s
          ++ (url_guards s ++ (capacity_guards c met s ++ model_guards s.adapter d [] s.models)))

  -- One round, for the source that EffectiveSource makes.
  unfoldable pub source_guards : Config F → Met → Source F → List (Bool × SourceError)
  unfolding adapter_guards
  source_guards c met s =
      (outside (pos 0) (pos 10000) s.weight, bad_weight) ∷ metadata_failure (validate_metadata s)
      ++ (not (is_identifier s.id) || contains met.ids s.id, bad_source_id)
        ∷ adapter_guards c met s (lookup_descriptor s.adapter)

  abbrev pub source_round : Config F → Met → Source F → List (Bool × SourceError)
  source_round c met configured = source_guards c met (effective_source c configured)

  unfoldable pub meet_source : Config F → Met → Source F → Met
  meet_source c met s = record {
    ids = s.id ∷ met.ids;
    endpoints =
        if s.adapter == "chatgpt-web"
        then (source_browser c s).cdp_url ∷ met.endpoints
        else met.endpoints;
    domains = insert s.quota_domain s.quota_max_inflight met.domains;
  }

  abbrev pub source_met : Config F → Met → Source F → Met
  source_met c met configured = meet_source c met (effective_source c configured)
