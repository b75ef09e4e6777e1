-- ===== src/Config.antt =====
-- internal/config: the configuration's data, field for field as config.go, accounts.go and
-- browser_profiles.go declare it. `F` stands for float64. A pointer is an `Option`, a time its
-- nanoseconds, with 0 for the zero time. The two resolver callbacks of a source are left out: no
-- code modelled here calls them.
pub mod Pricing
pub mod Metadata
pub mod Text
pub mod Tiers
pub mod Registry
pub mod Profiles
pub mod Accounts
pub mod Validate
pub mod Service
use clash_of_tokens.Base.{ℕ, String, Bool, List, Option}
use clash_of_tokens.Base.Int.{ℤ}

pub record Device : Type 0 where
  pub enabled : Bool
  pub adb_path : String
  pub serial : String
  pub state_dir : String
  pub ocr_path : String
  pub ocr_data_dir : String
  pub clipboard_sync_ms : ℤ

pub record Browser : Type 0 where
  pub expected_identity : String
  pub engine : String
  pub enabled : Bool
  pub cdp_url : String
  pub state_file : String
  pub max_sessions : ℤ
  pub session_ttl_seconds : ℤ
  pub poll_ms : ℤ
  pub max_prompt_bytes : ℤ
  pub max_response_bytes : ℤ

pub record Runtime : Type 0 where
  pub max_inflight : ℤ
  pub max_queued : ℤ
  pub max_body_bytes : ℤ
  pub max_buffered_bytes : ℤ
  pub max_output_bytes : ℤ
  pub queue_timeout_ms : ℤ
  pub request_timeout_ms : ℤ
  pub write_timeout_ms : ℤ
  pub body_read_timeout_ms : ℤ

pub record BrowserProfile : Type 0 where
  pub external : Bool
  pub id : String
  pub enabled : Bool
  pub engine : String
  pub cdp_url : String

pub record Provider : Type 0 where
  pub id : String
  pub enabled : Bool
  pub auto_approved : Bool
  pub pool_strategy : String

pub record Account : Type 0 where
  pub verification_state : String
  pub verification_version : ℕ
  pub verification_binding : String
  pub verification_at : Option ℕ
  pub id : String
  pub provider_id : String
  pub display_name : String
  pub enabled : Bool
  pub auto_approved : Bool
  pub credential_ref : String
  pub login_credential_ref : String
  pub expected_identity : String
  pub credential_type_override : Bool
  pub browser_profile_id : String
  pub base_url : String
  pub organization : String
  pub project : String
  pub quota_domain : String
  pub max_inflight : ℤ
  pub weight : ℤ
  pub created_at : ℕ

pub record Model (F : Type 0) : Type 0 where
  pub input_usd_per_million : Option F
  pub output_usd_per_million : Option F
  pub enabled : Option Bool
  pub auto_approved : Option Bool
  pub declared_model : String
  pub canonical_model : String
  pub id : String
  pub upstream : String
  pub protocols : List String
  pub tier : String
  pub rating_basis : String
  pub tools : String
  pub vision : Bool
  pub max_input_bytes : ℤ

pub record Source (F : Type 0) : Type 0 where
  pub weight : ℤ
  pub account_id : String
  pub credential_ref : String
  pub credential_type_override : Bool
  pub source_kind : String
  pub execution_location : String
  pub inference_location : String
  pub billing_mode : String
  pub credential_mode : String
  pub id : String
  pub provider : String
  pub adapter : String
  pub base_url : String
  pub key_env : String
  pub account_id_env : String
  pub organization : String
  pub project : String
  pub enabled : Bool
  pub auto_approved : Bool
  pub local : Bool
  pub anonymous : Bool
  pub paid : Bool
  pub max_inflight : ℤ
  pub quota_domain : String
  pub quota_max_inflight : ℤ
  pub models : List (Model F)

pub record Group (F : Type 0) : Type 0 where
  pub require_vision : Bool
  pub max_usd_per_million : Option F
  pub max_usd_per_request : Option F
  pub preferences : List String
  pub max_attempts : ℤ
  pub allow_metered : Option Bool
  pub allow_subscription : Option Bool
  pub allow_unknown_cost : Option Bool
  pub allowed_source_kinds : List String
  pub id : String
  pub type : String
  pub sources : List String
  pub min_tier : String
  pub allow_unrated : Bool
  pub allow_paid : Bool
  pub local_only : Bool
  pub require_tools : Bool

pub record Config (F : Type 0) : Type 0 where
  pub browser_profiles : List BrowserProfile
  pub providers : List Provider
  pub accounts : List Account
  pub schema_version : ℤ
  pub listen : String
  pub api_key_env : String
  pub admin_key_env : String
  pub runtime : Runtime
  pub browser : Browser
  pub device : Device
  pub sources : List (Source F)
  pub groups : List (Group F)
