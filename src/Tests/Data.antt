-- ===== src/Tests/Data.antt =====
-- The configuration that the witnesses run on: two vendors with one account pool, one shared quota,
-- and an auto group. Prices and scores are thousandths.
use clash_of_tokens.Base.{ℕ, Bool, true, false, List, [], ◌∷◌, ◌+◌, none, some}
use clash_of_tokens.Base.Int.{pos}
use clash_of_tokens.Base.Float.{milli}
use clash_of_tokens.Config.{Config, Account, Source, Group, Model, Runtime, Browser, Device}
use clash_of_tokens.Routing.Types.{
  no_source, no_group, no_model, Query, Router, Waiter, System, Lease,
}
use clash_of_tokens.Routing.Acquire.{grant}
use clash_of_tokens.Protocol.Result.{ExecutionResult}
use clash_of_tokens.Routing.Pools.{Sha256}
use clash_of_tokens.Routing.Compile.{new}

instance abbrev pub flat_digest : Sha256
flat_digest = record { affinity_digest = λ a b. 7 }

abbrev pub gold : Model ℕ
gold = record no_model {
  id = "m1";
  upstream = "up1";
  protocols = "chat" ∷ [];
  tier = "gold";
  tools = "native";
  max_input_bytes = pos 1000;
  input_usd_per_million = some 2000;
  output_usd_per_million = some 3000;
}

abbrev pub alpha : Source ℕ
alpha = record no_source {
  id = "alpha";
  provider = "p1";
  adapter = "openai";
  account_id = "acc1";
  source_kind = "vendor_api";
  billing_mode = "metered";
  enabled = true;
  auto_approved = true;
  max_inflight = pos 1;
  quota_domain = "shared";
  quota_max_inflight = pos 2;
  models = gold ∷ [];
}

abbrev pub beta : Source ℕ
beta = record alpha { id = "beta"; provider = "p2"; account_id = ""; max_inflight = pos 2 }

abbrev pub auto_group : Group ℕ
auto_group = record (no_group.group) {
  id = "auto";
  type = "load-balance";
  sources = "alpha" ∷ "beta" ∷ [];
  min_tier = "silver";
  allow_paid = true;
  max_usd_per_request = some 9000;
}

abbrev pub runtime : Runtime
runtime = record {
  max_inflight = pos 4;
  max_queued = pos 1;
  max_body_bytes = pos 4096;
  max_buffered_bytes = pos 8192;
  max_output_bytes = pos 4096;
  queue_timeout_ms = pos 5000;
  request_timeout_ms = pos 1000;
  write_timeout_ms = pos 1000;
  body_read_timeout_ms = pos 1000;
}

abbrev pub browser : Browser
browser = record {
  expected_identity = "";
  engine = "";
  enabled = false;
  cdp_url = "http://127.0.0.1:9222";
  state_file = "sessions.json";
  max_sessions = pos 256;
  session_ttl_seconds = pos 86400;
  poll_ms = pos 1000;
  max_prompt_bytes = pos 65536;
  max_response_bytes = pos 1048576;
}

abbrev pub device : Device
device = record {
  enabled = false;
  adb_path = "";
  serial = "";
  state_dir = "";
  ocr_path = "";
  ocr_data_dir = "";
  clipboard_sync_ms = pos 0;
}

abbrev pub account_one : Account
account_one = record {
  verification_state = "verified";
  verification_version = 1;
  verification_binding = "";
  verification_at = none;
  id = "acc1";
  provider_id = "p1";
  display_name = "one";
  enabled = true;
  auto_approved = true;
  credential_ref = "";
  login_credential_ref = "";
  expected_identity = "";
  credential_type_override = false;
  browser_profile_id = "";
  base_url = "";
  organization = "";
  project = "";
  quota_domain = "shared";
  max_inflight = pos 1;
  weight = pos 1;
  created_at = 0;
}

abbrev pub config : Config ℕ
config = record {
  browser_profiles = [];
  providers =
      record { id = "p1"; enabled = true; auto_approved = true; pool_strategy = "least-load" }
      ∷ record { id = "p2"; enabled = true; auto_approved = true; pool_strategy = "" }
      ∷ [];
  accounts = account_one ∷ [];
  schema_version = pos 1;
  listen = "127.0.0.1:8317";
  api_key_env = "COT_API_KEY";
  admin_key_env = "COT_ADMIN_KEY";
  runtime = runtime;
  browser = browser;
  device = device;
  sources = alpha ∷ beta ∷ [];
  groups = auto_group ∷ [];
}

-- A request to the auto group with a bound on its output.
abbrev pub query : Query ℕ
query = record {
  probe = false;
  detail = false;
  excluded_sources = [];
  affinity = "";
  model = "auto/silver";
  protocol = "chat";
  tools = true;
  bytes = pos 500;
  output_tokens = pos 100;
  spent_usd = 0;
  stateful = false;
  vision = false;
}

abbrev pub fresh : System ℕ
unfolding new
fresh = new config

abbrev pub first_router : Router ℕ
first_router = fresh.router_at 0

-- A request that names the target itself.
abbrev pub by_name : Query ℕ
by_name = record query { model = "beta/m1" }

-- No context has ended, and each reading of the clock is a millisecond later.
abbrev pub going_on : ℕ → Bool
going_on ctx = false

abbrev pub ticks : ℕ → ℕ
ticks k = 5 + k

abbrev pub first_lease : Lease ℕ
unfolding grant
first_lease = (grant 0 0 query 6 fresh).0

-- The state after the first request was granted.
abbrev pub served : System ℕ
unfolding grant
served = (grant 0 0 query 6 fresh).1

abbrev pub two_waiting : List (Waiter ℕ)
two_waiting =
    record { id = 3; query = query; ctx = 1; ready = false }
    ∷ record { id = 4; query = by_name; ctx = 2; ready = false }
    ∷ []

-- A local source.
abbrev pub at_home : Source ℕ
at_home = record alpha {
  source_kind = "local_model";
  billing_mode = "local";
  inference_location = "local";
  local = true;
}

-- A result whose error is the upstream's own text.
abbrev pub leaked : ExecutionResult
leaked = record {
  input_tokens = pos 1;
  output_tokens = pos 2;
  total_tokens = pos 3;
  usage_known = true;
  upstream_status = pos 200;
  transport_ok = true;
  protocol_complete = true;
  upstream_error = "secret text";
  client_canceled = false;
}

-- The small configuration with the addresses, keys and ratings that its checks want.
abbrev pub rated : Model ℕ
rated = record gold { rating_basis = "benchmark" }

abbrev pub valid_config : Config ℕ
valid_config = record config {
  sources =
      record alpha { base_url = "https://api.example"; key_env = "ALPHA_KEY"; models = rated ∷ [] }
      ∷ record beta { base_url = "https://api.example"; key_env = "BETA_KEY"; models = rated ∷ [] }
      ∷ [];
}
