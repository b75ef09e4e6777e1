-- ===== src/Tests/Configs.antt =====
-- Witnesses: the small configuration passes the checks of internal/config.
use clash_of_tokens.Base.{
  ℕ, ◌≡◌, refl, [], ◌∷◌, inr, arith, true, false, none, some, ◌==◌, In, if◌then◌else◌,
}
use clash_of_tokens.Base.Float.{milli}
use clash_of_tokens.Config.Profiles.{Url, Net}
use clash_of_tokens.Config.Accounts.Bound.{Bound}
use clash_of_tokens.Config.Validate.{validate}
use clash_of_tokens.Config.Validate.Promise.{Sound, validate-Sound}
use clash_of_tokens.Config.Service.{
  Version, Host, Service, no_callback, apply, rollback, check_journal,
}
use clash_of_tokens.Config.Service.Atomic.{Applies, apply-Applies}
use clash_of_tokens.Config.Service.Journal.{RoundTrips, apply-check_journal, rollback_restores}
use clash_of_tokens.Base.Int.{pos, ◌≤ℤ◌}
use clash_of_tokens.Api.Attempts.{attempt_limit}
use clash_of_tokens.Api.Attempts.Retries.{attempt_limit-bounds}
use clash_of_tokens.Tests.Run.{everything}
use clash_of_tokens.Tests.Data.{query, valid_config}

abbrev some_url : Url
some_url = record {
  scheme = "https";
  host = "api.example";
  hostname = "api.example";
  port = "";
  path = "";
  user = false;
  raw_query = "";
  fragment = "";
}

instance abbrev one_site : Net
one_site = record {
  parse_url = λ s. if s == "https://api.example" then some some_url else none;
  loopback_ip = λ h. if h == "127.0.0.1" then some true else none;
  split_host = λ s. if s == "127.0.0.1:8317" then some "127.0.0.1" else none;
  is_abs = λ s. false;
  profile_file = λ f id. f;
}

all_pass : validate valid_config ≡ none
unfolding everything
all_pass = refl

validate-Sound_example : Sound valid_config
validate-Sound_example = validate-Sound valid_config all_pass

abbrev easy_host : Host ℕ
easy_host = record {
  clone = λ c. some c;
  config_size = λ c. some 100;
  journal_size = λ vs. some 200;
  written = λ vs. true;
  rollback_summary = λ n. "Rollback";
}

abbrev first_version : Version ℕ
first_version = record {
  revision = 1;
  created_at = 0;
  summary = "Initial configuration";
  config = valid_config;
}

abbrev opened : Service ℕ
opened = record { versions = first_version ∷ []; disk = none }

apply-Applies_example :
    Applies easy_host 1 valid_config "again" opened
      (apply easy_host (λ c. no_callback) 7 1 valid_config "again" opened)
apply-Applies_example = apply-Applies easy_host 1 valid_config "again" opened (λ c. no_callback) 7

faithful_json : RoundTrips easy_host
unfolding RoundTrips
faithful_json c d e = cc (e)

opened_journal : check_journal opened.versions ≡ none
unfolding everything
opened_journal = refl

apply-check_journal_example :
    check_journal
      (apply easy_host (λ c. no_callback) 7 1 valid_config "again" opened).service.versions
    ≡ none
apply-check_journal_example =
    apply-check_journal easy_host (λ c. no_callback) 7 1 valid_config "again" opened faithful_json
      (omega arith) opened_journal

abbrev rolled_back : Version ℕ
rolled_back = record { revision = 2; created_at = 7; summary = "Rollback"; config = valid_config }

rolls_back : (rollback easy_host (λ c. no_callback) 7 1 1 opened).answer ≡ inr rolled_back
unfolding everything
rolls_back = refl

rollback_restores_example :
    (v : Version ℕ) × In v opened.versions × (v.revision ≡ 1) × (rolled_back.config ≡ v.config)
rollback_restores_example =
    rollback_restores easy_host (λ c. no_callback) 7 1 1 opened rolled_back faithful_json rolls_back

sound : Sound valid_config
sound = validate-Sound valid_config all_pass

attempt_limit-bounds_example :
    (pos 1 ≤ℤ attempt_limit valid_config query) × (attempt_limit valid_config query ≤ℤ pos 8)
attempt_limit-bounds_example = attempt_limit-bounds valid_config query sound
