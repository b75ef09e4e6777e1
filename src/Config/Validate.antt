-- ===== src/Config/Validate.antt =====
-- internal/config/config.go: Validate. Each loop carries what its maps hold, and gives up at the
-- first guard that holds.
pub mod Sources
pub mod Groups
pub mod Sound
pub mod Promise
use Prim.Native.String.{String}
use clash_of_tokens.Base.{
  ℕ, Bool, true, false, not, ◌&&◌, ◌||◌, List, [], ◌∷◌, ◌++◌, Option, none, some, if◌then◌else◌,
  ◌==◌, or_else, contains, map, first_failure, check_each, is_empty,
}
use clash_of_tokens.Base.Int.{ℤ, pos, ltb_ℤ, eqb_ℤ}
use clash_of_tokens.Base.Float.{Float64}
use clash_of_tokens.Config.{Config, Runtime, Browser, Source, Group}
use clash_of_tokens.Config.Profiles.{Url, Net, is_loopback_ip}
use clash_of_tokens.Config.Accounts.{AccountError, outside, validate_accounts}
use clash_of_tokens.Config.Validate.Sources.{
  SourceError, Met, nothing_met, source_round, source_met, is_browser_source,
}
use clash_of_tokens.Config.Validate.Groups.{GroupError, group_guards_of}

pub data ConfigError : Type 0 where
  accounts : AccountError → ConfigError
  unsupported_schema : ConfigError
  bad_listen : ConfigError
  listen_needs_host : ConfigError
  bad_runtime : ConfigError
  source : SourceError → ConfigError
  bad_browser_endpoint : ConfigError
  bad_browser_limits : ConfigError
  group : GroupError → ConfigError

-- The condition on Runtime; 64<<20 is 67108864 and 2<<30 is 2147483648.
unfoldable pub bad_runtime_limits : Runtime → Bool
bad_runtime_limits r =
    outside (pos 1) (pos 10000) r.max_inflight
    || (outside (pos 0) (pos 10000) r.max_queued
        || (outside (pos 1) (pos 67108864) r.max_body_bytes
            || (ltb_ℤ r.max_buffered_bytes r.max_body_bytes
                || (ltb_ℤ (pos 2147483648) r.max_buffered_bytes
                    || (ltb_ℤ r.max_output_bytes (pos 1)
                        || (ltb_ℤ r.queue_timeout_ms (pos 1)
                            || (ltb_ℤ r.request_timeout_ms (pos 1)
                                || (ltb_ℤ r.write_timeout_ms (pos 1)
                                    || ltb_ℤ r.body_read_timeout_ms (pos 1)))))))))

-- The condition on Browser; 1<<20 is 1048576 and 4<<20 is 4194304.
unfoldable pub bad_limits_of_browser : Browser → Bool
bad_limits_of_browser b =
    b.state_file == ""
    || (outside (pos 1) (pos 4096) b.max_sessions
        || (ltb_ℤ b.session_ttl_seconds (pos 60)
            || (outside (pos 500) (pos 10000) b.poll_ms
                || (outside (pos 1) (pos 1048576) b.max_prompt_bytes
                    || outside (pos 1) (pos 4194304) b.max_response_bytes))))

module _ ⦃net : Net⦄ where
  unfoldable pub bad_endpoint : Option Url → Bool
  bad_endpoint none = true
  bad_endpoint (some u) =
      not (u.scheme == "http")
      || (not (is_loopback_ip u.hostname)
          || (u.user || (not (u.raw_query == "") || not (u.fragment == ""))))

  unfoldable pub listen_guards : Option String → List (Bool × ConfigError)
  listen_guards none = (true, bad_listen) ∷ []
  listen_guards (some host) = (host == "", listen_needs_host) ∷ []

  module _ {F : Type 0} where
    unfoldable pub top_guards : Config F → List (Bool × ConfigError)
    unfolding listen_guards bad_runtime_limits
    top_guards c =
        (not (eqb_ℤ c.schema_version (pos 1)), unsupported_schema)
          ∷ listen_guards (net.split_host c.listen)
        ++ (bad_runtime_limits c.runtime, bad_runtime) ∷ []

    abbrev pub any_browser : List (Source F) → Bool
    any_browser [] = false
    any_browser (s ∷ ss) = is_browser_source s.adapter || any_browser ss

    -- After the sources: the browser is checked when one of them needs it.
    unfoldable pub browser_guards : Config F → List (Bool × ConfigError)
    unfolding bad_endpoint bad_limits_of_browser
    browser_guards c =
        if any_browser c.sources
        then (bad_endpoint (net.parse_url c.browser.cdp_url), bad_browser_endpoint)
          ∷ (bad_limits_of_browser c.browser, bad_browser_limits)
          ∷ []
        else []

module _ {F : Type 0} ⦃net : Net⦄ ⦃fl : Float64 F⦄ where
  abbrev pub check_sources : Config F → Option SourceError
  check_sources c = check_each (source_round c) (source_met c) nothing_met c.sources

  abbrev pub check_groups : Config F → Option GroupError
  check_groups c =
      check_each (group_guards_of (map (λ s. s.id) c.sources)) (λ met g. g.id ∷ met) [] c.groups

  -- Validate.
  unfoldable pub validate : Config F → Option ConfigError
  unfolding validate_accounts top_guards browser_guards
  validate c = elim (validate_accounts c) [
    | some e ↦ some (accounts e)
    | none ↦ elim (first_failure (top_guards c)) [
      | some e ↦ some e
      | none ↦ elim (check_sources c) [
        | some e ↦ some (source e)
        | none ↦ elim (first_failure (browser_guards c)) [
          | some e ↦ some e
          | none ↦ elim (check_groups c) [ some e ↦ some (group e) | none ↦ none ]
        ]
      ]
    ]
  ]
