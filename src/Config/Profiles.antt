-- ===== src/Config/Profiles.antt =====
-- internal/config/browser_profiles.go, and what internal/config uses of net, net/url and
-- path/filepath, which is Go's own: a parameter.
use Prim.Native.Char.{code}
use Prim.Native.String.{String}
use Prim.Native.Nat.{◌*◌, ◌-◌}
use text.Mathlib.Text.{starts_with}
use clash_of_tokens.Base.{
  ℕ, Bool, true, false, not, ◌&&◌, ◌||◌, List, [], ◌∷◌, Option, none, some, leb, ltb, eqb,
  trim_prefix, if◌then◌else◌, ◌==◌, ◌+◌, ◌++◌, or_else, contains, length, first_failure, map,
  check_each,
}
use clash_of_tokens.Config.{Config, BrowserProfile, Browser, Account, Source}
use clash_of_tokens.Config.Text.{is_identifier, between, is_alphanumeric, byte_len}

-- What a check reads of a *url.URL; `user` says whether u.User is set.
pub record Url : Type 0 where
  pub scheme : String
  pub host : String
  pub hostname : String
  pub port : String
  pub path : String
  pub user : Bool
  pub raw_query : String
  pub fragment : String

-- url.Parse, net.ParseIP with IsLoopback, the host of net.SplitHostPort, filepath.IsAbs, and
-- filepath.Join(filepath.Dir(file), "profiles", id, "sessions.json").
pub record Net : Type 0 where
  pub parse_url : String → Option Url
  pub loopback_ip : String → Option Bool
  pub split_host : String → Option String
  pub is_abs : String → Bool
  pub profile_file : String → String → String

pub data ProfileError : Type 0 where
  unsupported_default_engine : ProfileError
  firefox_needs_port : ProfileError
  too_many_profiles : ProfileError
  bad_profile_id : ProfileError
  unsupported_engine : ProfileError
  bad_cdp_url : ProfileError
  cdp_not_loopback : ProfileError
  port_in_use : ProfileError
  unknown_profile : ProfileError

abbrev pub browser_engines : List String
browser_engines =
    "chrome" ∷ "edge" ∷ "brave" ∷ "firefox" ∷ "opera" ∷ "vivaldi" ∷ "chromium" ∷ "arc" ∷ []

-- strconv.Atoi of a port, whose error gives 0.
unfoldable pub atoi_from : ℕ → String → Option ℕ
atoi_from n String.[] = some n
atoi_from n (String.◌∷◌ c s) =
    let rest = atoi_from (n * 10 + (code c - 48)) s in if between 48 57 (code c) then rest else none

unfoldable pub atoi : String → ℕ
unfolding atoi_from
atoi s = if s == "" then 0 else or_else (atoi_from 0 s) 0

-- [A-Za-z0-9-]*
unfoldable pub all_debug_chars : String → Bool
unfolding is_alphanumeric
all_debug_chars String.[] = true
all_debug_chars (String.◌∷◌ c s) =
    (is_alphanumeric (code c) || eqb (code c) 45) && all_debug_chars s

-- ^/devtools/browser/[A-Za-z0-9-]{8,128}$
unfoldable pub is_debug_path : String → Bool
unfolding all_debug_chars byte_len
is_debug_path path =
    let id = trim_prefix path "/devtools/browser/" in
    starts_with path "/devtools/browser/"
    && (all_debug_chars id && (leb 8 (byte_len id) && leb (byte_len id) 128))

module _ ⦃net : Net⦄ where
  -- `ip != nil && ip.IsLoopback()`.
  abbrev pub is_loopback_ip : String → Bool
  is_loopback_ip host = or_else (net.loopback_ip host) false

  -- The test of the default browser when it is Firefox.
  unfoldable pub firefox_guard : Option Url → Bool
  firefox_guard none = true
  firefox_guard (some u) = u.port == "" || not (u.path == "") && not (u.path == "/")

  -- The tests on a profile's endpoint; the second list is that of the ports taken.
  unfoldable pub endpoint_guards :
      BrowserProfile → List String → Option Url → List (Bool × ProfileError)
  unfolding atoi is_debug_path
  endpoint_guards p ports none = (true, bad_cdp_url) ∷ []
  endpoint_guards p ports (some u) =
      let port = atoi u.port in
      let normal = u.scheme == "http" && (u.path == "" || u.path == "/") in
      let external_ws =
        p.external && (not (p.engine == "firefox") && (u.scheme == "ws" && is_debug_path u.path)) in
      (
        not normal && not external_ws
            || (not (is_loopback_ip u.hostname)
                || (ltb port 1024
                    || (ltb 65535 port
                        || (u.user || (not (u.raw_query == "") || not (u.fragment == "")))))),
        cdp_not_loopback,
      )
      ∷ (contains ports u.port, port_in_use)
      ∷ []

  abbrev pub port_of : Option Url → List String
  port_of none = []
  port_of (some u) = u.port ∷ []

  -- The loop over the profiles, with the ids and the ports met so far.
  unfoldable pub profile_guards :
      List String × List String → BrowserProfile → List (Bool × ProfileError)
  unfolding endpoint_guards
  profile_guards (ids, ports) p =
      (not (is_identifier p.id) || contains ids p.id, bad_profile_id)
      ∷ (not (contains browser_engines p.engine), unsupported_engine)
      ∷ endpoint_guards p ports (net.parse_url p.cdp_url)

  abbrev pub profile_met : List String × List String → BrowserProfile → List String × List String
  profile_met (ids, ports) p = (p.id ∷ ids, port_of (net.parse_url p.cdp_url) ++ ports)

  -- The loop over the accounts.
  unfoldable pub binding_guards : List BrowserProfile → Account → List (Bool × ProfileError)
  binding_guards ps a =
      (
        not (a.browser_profile_id == "")
            && not (contains (map (λ p. p.id) ps) a.browser_profile_id),
        unknown_profile,
      )
      ∷ []

  -- The browser of an account's profile, if the profile is there.
  unfoldable pub profile_browser : Browser → Account → List BrowserProfile → Option Browser
  profile_browser b a [] = none
  profile_browser b a (p ∷ ps) =
      let rest = profile_browser b a ps in
      if p.id == a.browser_profile_id
      then some (record b {
        enabled = p.enabled;
        cdp_url = p.cdp_url;
        engine = p.engine;
        expected_identity = a.expected_identity;
        state_file = net.profile_file b.state_file p.id;
      })
      else rest

  module _ {F : Type 0} where
    unfoldable pub default_browser_guards : Config F → List (Bool × ProfileError)
    unfolding firefox_guard
    default_browser_guards c =
        (
          not (c.browser.engine == "") && not (contains browser_engines c.browser.engine),
          unsupported_default_engine,
        )
        ∷ (
          c.browser.engine == "firefox" && firefox_guard (net.parse_url c.browser.cdp_url),
          firefox_needs_port,
        )
        ∷ (ltb 64 (length c.browser_profiles), too_many_profiles)
        ∷ []

    -- The first failure of the three parts.
    unfoldable pub validate_browser_profiles : Config F → Option ProfileError
    unfolding default_browser_guards profile_guards binding_guards
    validate_browser_profiles c = elim (first_failure (default_browser_guards c)) [
      | some e ↦ some e
      | none ↦ elim (check_each profile_guards profile_met ([], []) c.browser_profiles) [
        | some e ↦ some e
        | none ↦ check_each (λ ps a. binding_guards ps a) (λ ps a. ps) c.browser_profiles c.accounts
      ]
    ]

    unfoldable pub account_browser : Config F → Source F → List Account → Browser
    unfolding profile_browser
    account_browser c s [] = c.browser
    account_browser c s (a ∷ as') =
        let rest = account_browser c s as' in
        if not (a.id == s.account_id) || a.browser_profile_id == ""
        then rest
        else or_else (profile_browser c.browser a c.browser_profiles) rest

    -- SourceBrowser.
    unfoldable pub source_browser : Config F → Source F → Browser
    unfolding account_browser
    source_browser c s = account_browser c s c.accounts
