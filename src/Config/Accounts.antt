-- ===== src/Config/Accounts.antt =====
-- internal/config/accounts.go: the bindings of sources to accounts, and ValidateAccounts.
pub mod Bound
use Prim.Native.String.{String}
use clash_of_tokens.Base.{
  ℕ, Bool, true, false, not, ◌&&◌, ◌||◌, List, [], ◌∷◌, ◌++◌, Option, none, some, if◌then◌else◌,
  ◌==◌, or_else, contains, map, first_failure, check_each, find,
}
use clash_of_tokens.Base.Int.{ℤ, pos, ltb_ℤ}
use clash_of_tokens.Config.{Config, Provider, Account, Source}
use clash_of_tokens.Config.Metadata.{bad_text}
use clash_of_tokens.Config.Text.{is_identifier, valid_credential_ref}
use clash_of_tokens.Config.Profiles.{
  Url, Net, ProfileError, is_loopback_ip, validate_browser_profiles,
}

pub data AccountError : Type 0 where
  profiles : ProfileError → AccountError
  bad_provider_id : AccountError
  bad_pool_strategy : AccountError
  bad_verification_state : AccountError
  bad_account_id : AccountError
  unknown_provider : AccountError
  bad_credential_ref : AccountError
  -- "account %s: invalid <field>".
  bad_account_field : String → AccountError
  bad_base_url : AccountError
  base_url_needs_https : AccountError
  bad_capacity : AccountError
  bad_source_credential_ref : AccountError
  unknown_account : AccountError
  provider_changed : AccountError
  quota_domain_differs : AccountError
  conflicting_credential : AccountError

abbrev pub pool_strategies : List String
pool_strategies = "" ∷ "round-robin" ∷ "least-load" ∷ "sticky" ∷ "weighted" ∷ []

abbrev pub verification_states : List String
verification_states = "" ∷ "verified" ∷ "unverified" ∷ "unfilled" ∷ "invalid" ∷ []

-- `n < low || n > high`.
abbrev pub outside : ℤ → ℤ → ℤ → Bool
outside low high n = ltb_ℤ n low || ltb_ℤ high n

-- `accounts[id]`, of the accounts met so far, the last first.
abbrev pub account_named : String → List Account → Option Account
account_named id as' = find (λ a. a.id == id) as'

module _ {F : Type 0} where
  -- SourceCredentialRef, over the accounts of the configuration.
  unfoldable pub source_credential_ref : Config F → Source F → String
  source_credential_ref c s =
      if not (s.credential_ref == "")
      then s.credential_ref
      else elim (account_named s.account_id c.accounts) [ none ↦ "" | some a ↦ a.credential_ref ]

  -- EffectiveSource.
  unfoldable pub effective_source : Config F → Source F → Source F
  effective_source c s =
      if s.account_id == "" then s else elim (account_named s.account_id c.accounts) [
        | none ↦ s
        | some a ↦ record s {
          base_url = if s.base_url == "" then a.base_url else s.base_url;
          organization = if s.organization == "" then a.organization else s.organization;
          project = if s.project == "" then a.project else s.project;
        }
      ]

unfoldable pub provider_guards : List String → Provider → List (Bool × AccountError)
provider_guards ids p =
    (not (is_identifier p.id) || contains ids p.id, bad_provider_id)
    ∷ (not (contains pool_strategies p.pool_strategy), bad_pool_strategy)
    ∷ []

module _ ⦃net : Net⦄ where
  unfoldable pub account_url_guards : Option Url → List (Bool × AccountError)
  account_url_guards none = (true, bad_base_url) ∷ []
  account_url_guards (some u) =
      let loopback = u.hostname == "localhost" || is_loopback_ip u.hostname in
      (
        u.host == "" || (u.user || (not (u.raw_query == "") || not (u.fragment == ""))),
        bad_base_url,
      )
      ∷ (not (u.scheme == "https") && not (u.scheme == "http" && loopback), base_url_needs_https)
      ∷ []

  -- validateAccountMetadata.
  unfoldable pub account_metadata_guards : Account → List (Bool × AccountError)
  unfolding account_url_guards
  account_metadata_guards a =
      (bad_text a.organization, bad_account_field "organization")
      ∷ (bad_text a.project, bad_account_field "project")
      ∷ (bad_text a.expected_identity, bad_account_field "expected_identity")
      ∷ (if a.base_url == "" then [] else account_url_guards (net.parse_url a.base_url))

  -- The loop over the accounts, with those met so far.
  unfoldable pub account_guards : List String → List Account → Account → List (Bool × AccountError)
  unfolding account_metadata_guards
  account_guards providers met a =
      (not (contains verification_states a.verification_state), bad_verification_state)
        ∷ (not (is_identifier a.id) || contains (map (λ x. x.id) met) a.id, bad_account_id)
        ∷ (not (contains providers a.provider_id), unknown_provider)
        ∷ (
          not (valid_credential_ref a.credential_ref)
              || not (valid_credential_ref a.login_credential_ref),
          bad_credential_ref,
        )
        ∷ account_metadata_guards a
      ++ (
        outside (pos 1) (pos 10000) a.max_inflight
            || (outside (pos 1) (pos 10000) a.weight || not (is_identifier a.quota_domain)),
        bad_capacity,
      )
        ∷ []

module _ {F : Type 0} where
  unfoldable pub account_binding_guards : Source F → Option Account → List (Bool × AccountError)
  account_binding_guards s none = (true, unknown_account) ∷ []
  account_binding_guards s (some a) =
      (not (a.provider_id == s.provider), provider_changed)
      ∷ (not (s.quota_domain == a.quota_domain), quota_domain_differs)
      ∷ (
        not (s.credential_ref == "")
            && (not (a.credential_ref == "") && not (s.credential_ref == a.credential_ref)),
        conflicting_credential,
      )
      ∷ []

  -- The loop over the sources.
  unfoldable pub bound_source_guards : List Account → Source F → List (Bool × AccountError)
  unfolding account_binding_guards
  bound_source_guards accounts s =
      (not (valid_credential_ref s.credential_ref), bad_source_credential_ref)
      ∷ (if s.account_id == ""
          then []
          else account_binding_guards s (account_named s.account_id accounts))

module _ {F : Type 0} ⦃net : Net⦄ where
  abbrev pub check_providers : Config F → Option AccountError
  check_providers c = check_each provider_guards (λ ids p. p.id ∷ ids) [] c.providers

  abbrev pub check_accounts : Config F → Option AccountError
  check_accounts c =
      check_each (account_guards (map (λ p. p.id) c.providers)) (λ met a. a ∷ met) [] c.accounts

  abbrev pub check_bindings : Config F → Option AccountError
  check_bindings c = check_each bound_source_guards (λ as' s. as') c.accounts c.sources

  -- ValidateAccounts.
  unfoldable pub validate_accounts : Config F → Option AccountError
  unfolding validate_browser_profiles provider_guards account_guards bound_source_guards
  validate_accounts c = elim (validate_browser_profiles c) [
    | some e ↦ some (profiles e)
    | none ↦ elim (check_providers c) [
      | some e ↦ some e
      | none ↦ elim (check_accounts c) [ some e ↦ some e | none ↦ check_bindings c ]
    ]
  ]
