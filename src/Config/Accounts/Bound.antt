-- ===== src/Config/Accounts/Bound.antt =====
-- internal/config/accounts.go: a source and its account after ValidateAccounts.
use clash_of_tokens.Base.{◌≡◌, true, false, List, some, ◌==◌}
use clash_of_tokens.Base.Int.{pos, ◌≤ℤ◌}
use clash_of_tokens.Config.{Config, Account, Source}
use clash_of_tokens.Config.Text.{is_identifier}
use clash_of_tokens.Config.Accounts.{account_named}

module _ {F : Type 0} where
  -- The account of a bound source, and what they have in common.
  pub record Bound (accounts : List Account) (s : Source F) : Type 0 where
    pub account : Account
    pub named : account_named s.account_id accounts ≡ some account
    pub same_provider : (account.provider_id == s.provider) ≡ true
    pub same_domain : (s.quota_domain == account.quota_domain) ≡ true
    pub one_credential :
        (s.credential_ref == "") ≡ false
        → (account.credential_ref == "") ≡ false
        → (s.credential_ref == account.credential_ref) ≡ true

-- The capacity and weight of an account that passes.
pub record Bounded (a : Account) : Type 0 where
  pub capacity_low : pos 1 ≤ℤ a.max_inflight
  pub capacity_high : a.max_inflight ≤ℤ pos 10000
  pub weight_low : pos 1 ≤ℤ a.weight
  pub weight_high : a.weight ≤ℤ pos 10000
  pub named : is_identifier a.id ≡ true
