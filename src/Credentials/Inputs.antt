-- ===== src/Credentials/Inputs.antt =====
-- internal/credentials: the checks on a reference to an external manager (external.go), and the calls
-- that put a record after a check (oauth.go, external.go, token_import.go, accounts.go).
use Prim.Native.Char.{code}
use Prim.Native.String.{String}
use text.Mathlib.Text.{starts_with}
use clash_of_tokens.Base.{
  ℕ, zero, suc, Bool, false, not, ◌&&◌, ◌||◌, List, [], ◌∷◌, Option, none, some, if◌then◌else◌, ltb,
  eqb, ◌==◌, ◌⧺◌, length, lookup, trim_prefix, contains,
}
use clash_of_tokens.Config.Text.{byte_len, between}
use clash_of_tokens.Config.Profiles.{Net}
use clash_of_tokens.Api.Operations.{split_slashes}
use clash_of_tokens.Credentials.{ExternalReference, OauthGrant, Metadata, AccountOwner}
use clash_of_tokens.Credentials.Vault.{Vault, VaultError, Disk, Logins, put_record}
use clash_of_tokens.Credentials.Owners.{put_account}
use clash_of_tokens.Credentials.Grants.{contains_any, control_codes, valid_grant}

-- The hexadecimal digits at the start of a text, `n` of them, and what follows.
abbrev pub is_hex : ℕ → Bool
is_hex c = between 48 57 c || (between 65 70 c || between 97 102 c)

unfoldable pub after_hex : ℕ → String → Option String
after_hex zero s = some s
after_hex (suc n) String.[] = none
after_hex (suc n) (String.◌∷◌ c s) =
    let rest = after_hex n s in if is_hex (code c) then rest else none

abbrev pub after_dash : String → Option String
after_dash String.[] = none
after_dash (String.◌∷◌ c s) = if eqb (code c) 45 then some s else none

abbrev pub and_then : Option String → (String → Option String) → Option String
and_then none f = none
and_then (some s) f = f s

-- managerItemID.
unfoldable pub is_item_id : String → Bool
unfolding after_hex
is_item_id s =
    let rest = and_then (after_hex 8 s) (λ a. and_then (after_dash a) (λ b.
      and_then (after_hex 4 b) (λ c. and_then (after_dash c) (λ d. and_then (after_hex 4 d) (λ e.
        and_then (after_dash e) (λ f.
          and_then (after_hex 4 f) (λ g. and_then (after_dash g) (λ h. after_hex 12 h)))))))) in
    elim rest [ none ↦ false | some t ↦ t == "" ]

pub data ExternalError : Type 0 where
  invalid_external invalid_field not_selected not_invocation : ExternalError

-- The codes of ? and #.
abbrev pub bad_part : String → Bool
bad_part part = part == "" || contains_any (63 ∷ 35 ∷ []) part

unfoldable pub any_bad_part : List String → Bool
unfolding contains_any
any_bad_part [] = false
any_bad_part (p ∷ ps) = bad_part p || any_bad_part ps

abbrev pub op_parts : ExternalReference → List String
op_parts r = split_slashes (trim_prefix r.reference "op://")

abbrev pub is_op_field : ExternalReference → Bool
is_op_field r =
    starts_with r.reference "op://"
    && ((eqb (length (op_parts r)) 3 || eqb (length (op_parts r)) 4) && r.field_name == "")

unfoldable pub external_error : ExternalReference → Option ExternalError
unfolding byte_len contains_any split_slashes any_bad_part is_item_id
external_error r =
    if ltb 1024 (byte_len r.reference) || contains_any control_codes r.reference
    then some invalid_external
    else if r.manager == "1password" && is_op_field r
    then (if any_bad_part (op_parts r) then some invalid_field else none)
    else if r.manager == "bitwarden"
        && (is_item_id r.reference && (r.field_name == "password" || r.field_name == "username"))
    then none
    else some not_selected

pub data InputError : Type 0 where
  bad_grant : InputError
  bad_external : ExternalError → InputError
  vault_error : VaultError → InputError

abbrev pub lifted : Option VaultError × Vault → Option InputError × Vault
lifted (some e, s) = (some (vault_error e), s)
lifted (none, s) = (none, s)

unfoldable pub put_oauth :
    ⦃net : Net⦄
    → Disk
    → Logins
    → ℕ
    → String
    → String
    → OauthGrant
    → Vault
    → Option InputError × Vault
unfolding valid_grant put_record
put_oauth disk logins now id source g s =
    if valid_grant g
    then lifted (put_record disk logins now id "oauth" source g.access_token none (some g) s)
    else (some bad_grant, s)

unfoldable pub put_external :
    Disk → Logins → ℕ → String → String → ExternalReference → Vault → Option InputError × Vault
unfolding external_error put_record
put_external disk logins now id kind r s = elim (external_error r) [
  | some e ↦ (some (bad_external e), s)
  | none ↦
      if not (contains ("api_key" ∷ "oauth" ∷ "cookie" ∷ []) kind)
      then (some (bad_external not_invocation), s)
      else lifted (put_record disk logins now id kind ("external:" ⧺ r.manager) "" (some r) none s)
]

-- A new reference, whose end is `random`, is put; its record's metadata are given back.
abbrev pub created : String → Option VaultError × Vault → Option Metadata × Vault
created ref (some e, s) = (none, s)
created ref (none, s) = elim (lookup ref s.records) [
  | none ↦ (none, s)
  | some r ↦ (some r.metadata, s)
]

unfoldable pub create :
    Disk → Logins → ℕ → String → String → String → String → Vault → Option Metadata × Vault
unfolding put_record lookup
create disk logins now random kind source value s =
    let ref = "cred://import-" ⧺ random in
    created ref (put_record disk logins now ref kind source value none none s)

unfoldable pub create_account_material :
    Disk → Logins → ℕ → String → AccountOwner → String → String → Vault → Option Metadata × Vault
unfolding put_account lookup
create_account_material disk logins now random owner kind value s =
    let ref = "cred://account-" ⧺ random in
    created ref (put_account disk logins now owner ref kind value s)
