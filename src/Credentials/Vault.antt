-- ===== src/Credentials/Vault.antt =====
-- internal/credentials/store.go: a vault, its save, putRecord and Delete, each under the lock.
--
-- What the platform does with a payload is `disk`: the call of save that fails, if one does. What the
-- strict JSON decoder makes of a login is `logins`; `now` is the time of the call.
use Prim.Native.String.{String}
use clash_of_tokens.Base.{
  ℕ, ◌+◌, ◌%◌, ◌^◌, Bool, true, false, not, ◌&&◌, ◌||◌, List, [], ◌∷◌, Option, none, some, ◌⊎◌, inl,
  inr, if◌then◌else◌, ltb, eqb, ◌==◌, lookup, insert, contains,
}
use clash_of_tokens.Config.Text.{byte_len, valid_credential_ref}
use clash_of_tokens.Credentials.{
  ExternalReference, OauthGrant, OauthMetadata, Secret, AccountOwner, Payload, plain, grouped,
  SaveError, group_account_records,
}

pub record Vault : Type 0 where
  -- `none` is the nil map of a vault that is not kept by account.
  pub account_owners : Option (List (String × List AccountOwner))
  pub refreshes : List String
  pub refresh_backoff : List (String × ℕ)
  pub records : List (String × Secret)
  pub last_used : List (String × ℕ)
  -- What the last save that succeeded wrote.
  pub file : Option Payload

pub data VaultError : Type 0 where
  invalid_reference invalid_login revoked_reference version_exhausted unknown_reference : VaultError
  other_owner has_owner : VaultError
  save_failed : SaveError → VaultError

abbrev pub Disk : Type 0
Disk = Payload → Option SaveError

abbrev pub Logins : Type 0
Logins = String → Option (String × String)

abbrev pub kinds : List String
kinds =
    "api_key" ∷ "oauth" ∷ "browser_session" ∷ "cookie" ∷ "username_password" ∷ "cli_session"
    ∷ "device_session" ∷ "browser_profile" ∷ []

unfoldable pub valid_kind : String → Bool
valid_kind kind = contains kinds kind

unfoldable pub delete_key {ℓ} : {W : Type ℓ} → String → List (String × W) → List (String × W)
delete_key key [] = []
delete_key key (entry ∷ rest) =
    let others = delete_key key rest in if entry.0 == key then others else entry ∷ others

unfoldable pub payload :
    Option (List (String × List AccountOwner)) → List (String × Secret) → SaveError ⊎ Payload
unfolding group_account_records
payload none records = inr (plain records)
payload (some owners) records = elim (group_account_records records owners) [
  | inl e ↦ inl e
  | inr doc ↦ inr (grouped doc)
]

abbrev pub write_payload :
    Disk → List (String × Secret) → Vault → SaveError ⊎ Payload → Option SaveError × Vault
write_payload disk next s (inl e) = (some e, s)
write_payload disk next s (inr p) = elim (disk p) [
  | some e ↦ (some e, s)
  | none ↦ (none, record s { records = next; file = some p })
]

unfoldable pub save : Disk → List (String × Secret) → Vault → Option SaveError × Vault
unfolding payload
save disk next s = write_payload disk next s (payload s.account_owners next)

-- The end of a call, after save: `after` is what it does when the save succeeds.
abbrev pub saved : (Vault → Vault) → Option SaveError × Vault → Option VaultError × Vault
saved after (some e, s) = (some (save_failed e), s)
saved after (none, s) = (none, after s)

unfoldable pub good_login : Option (String × String) → Bool
unfolding byte_len
good_login none = false
good_login (some (username, password)) =
    not (username == "")
    && (not (password == "")
        && (not (ltb 1024 (byte_len username)) && not (ltb 65536 (byte_len password))))

unfoldable pub valid_value : Logins → String → String → Bool
unfolding good_login
valid_value logins kind value = not (kind == "username_password") || good_login (logins value)

abbrev pub no_external : Option ExternalReference → Bool
no_external none = true
no_external (some r) = false

unfoldable pub bad_reference : String → String → String → String → Option ExternalReference → Bool
unfolding byte_len valid_credential_ref valid_kind
bad_reference id kind source value external =
    id == ""
    || (not (valid_credential_ref id)
        || (not (valid_kind kind)
            || (value == "" && no_external external
                || (ltb 1048576 (byte_len value) || ltb 256 (byte_len source)))))

abbrev pub info_of : OauthGrant → OauthMetadata
info_of g = record {
  expires_at = g.expires_at;
  scope = g.scope;
  account_id = g.account_id;
  automatic_refresh = not (g.refresh_token == "");
}

abbrev pub info_of_grant : Option OauthGrant → Option OauthMetadata
info_of_grant none = none
info_of_grant (some g) = some (info_of g)

-- The versions and the times that putRecord gives a record.
abbrev pub created_after : ℕ → Option Secret → ℕ
created_after now none = now
created_after now (some r) = r.metadata.created_at

abbrev pub version_after : Option Secret → ℕ
version_after none = 1
version_after (some r) = (r.metadata.version + 1) % 2 ^ 64

-- A saved login that is replaced keeps the site that it came from.
abbrev pub is_login_again : String → Secret → Bool
is_login_again kind prior =
    prior.metadata.kind == "username_password" && kind == prior.metadata.kind

abbrev pub kept_domain : String → Option Secret → String
kept_domain kind none = ""
kept_domain kind (some r) = if is_login_again kind r then r.metadata.domain else ""

abbrev pub kept_import_url : String → Option Secret → String
kept_import_url kind none = ""
kept_import_url kind (some r) = if is_login_again kind r then r.import_url else ""

unfoldable pub new_record :
    ℕ
    → String
    → String
    → String
    → String
    → Option ExternalReference
    → Option OauthGrant
    → Option Secret
    → Secret
new_record now id kind source value external oauth old = record {
  metadata = record {
    external = external;
    oauth_info = info_of_grant oauth;
    version = version_after old;
    id = id;
    kind = kind;
    source = source;
    domain = kept_domain kind old;
    created_at = created_after now old;
    updated_at = now;
    last_used_at = none;
  };
  revoked = false;
  value = value;
  oauth = oauth;
  import_url = kept_import_url kind old;
}

abbrev pub is_revoked : Option Secret → Bool
is_revoked none = false
is_revoked (some r) = r.revoked

abbrev pub forget_use : String → Vault → Vault
forget_use id s = record s {
  last_used = delete_key id s.last_used;
  refresh_backoff = delete_key id s.refresh_backoff;
}

unfoldable pub put_record :
    Disk
    → Logins
    → ℕ
    → String
    → String
    → String
    → String
    → Option ExternalReference
    → Option OauthGrant
    → Vault
    → Option VaultError × Vault
unfolding save delete_key new_record bad_reference valid_value lookup insert
put_record disk logins now id kind source value external oauth s =
    let old = lookup id s.records in
    if bad_reference id kind source value external
    then (some invalid_reference, s)
    else if not (valid_value logins kind value)
    then (some invalid_login, s)
    else if is_revoked old
    then (some revoked_reference, s)
    else if eqb (version_after old) 0
    then (some version_exhausted, s)
    else saved (forget_use id)
        (save disk (insert id (new_record now id kind source value external oauth old) s.records) s)

-- What a deleted record leaves.
abbrev pub tombstone : ℕ → String → Secret → Secret
tombstone now id old = record {
  metadata = record {
    external = none;
    oauth_info = none;
    version = old.metadata.version;
    id = id;
    kind = "";
    source = "";
    domain = "";
    created_at = 0;
    updated_at = now;
    last_used_at = none;
  };
  revoked = true;
  value = "";
  oauth = none;
  import_url = "";
}

abbrev pub forget_last_use : String → Vault → Vault
forget_last_use id s = record s { last_used = delete_key id s.last_used }

abbrev pub delete_old : Disk → ℕ → String → Vault → Option Secret → Option VaultError × Vault
delete_old disk now id s none = (some unknown_reference, s)
delete_old disk now id s (some old) =
    if old.revoked
    then (some unknown_reference, s)
    else saved (forget_last_use id) (save disk (insert id (tombstone now id old) s.records) s)

unfoldable pub delete : Disk → ℕ → String → Vault → Option VaultError × Vault
unfolding save delete_key lookup insert
delete disk now id s = delete_old disk now id s (lookup id s.records)
