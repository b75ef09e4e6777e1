-- ===== src/Tests/Vaults.antt =====
-- Witnesses: the credential vault.
use Prim.Native.String.{String}
use clash_of_tokens.Base.{
  ℕ, ◌≡◌, refl, Bool, true, false, [], ◌∷◌, Option, none, some, arith, lookup, insert, contains,
}
use clash_of_tokens.Credentials.{OauthGrant, Secret}
use clash_of_tokens.Credentials.Vault.{Vault, Disk, save, payload, delete, delete_key}
use clash_of_tokens.Credentials.Refresh.{begin_refresh, end_refresh, without}
use clash_of_tokens.Credentials.History.{Advances}
use clash_of_tokens.Credentials.History.Reaches.{
  start, next, deletes, begins, ends, Reaches-Advances,
}

abbrev old_grant : OauthGrant
old_grant = record {
  access_token = "one";
  refresh_token = "again";
  token_url = "https://example.com/token";
  client_id = "client";
  client_secret = "";
  expires_at = 5;
  scope = "";
  account_id = "";
}

abbrev new_grant : OauthGrant
new_grant = record old_grant { access_token = "two"; expires_at = 900000000000 }

abbrev token : Secret
token = record {
  metadata = record {
    external = none;
    oauth_info = none;
    version = 1;
    id = "cred://token";
    kind = "oauth";
    source = "test";
    domain = "";
    created_at = 1;
    updated_at = 1;
    last_used_at = none;
  };
  revoked = false;
  value = "one";
  oauth = some old_grant;
  import_url = "";
}

abbrev token_vault : Vault
token_vault = record {
  account_owners = none;
  refreshes = [];
  refresh_backoff = [];
  records = ("cred://token", token) ∷ [];
  last_used = [];
  file = none;
}

abbrev good_disk : Disk
good_disk p = none

abbrev begun : Vault
begun = (begin_refresh 10 false "cred://token" token_vault).1

abbrev refreshed_vault : Vault
refreshed_vault = (end_refresh good_disk 20 "cred://token" 1 (some new_grant) begun).1

abbrev emptied : Vault
emptied = (delete good_disk 30 "cred://token" refreshed_vault).1

-- A refresh that ends after the record is gone.
abbrev late : Vault
late = (end_refresh good_disk 40 "cred://token" 2 (some new_grant) emptied).1

Reaches-Advances_example : Advances token_vault.records late.records
Reaches-Advances_example =
    Reaches-Advances token_vault late (omega arith, tt)
      (next
        (next
          (next (next start (begins 10 false "cred://token"))
            (ends good_disk 20 "cred://token" 1 (some new_grant)))
          (deletes good_disk 30 "cred://token"))
        (ends good_disk 40 "cred://token" 2 (some new_grant)))

abbrev shown : Option Secret → String × (ℕ × Bool)
shown none = ("", (0, false))
shown (some r) = (r.value, (r.metadata.version, r.revoked))

refreshed_shown :
    (shown (lookup "cred://token" refreshed_vault.records) ≡ ("two", (2, false)))
    × (shown (lookup "cred://token" late.records) ≡ ("", (2, true)))
unfolding begin_refresh end_refresh delete save payload lookup insert delete_key without contains
refreshed_shown = (refl, refl)
