-- ===== src/Credentials/Refresh.antt =====
-- internal/credentials/oauth.go: refreshOAuth, whose two parts under the lock stand around the request
-- to the token endpoint.
use Prim.Native.String.{String}
use clash_of_tokens.Base.{
  ℕ, ◌+◌, ◌%◌, ◌^◌, Bool, not, ◌&&◌, ◌||◌, List, [], ◌∷◌, Option, none, some, if◌then◌else◌, ltb,
  eqb, ◌==◌, lookup, insert, contains, or_else,
}
use clash_of_tokens.Credentials.{OauthGrant, Secret, SaveError}
use clash_of_tokens.Credentials.Vault.{Vault, Disk, delete_key, save, forget_use, info_of}

pub data Refreshing : Type 0 where
  no_lifecycle still_fresh joins cooling_down needs_login : Refreshing
  starts : OauthGrant → ℕ → Refreshing

abbrev pub half_minute : ℕ
half_minute = 30000000000

abbrev pub minute : ℕ
minute = 60000000000

-- The grant need not be refreshed yet: it ends, and later than in half a minute.
abbrev pub is_fresh : ℕ → OauthGrant → Bool
is_fresh now g = not (eqb g.expires_at 0) && ltb (now + half_minute) g.expires_at

abbrev pub cannot_refresh : OauthGrant → Bool
cannot_refresh g = g.refresh_token == "" || (g.token_url == "" || g.client_id == "")

abbrev pub begin_grant : ℕ → Bool → String → Secret → OauthGrant → Vault → Refreshing × Vault
begin_grant now force id r g s =
    if not force && is_fresh now g
    then (still_fresh, s)
    else if contains s.refreshes id
    then (joins, s)
    else if ltb now (or_else (lookup id s.refresh_backoff) 0)
    then (cooling_down, s)
    else if cannot_refresh g
    then (needs_login, s)
    else (starts g r.metadata.version, record s { refreshes = id ∷ s.refreshes })

-- Up to the request. A call that joins another waits for its result.
unfoldable pub begin_refresh : ℕ → Bool → String → Vault → Refreshing × Vault
unfolding lookup
begin_refresh now force id s = elim (lookup id s.records) [
  | none ↦ (no_lifecycle, s)
  | some r ↦
      if r.revoked
      then (no_lifecycle, s)
      else (elim r.oauth [ none ↦ (no_lifecycle, s) | some g ↦ begin_grant now force id r g s ])
]

pub data RefreshError : Type 0 where
  stale rejected exhausted : RefreshError
  unsaved : SaveError → RefreshError

unfoldable pub without : String → List String → List String
without id [] = []
without id (x ∷ xs) = let rest = without id xs in if x == id then rest else x ∷ rest

-- The deferred call that ends the flight.
abbrev pub landed : String → Vault → Vault
landed id s = record s { refreshes = without id s.refreshes }

abbrev pub refreshed : ℕ → OauthGrant → Secret → Secret
refreshed now g r = record r {
  value = g.access_token;
  oauth = some g;
  metadata = record r.metadata {
    version = (r.metadata.version + 1) % 2 ^ 64;
    updated_at = now;
    oauth_info = some (info_of g);
  };
}

abbrev pub backed_off : ℕ → String → Vault → Vault
backed_off now id s = record s { refresh_backoff = insert id (now + minute) s.refresh_backoff }

abbrev pub after_save : String → Option SaveError × Vault → Option RefreshError × Vault
after_save id (none, s) = (none, landed id (forget_use id s))
after_save id (some e, s) = (some (unsaved e), landed id (forget_use id s))

abbrev pub end_current :
    Disk → ℕ → String → ℕ → Option OauthGrant → Secret → Vault → Option RefreshError × Vault
end_current disk now id version none r s =
    if r.revoked || not (eqb r.metadata.version version)
    then (some stale, landed id s)
    else (some rejected, landed id (backed_off now id s))
end_current disk now id version (some g) r s =
    if r.revoked || not (eqb r.metadata.version version)
    then (some stale, landed id s)
    else if eqb (refreshed now g r).metadata.version 0
    then (some exhausted, landed id s)
    else after_save id (save disk (insert id (refreshed now g r) s.records) s)

-- After the request of a flight that began at `version`; its result is a grant, or an error.
unfoldable pub end_refresh :
    Disk → ℕ → String → ℕ → Option OauthGrant → Vault → Option RefreshError × Vault
unfolding lookup insert save delete_key without
end_refresh disk now id version result s = elim (lookup id s.records) [
  | none ↦ (some stale, landed id s)
  | some r ↦ end_current disk now id version result r s
]
