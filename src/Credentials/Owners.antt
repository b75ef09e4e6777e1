-- ===== src/Credentials/Owners.antt =====
-- internal/credentials/accounts.go and store.go: the calls on a vault that know the owners of its
-- material, and the use of a value.
use Prim.Native.String.{String}
use clash_of_tokens.Base.{
  ℕ, Bool, false, not, ◌&&◌, List, [], ◌∷◌, Option, none, some, if◌then◌else◌, ◌==◌, lookup, insert,
  is_empty,
}
use clash_of_tokens.Credentials.{Secret, AccountOwner, owners_in}
use clash_of_tokens.Credentials.Vault.{
  Vault, VaultError, unknown_reference, other_owner, has_owner, Disk, Logins, save, saved,
  put_record,
}

-- reflect.DeepEqual(prior, []AccountOwner{owner}).
abbrev pub only_owner : AccountOwner → List AccountOwner → Bool
only_owner o [] = false
only_owner o (p ∷ []) = p.account == o.account && p.provider == o.provider
only_owner o (p ∷ (q ∷ qs)) = false

abbrev pub own : AccountOwner → String → List (String × List AccountOwner) → Vault → Vault
own owner ref owners s = record s { account_owners = some (insert ref (owner ∷ []) owners) }

-- The first part of PutAccount, under a lock of its own.
unfoldable pub claim_owner : AccountOwner → String → Vault → Option VaultError × Vault
unfolding lookup insert
claim_owner owner ref s = elim s.account_owners [
  | none ↦ (none, s)
  | some owners ↦
      if not (is_empty (owners_in owners ref)) && not (only_owner owner (owners_in owners ref))
      then (some other_owner, s)
      else (none, own owner ref owners s)
]

abbrev pub put_claimed :
    Disk
    → Logins
    → ℕ
    → String
    → String
    → String
    → Option VaultError × Vault
    → Option VaultError × Vault
put_claimed disk logins now ref kind value (some e, s) = (some e, s)
put_claimed disk logins now ref kind value (none, s) =
    put_record disk logins now ref kind "provider-account" value none none s

-- PutAccount: the owner stays set where Put fails.
unfoldable pub put_account :
    Disk → Logins → ℕ → AccountOwner → String → String → String → Vault → Option VaultError × Vault
unfolding claim_owner put_record
put_account disk logins now owner ref kind value s =
    put_claimed disk logins now ref kind value (claim_owner owner ref s)

unfoldable pub adopt_account : AccountOwner → String → Vault → Option VaultError × Vault
unfolding lookup insert
adopt_account owner ref s = elim s.account_owners [
  | none ↦ (none, s)
  | some owners ↦
      if not (is_empty (owners_in owners ref))
      then (some has_owner, s)
      else (none, own owner ref owners s)
]

abbrev pub with_domain : String → Secret → Secret
with_domain domain r = record r { metadata = record r.metadata { domain = domain } }

unfoldable pub set_account_domain : Disk → String → String → Vault → Option VaultError × Vault
unfolding save lookup insert
set_account_domain disk ref domain s = elim (lookup ref s.records) [
  | none ↦ (some unknown_reference, s)
  | some r ↦ saved (λ t. t) (save disk (insert ref (with_domain domain r) s.records) s)
]

abbrev pub used_at : ℕ → Secret → Secret
used_at now r = record r { metadata = record r.metadata { last_used_at = some now } }

-- The last part of ResolveContext, which gives the value and notes the time of its use.
unfoldable pub use_value : ℕ → String → Vault → Option String × Vault
unfolding lookup insert
use_value now id s = elim (lookup id s.records) [
  | none ↦ (none, s)
  | some r ↦ if r.revoked then (none, s) else (
    some r.value,
    record s {
      last_used = insert id now s.last_used;
      records = insert id (used_at now r) s.records;
    },
  )
]
