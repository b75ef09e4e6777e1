-- ===== src/Credentials.antt =====
-- internal/credentials: the records of the vault (store.go), the owners of the material (accounts.go),
-- and the file that a vault is saved in, with the material of each account together.
--
-- A time is nanoseconds, and 0 is the zero time. The field State of Metadata, which only List sets, is
-- left out. The loop over the records is in the order of the list; Go's may be another, and so may be
-- the error that a document meets first.
pub mod Vault
pub mod Owners
pub mod Refresh
pub mod Grants
pub mod Inputs
pub mod History
use Prim.Native.String.{String}
use clash_of_tokens.Base.{
  ℕ, Bool, true, false, not, ◌&&◌, ◌||◌, List, [], ◌∷◌, Option, none, some, ◌⊎◌, inl, inr,
  if◌then◌else◌, ◌==◌, lookup, insert, is_empty, or_else,
}

pub record ExternalReference : Type 0 where
  pub manager : String
  pub reference : String
  pub field_name : String

pub record OauthGrant : Type 0 where
  pub access_token : String
  pub refresh_token : String
  pub token_url : String
  pub client_id : String
  pub client_secret : String
  pub expires_at : ℕ
  pub scope : String
  pub account_id : String

pub record OauthMetadata : Type 0 where
  pub expires_at : ℕ
  pub scope : String
  pub account_id : String
  pub automatic_refresh : Bool

pub record Metadata : Type 0 where
  pub external : Option ExternalReference
  pub oauth_info : Option OauthMetadata
  pub version : ℕ
  pub id : String
  pub kind : String
  pub source : String
  pub domain : String
  pub created_at : ℕ
  pub updated_at : ℕ
  pub last_used_at : Option ℕ

-- The type record of store.go, with the embedded Metadata as a field.
pub record Secret : Type 0 where
  pub metadata : Metadata
  pub revoked : Bool
  pub value : String
  pub oauth : Option OauthGrant
  pub import_url : String

abbrev pub version_of : Secret → ℕ
version_of r = r.metadata.version

pub record AccountOwner : Type 0 where
  pub account : String
  pub provider : String

pub record AccountBundle : Type 0 where
  pub provider : String
  pub materials : List (String × Secret)

pub record AccountDocument : Type 0 where
  pub format : ℕ
  pub accounts : List (String × AccountBundle)

-- What is encoded: the records, or the document of the accounts.
pub data Payload : Type 0 where
  plain : List (String × Secret) → Payload
  grouped : AccountDocument → Payload

pub data SaveError : Type 0 where
  no_owner invalid_owner provider_conflict : SaveError
  not_encoded over_capacity not_sealed no_directory no_transaction not_written not_committed :
      SaveError

-- An owner is a pair of texts that are both there.
abbrev pub is_invalid : AccountOwner → Bool
is_invalid o = o.account == "" || o.provider == ""

abbrev pub conflicts : AccountOwner → Option AccountBundle → Bool
conflicts o none = false
conflicts o (some b) = not (b.provider == "") && not (b.provider == o.provider)

-- A bundle that is not there yet has no materials.
abbrev pub with_material : String → Secret → AccountOwner → Option AccountBundle → AccountBundle
with_material ref r o none = record { provider = o.provider; materials = insert ref r [] }
with_material ref r o (some b) = record b { materials = insert ref r b.materials }

-- The inner loop of groupAccountRecords.
unfoldable pub group_owners :
    String → Secret → List AccountOwner → AccountDocument → SaveError ⊎ AccountDocument
unfolding insert lookup
group_owners ref r [] doc = inr doc
group_owners ref r (o ∷ os) doc =
    let bundle = lookup o.account doc.accounts in
    let rest =
      group_owners ref r os
        (record doc { accounts = insert o.account (with_material ref r o bundle) doc.accounts }) in
    if is_invalid o
    then inl invalid_owner
    else if conflicts o bundle
    then inl provider_conflict
    else rest

abbrev pub owners_in : List (String × List AccountOwner) → String → List AccountOwner
owners_in owners ref = or_else (lookup ref owners) []

abbrev pub grouped_next :
    SaveError ⊎ AccountDocument
    → (AccountDocument → SaveError ⊎ AccountDocument)
    → SaveError ⊎ AccountDocument
grouped_next (inl e) more = inl e
grouped_next (inr doc) more = more doc

-- The outer loop of groupAccountRecords.
unfoldable pub group_records :
    List (String × Secret)
    → List (String × List AccountOwner)
    → AccountDocument
    → SaveError ⊎ AccountDocument
unfolding group_owners lookup
group_records [] owners doc = inr doc
group_records ((ref, r) ∷ rest) owners doc =
    if r.revoked
    then group_records rest owners doc
    else if is_empty (owners_in owners ref)
    then inl no_owner
    else grouped_next (group_owners ref r (owners_in owners ref) doc) (group_records rest owners)

unfoldable pub group_account_records :
    List (String × Secret) → List (String × List AccountOwner) → SaveError ⊎ AccountDocument
unfolding group_records
group_account_records records owners =
    group_records records owners (record { format = 1; accounts = [] })
