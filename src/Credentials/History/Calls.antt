-- ===== src/Credentials/History/Calls.antt =====
-- internal/credentials: what a call does to the records of a vault.
use Prim.Native.String.{String}
use clash_of_tokens.Base.{
  ℕ, ◌+◌, ◌%◌, ◌^◌, ◌<◌, ◌≡◌, refl, sym, subst, inl, inr, ◌⊎◌, Bool, true, false, not, ◌&&◌, List,
  Option, none, some, arith, if◌then◌else◌, eqb, lookup, insert, is_empty, All, if_intro,
}
use clash_of_tokens.Credentials.{
  ExternalReference, OauthGrant, Secret, AccountOwner, Payload, SaveError, version_of, owners_in,
}
use clash_of_tokens.Credentials.Vault.{
  Vault, VaultError, invalid_reference, invalid_login, revoked_reference, version_exhausted,
  unknown_reference, other_owner, has_owner, Disk, Logins, payload, write_payload, save, saved,
  new_record, version_after, put_record, tombstone, delete, delete_old, bad_reference, valid_value,
  is_revoked, forget_use, forget_last_use,
}
use clash_of_tokens.Credentials.Owners.{
  claim_owner, adopt_account, with_domain, set_account_domain, only_owner, own,
}
use clash_of_tokens.Credentials.History.{
  InRange, same_version, newer, deleted, Moves, absent, present, Moves-refl, Advances,
  insert-Advances, Bounded, bounded, lookup-Bounded,
}

pub if_cases {ℓ κ} :
    {A : Type ℓ} (P : A → Type κ) (b : Bool) (x y : A)
    → (b ≡ true → P x)
    → (b ≡ false → P y)
    → P (if b then x else y)
if_cases P true x y hx hy = hx refl
if_cases P false x y hx hy = hy refl

-- A call that advances the records.
pub record Goes {E : Type 0} (xs : List (String × Secret)) (z : E × Vault) : Type 0 where
  pub goes : Advances xs z.1.records

pub same-Goes :
    {E : Type 0} (xs : List (String × Secret)) (z : E × Vault)
    → xs ≡ z.1.records
    → All InRange xs
    → Goes xs z
same-Goes xs z e k = record {
  goes = subst (Advances xs) e (record { moves = λ ref. Moves-refl (lookup ref xs); in_range = k });
}

disk-Goes :
    (next : List (String × Secret)) (s : Vault) (p : Payload) (o : Option SaveError)
    → Advances s.records next
    → All InRange s.records
    → Goes {E = Option SaveError} s.records (elim o [
      | some e ↦ (some e, s)
      | none ↦ (none, record s { records = next; file = some p })
    ])
disk-Goes next s p none a k = record { goes = a }
disk-Goes next s p (some e) a k = same-Goes s.records (some e, s) refl k

write_payload-Goes :
    (disk : Disk) (next : List (String × Secret)) (s : Vault) (z : SaveError ⊎ Payload)
    → Advances s.records next
    → All InRange s.records
    → Goes s.records (write_payload disk next s z)
write_payload-Goes disk next s (inl e) a k = same-Goes s.records (some e, s) refl k
write_payload-Goes disk next s (inr p) a k = disk-Goes next s p (disk p) a k

pub save-Goes :
    (disk : Disk) (next : List (String × Secret)) (s : Vault)
    → Advances s.records next
    → All InRange s.records
    → Goes s.records (save disk next s)
unfolding save
save-Goes disk next s a k = write_payload-Goes disk next s (payload s.account_owners next) a k

-- What a call does after save with other parts of the vault.
saved-Goes :
    (after : Vault → Vault) (xs : List (String × Secret)) (z : Option SaveError × Vault)
    → ((s : Vault) → s.records ≡ (after s).records)
    → Goes xs z
    → Goes xs (saved after z)
saved-Goes after xs (some e, s) h g = record { goes = g.goes }
saved-Goes after xs (none, s) h g = record { goes = subst (Advances xs) (h s) g.goes }

replace-Goes :
    (disk : Disk) (after : Vault → Vault) (id : String) (new : Secret) (s : Vault)
    → ((t : Vault) → t.records ≡ (after t).records)
    → Moves (lookup id s.records) (some new)
    → version_of new < 2 ^ 64
    → All InRange s.records
    → Goes s.records (saved after (save disk (insert id new s.records) s))
replace-Goes disk after id new s h m l k =
    saved-Goes after s.records (save disk (insert id new s.records) s) h
      (save-Goes disk (insert id new s.records) s (insert-Advances id new s.records m l k) k)

pub found :
    {o : Option Secret} (id : String) (new : Secret) (xs : List (String × Secret))
    → lookup id xs ≡ o
    → Moves o (some new)
    → Moves (lookup id xs) (some new)
found id new xs e m = subst (λ z. Moves z (some new)) (sym e) m

pub found_version :
    {r : Secret} (id : String) (xs : List (String × Secret))
    → lookup id xs ≡ some r
    → All InRange xs
    → version_of r < 2 ^ 64
found_version {r} id xs e k = elim (subst Bounded e (lookup-Bounded id xs k)) [ bounded l ↦ l ]

put_next-Goes :
    (disk : Disk) (now : ℕ) (id kind source value : String) (external : Option ExternalReference)
    (oauth : Option OauthGrant) (s : Vault) (old : Option Secret)
    → lookup id s.records ≡ old
    → All InRange s.records
    → Goes s.records (
        if is_revoked old
        then (some revoked_reference, s)
        else if eqb (version_after old) 0
        then (some version_exhausted, s)
        else saved (forget_use id) (
            save disk
              (insert id (new_record now id kind source value external oauth old) s.records)
              s))
unfolding new_record
put_next-Goes disk now id kind source value external oauth s none e k =
    replace-Goes disk (forget_use id) id (new_record now id kind source value external oauth none) s
      (λ t. refl) (found id _ s.records e absent) (omega arith) k
put_next-Goes disk now id kind source value external oauth s (some r) e k =
    let l = found_version id s.records e k in
    if_cases (Goes s.records) r.revoked _ _ (λ b. same-Goes s.records _ refl k)
      (λ b.
        if_cases (Goes s.records) (eqb ((version_of r + 1) % 2 ^ 64) 0) _ _
          (λ z. same-Goes s.records (some version_exhausted, s) refl k)
          (λ z.
            replace-Goes disk (forget_use id) id
              (new_record now id kind source value external oauth (some r)) s (λ t. refl)
              (found id _ s.records e (present (newer b (ground (arith, l))))) (omega arith) k))

pub put_record-Goes :
    (disk : Disk) (logins : Logins) (now : ℕ) (id kind source value : String)
    (external : Option ExternalReference) (oauth : Option OauthGrant) (s : Vault)
    → All InRange s.records
    → Goes s.records (put_record disk logins now id kind source value external oauth s)
unfolding put_record
put_record-Goes disk logins now id kind source value external oauth s k =
    if_intro (Goes s.records) (bad_reference id kind source value external) _ _
      (same-Goes s.records (some invalid_reference, s) refl k)
      (if_intro (Goes s.records) (not (valid_value logins kind value)) _ _
        (same-Goes s.records (some invalid_login, s) refl k)
        (put_next-Goes disk now id kind source value external oauth s (lookup id s.records) refl k))

delete_old-Goes :
    (disk : Disk) (now : ℕ) (id : String) (s : Vault) (old : Option Secret)
    → lookup id s.records ≡ old
    → All InRange s.records
    → Goes s.records (delete_old disk now id s old)
delete_old-Goes disk now id s none e k = same-Goes s.records (some unknown_reference, s) refl k
delete_old-Goes disk now id s (some r) e k =
    if_intro (Goes s.records) r.revoked _ _ (same-Goes s.records (some unknown_reference, s) refl k)
      (replace-Goes disk (forget_last_use id) id (tombstone now id r) s (λ t. refl)
        (found id _ s.records e (present (deleted refl refl (omega arith))))
        (found_version id s.records e k) k)

pub delete-Goes :
    (disk : Disk) (now : ℕ) (id : String) (s : Vault)
    → All InRange s.records
    → Goes s.records (delete disk now id s)
unfolding delete
delete-Goes disk now id s k = delete_old-Goes disk now id s (lookup id s.records) refl k

claimed-Goes :
    (owner : AccountOwner) (ref : String) (s : Vault)
    (o : Option (List (String × List AccountOwner)))
    → All InRange s.records
    → Goes {E = Option VaultError} s.records (elim o [
      | none ↦ (none, s)
      | some owners ↦
          if not (is_empty (owners_in owners ref)) && not (only_owner owner (owners_in owners ref))
          then (some other_owner, s)
          else (none, own owner ref owners s)
    ])
claimed-Goes owner ref s none k = same-Goes s.records (none, s) refl k
claimed-Goes owner ref s (some owners) k =
    if_intro (Goes s.records)
      (not (is_empty (owners_in owners ref)) && not (only_owner owner (owners_in owners ref))) _ _
      (same-Goes s.records (some other_owner, s) refl k)
      (same-Goes s.records (none, own owner ref owners s) refl k)

pub claim_owner-Goes :
    (owner : AccountOwner) (ref : String) (s : Vault)
    → All InRange s.records
    → Goes s.records (claim_owner owner ref s)
unfolding claim_owner
claim_owner-Goes owner ref s k = claimed-Goes owner ref s s.account_owners k

adopted-Goes :
    (owner : AccountOwner) (ref : String) (s : Vault)
    (o : Option (List (String × List AccountOwner)))
    → All InRange s.records
    → Goes {E = Option VaultError} s.records (elim o [
      | none ↦ (none, s)
      | some owners ↦
          if not (is_empty (owners_in owners ref))
          then (some has_owner, s)
          else (none, own owner ref owners s)
    ])
adopted-Goes owner ref s none k = same-Goes s.records (none, s) refl k
adopted-Goes owner ref s (some owners) k =
    if_intro (Goes s.records) (not (is_empty (owners_in owners ref))) _ _
      (same-Goes s.records (some has_owner, s) refl k)
      (same-Goes s.records (none, own owner ref owners s) refl k)

pub adopt_account-Goes :
    (owner : AccountOwner) (ref : String) (s : Vault)
    → All InRange s.records
    → Goes s.records (adopt_account owner ref s)
unfolding adopt_account
adopt_account-Goes owner ref s k = adopted-Goes owner ref s s.account_owners k

domain-Goes :
    (disk : Disk) (ref domain : String) (s : Vault) (o : Option Secret)
    → lookup ref s.records ≡ o
    → All InRange s.records
    → Goes {E = Option VaultError} s.records (elim o [
      | none ↦ (some unknown_reference, s)
      | some r ↦ saved (λ t. t) (save disk (insert ref (with_domain domain r) s.records) s)
    ])
domain-Goes disk ref domain s none e k = same-Goes s.records (some unknown_reference, s) refl k
domain-Goes disk ref domain s (some r) e k =
    replace-Goes disk (λ t. t) ref (with_domain domain r) s (λ t. refl)
      (found ref _ s.records e (present (same_version refl refl refl)))
      (found_version ref s.records e k) k

pub set_account_domain-Goes :
    (disk : Disk) (ref domain : String) (s : Vault)
    → All InRange s.records
    → Goes s.records (set_account_domain disk ref domain s)
unfolding set_account_domain
set_account_domain-Goes disk ref domain s k =
    domain-Goes disk ref domain s (lookup ref s.records) refl k
