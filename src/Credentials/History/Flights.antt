-- ===== src/Credentials/History/Flights.antt =====
-- internal/credentials: what the use of a value and a refresh do to the records of a vault.
use Prim.Native.String.{String}
use clash_of_tokens.Base.{
  ℕ, ◌^◌, ◌<◌, ◌≡◌, refl, Bool, false, not, ◌&&◌, ◌||◌, List, Option, none, some, arith,
  if◌then◌else◌, ltb, eqb, lookup, insert, contains, All, if_intro, or_else,
}
use clash_of_tokens.Credentials.{OauthGrant, Secret, SaveError, version_of}
use clash_of_tokens.Credentials.Vault.{Vault, Disk, save}
use clash_of_tokens.Credentials.Owners.{used_at, use_value}
use clash_of_tokens.Credentials.Refresh.{
  Refreshing, no_lifecycle, still_fresh, joins, cooling_down, needs_login, RefreshError, stale,
  rejected, exhausted, begin_refresh, begin_grant, refreshed, after_save, end_current, end_refresh,
  landed, backed_off, is_fresh, cannot_refresh,
}
use clash_of_tokens.Credentials.History.{
  InRange, Later, same_version, newer, present, insert-Advances,
}
use clash_of_tokens.Credentials.History.Calls.{
  Goes, if_cases, same-Goes, save-Goes, found, found_version,
}

used-Goes :
    (now : ℕ) (id : String) (s : Vault) (o : Option Secret)
    → lookup id s.records ≡ o
    → All InRange s.records
    → Goes {E = Option String} s.records (elim o [
      | none ↦ (none, s)
      | some r ↦ if r.revoked then (none, s) else (
        some r.value,
        record s {
          last_used = insert id now s.last_used;
          records = insert id (used_at now r) s.records;
        },
      )
    ])
used-Goes now id s none e k = same-Goes s.records (none, s) refl k
used-Goes now id s (some r) e k =
    if_intro (Goes s.records) r.revoked _ _ (same-Goes s.records (none, s) refl k) (record {
      goes =
          insert-Advances id (used_at now r) s.records
            (found id _ s.records e (present (same_version refl refl refl)))
            (found_version id s.records e k) k;
    })

pub use_value-Goes :
    (now : ℕ) (id : String) (s : Vault)
    → All InRange s.records
    → Goes s.records (use_value now id s)
unfolding use_value
use_value-Goes now id s k = used-Goes now id s (lookup id s.records) refl k

begin_grant-Goes :
    (now : ℕ) (force : Bool) (id : String) (r : Secret) (g : OauthGrant) (s : Vault)
    → All InRange s.records
    → Goes s.records (begin_grant now force id r g s)
begin_grant-Goes now force id r g s k =
    if_intro (Goes s.records) (not force && is_fresh now g) _ _
      (same-Goes s.records (still_fresh, s) refl k)
      (if_intro (Goes s.records) (contains s.refreshes id) _ _
        (same-Goes s.records (joins, s) refl k)
        (if_intro (Goes s.records) (ltb now (or_else (lookup id s.refresh_backoff) 0)) _ _
          (same-Goes s.records (cooling_down, s) refl k)
          (if_intro (Goes s.records) (cannot_refresh g) _ _
            (same-Goes s.records (needs_login, s) refl k) (same-Goes s.records _ refl k))))

begin_record-Goes :
    (now : ℕ) (force : Bool) (id : String) (r : Secret) (s : Vault) (o : Option OauthGrant)
    → All InRange s.records
    → Goes {E = Refreshing} s.records
        (elim o [ none ↦ (no_lifecycle, s) | some g ↦ begin_grant now force id r g s ])
begin_record-Goes now force id r s none k = same-Goes s.records (no_lifecycle, s) refl k
begin_record-Goes now force id r s (some g) k = begin_grant-Goes now force id r g s k

begin_found-Goes :
    (now : ℕ) (force : Bool) (id : String) (s : Vault) (o : Option Secret)
    → All InRange s.records
    → Goes {E = Refreshing} s.records (elim o [
      | none ↦ (no_lifecycle, s)
      | some r ↦
          if r.revoked
          then (no_lifecycle, s)
          else (elim r.oauth [ none ↦ (no_lifecycle, s) | some g ↦ begin_grant now force id r g s ])
    ])
begin_found-Goes now force id s none k = same-Goes s.records (no_lifecycle, s) refl k
begin_found-Goes now force id s (some r) k =
    if_intro (Goes s.records) r.revoked _ _ (same-Goes s.records (no_lifecycle, s) refl k)
      (begin_record-Goes now force id r s r.oauth k)

pub begin_refresh-Goes :
    (now : ℕ) (force : Bool) (id : String) (s : Vault)
    → All InRange s.records
    → Goes s.records (begin_refresh now force id s)
unfolding begin_refresh
begin_refresh-Goes now force id s k = begin_found-Goes now force id s (lookup id s.records) k

after_save-Goes :
    (id : String) (xs : List (String × Secret)) (z : Option SaveError × Vault)
    → Goes xs z
    → Goes xs (after_save id z)
after_save-Goes id xs (none, s) g = record { goes = g.goes }
after_save-Goes id xs (some e, s) g = record { goes = g.goes }

-- The guards of the end of a flight leave a live record of a version that can grow.
renewed :
    (now version : ℕ) (g : OauthGrant) (r : Secret)
    → version_of r < 2 ^ 64
    → r.revoked || not (eqb (version_of r) version) ≡ false
    → eqb (version_of (refreshed now g r)) 0 ≡ false
    → Later r (refreshed now g r)
renewed now version g r l a b = newer (ground arith) (ground arith)

end_current-Goes :
    (disk : Disk) (now : ℕ) (id : String) (version : ℕ) (result : Option OauthGrant) (r : Secret)
    (s : Vault)
    → lookup id s.records ≡ some r
    → All InRange s.records
    → Goes s.records (end_current disk now id version result r s)
end_current-Goes disk now id version none r s e k =
    if_intro (Goes s.records) (r.revoked || not (eqb r.metadata.version version)) _ _
      (same-Goes s.records (some stale, landed id s) refl k)
      (same-Goes s.records (some rejected, landed id (backed_off now id s)) refl k)
end_current-Goes disk now id version (some g) r s e k =
    let new = refreshed now g r in
    if_cases (Goes s.records) (r.revoked || not (eqb r.metadata.version version)) _ _
      (λ a. same-Goes s.records (some stale, landed id s) refl k)
      (λ a.
        if_cases (Goes s.records) (eqb (version_of new) 0) _ _
          (λ b. same-Goes s.records (some exhausted, landed id s) refl k)
          (λ b. after_save-Goes id s.records (save disk (insert id new s.records) s) (
            save-Goes disk (insert id new s.records) s
              (insert-Advances id new s.records
                (found id new s.records e
                  (present (renewed now version g r (found_version id s.records e k) a b)))
                (omega arith) k)
              k)))

end_found-Goes :
    (disk : Disk) (now : ℕ) (id : String) (version : ℕ) (result : Option OauthGrant) (s : Vault)
    (o : Option Secret)
    → lookup id s.records ≡ o
    → All InRange s.records
    → Goes {E = Option RefreshError} s.records (elim o [
      | none ↦ (some stale, landed id s)
      | some r ↦ end_current disk now id version result r s
    ])
end_found-Goes disk now id version result s none e k =
    same-Goes s.records (some stale, landed id s) refl k
end_found-Goes disk now id version result s (some r) e k =
    end_current-Goes disk now id version result r s e k

pub end_refresh-Goes :
    (disk : Disk) (now : ℕ) (id : String) (version : ℕ) (result : Option OauthGrant) (s : Vault)
    → All InRange s.records
    → Goes s.records (end_refresh disk now id version result s)
unfolding end_refresh
end_refresh-Goes disk now id version result s k =
    end_found-Goes disk now id version result s (lookup id s.records) refl k
