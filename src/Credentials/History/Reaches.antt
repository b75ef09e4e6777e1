-- ===== src/Credentials/History/Reaches.antt =====
-- internal/credentials: any sequence of calls on a vault.
use Prim.Native.String.{String}
use clash_of_tokens.Base.{ℕ, Bool, Option, All, lookup}
use clash_of_tokens.Credentials.{ExternalReference, OauthGrant, AccountOwner}
use clash_of_tokens.Credentials.Vault.{Vault, Disk, Logins, put_record, delete}
use clash_of_tokens.Credentials.Owners.{claim_owner, adopt_account, set_account_domain, use_value}
use clash_of_tokens.Credentials.Refresh.{begin_refresh, end_refresh}
use clash_of_tokens.Credentials.History.{InRange, Moves-refl, Advances, Advances-trans}
use clash_of_tokens.Credentials.History.Calls.{
  put_record-Goes, delete-Goes, claim_owner-Goes, adopt_account-Goes, set_account_domain-Goes,
}
use clash_of_tokens.Credentials.History.Flights.{
  use_value-Goes, begin_refresh-Goes, end_refresh-Goes,
}

-- What a call does under the lock, whatever the platform and the token endpoint answer. PutAccount is
-- a claim and a put, which other calls may stand between, and a refresh is a begin and an end.
pub data Step (s : Vault) : Vault → Type 0 where
  puts :
      (disk : Disk) (logins : Logins) (now : ℕ) (id kind source value : String)
      (external : Option ExternalReference) (oauth : Option OauthGrant)
      → Step s (put_record disk logins now id kind source value external oauth s).1
  deletes : (disk : Disk) (now : ℕ) (id : String) → Step s (delete disk now id s).1
  claims : (owner : AccountOwner) (ref : String) → Step s (claim_owner owner ref s).1
  adopts : (owner : AccountOwner) (ref : String) → Step s (adopt_account owner ref s).1
  sets_domain :
      (disk : Disk) (ref domain : String) → Step s (set_account_domain disk ref domain s).1
  uses : (now : ℕ) (id : String) → Step s (use_value now id s).1
  begins : (now : ℕ) (force : Bool) (id : String) → Step s (begin_refresh now force id s).1
  ends :
      (disk : Disk) (now : ℕ) (id : String) (version : ℕ) (result : Option OauthGrant)
      → Step s (end_refresh disk now id version result s).1

pub data Reaches (s : Vault) : Vault → Type 0 where
  start : Reaches s s
  next : {t u : Vault} → Reaches s t → Step t u → Reaches s u

step-Advances : (s t : Vault) → All InRange s.records → Step s t → Advances s.records t.records
step-Advances s _ k (puts disk logins now id kind source value external oauth) =
    (put_record-Goes disk logins now id kind source value external oauth s k).goes
step-Advances s _ k (deletes disk now id) = (delete-Goes disk now id s k).goes
step-Advances s _ k (claims owner ref) = (claim_owner-Goes owner ref s k).goes
step-Advances s _ k (adopts owner ref) = (adopt_account-Goes owner ref s k).goes
step-Advances s _ k (sets_domain disk ref domain) =
    (set_account_domain-Goes disk ref domain s k).goes
step-Advances s _ k (uses now id) = (use_value-Goes now id s k).goes
step-Advances s _ k (begins now force id) = (begin_refresh-Goes now force id s k).goes
step-Advances s _ k (ends disk now id version result) =
    (end_refresh-Goes disk now id version result s k).goes

-- After any calls on a vault whose versions fit in 64 bits, no record is lost. A record has its
-- version and its value still, or a greater version, which a revoked record never has, or it is
-- revoked and has no value.
pub Reaches-Advances :
    (s t : Vault) → All InRange s.records → Reaches s t → Advances s.records t.records
Reaches-Advances s _ k start = record {
  moves = λ ref. Moves-refl (lookup ref s.records);
  in_range = k;
}
Reaches-Advances s _ k (next {t = u} {u = t} path step) =
    let a = Reaches-Advances s u k path in
    Advances-trans s.records u.records t.records a (step-Advances u t a.in_range step)
