-- ===== src/Api/Operations.antt =====
-- internal/api/jobs.go: the paths that may run as jobs, the resource that each takes, and the commit of
-- an operation at the version that it started from.
use Prim.Native.String.{String}
use Prim.Native.Char.{code}
use clash_of_tokens.Base.{
  Bool, not, ◌&&◌, ◌||◌, List, [], ◌∷◌, Option, none, some, eqb, ◌==◌, ◌⧺◌, if◌then◌else◌, contains,
  find,
}
use clash_of_tokens.Config.{Config, Source, Account}
use clash_of_tokens.Config.Text.{trim_slashes}
use clash_of_tokens.Api.Jobs.{OperationVersion, same_version, ContextError}

-- strings.TrimLeft(s, "/").
unfoldable pub trim_left_slashes : String → String
trim_left_slashes String.[] = String.[]
trim_left_slashes (String.◌∷◌ c s) =
    let rest = trim_left_slashes s in if eqb (code c) 47 then rest else String.◌∷◌ c s

abbrev pub add_to_head : String → List String → List String
add_to_head t [] = t ∷ []
add_to_head t (p ∷ ps) = (t ⧺ p) ∷ ps

-- strings.Split(s, "/").
unfoldable pub split_slashes : String → List String
split_slashes String.[] = "" ∷ []
split_slashes (String.◌∷◌ c s) =
    let rest = split_slashes s in
    if eqb (code c) 47 then "" ∷ rest else add_to_head (String.◌∷◌ c String.[]) rest

-- strings.Split(strings.Trim(path, "/"), "/").
unfoldable pub path_parts : String → List String
unfolding trim_left_slashes split_slashes trim_slashes
path_parts path = split_slashes (trim_slashes (trim_left_slashes path))

abbrev pub account_actions : List String
account_actions =
    "verify-login" ∷ "fill-login" ∷ "verify" ∷ "validate" ∷ "check-login" ∷ "login"
    ∷ "acquire-session" ∷ []

abbrev pub single_operations : List String
single_operations =
    "/admin/device/check" ∷ "/admin/discovery/accounts" ∷ "/admin/browser_profiles/status"
    ∷ "/admin/browser_profiles/discover" ∷ "/admin/browser_profiles/setup-login"
    ∷ "/admin/credentials/import-browser" ∷ []

-- The switch on the second part; a part that it does not name falls through to `other`.
unfoldable pub kind_operation : String → String → Bool → Bool
kind_operation kind action other =
    if kind == "sources"
    then action == "validate" || action == "discover"
    else if kind == "accounts"
    then contains account_actions action
    else if kind == "providers"
    then action == "validate"
    else if kind == "credentials"
    then action == "check" || action == "refresh"
    else other

unfoldable pub parts_operation : List String → Bool → Bool
unfolding kind_operation contains
parts_operation (a ∷ (kind ∷ (id ∷ (action ∷ [])))) other =
    if a == "admin" then kind_operation kind action other else other
parts_operation parts other = other

unfoldable pub management_operation : String → Bool
unfolding parts_operation path_parts contains
management_operation path = parts_operation (path_parts path) (contains single_operations path)

-- What encoding/json makes of a body's `profile`: as a text, and as an object with an `id`; `none`
-- where the body is not an object.
pub record ProfileInput : Type 0 where
  pub as_text : Option String
  pub as_object : Option String

abbrev pub named_profile : Option String → Option String → Option String
named_profile (some id) other = if id == "" then other else some ("profile:" ⧺ id)
named_profile none other = other

unfoldable pub profile_resource : Option ProfileInput → Option String
profile_resource none = none
profile_resource (some p) = named_profile p.as_text (named_profile p.as_object none)

abbrev pub id_of_account : Option Account → String
id_of_account none = ""
id_of_account (some a) = a.id

abbrev pub or_resource : Option String → String → String
or_resource none r = r
or_resource (some p) r = p

module _ {F : Type 0} where
  abbrev pub id_of_source : Option (Source F) → String
  id_of_source none = ""
  id_of_source (some s) = s.id

  -- The first account with the ID and a browser.
  unfoldable pub account_resource : Config F → String → String
  account_resource c id =
      elim (find (λ a. a.id == id && not (a.browser_profile_id == "")) c.accounts) [
        | none ↦ "account:" ⧺ id
        | some a ↦ "profile:" ⧺ a.browser_profile_id
      ]

  -- The end of operationResource.
  unfoldable pub resolved : Config F → String → String → String → String
  unfolding account_resource
  resolved c path source_id account_id =
      if not (account_id == "")
      then account_resource c account_id
      else if not (source_id == "")
      then "source:" ⧺ source_id
      else path

  -- The loop over the sources, for the first with the ID.
  unfoldable pub bound_resource : Config F → String → String → String → String
  unfolding resolved
  bound_resource c path source_id account_id = elim (find (λ s. s.id == source_id) c.sources) [
    | none ↦ resolved c path source_id account_id
    | some s ↦
        if s.adapter == "app-device" then "device" else resolved c path source_id s.account_id
  ]

  -- A provider stands for its first source, or for its first account where it has none.
  unfoldable pub provider_resource : Config F → String → String → String
  unfolding bound_resource
  provider_resource c path provider =
      let source_id = id_of_source (find (λ s. s.provider == provider) c.sources) in
      let account_id = id_of_account (find (λ a. a.provider_id == provider) c.accounts) in
      bound_resource c path source_id (if source_id == "" then account_id else "")

  unfoldable pub parts_resource : Config F → String → List String → String
  unfolding bound_resource provider_resource
  parts_resource c path (a ∷ (kind ∷ (id ∷ (action ∷ [])))) =
      if kind == "credentials"
      then "credential:" ⧺ id
      else if kind == "sources"
      then bound_resource c path id ""
      else if kind == "accounts"
      then bound_resource c path "" id
      else if kind == "providers"
      then provider_resource c path id
      else bound_resource c path "" ""
  parts_resource c path parts = path

  unfoldable pub operation_resource : Config F → String → Option ProfileInput → String
  unfolding parts_resource profile_resource path_parts
  operation_resource c path input =
      or_resource
        (if path == "/admin/credentials/import-browser"
            || path == "/admin/browser_profiles/setup-login"
          then profile_resource input
          else none)
        (parts_resource c path (path_parts path))

-- commitOperation, under the lock on changes: the function runs at the version that the operation
-- started from, and not once the context has ended. `version_of` reads the version of a state.
module _ {S E : Type 0} (version_of : S → OperationVersion) (stale_error : E) where
  pub record Commit : Type 0 where
    pub state : S
    pub error : Option E
    pub committed : Option OperationVersion

  abbrev pub after_commit : S → S × Option E → Commit
  after_commit s (t, none) = record { state = t; error = none; committed = some (version_of t) }
  after_commit s (t, some e) = record { state = t; error = some e; committed = none }

  unfoldable pub commit_operation :
      OperationVersion → Option ContextError → (S → S × Option E) → S → Commit
  unfolding same_version
  commit_operation version none fn s =
      if not (same_version version (version_of s))
      then record { state = s; error = some stale_error; committed = none }
      else after_commit s (fn s)
  commit_operation version (some e) fn s = record {
    state = s;
    error = some stale_error;
    committed = none;
  }
