-- ===== src/Config/Service.antt =====
-- internal/config/service.go: the versioned configuration. A call of Apply has three effects that
-- the model shows: the versions held, the journal on disk, and whether the prepared runtime was
-- committed or discarded.
pub mod Journal
pub mod Atomic
use Prim.Native.String.{String}
use clash_of_tokens.Base.{
  ℕ, zero, suc, Bool, true, false, not, ◌&&◌, ◌||◌, ◌⊎◌, inl, inr, List, [], ◌∷◌, ◌++◌, Option,
  none, some, if◌then◌else◌, ltb, leb, eqb, ◌+◌, ◌-◌, ◌%◌, ◌^◌, or_else, length, drop, get_last?,
  find, is_empty,
}
use clash_of_tokens.Base.Int.{ℤ, pos}
use clash_of_tokens.Base.Float.{Float64}
use clash_of_tokens.Config.{Config, Runtime, Browser, Device}
use clash_of_tokens.Config.Text.{byte_len}
use clash_of_tokens.Config.Profiles.{Net}
use clash_of_tokens.Config.Validate.{ConfigError, validate}

pub record Version (F : Type 0) : Type 0 where
  pub revision : ℕ
  pub created_at : ℕ
  pub summary : String
  pub config : Config F

-- encoding/json and the file system. `clone` is Clone, a round trip through JSON; the sizes are those
-- of what json.Marshal and json.MarshalIndent write, if they do; `written` says whether the calls of
-- atomicWrite succeed, and `rollback_summary` is the text that Rollback formats.
pub record Host (F : Type 0) : Type 0 where
  pub clone : Config F → Option (Config F)
  pub config_size : Config F → Option ℕ
  pub journal_size : List (Version F) → Option ℕ
  pub written : List (Version F) → Bool
  pub rollback_summary : ℕ → String

pub data ServiceError : Type 0 where
  revision_conflict : ServiceError
  invalid : ConfigError → ServiceError
  config_too_large : ServiceError
  clone_failed : ServiceError
  summary_too_long : ServiceError
  prepare_failed : ServiceError
  bad_preparation : ServiceError
  encode_failed : ServiceError
  history_too_large : ServiceError
  write_failed : ServiceError
  not_retained : ServiceError
  -- An index out of range, in a service without versions.
  panics : ServiceError

-- What the callback `prepare` does: there is none, it fails, or it returns functions, of which
-- either may be nil.
pub data Preparation : Type 0 where
  no_callback : Preparation
  fails : Preparation
  returns : (commit discard : Bool) → Preparation

pub data Effect : Type 0 where
  committed : Effect
  discarded : Effect

pub record Service (F : Type 0) : Type 0 where
  pub versions : List (Version F)
  pub disk : Option (List (Version F))

pub record Applied (F : Type 0) : Type 0 where
  pub answer : ServiceError ⊎ Version F
  pub service : Service F
  pub effects : List Effect

pub data JournalError : Type 0 where
  bad_history : JournalError
  bad_order : JournalError
  bad_version : ConfigError → JournalError

-- A Go Config{}.
abbrev pub zero_config : {F : Type 0} → Config F
zero_config = record {
  browser_profiles = [];
  providers = [];
  accounts = [];
  schema_version = pos 0;
  listen = "";
  api_key_env = "";
  admin_key_env = "";
  runtime = record {
    max_inflight = pos 0;
    max_queued = pos 0;
    max_body_bytes = pos 0;
    max_buffered_bytes = pos 0;
    max_output_bytes = pos 0;
    queue_timeout_ms = pos 0;
    request_timeout_ms = pos 0;
    write_timeout_ms = pos 0;
    body_read_timeout_ms = pos 0;
  };
  browser = record {
    expected_identity = "";
    engine = "";
    enabled = false;
    cdp_url = "";
    state_file = "";
    max_sessions = pos 0;
    session_ttl_seconds = pos 0;
    poll_ms = pos 0;
    max_prompt_bytes = pos 0;
    max_response_bytes = pos 0;
  };
  device = record {
    enabled = false;
    adb_path = "";
    serial = "";
    state_dir = "";
    ocr_path = "";
    ocr_data_dir = "";
    clipboard_sync_ms = pos 0;
  };
  sources = [];
  groups = [];
}

module _ {F : Type 0} (host : Host F) where
  abbrev pub clone_version : Version F → Version F
  clone_version v = record v { config = or_else (host.clone v.config) zero_config }

  -- The loop that drops the oldest versions until the journal is below 32<<20 bytes.
  unfoldable pub shrink : List (Version F) → ServiceError ⊎ List (Version F)
  shrink [] = elim (host.journal_size []) [
    | none ↦ inl encode_failed
    | some n ↦ if ltb n 33554432 then inr [] else inl panics
  ]
  shrink (v ∷ vs) =
      let rest = if is_empty vs then inl history_too_large else shrink vs in
      elim (host.journal_size (v ∷ vs)) [
        | none ↦ inl encode_failed
        | some n ↦ if ltb n 33554432 then inr (v ∷ vs) else rest
      ]

  -- At most the last 50.
  abbrev pub retained : List (Version F) → List (Version F)
  retained vs = if ltb 50 (length vs) then drop (length vs - 50) vs else vs

  -- From the journal on: it is shrunk, written and then taken, and only then is the runtime committed.
  unfoldable pub persist : Bool → Version F → Service F → Applied F
  unfolding shrink
  persist prepared v s =
      let given_up : ServiceError → Applied F = λ e. record {
        answer = inl e;
        service = s;
        effects = if prepared then discarded ∷ [] else [];
      } in
      elim (shrink (retained (s.versions ++ v ∷ []))) [
        | inl e ↦ given_up e
        | inr vs ↦
            if host.written vs
            then record {
              answer = inr (clone_version v);
              service = record { versions = vs; disk = some vs };
              effects = if prepared then committed ∷ [] else [];
            }
            else given_up write_failed
      ]

module _ {F : Type 0} ⦃net : Net⦄ ⦃fl : Float64 F⦄ (host : Host F) where
  -- preview, on the current version.
  unfoldable pub preview_from : ℕ → Version F → ℕ → Config F → ServiceError ⊎ Version F
  preview_from now current expected next =
      if not (eqb expected current.revision) then inl revision_conflict else elim (validate next) [
        | some e ↦ inl (invalid e)
        | none ↦ elim (host.config_size next) [
          | none ↦ inl config_too_large
          | some n ↦ if ltb 4194304 n then inl config_too_large else elim (host.clone next) [
            | none ↦ inl clone_failed
            | some c ↦ inr (record {
              revision = (current.revision + 1) % 2 ^ 64;
              created_at = now;
              summary = "";
              config = c;
            })
          ]
        ]
      ]

  unfoldable pub preview : ℕ → ℕ → Config F → Service F → ServiceError ⊎ Version F
  unfolding preview_from
  preview now expected next s = elim (get_last? s.versions) [
    | none ↦ inl panics
    | some current ↦ preview_from now current expected next
  ]

  abbrev pub refused : Service F → ServiceError → Applied F
  refused s e = record { answer = inl e; service = s; effects = [] }

  -- With what the callback gave.
  unfoldable pub start : Preparation → Version F → Service F → Applied F
  unfolding persist
  start no_callback v s = persist host false v s
  start fails v s = refused s prepare_failed
  start (returns commit discard) v s =
      if not commit || not discard then refused s bad_preparation else persist host true v s

  -- With what preview gave.
  unfoldable pub submit :
      (Config F → Preparation) → String → Service F → ServiceError ⊎ Version F → Applied F
  unfolding start
  submit prepare summary s (inl e) = refused s e
  submit prepare summary s (inr v) =
      if ltb 512 (byte_len summary)
      then refused s summary_too_long
      else start (prepare v.config) (record v { summary = summary }) s

  unfoldable pub apply :
      (Config F → Preparation) → ℕ → ℕ → Config F → String → Service F → Applied F
  unfolding preview submit
  apply prepare now expected next summary s = submit prepare summary s (preview now expected next s)

  -- With the version that Rollback found.
  unfoldable pub restore :
      (Config F → Preparation) → ℕ → ℕ → ℕ → Service F → Option (Version F) → Applied F
  unfolding apply
  restore prepare now expected target s none = refused s not_retained
  restore prepare now expected target s (some v) =
      apply prepare now expected v.config (host.rollback_summary target) s

  unfoldable pub rollback : (Config F → Preparation) → ℕ → ℕ → ℕ → Service F → Applied F
  unfolding restore
  rollback prepare now expected target s =
      restore prepare now expected target s (find (λ v. eqb v.revision target) s.versions)

module _ {F : Type 0} ⦃net : Net⦄ ⦃fl : Float64 F⦄ where
  -- The loop of readJournal.
  unfoldable pub check_versions : ℕ → List (Version F) → Option JournalError
  check_versions previous [] = none
  check_versions previous (v ∷ vs) =
      let rest = check_versions v.revision vs in
      if leb v.revision previous
      then some bad_order
      else elim (validate v.config) [ some e ↦ some (bad_version e) | none ↦ rest ]

  -- What readJournal asks of the versions that it decoded.
  unfoldable pub check_journal : List (Version F) → Option JournalError
  unfolding check_versions
  check_journal vs =
      if is_empty vs || ltb 50 (length vs) then some bad_history else check_versions 0 vs
