-- ===== src/Config/Service/Atomic.antt =====
-- internal/config/service.go: the ways in which a call of apply ends.
use Prim.Native.String.{String}
use clash_of_tokens.Base.{
  ℕ, ◌≡◌, refl, Bool, true, false, ◌⊎◌, inl, inr, List, [], ◌∷◌, ◌++◌, Option, none, some,
  if◌then◌else◌, ltb, ◌+◌, ◌%◌, ◌^◌, get_last?, arith,
}
use clash_of_tokens.Base.Float.{Float64}
use clash_of_tokens.Config.{Config}
use clash_of_tokens.Config.Text.{byte_len}
use clash_of_tokens.Config.Profiles.{Net}
use clash_of_tokens.Config.Validate.{validate}
use clash_of_tokens.Config.Service.{
  Version, Host, ServiceError, Preparation, no_callback, fails, returns, Effect, committed,
  discarded, Service, Applied, refused, start, submit, clone_version, shrink, retained, persist,
  preview_from, preview, apply, summary_too_long, prepare_failed, bad_preparation, write_failed,
  panics,
}

module _ {F : Type 0} ⦃net : Net⦄ ⦃fl : Float64 F⦄ (host : Host F) (expected : ℕ) (next : Config F)
    (summary : String) (s : Service F) where
  -- The version that an Apply makes of a configuration.
  pub record Made (v : Version F) : Type 0 where
    pub current : Version F
    pub latest : get_last? s.versions ≡ some current
    pub unchanged : expected ≡ current.revision
    pub valid : validate next ≡ none
    pub config : host.clone next ≡ some v.config
    pub revision : v.revision ≡ (current.revision + 1) % 2 ^ 64

  -- How a call of Apply ends: it is refused, and the service and the journal are as before and no
  -- runtime was committed; or the new version was written, is held, and its runtime committed.
  pub data Applies : Applied F → Type 0 where
    refuses :
        (e : ServiceError) (effects : List Effect)
        → (effects ≡ []) ⊎ (effects ≡ discarded ∷ [])
        → Applies (record { answer = inl e; service = s; effects = effects })
    takes :
        (v : Version F) (vs : List (Version F)) (effects : List Effect)
        → Made v
        → v.summary ≡ summary
        → shrink host (retained host (s.versions ++ v ∷ [])) ≡ inr vs
        → host.written vs ≡ true
        → (effects ≡ []) ⊎ (effects ≡ committed ∷ [])
        → Applies (record {
          answer = inr (clone_version host v);
          service = record { versions = vs; disk = some vs };
          effects = effects;
        })

  persist-Applies :
      (prepared : Bool) (v : Version F)
      → Made v
      → v.summary ≡ summary
      → Applies (persist host prepared v s)
  unfolding persist
  persist-Applies prepared v made named =
      go (shrink host (retained host (s.versions ++ v ∷ []))) refl
    where
      given_up :
          (p : Bool) (e : ServiceError)
          → Applies
              (record { answer = inl e; service = s; effects = if p then discarded ∷ [] else [] })
      given_up true e = refuses e (discarded ∷ []) (inr refl)
      given_up false e = refuses e [] (inl refl)

      taken :
          (p b : Bool) (vs : List (Version F))
          → shrink host (retained host (s.versions ++ v ∷ [])) ≡ inr vs
          → host.written vs ≡ b
          → Applies (
              if b
              then record {
                answer = inr (clone_version host v);
                service = record { versions = vs; disk = some vs };
                effects = if p then committed ∷ [] else [];
              }
              else record {
                answer = inl write_failed;
                service = s;
                effects = if p then discarded ∷ [] else [];
              })
      taken p false vs e w = given_up p write_failed
      taken true true vs e w = takes v vs (committed ∷ []) made named e w (inr refl)
      taken false true vs e w = takes v vs [] made named e w (inl refl)

      go :
          (o : ServiceError ⊎ List (Version F))
          → shrink host (retained host (s.versions ++ v ∷ [])) ≡ o
          → Applies (elim o [
            | inl e ↦ record {
              answer = inl e;
              service = s;
              effects = if prepared then discarded ∷ [] else [];
            }
            | inr vs ↦
                if host.written vs
                then record {
                  answer = inr (clone_version host v);
                  service = record { versions = vs; disk = some vs };
                  effects = if prepared then committed ∷ [] else [];
                }
                else record {
                  answer = inl write_failed;
                  service = s;
                  effects = if prepared then discarded ∷ [] else [];
                }
          ])
      go (inl e) k = given_up prepared e
      go (inr vs) k = taken prepared (host.written vs) vs k refl

  -- What preview gives is made of the configuration.
  preview_from-Made :
      (now : ℕ) (c v : Version F)
      → get_last? s.versions ≡ some c
      → preview_from host now c expected next ≡ inr v
      → Made v
  unfolding preview_from
  preview_from-Made now c v l h = record {
    current = c;
    latest = l;
    unchanged = ground arith;
    valid = ground arith;
    config = ground arith;
    revision = ground arith;
  }

  start-Applies :
      (pr : Preparation) (v : Version F)
      → Made v
      → v.summary ≡ summary
      → Applies (start host pr v s)
  unfolding start
  start-Applies no_callback v made named = persist-Applies false v made named
  start-Applies fails v made named = refuses prepare_failed [] (inl refl)
  start-Applies (returns true true) v made named = persist-Applies true v made named
  start-Applies (returns true false) v made named = refuses bad_preparation [] (inl refl)
  start-Applies (returns false d) v made named = refuses bad_preparation [] (inl refl)

  titled : (v : Version F) → Made v → Made (record v { summary = summary })
  titled v made = record {
    current = made.current;
    latest = made.latest;
    unchanged = made.unchanged;
    valid = made.valid;
    config = made.config;
    revision = made.revision;
  }

  if-Applies : (b : Bool) (x y : Applied F) → Applies x → Applies y → Applies (if b then x else y)
  if-Applies true x y hx hy = hx
  if-Applies false x y hx hy = hy

  preview-Made : (now : ℕ) (v : Version F) → preview host now expected next s ≡ inr v → Made v
  unfolding preview
  preview-Made now v h = go (get_last? s.versions) refl h
    where
      go :
          (o : Option (Version F))
          → get_last? s.versions ≡ o
          → (elim o [ none ↦ inl panics | some c ↦ preview_from host now c expected next ]) ≡ inr v
          → Made v
      go none l k = cc
      go (some c) l k = preview_from-Made now c v l k

  -- Apply is refused with nothing changed, or takes the configuration given, valid and on top of the
  -- version that the caller expects, with what is on disk and in memory the same; and a runtime that
  -- was prepared is committed in the second case only.
  pub apply-Applies :
      (prepare : Config F → Preparation) (now : ℕ)
      → Applies (apply host prepare now expected next summary s)
  unfolding apply submit
  apply-Applies prepare now = go (preview host now expected next s) refl
    where
      go :
          (o : ServiceError ⊎ Version F)
          → preview host now expected next s ≡ o
          → Applies (submit host prepare summary s o)
      go (inl e) k = refuses e [] (inl refl)
      go (inr v) k =
          if-Applies (ltb 512 (byte_len summary)) (refused host s summary_too_long)
            (start host (prepare v.config) (record v { summary = summary }) s)
            (refuses summary_too_long [] (inl refl))
            (start-Applies (prepare v.config) (record v { summary = summary })
              (titled v (preview-Made now v k)) refl)
