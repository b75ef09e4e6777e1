-- ===== src/Config/Service/Journal.antt =====
-- internal/config/service.go: apply and Rollback beside the checks of readJournal.
use clash_of_tokens.Base.{
  ℕ, zero, suc, ◌≡◌, refl, sym, subst, ap, ◌∙◌, Bool, true, false, ◌⊎◌, inl, inr, List, [], ◌∷◌,
  ◌++◌, Option, none, some, if◌then◌else◌, ltb, eqb, ◌+◌, ◌-◌, ◌%◌, ◌^◌, ◌<◌, ◌≤◌, get_last?, arith,
  length, drop, is_empty, length-drop, length-append, Bool-cases, if_true, if_false, ltb→lt, String,
  In, find, find_sound, eqb_iff, or_else,
}
use clash_of_tokens.Base.Float.{Float64}
use clash_of_tokens.Config.{Config}
use clash_of_tokens.Config.Profiles.{Net}
use clash_of_tokens.Config.Validate.{validate}
use clash_of_tokens.Config.Service.{
  Version, Host, Preparation, Service, Applied, encode_failed, history_too_large, shrink, retained,
  apply, restore, rollback, zero_config, check_versions, check_journal,
}
use clash_of_tokens.Config.Service.Atomic.{Applies, refuses, takes, apply-Applies}

later_revision : (c v e : ℕ) → e ≡ c → v ≡ (c + 1) % 2 ^ 64 → e + 1 < 2 ^ 64 → c < v
later_revision c v e p q small = omega arith

module _ {F : Type 0} ⦃net : Net⦄ ⦃fl : Float64 F⦄ where
  pub record Follows (previous : ℕ) (v : Version F) (vs : List (Version F)) : Type 0 where
    pub later : previous < v.revision
    pub valid : validate v.config ≡ none
    pub rest : check_versions v.revision vs ≡ none

  check_versions-Follows :
      (p : ℕ) (v : Version F) (vs : List (Version F))
      → check_versions p (v ∷ vs) ≡ none
      → Follows p v vs
  unfolding check_versions
  check_versions-Follows p v vs h = record {
    later = ground arith;
    valid = ground arith;
    rest = ground arith;
  }

  Follows-check_versions :
      (p : ℕ) (v : Version F) (vs : List (Version F))
      → Follows p v vs
      → check_versions p (v ∷ vs) ≡ none
  unfolding check_versions
  Follows-check_versions p v vs h = ground (arith, h.later, h.valid, h.rest)

  check_versions-le :
      (p q : ℕ) (vs : List (Version F))
      → q ≤ p
      → check_versions p vs ≡ none
      → check_versions q vs ≡ none
  unfolding check_versions
  check_versions-le p q [] l h = refl
  check_versions-le p q (v ∷ vs) l h = ground arith

  check_versions-drop :
      (p n : ℕ) (vs : List (Version F))
      → check_versions p vs ≡ none
      → check_versions 0 (drop n vs) ≡ none
  unfolding check_versions
  check_versions-drop p zero vs h = check_versions-le p 0 vs (omega arith) h
  check_versions-drop p (suc n) [] h = refl
  check_versions-drop p (suc n) (v ∷ vs) h =
      check_versions-drop v.revision n vs (check_versions-Follows p v vs h).rest

  single :
      (p : ℕ) (v : Version F)
      → p < v.revision
      → validate v.config ≡ none
      → check_versions p (v ∷ []) ≡ none
  unfolding check_versions
  single p v l ok = ground arith

  check_versions-append :
      (p : ℕ) (vs : List (Version F)) (c v : Version F)
      → check_versions p vs ≡ none
      → get_last? vs ≡ some c
      → c.revision < v.revision
      → validate v.config ≡ none
      → check_versions p (vs ++ v ∷ []) ≡ none
  check_versions-append p [] c v h l n ok = cc
  check_versions-append p (x ∷ []) c v h l n ok =
      let f = check_versions-Follows p x [] h in
      Follows-check_versions p x (v ∷ [])
        (record { later = f.later; valid = f.valid; rest = single x.revision v (ground arith) ok })
  check_versions-append p (x ∷ (y ∷ ys)) c v h l n ok =
      let f = check_versions-Follows p x (y ∷ ys) h in
      Follows-check_versions p x (y ∷ ys ++ v ∷ []) (record {
        later = f.later;
        valid = f.valid;
        rest = check_versions-append x.revision (y ∷ ys) c v f.rest l n ok;
      })

  -- What the loop that drops old versions keeps.
  pub record Kept (ws : List (Version F)) : Type 0 where
    pub checked : check_versions 0 ws ≡ none
    pub some_left : is_empty ws ≡ false
    pub few : length ws ≤ 50

  shrink-step :
      (host : Host F) (v : Version F) (vs ws : List (Version F))
      → shrink host (v ∷ vs) ≡ inr ws
      → (v ∷ vs ≡ ws) ⊎ ((is_empty vs ≡ false) × (shrink host vs ≡ inr ws))
  unfolding shrink
  shrink-step host v vs ws e = go (host.journal_size (v ∷ vs)) (is_empty vs) refl e
    where
      go :
          (o : Option ℕ) (b : Bool)
          → is_empty vs ≡ b
          → (elim o [
            | none ↦ inl encode_failed
            | some n ↦
                if ltb n 33554432
                then inr (v ∷ vs)
                else if b
                then inl history_too_large
                else shrink host vs
          ])
            ≡ inr ws
          → (v ∷ vs ≡ ws) ⊎ ((is_empty vs ≡ false) × (shrink host vs ≡ inr ws))
      go none b q k = cc
      go (some n) b q k = elim (Bool-cases (ltb n 33554432)) [
        | inl small ↦ inl (cc (sym (if_true (ltb n 33554432) _ _ small) ∙ k))
        | inr big ↦ inr (larger b q (sym (if_false (ltb n 33554432) _ _ big) ∙ k))
      ]
        where
          larger :
              (c : Bool)
              → is_empty vs ≡ c
              → (if c then inl history_too_large else shrink host vs) ≡ inr ws
              → (is_empty vs ≡ false) × (shrink host vs ≡ inr ws)
          larger true p m = cc
          larger false p m = (p, m)

  shrink-Kept :
      (host : Host F) (p : ℕ) (vs ws : List (Version F))
      → check_versions p vs ≡ none
      → is_empty vs ≡ false
      → length vs ≤ 50
      → shrink host vs ≡ inr ws
      → Kept ws
  shrink-Kept host p [] ws h n l e = cc
  shrink-Kept host p (v ∷ vs) ws h n l e = elim (shrink-step host v vs ws e) [
    | inl q ↦ subst Kept q (record {
      checked = check_versions-le p 0 (v ∷ vs) (omega arith) h;
      some_left = refl;
      few = l;
    })
    | inr r ↦
        shrink-Kept host v.revision vs ws (check_versions-Follows p v vs h).rest r.0 (omega arith)
          r.1
  ]

  Kept-check_journal : (ws : List (Version F)) → Kept ws → check_journal ws ≡ none
  unfolding check_journal
  Kept-check_journal ws k = ground (arith, k.checked, k.some_left, k.few)

  check_journal-versions :
      (vs : List (Version F)) → check_journal vs ≡ none → check_versions 0 vs ≡ none
  unfolding check_journal
  check_journal-versions vs h = ground arith

  is_empty-length : (vs : List (Version F)) → 0 < length vs → is_empty vs ≡ false
  is_empty-length [] l = absurd (omega arith)
  is_empty-length (v ∷ vs) l = refl

  -- The last 50 of versions in order are in order.
  retained-Kept :
      (host : Host F) (vs ws : List (Version F))
      → check_versions 0 vs ≡ none
      → 0 < length vs
      → shrink host (retained host vs) ≡ inr ws
      → Kept ws
  retained-Kept host vs ws h l e = elim (Bool-cases (ltb 50 (length vs))) [
    | inl many ↦
        let ds = drop (length vs - 50) vs in
        shrink-Kept host 0 ds ws (check_versions-drop 0 (length vs - 50) vs h)
          (is_empty-length ds
            (omega (arith, length-drop (length vs - 50) vs, ltb→lt 50 (length vs) many)))
          (omega (arith, length-drop (length vs - 50) vs, ltb→lt 50 (length vs) many))
          (subst (λ xs. shrink host xs ≡ inr ws) (if_true (ltb 50 (length vs)) ds vs many) e)
    | inr few ↦ shrink-Kept host 0 vs ws h (is_empty-length vs l) (ground arith) (
        subst (λ xs. shrink host xs ≡ inr ws)
          (if_false (ltb 50 (length vs)) (drop (length vs - 50) vs) vs few) e)
  ]

  -- JSON gives back the configuration that was encoded.
  unfoldable pub RoundTrips : Host F → Type 0
  RoundTrips host = (c d : Config F) → host.clone c ≡ some d → d ≡ c

  Applies-journal :
      (host : Host F) (expected : ℕ) (next : Config F) (summary : String) (s : Service F)
      (a : Applied F)
      → RoundTrips host
      → expected + 1 < 2 ^ 64
      → check_journal s.versions ≡ none
      → Applies host expected next summary s a
      → check_journal a.service.versions ≡ none
  unfolding RoundTrips
  Applies-journal host expected next summary s a rt small h (refuses e fx k) = h
  Applies-journal host expected next summary s a rt small h (takes v vs fx made named e w k) =
      Kept-check_journal vs (
        retained-Kept host (s.versions ++ v ∷ []) vs
          (check_versions-append 0 s.versions made.current v (check_journal-versions s.versions h)
            made.latest later
            (subst (λ c. validate c ≡ none) (sym (rt next v.config made.config)) made.valid))
          (omega (arith, length-append s.versions (v ∷ []))) e)
    where
      later : made.current.revision < v.revision
      later =
          later_revision made.current.revision v.revision expected made.unchanged made.revision
            small

  -- Where JSON gives configurations back and the revisions have not run out of 64 bits, a journal
  -- that readJournal takes is followed by one that it takes, whatever a call of Apply comes to: at
  -- most 50 versions, at least one, their revisions rising and their configurations valid.
  pub apply-check_journal :
      (host : Host F) (prepare : Config F → Preparation) (now expected : ℕ) (next : Config F)
      (summary : String) (s : Service F)
      → RoundTrips host
      → expected + 1 < 2 ^ 64
      → check_journal s.versions ≡ none
      → check_journal (apply host prepare now expected next summary s).service.versions ≡ none
  apply-check_journal host prepare now expected next summary s rt small h =
      Applies-journal host expected next summary s (apply host prepare now expected next summary s)
        rt small h (apply-Applies host expected next summary s prepare now)

  Applies-config :
      (host : Host F) (expected : ℕ) (next : Config F) (summary : String) (s : Service F)
      (a : Applied F) (w : Version F)
      → RoundTrips host
      → Applies host expected next summary s a
      → a.answer ≡ inr w
      → w.config ≡ next
  unfolding RoundTrips
  Applies-config host expected next summary s a w rt (refuses e fx k) h = cc
  Applies-config host expected next summary s a w rt (takes v vs fx made named e wr k) h =
      let same : v.config ≡ next = rt next v.config made.config in
      let again : host.clone v.config ≡ some v.config =
        subst (λ c. host.clone c ≡ some v.config) (sym same) made.config in
      let given : or_else (host.clone v.config) zero_config ≡ v.config =
        ap (λ o. or_else o zero_config) again in
      cc (h, given, same)

  -- Where JSON gives configurations back, a rollback that succeeds names a version that is still
  -- held, of the revision asked for, and answers with its configuration.
  pub rollback_restores :
      (host : Host F) (prepare : Config F → Preparation) (now expected target : ℕ) (s : Service F)
      (w : Version F)
      → RoundTrips host
      → (rollback host prepare now expected target s).answer ≡ inr w
      → (v : Version F) × In v s.versions × (v.revision ≡ target) × (w.config ≡ v.config)
  unfolding rollback restore
  rollback_restores host prepare now expected target s w rt h =
      go (find (λ v. eqb v.revision target) s.versions) refl h
    where
      go :
          (o : Option (Version F))
          → find (λ v. eqb v.revision target) s.versions ≡ o
          → (restore host prepare now expected target s o).answer ≡ inr w
          → (v : Version F) × In v s.versions × (v.revision ≡ target) × (w.config ≡ v.config)
      go none e k = cc
      go (some v) e k =
          let (same, held) = find_sound (λ x. eqb x.revision target) s.versions v e in
          (
            v,
            held,
            (eqb_iff v.revision target).0 same,
            Applies-config host expected v.config (host.rollback_summary target) s
                (apply host prepare now expected v.config (host.rollback_summary target) s) w rt
                (apply-Applies host expected v.config (host.rollback_summary target) s prepare now)
                k,
          )
