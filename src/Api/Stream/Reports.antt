-- ===== src/Api/Stream/Reports.antt =====
-- internal/api/stream.go: what holds of the loop's variables, and what each kind of result says.
use mathlib.Core.List.{append_assoc, append-nil}
use clash_of_tokens.Base.{
  ℕ, ◌≤◌, String, ◌≡◌, ◌≢◌, refl, sym, ap, subst, ◌∙◌, ◌⊎◌, inl, inr, Bool, true, false, not, ◌&&◌,
  List, [], ◌∷◌, ◌++◌, arith, ltb, ◌==◌, eq_iff, if◌then◌else◌, length, is_empty, Bool-cases,
  &&-true, if_true, if_false,
}
use clash_of_tokens.Protocol.Result.{ExecutionResult, successful}
use clash_of_tokens.Protocol.Usage.{CompletionObserver}
use clash_of_tokens.Protocol.Observer.{is_complete}
use clash_of_tokens.Protocol.Observer.Complete.{Goes, Ends}
use clash_of_tokens.Api.Stream.{Progress, report, note_output}

-- The bytes of the frames given to the client.
abbrev pub concat : List (List ℕ) → List ℕ
concat [] = []
concat (f ∷ fs) = f ++ concat fs

pub concat-append : (fs : List (List ℕ)) (f : List ℕ) → concat (fs ++ (f ∷ [])) ≡ concat fs ++ f
concat-append [] f = append-nil f
concat-append (g ∷ fs) f =
    ap (λ z. g ++ z) (concat-append fs f) ∙ sym (append_assoc g (concat fs) f)

-- What holds of the loop's variables at the end, with the bytes that are left.
pub record Relays (body : List ℕ) (max_output : ℕ) (rest : List ℕ) (p : Progress) : Type 0 where
  pub front : body ≡ concat p.relayed ++ rest
  pub within : length (concat p.relayed) ≤ max_output
  pub unsent : p.sent ≡ false → p.relayed ≡ []
  pub at_most_once : p.first_outputs ≤ 1

-- And at the head of a round.
pub record Open (p : Progress) : Type 0 where
  pub goes : Goes p.observer
  pub no_error : p.observer.error ≡ ""
  pub counted : p.total ≡ length (concat p.relayed)
  pub noted : (p.observed_output ≡ false) → p.first_outputs ≡ 0

-- What a result says: of a success, that the protocol's end was seen, or that the whole body was
-- relayed and each of its choices was done; of any other, why.
pub record Says (rest : List ℕ) (r : ExecutionResult) (p : Progress) : Type 0 where
  pub success :
      successful r ≡ true
      → Ends p.observer ⊎ ((rest ≡ []) × (is_complete p.observer.choices ≡ true))
  pub failure : successful r ≡ false → (r.upstream_error ≢ "") ⊎ (r.client_canceled ≡ true)

pub note_output-relayed : (p : Progress) → (note_output p).relayed ≡ p.relayed
note_output-relayed p = ground arith

pub note_output-total : (p : Progress) → (note_output p).total ≡ p.total
note_output-total p = ground arith

pub note_output-observer : (p : Progress) → (note_output p).observer ≡ p.observer
note_output-observer p = elim (Bool-cases (p.observer.saw_output && not p.observed_output)) [
  | inl t ↦ rw t refl
  | inr t ↦ rw t refl
]

pub below_of_false : (a b : ℕ) → ltb a b ≡ false → b ≤ a
below_of_false a b h = ground arith

pub truncated_text : ◌≢◌ {A = String} "truncated_stream" ""
truncated_text = ground (arith, eq_iff "truncated_stream" "")

pub empty_input : (xs : List ℕ) → is_empty xs ≡ true → xs ≡ []
empty_input [] h = refl
empty_input (x ∷ xs) h = cc

abbrev pub Once : Progress → Type 0
Once p = (p.first_outputs ≤ 1) × (p.observed_output ≡ false → p.first_outputs ≡ 0)

pub note_output-Once : (p : Progress) → Once p → Once (note_output p)
note_output-Once p h = elim (Bool-cases (p.observer.saw_output && not p.observed_output)) [
  | inl t ↦
      let z : p.observed_output ≡ false =
        ground (arith, &&-true p.observer.saw_output (not p.observed_output) t) in
      subst Once (sym (if_true _ _ _ t)) (omega (arith, h.1 z), λ e. cc)
  | inr t ↦ subst Once (sym (if_false _ _ _ t)) h
]

pub canceled-Says :
    (o : CompletionObserver) (rest : List ℕ) (p : Progress)
    → Says rest (report o false false "" true) p
unfolding successful
canceled-Says o rest p = record { success = λ h. cc; failure = λ h. inr refl }

pub error-Says :
    (o : CompletionObserver) (e : String) (gone : Bool) (rest : List ℕ) (p : Progress)
    → e ≢ ""
    → Says rest (report o false false e gone) p
unfolding successful
error-Says o e gone rest p k = record { success = λ h. cc; failure = λ h. inl k }

pub ended-Says :
    (rest : List ℕ) (p : Progress)
    → Ends p.observer
    → Says rest (report p.observer true p.observer.complete "" false) p
unfolding successful
ended-Says rest p e = record {
  success = λ h. inl e;
  failure = λ h. absurd (complete_fails p.observer.complete e.whole h);
}
  where
    complete_fails : (b : Bool) → b ≡ true → (b && ("" == "" && not false)) ≡ false → ⊥
    complete_fails b t h = ground arith

pub missing :
    (b : Bool)
    → (b && ((if b then "" else "missing_completion") == "" && not false)) ≡ false
    → ◌≢◌ {A = String} (if b then "" else "missing_completion") ""
missing true h = cc
missing false h = ground (arith, eq_iff "missing_completion" "")

pub eof-Says :
    (p : Progress) (rest : List ℕ)
    → rest ≡ []
    → Goes p.observer
    → Says rest
        (report p.observer true p.observer.complete
          (if p.observer.complete then "" else "missing_completion")
          false)
        p
unfolding successful
eof-Says p rest r g = record {
  success = λ h. inr (r, sym g.tracks ∙ (&&-true _ _ h).0);
  failure = λ h. inl (missing p.observer.complete h);
}
