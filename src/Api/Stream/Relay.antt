-- ===== src/Api/Stream/Relay.antt =====
-- internal/api/stream.go: what the client gets of a stream, and what the result says of it.
use mathlib.Core.List.{append_assoc}
use clash_of_tokens.Base.{
  ℕ, zero, suc, ◌+◌, ◌≤◌, ◌<◌, String, ◌≡◌, ◌≢◌, refl, sym, ap, subst, ◌∙◌, inl, inr, Bool, true,
  false, not, List, [], ◌∷◌, ◌++◌, none, some, arith, ltb, ◌==◌, eq_iff, if◌then◌else◌, length,
  length-append, Bool-cases, if_intro, &&-true, if_true, if_false,
}
use clash_of_tokens.Protocol.Result.{ExecutionResult}
use clash_of_tokens.Protocol.Sse.{Event, frame, eof, exceeds_limit, truncated}
use clash_of_tokens.Protocol.Sse.Split.{line_start, split, split_parts, split_pos}
use clash_of_tokens.Protocol.Sse.Frames.{Answers, next-Answers}
use clash_of_tokens.Protocol.Usage.{Json, CompletionObserver}
use clash_of_tokens.Protocol.Observer.{observe, is_complete}
use clash_of_tokens.Protocol.Observer.Complete.{Goes, Consistent, observe-Consistent}
use clash_of_tokens.Api.Stream.{
  Upstream, Client, Progress, report, Relayed, fresh_observer, note_output, deliver_frame,
  observed_frame, counted_frame, after_write, relay, after_event, stream_loop, event_limit,
  at_start, stream_response,
}
use clash_of_tokens.Api.Stream.Reports.{
  concat, concat-append, Relays, Open, Says, note_output-relayed, note_output-total,
  note_output-observer, below_of_false, truncated_text, empty_input, note_output-Once,
  canceled-Says, error-Says, ended-Says, eof-Says,
}

module _ (json : Json) (max_output : ℕ) (body : List ℕ) where
  module _ (f rest : List ℕ) (c : Client) (p : Progress) (r : Relays body max_output (f ++ rest) p)
      (o : Open p) (h : p.total + length f ≤ max_output) where
    abbrev noted_frame : Progress
    noted_frame = note_output (observed_frame json max_output f p)

    relayed_next : concat (noted_frame.relayed ++ (f ∷ [])) ≡ concat p.relayed ++ f
    relayed_next =
        ap (λ z. concat (z ++ (f ∷ []))) (note_output-relayed (observed_frame json max_output f p))
        ∙ concat-append p.relayed f

    relayed_length : length (concat (noted_frame.relayed ++ (f ∷ []))) ≡ p.total + length f
    relayed_length =
        ap length relayed_next
        ∙ (length-append (concat p.relayed) f ∙ ap (λ z. z + length f) (sym o.counted))

    deliver-Relays : Relays body max_output rest (deliver_frame f c noted_frame)
    deliver-Relays = record {
      front =
          r.front
          ∙ (sym (append_assoc (concat p.relayed) f rest) ∙ ap (λ z. z ++ rest) (sym relayed_next));
      within = omega (arith, relayed_length);
      unsent = λ e. cc;
      at_most_once =
          (note_output-Once (observed_frame json max_output f p) (r.at_most_once, o.noted)).0;
    }

    deliver-Open :
        (observe json f p.observer).error ≡ ""
        → Goes noted_frame.observer
        → Open (deliver_frame f c noted_frame)
    deliver-Open e g = record {
      goes = g;
      no_error = ap (λ z. z.error) (note_output-observer (observed_frame json max_output f p)) ∙ e;
      counted = note_output-total (observed_frame json max_output f p) ∙ sym relayed_length;
      noted = (note_output-Once (observed_frame json max_output f p) (r.at_most_once, o.noted)).1;
    }

  recounted-Relays :
      (rest : List ℕ) (n : ℕ) (o : CompletionObserver) (p : Progress)
      → Relays body max_output rest p
      → Relays body max_output rest (record p { total = n; observer = o })
  recounted-Relays rest n o p r = record {
    front = r.front;
    within = r.within;
    unsent = r.unsent;
    at_most_once = r.at_most_once;
  }

  -- A run that returns, with what holds of its result.
  abbrev Fine : Relayed → Type 0
  Fine o =
      (r : ExecutionResult) × (p : Progress) × (rest : List ℕ) × (o ≡ some (r, p))
      × Relays body max_output rest p
      × Says rest r p

  after_write-Fine :
      (rest : List ℕ) (c : Client) (p : Progress) (more : Relayed)
      → Relays body max_output rest p
      → Consistent p.observer
      → (Goes p.observer → Fine more)
      → Fine (after_write c p more)
  unfolding after_write
  after_write-Fine rest c p more r o k =
      if_intro Fine (not c.write_ok) _ _ canceled
        (if_intro Fine (not c.flush_ok) _ _ canceled (going o))
    where
      canceled : Fine (some (report p.observer false false "" true, p))
      canceled = (_, p, rest, refl, r, canceled-Says p.observer rest p)

      going :
          Consistent p.observer
          → Fine (
              if p.observer.terminal
              then some (report p.observer true p.observer.complete "" false, p)
              else more)
      going (inl g) = subst Fine (sym (if_false _ _ _ g.going)) (k g)
      going (inr e) =
          subst Fine (sym (if_true _ _ _ e.closed)) (_, p, rest, refl, r, ended-Says rest p e)

  error-Fine :
      (o : CompletionObserver) (e : String) (gone : Bool) (rest : List ℕ) (p : Progress)
      → e ≢ ""
      → Relays body max_output rest p
      → Fine (some (report o false false e gone, p))
  error-Fine o e gone rest p k r = (_, p, rest, refl, r, error-Says o e gone rest p k)

  deliver-Fine :
      (f rest : List ℕ) (c : Client) (p : Progress) (more : Progress → Relayed)
      → Relays body max_output (f ++ rest) p
      → Open p
      → p.total + length f ≤ max_output
      → ((observe json f p.observer).error == "") ≡ true
      → ((q : Progress) → Relays body max_output rest q → Open q → Fine (more q))
      → (let q = deliver_frame f c (note_output (observed_frame json max_output f p)) in
          Fine (after_write c q (more q)))
  deliver-Fine f rest c p more r o h e k =
      let q = deliver_frame f c (note_output (observed_frame json max_output f p)) in
      let d : Relays body max_output rest q = deliver-Relays f rest c p r o h in
      after_write-Fine rest c q (more q) d
        (subst Consistent (sym (note_output-observer (observed_frame json max_output f p)))
          (observe-Consistent json f p.observer o.goes))
        (λ g. k q d (deliver-Open f rest c p r o h ((eq_iff _ _).0 e) g))

  relay-Fine :
      (f rest : List ℕ) (c : Client) (p : Progress) (more : Progress → Relayed)
      → Relays body max_output (f ++ rest) p
      → Open p
      → ((q : Progress) → Relays body max_output rest q → Open q → Fine (more q))
      → Fine (relay json max_output f c p more)
  unfolding relay
  relay-Fine f rest c p more r o k = elim (Bool-cases (ltb max_output (p.total + length f))) [
    | inl t ↦ subst Fine (sym (if_true _ _ _ t)) (
        error-Fine p.observer "output_limit" false (f ++ rest) (counted_frame json max_output f p)
          (ground (arith, eq_iff "output_limit" "")) (recounted-Relays (f ++ rest) _ _ p r))
    | inr t ↦
        subst Fine (sym (if_false _ _ _ t))
          (elim (Bool-cases ((observe json f p.observer).error == "")) [
            | inl e ↦
                subst Fine (sym (if_false _ _ _ (ap not e)))
                  (deliver-Fine f rest c p more r o (below_of_false _ _ t) e k)
            | inr e ↦ subst Fine (sym (if_true _ _ _ (ap not e))) (
                error-Fine (observe json f p.observer) (observe json f p.observer).error false
                  (f ++ rest) (observed_frame json max_output f p)
                  (ground (arith, eq_iff (observe json f p.observer).error ""))
                  (recounted-Relays (f ++ rest) _ _ p r))
          ])
  ]

  -- The input is what the loop has not read.
  event_round :
      (limit : ℕ) (eof_end : Bool) (input : List ℕ) (gone : Bool) (c : Client) (p : Progress)
      (more : List ℕ → Progress → Relayed) (a : Event × List ℕ)
      → Answers limit eof_end [] (split line_start input) input a
      → Relays body max_output input p
      → Open p
      → ((rest : List ℕ) (q : Progress)
          → length rest < length input
          → Relays body max_output rest q
          → Open q
          → Fine (more rest q))
      → Fine (after_event json max_output a.0 gone c p (more a.1))
  unfolding after_event
  event_round limit eof_end input gone c p more (frame f, rest) (g, e, s, l) r o k =
      let h : input ≡ f ++ rest =
        split_parts line_start input f rest (s ∙ ap (λ z. some (z, rest)) (sym e)) in
      let n : 0 < length f =
        split_pos line_start input f rest (s ∙ ap (λ z. some (z, rest)) (sym e)) in
      relay-Fine f rest c p (more rest) (subst (λ z. Relays body max_output z p) h r) o
        (λ q. k rest q (omega (arith, ap length h, length-append {0} f rest)))
  event_round limit eof_end input gone c p more (exceeds_limit, rest) a r o k =
      error-Fine p.observer "truncated_stream" gone input p truncated_text r
  event_round limit eof_end input gone c p more (truncated, rest) a r o k =
      error-Fine p.observer "truncated_stream" gone input p truncated_text r
  event_round limit eof_end input gone c p more (eof, rest) (a, b, e) r o k =
      (_, p, input, refl, r, eof-Says p input (empty_input input (&&-true _ _ e).1) o.goes)

  stream_loop-Fine :
      (fuel : ℕ) (up : Upstream) (client : ℕ → Client) (round : ℕ) (input : List ℕ) (p : Progress)
      → length input < fuel
      → Relays body max_output input p
      → Open p
      → Fine (stream_loop json max_output fuel up client round input p)
  unfolding stream_loop
  stream_loop-Fine zero up client round input p short r o = absurd (omega arith)
  stream_loop-Fine (suc fuel) up client round input p short r o =
      let limit = event_limit json max_output in
      let (a, e, w) = next-Answers 8192 limit up.ends_with_eof input (omega arith) in
      subst
        (λ z. Fine (elim z [
          | none ↦ none
          | some (event, rest) ↦
              after_event json max_output event up.gone (client round) p
                (stream_loop json max_output fuel up client (round + 1) rest)
        ]))
        (sym e)
        (event_round limit up.ends_with_eof input up.gone (client round) p
          (stream_loop json max_output fuel up client (round + 1)) a w r o
          (λ rest q l. stream_loop-Fine fuel up client (round + 1) rest q (omega arith)))

fresh-Goes : (protocol : String) → Goes (fresh_observer protocol)
unfolding is_complete
fresh-Goes protocol = record { going = refl; tracks = refl }

-- streamResponse always returns. The frames that the client gets are the body's front, byte for byte,
-- and within the limit on output; nothing was given to it where the loop says that nothing was
-- sent; the lease hears of the first output at most once. A success means that the stream's end was
-- seen, or that the whole body was relayed and each of its choices, one at least, was done; and any
-- other result names an error, or says that the client is gone.
pub stream_response-Relays :
    (json : Json) (max_output : ℕ) (up : Upstream) (client : ℕ → Client) (protocol : String)
    (output_bytes : ℕ)
    → (r : ExecutionResult) × (p : Progress) × (rest : List ℕ) × (stream_response json max_output up
          client protocol output_bytes
        ≡ some (r, p))
      × Relays up.body max_output rest p
      × Says rest r p
unfolding stream_response
stream_response-Relays json max_output up client protocol output_bytes =
    let p = at_start json max_output protocol output_bytes in
    stream_loop-Fine json max_output up.body (suc (length up.body)) up client 0 up.body p
      (omega arith)
      (record {
        front = refl;
        within = omega arith;
        unsent = λ e. refl;
        at_most_once = omega arith;
      })
      (record { goes = fresh-Goes protocol; no_error = refl; counted = refl; noted = λ e. refl })
