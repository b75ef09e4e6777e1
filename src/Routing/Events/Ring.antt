-- ===== src/Routing/Events/Ring.antt =====
-- internal/routing/events.go: the ring beside the list of everything pushed.
use native.Mathlib.Numerals.{add-one}
use native.Mathlib.Nat.{mod-add-mod, mod-eq_of_lt, mod_self}
use mathlib.Core.List.{append-nil, append_assoc}
use clash_of_tokens.Base.{
  ℕ, zero, suc, ◌≡◌, refl, sym, ap, ◌∙◌, inl, inr, List, [], ◌∷◌, ◌++◌, arith, ◌+◌, ◌-◌, ◌%◌, ◌<◌,
  ◌≤◌, ltb, ltb→lt, eqb, eqb_iff, if◌then◌else◌, get_or, set, length, drop, take, Bool-cases,
  length-append, length-set, length-drop,
}
use clash_of_tokens.Routing.Choose.{visit}
use clash_of_tokens.Routing.Choose.Visits.{visit-rotates}
use clash_of_tokens.Routing.Events.{ring_push, ring_read}

mod-next : (m L : ℕ) → 0 < L → (m + 1) % L ≡ (if eqb (m % L + 1) L then 0 else m % L + 1)
mod-next m L h = elim (Bool-cases (eqb (m % L + 1) L)) [
  | inl e ↦ rw e (sym (mod-add-mod m L 1) ∙ (ap (λ k. k % L) ((eqb_iff _ _).0 e) ∙ mod_self L))
  | inr e ↦ rw e (sym (mod-add-mod m L 1) ∙ mod-eq_of_lt (ground arith))
]

module _ {A : Type 0} (d : A) where
  ring_read-visit :
      (n i cursor : ℕ) (xs : List A)
      → 0 < length xs
      → ring_read d n i cursor xs ≡ visit d n ((cursor + i) % length xs) xs
  unfolding ring_read visit
  ring_read-visit zero i cursor xs h = refl
  ring_read-visit (suc n) i cursor xs h = ap (◌∷◌ (get_or xs ((cursor + i) % length xs) d)) (
      ring_read-visit n (i + 1) cursor xs h
      ∙ ap (λ k. visit d n k xs)
          (ap (λ k. k % length xs) (omega arith) ∙ mod-next (cursor + i) (length xs) h))

  -- Reading starts at the cursor and goes once round.
  pub ring_read-rotates :
      (cursor : ℕ) (xs : List A)
      → cursor < length xs
      → ring_read d (length xs) 0 cursor xs ≡ drop cursor xs ++ take cursor xs
  ring_read-rotates cursor xs h =
      ring_read-visit (length xs) 0 cursor xs (omega arith)
      ∙ (ap (λ k. visit d (length xs) k xs)
            (let e : (cursor + 0) % length xs ≡ cursor = grind arith in e)
          ∙ visit-rotates d cursor xs h)

module _ {A : Type 0} where
  -- What a ring holds, oldest first.
  abbrev pub contents : List A × ℕ → List A
  contents (xs, cursor) = drop cursor xs ++ take cursor xs

  -- The last `max` of a list.
  abbrev pub recent : ℕ → List A → List A
  recent max h = drop (length h - max) h

  pub record IsRing (max : ℕ) (s : List A × ℕ) : Type 0 where
    pub fits : length s.0 ≤ max
    pub inside : s.1 < max
    pub filling : length s.0 < max → s.1 ≡ 0

  drop-set : (c : ℕ) (xs : List A) (e : A) → drop (suc c) (set xs c e) ≡ drop (suc c) xs
  drop-set c [] e = refl
  drop-set zero (x ∷ xs) e = refl
  drop-set (suc c) (x ∷ xs) e = drop-set c xs e

  take-set :
      (c : ℕ) (xs : List A) (e : A)
      → c < length xs
      → take (suc c) (set xs c e) ≡ take c xs ++ e ∷ []
  take-set c [] e h = absurd (omega arith)
  take-set zero (x ∷ xs) e h = refl
  take-set (suc c) (x ∷ xs) e h = ap (◌∷◌ x) (take-set c xs e (omega arith))

  -- The oldest entry, and the rest in the order of a ring.
  drop-head : (c : ℕ) (xs : List A) → c < length xs → (a : A) × (drop c xs ≡ a ∷ drop (suc c) xs)
  drop-head c [] h = absurd (omega arith)
  drop-head zero (x ∷ xs) h = (x, refl)
  drop-head (suc c) (x ∷ xs) h = drop-head c xs (omega arith)

  drop-length : (xs : List A) (n : ℕ) → length xs ≤ n → drop n xs ≡ []
  drop-length [] zero h = refl
  drop-length [] (suc n) h = refl
  drop-length (x ∷ xs) zero h = absurd (omega arith)
  drop-length (x ∷ xs) (suc n) h = drop-length xs n (omega arith)

  drop-append : (n : ℕ) (xs ys : List A) → n ≤ length xs → drop n (xs ++ ys) ≡ drop n xs ++ ys
  drop-append zero xs ys h = refl
  drop-append (suc n) [] ys h = absurd (omega arith)
  drop-append (suc n) (x ∷ xs) ys h = drop-append n xs ys (omega arith)

  length-contents : (c : ℕ) (xs : List A) → length (drop c xs ++ take c xs) ≡ length xs
  length-contents zero xs = omega (arith, length-append xs [])
  length-contents (suc c) [] = refl
  length-contents (suc c) (x ∷ xs) = omega (
    arith,
    length-append (drop c xs) (x ∷ take c xs),
    length-append (drop c xs) (take c xs),
    length-contents c xs,
  )

  ring_push-IsRing :
      (max : ℕ) (e : A) (xs : List A) (c : ℕ)
      → IsRing max (xs, c)
      → IsRing max (ring_push max e (xs, c))
  unfolding ring_push
  ring_push-IsRing max e xs c v = elim (Bool-cases (ltb (length xs) max)) [
    | inl more ↦ rw more (record {
      fits = omega (arith, length-append xs (e ∷ []), v.fits, ltb→lt _ _ more);
      inside = v.inside;
      filling = λ h. v.filling (ltb→lt _ _ more);
    })
    | inr full ↦ rw full (record {
      fits = omega (arith, length-set xs c e, v.fits);
      inside = omega (arith, v.inside);
      filling = λ h. ground (arith, length-set xs c e, v.fits);
    })
  ]

  take-append-drop : (n : ℕ) (xs : List A) → take n xs ++ drop n xs ≡ xs
  take-append-drop zero xs = refl
  take-append-drop (suc n) [] = refl
  take-append-drop (suc n) (x ∷ xs) = ap (◌∷◌ x) (take-append-drop n xs)

  set_last : (c : ℕ) (e : A) (xs : List A) → length xs ≡ suc c → set xs c e ≡ take c xs ++ e ∷ []
  set_last c e xs h =
      sym (take-append-drop (suc c) (set xs c e))
      ∙ (ap (◌++◌ (take (suc c) (set xs c e)))
            (drop-length (set xs c e) (suc c) (omega (arith, length-set xs c e)))
          ∙ (append-nil _ ∙ take-set c xs e (omega arith)))

  -- Overwriting the oldest entry drops it from the front and adds the new one at the end.
  overwrite :
      (max c : ℕ) (e : A) (xs : List A)
      → length xs ≡ max
      → c < max
      → contents (set xs c e, (c + 1) % max) ≡ drop 1 (contents (xs, c) ++ e ∷ [])
  overwrite max c e xs full h =
      let (a, front) = drop-head c xs (omega arith) in
      elim (Bool-cases (ltb (c + 1) max)) [
        | inl inside ↦
            let e1 : (c + 1) % max ≡ suc c = mod-eq_of_lt (ltb→lt _ _ inside) ∙ add-one c in
            rw (e1, front, drop-set c xs e, take-set c xs e (omega arith))
              (sym (append_assoc (drop (suc c) xs) (take c xs) (e ∷ [])))
        | inr end ↦
            let e1 : c + 1 ≡ max = ground arith in
            let e2 : (c + 1) % max ≡ 0 = ap (λ k. k % max) e1 ∙ mod_self max in
            let e3 = drop-length xs (suc c) (omega arith) in
            rw (e2, front, e3, set_last c e xs (omega arith)) (append-nil _)
      ]

  recent_short : (max : ℕ) (h : List A) → length h ≤ max → recent max h ≡ h
  recent_short max h p = ap (λ k. drop k h) (let e : length h - max ≡ 0 = omega arith in e)

  recent_full :
      (max : ℕ) (h : List A) (e : A)
      → length h ≡ max
      → recent max (h ++ e ∷ []) ≡ drop 1 (h ++ e ∷ [])
  recent_full max h e p =
      ap (λ k. drop k (h ++ e ∷ []))
        (let q : length (h ++ e ∷ []) - max ≡ 1 = omega (arith, length-append h (e ∷ [])) in q)

  ring_push-contents :
      (max : ℕ) (e : A) (xs : List A) (c : ℕ)
      → IsRing max (xs, c)
      → contents (ring_push max e (xs, c)) ≡ recent max (contents (xs, c) ++ e ∷ [])
  unfolding ring_push
  ring_push-contents max e xs c v = elim (Bool-cases (ltb (length xs) max)) [
    | inl more ↦
        rw (more, v.filling (ltb→lt _ _ more))
          (append-nil _
            ∙ (ap (λ z. z ++ e ∷ []) (sym (append-nil xs))
                ∙ sym (
                    recent_short max _ (
                      omega (
                        arith,
                        length-append (xs ++ []) (e ∷ []),
                        length-append xs [],
                        ltb→lt _ _ more,
                      )))))
    | inr full ↦ rw full (
        overwrite max c e xs (ground (arith, v.fits)) v.inside
        ∙ sym (recent_full max _ e (length-contents c xs ∙ ground (arith, v.fits))))
  ]

  drop-drop : (n : ℕ) (xs : List A) → drop 1 (drop n xs) ≡ drop (suc n) xs
  drop-drop zero xs = refl
  drop-drop (suc n) [] = refl
  drop-drop (suc n) (x ∷ xs) = drop-drop n xs

  contents-nil : (c : ℕ) → contents ([], c) ≡ []
  contents-nil zero = refl
  contents-nil (suc c) = refl

  -- What is recent of what was recent: forgetting early loses nothing that forgetting late keeps.
  recent-recent :
      (max : ℕ) (h : List A) (e : A)
      → recent max (recent max h ++ e ∷ []) ≡ recent max (h ++ e ∷ [])
  recent-recent max h e = elim (Bool-cases (ltb max (length h))) [
    | inl long ↦
        let p = ltb→lt _ _ long in
        let q : suc (length h - max) ≡ length (h ++ e ∷ []) - max =
          omega (arith, length-append h (e ∷ [])) in
        recent_full max (recent max h) e (length-drop (length h - max) h ∙ omega arith)
        ∙ (ap (drop 1) (sym (drop-append (length h - max) h (e ∷ []) (omega arith)))
            ∙ (drop-drop (length h - max) (h ++ e ∷ []) ∙ ap (λ k. drop k (h ++ e ∷ [])) q))
    | inr short ↦ ap (λ z. recent max (z ++ e ∷ [])) (recent_short max h (ground arith))
  ]

  -- The pushes of a history, oldest first.
  pub push_all : ℕ → List A → List A × ℕ → List A × ℕ
  push_all max [] s = s
  push_all max (e ∷ es) s = push_all max es (ring_push max e s)

  push_all-recent :
      (max : ℕ) (es h : List A) (s : List A × ℕ)
      → IsRing max s
      → contents s ≡ recent max h
      → IsRing max (push_all max es s) × (contents (push_all max es s) ≡ recent max (h ++ es))
  unfolding push_all
  push_all-recent max [] h s v p = (v, p ∙ ap (recent max) (sym (append-nil h)))
  push_all-recent max (e ∷ es) h (xs, c) v p =
      let (v', q) =
        push_all-recent max es (h ++ e ∷ []) (ring_push max e (xs, c))
          (ring_push-IsRing max e xs c v)
          (ring_push-contents max e xs c v
            ∙ (ap (λ z. recent max (z ++ e ∷ [])) p ∙ recent-recent max h e)) in
      (v', q ∙ ap (recent max) (append_assoc h (e ∷ []) es))

module _ {A : Type 0} (d : A) where
  read_all :
      (s : List A × ℕ) (max : ℕ) → IsRing max s → ring_read d (length s.0) 0 s.1 s.0 ≡ contents s
  unfolding ring_read
  read_all ([], c) max v = sym (contents-nil c)
  read_all (x ∷ xs, c) max v =
      ring_read-rotates d c (x ∷ xs) (ground (arith, v.fits, v.inside, v.filling))

  -- After any history of pushes the ring reads back as the last `max` of them, oldest first.
  pub ring_read-recent :
      (max : ℕ) (es : List A)
      → 0 < max
      → let s = push_all max es ([], 0) in ring_read d (length s.0) 0 s.1 s.0 ≡ recent max es
  ring_read-recent max es h =
      let (v, p) =
        push_all-recent max es [] ([], 0)
          (record { fits = omega arith; inside = h; filling = λ l. refl })
          (sym (recent_short max [] (omega arith))) in
      read_all (push_all max es ([], 0)) max v ∙ p
