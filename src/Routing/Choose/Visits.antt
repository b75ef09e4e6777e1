-- ===== src/Routing/Choose/Visits.antt =====
-- internal/routing/router.go: the rotated order of the scan of choose.
use native.Mathlib.Numerals.{add-one}
use clash_of_tokens.Base.{
  ℕ, zero, suc, ◌≡◌, refl, sym, subst, ◌∙◌, ap, ◌⊎◌, inl, inr, ◌↔◌, true, false, List, [], ◌∷◌,
  ◌++◌, arith, ◌+◌, ◌-◌, ◌%◌, ◌<◌, ◌≤◌, eqb, get_or, length, drop, take, In,
}
use clash_of_tokens.Routing.Choose.{visit}

module _ {A : Type 0} (d : A) where
  drop-get_or : (p : ℕ) (cs : List A) → p < length cs → drop p cs ≡ get_or cs p d ∷ drop (p + 1) cs
  drop-get_or p [] h = absurd (omega arith)
  drop-get_or zero (c ∷ cs) h = refl
  drop-get_or (suc p) (c ∷ cs) h = rw (drop-get_or p cs (omega arith)) (rw (add-one, add-one))

  take-suc :
      (n p : ℕ) (cs : List A)
      → p < length cs
      → take (suc n) (drop p cs) ≡ get_or cs p d ∷ take n (drop (p + 1) cs)
  take-suc n p cs h = rw (drop-get_or p cs h)

  visit_next :
      (n p : ℕ) (cs : List A)
      → p + 1 < length cs
      → visit d (suc n) p cs ≡ get_or cs p d ∷ visit d n (p + 1) cs
  unfolding visit
  visit_next n p cs h = let e : eqb (p + 1) (length cs) ≡ false = ground arith in rw e

  visit_wrap :
      (n p : ℕ) (cs : List A)
      → p + 1 ≡ length cs
      → visit d (suc n) p cs ≡ get_or cs p d ∷ visit d n 0 cs
  unfolding visit
  visit_wrap n p cs h = let e : eqb (p + 1) (length cs) ≡ true = ground arith in rw e

  -- Without the wrap the scan runs along the list.
  visit_straight : (n p : ℕ) (cs : List A) → p + n ≤ length cs → visit d n p cs ≡ take n (drop p cs)
  unfolding visit
  visit_straight zero p cs h = refl
  visit_straight (suc zero) p cs h = rw (take-suc zero p cs (omega arith))
  visit_straight (suc (suc n)) p cs h =
      rw (take-suc (suc n) p cs (omega arith), visit_next (suc n) p cs (omega arith))
        (ap (◌∷◌ (get_or cs p d)) (visit_straight (suc n) (p + 1) cs (omega arith)))

  drop_all : (p : ℕ) (cs : List A) → length cs ≤ p → drop p cs ≡ []
  drop_all zero [] h = refl
  drop_all zero (c ∷ cs) h = absurd (omega arith)
  drop_all (suc p) [] h = refl
  drop_all (suc p) (c ∷ cs) h = drop_all p cs (omega arith)

  -- With it, to the end and on from the beginning.
  visit_around :
      (m n p : ℕ) (cs : List A)
      → p + suc m ≡ length cs
      → visit d (suc m + n) p cs ≡ drop p cs ++ visit d n 0 cs
  visit_around zero n p cs h =
      rw (drop-get_or p cs (omega arith), drop_all (p + 1) cs (omega arith))
        (ap (λ k. visit d k p cs) (omega arith) ∙ visit_wrap n p cs (omega arith))
  visit_around (suc m) n p cs h = rw (drop-get_or p cs (omega arith)) (
      ap (λ k. visit d k p cs) (let e : suc (suc m) + n ≡ suc (suc m + n) = omega arith in e)
      ∙ visit_next (suc m + n) p cs (omega arith)
      ∙ ap (◌∷◌ (get_or cs p d)) (visit_around m n (p + 1) cs (omega arith)))

  -- A full round from a position inside the list is the list, turned so that it starts there.
  pub visit-rotates :
      (p : ℕ) (cs : List A) → p < length cs → visit d (length cs) p cs ≡ drop p cs ++ take p cs
  visit-rotates p cs h =
      ap (λ k. visit d k p cs) (let e : length cs ≡ suc (length cs - p - 1) + p = omega arith in e)
      ∙ (visit_around (length cs - p - 1) p p cs (omega arith)
          ∙ ap (◌++◌ (drop p cs)) (visit_straight p 0 cs (omega arith)))

In-append : {A : Type 0} (xs ys : List A) (a : A) → In a (xs ++ ys) ↔ (In a xs ⊎ In a ys)
In-append [] ys a = ((λ m. inr m), λ m. ground arith)
In-append (x ∷ xs) ys a =
    ((λ m. ground (arith, (In-append xs ys a).0)), λ m. ground (arith, (In-append xs ys a).1))

In-rotate : (p : ℕ) (cs : List ℕ) (a : ℕ) → In a (drop p cs ++ take p cs) ↔ In a cs
In-rotate zero cs a =
    ((λ m. ground (arith, (In-append cs [] a).0)), λ m. (In-append cs [] a).1 (inl m))
In-rotate (suc p) [] a = ((λ m. m), λ m. m)
In-rotate (suc p) (c ∷ cs) a = (
  (λ m. ground (
    arith,
    (In-append (drop p cs) (c ∷ take p cs) a).0 m,
    (In-rotate p cs a).0,
    (In-append (drop p cs) (take p cs) a).1,
  )),
  λ m. ground (
    arith,
    (In-append (drop p cs) (c ∷ take p cs) a).1,
    (In-rotate p cs a).1,
    (In-append (drop p cs) (take p cs) a).0,
  ),
)

-- Whatever the cursor, the scan meets the candidates and nothing else.
pub In-visit :
    (cursor : ℕ) (cs : List ℕ) (a : ℕ)
    → In a (visit 0 (length cs) (cursor % length cs) cs) ↔ In a cs
unfolding visit
In-visit cursor [] a = ((λ m. m), λ m. m)
In-visit cursor (c ∷ cs) a =
    subst (λ l. In a l ↔ In a (c ∷ cs))
      (sym (visit-rotates 0 (cursor % length (c ∷ cs)) (c ∷ cs) (omega arith)))
      (In-rotate (cursor % length (c ∷ cs)) (c ∷ cs) a)
