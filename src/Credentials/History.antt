-- ===== src/Credentials/History.antt =====
-- internal/credentials: what any sequence of calls does to the records of a vault.
pub mod Calls
pub mod Flights
pub mod Reaches
use Prim.Native.String.{String}
use clash_of_tokens.Base.{
  ℕ, ◌^◌, ◌≤◌, ◌<◌, ◌≡◌, refl, sym, subst, ◌∙◌, inl, inr, true, false, List, [], ◌∷◌, Option, none,
  some, arith, ◌==◌, eq_iff, lookup, insert, lookup-insert, All, Bool-cases, if_true, if_false,
  if_intro,
}
use clash_of_tokens.Credentials.{Secret, version_of}

abbrev pub InRange : String × Secret → Type 0
InRange entry = version_of entry.1 < 2 ^ 64

-- What may become of a record: it has its version and its value, or a greater version, which a
-- revoked one never has, or it is revoked and without a value.
pub data Later (a b : Secret) : Type 0 where
  same_version : version_of a ≡ version_of b → a.revoked ≡ b.revoked → a.value ≡ b.value → Later a b
  newer : a.revoked ≡ false → version_of a < version_of b → Later a b
  deleted : b.revoked ≡ true → b.value ≡ "" → version_of a ≤ version_of b → Later a b

pub data Moves : Option Secret → Option Secret → Type 0 where
  absent : {o : Option Secret} → Moves none o
  present : {a b : Secret} → Later a b → Moves (some a) (some b)

Later-refl : (a : Secret) → Later a a
Later-refl a = same_version refl refl refl

Later-trans : (a b c : Secret) → Later a b → Later b c → Later a c
Later-trans a b c (same_version v r w) (same_version v' r' w') =
    same_version (v ∙ v') (r ∙ r') (w ∙ w')
Later-trans a b c (same_version v r w) (newer r' l) = newer (r ∙ r') (omega arith)
Later-trans a b c (same_version v r w) (deleted r' w' l) = deleted r' w' (omega arith)
Later-trans a b c (newer r l) (same_version v r' w) = newer r (omega arith)
Later-trans a b c (newer r l) (newer r' l') = newer r (omega arith)
Later-trans a b c (newer r l) (deleted r' w' l') = deleted r' w' (omega arith)
Later-trans a b c (deleted r w l) (same_version v r' w') =
    deleted (sym r' ∙ r) (sym w' ∙ w) (omega arith)
Later-trans a b c (deleted r w l) (newer r' l') = cc
Later-trans a b c (deleted r w l) (deleted r' w' l') = deleted r' w' (omega arith)

pub Moves-refl : (o : Option Secret) → Moves o o
Moves-refl none = absent
Moves-refl (some a) = present (Later-refl a)

Moves-trans : (x y z : Option Secret) → Moves x y → Moves y z → Moves x z
Moves-trans none y z m k = absent
Moves-trans (some a) none z m k = elim m [ ]
Moves-trans (some a) (some b) none m k = elim k [ ]
Moves-trans (some a) (some b) (some c) (present l) (present k) = present (Later-trans a b c l k)

pub record Advances (xs ys : List (String × Secret)) : Type 0 where
  pub moves : (ref : String) → Moves (lookup ref xs) (lookup ref ys)
  pub in_range : All InRange ys

pub Advances-trans :
    (xs ys zs : List (String × Secret)) → Advances xs ys → Advances ys zs → Advances xs zs
Advances-trans xs ys zs p q = record {
  moves = λ ref. Moves-trans _ _ _ (p.moves ref) (q.moves ref);
  in_range = q.in_range;
}

insert-InRange :
    (ref : String) (r : Secret) (xs : List (String × Secret))
    → version_of r < 2 ^ 64
    → All InRange xs
    → All InRange (insert ref r xs)
unfolding insert
insert-InRange ref r [] h k = (h, k)
insert-InRange ref r (entry ∷ rest) h k =
    if_intro (All InRange) (entry.0 == ref) ((ref, r) ∷ rest) (entry ∷ insert ref r rest) (h, k.1)
      (k.0, insert-InRange ref r rest h k.1)

lookup_same :
    (ref other : String) (new : Secret) (xs : List (String × Secret))
    → ref == other ≡ true
    → Moves (lookup ref xs) (some new)
    → Moves (lookup other xs) (some new)
lookup_same ref other new xs e m =
    subst (λ k. Moves (lookup k xs) (some new)) ((eq_iff ref other).0 e) m

pub insert-Advances :
    (ref : String) (new : Secret) (xs : List (String × Secret))
    → Moves (lookup ref xs) (some new)
    → version_of new < 2 ^ 64
    → All InRange xs
    → Advances xs (insert ref new xs)
insert-Advances ref new xs m h k = record {
  moves = λ other.
      subst (Moves (lookup other xs)) (lookup-insert xs new ref other)
        (elim (Bool-cases (ref == other)) [
          | inl e ↦
              subst (Moves (lookup other xs)) (sym (if_true _ _ _ e))
                (lookup_same ref other new xs e m)
          | inr e ↦
              subst (Moves (lookup other xs)) (sym (if_false _ _ _ e))
                (Moves-refl (lookup other xs))
        ]);
  in_range = insert-InRange ref new xs h k;
}

-- A record that a reference has, and its version.
pub data Bounded : Option Secret → Type 0 where
  nothing : Bounded none
  bounded : {r : Secret} → version_of r < 2 ^ 64 → Bounded (some r)

pub lookup-Bounded :
    (ref : String) (xs : List (String × Secret)) → All InRange xs → Bounded (lookup ref xs)
unfolding lookup
lookup-Bounded ref [] k = nothing
lookup-Bounded ref (entry ∷ rest) k =
    if_intro Bounded (entry.0 == ref) (some entry.1) (lookup ref rest) (bounded k.0)
      (lookup-Bounded ref rest k.1)
