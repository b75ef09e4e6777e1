-- ===== src/Evidence/History.antt =====
-- internal/evidence/store.go: the entries after Append.
use clash_of_tokens.Base.{
  ℕ, zero, suc, ◌≡◌, refl, sym, subst, ◌∙◌, Bool, true, false, List, [], ◌∷◌, ◌++◌, Option, none,
  some, arith, if◌then◌else◌, ltb, ltb→lt, ◌+◌, ◌-◌, ◌%◌, ◌^◌, ◌<◌, ◌≤◌, length, length-drop, drop,
  get_last?, Bool-cases, if_true, if_false, inl, inr, ◌⊎◌,
}
use clash_of_tokens.Evidence.{
  Entry, Disk, AppendError, bad_field_size, over_capacity, write_failed, bad_fields, next_sequence,
  stamped, latest, commit, append,
}

-- Each entry's number is that of the entry before it and one more.
unfoldable pub Numbered : List Entry → Type 0
Numbered [] = Unit
Numbered (e ∷ []) = Unit
Numbered (e ∷ (f ∷ es)) = (f.sequence ≡ e.sequence + 1) × Numbered (f ∷ es)

pub record IsHistory (es : List Entry) : Type 0 where
  pub few : length es ≤ 1000
  pub numbered : Numbered es

Numbered-tail : (e : Entry) (es : List Entry) → Numbered (e ∷ es) → Numbered es
unfolding Numbered
Numbered-tail e [] h = tt
Numbered-tail e (f ∷ es) h = h.1

Numbered-drop : (n : ℕ) (es : List Entry) → Numbered es → Numbered (drop n es)
unfolding Numbered
Numbered-drop zero es h = h
Numbered-drop (suc n) [] h = tt
Numbered-drop (suc n) (e ∷ es) h = Numbered-drop n es (Numbered-tail e es h)

Numbered-append :
    (es : List Entry) (e : Entry)
    → Numbered es
    → ((l : Entry) → get_last? es ≡ some l → e.sequence ≡ l.sequence + 1)
    → Numbered (es ++ e ∷ [])
unfolding Numbered
Numbered-append [] e h k = tt
Numbered-append (x ∷ []) e h k = (k x refl, tt)
Numbered-append (x ∷ (y ∷ ys)) e h k = (h.0, Numbered-append (y ∷ ys) e h.1 k)

latest-IsHistory : (es : List Entry) → Numbered es → IsHistory (latest es)
unfolding latest
latest-IsHistory es h = elim (Bool-cases (ltb 1000 (length es))) [
  | inl many ↦
      subst IsHistory (sym (if_true (ltb 1000 (length es)) (drop (length es - 1000) es) es many))
        (record {
          few = omega (arith, length-drop (length es - 1000) es, ltb→lt 1000 (length es) many);
          numbered = Numbered-drop (length es - 1000) es h;
        })
  | inr short ↦
      subst IsHistory (sym (if_false (ltb 1000 (length es)) (drop (length es - 1000) es) es short))
        (record { few = ground (arith, short); numbered = h })
]

stamped-sequence :
    (now : ℕ) (es : List Entry) (e l : Entry)
    → get_last? es ≡ some l
    → l.sequence + 1 < 2 ^ 64
    → (stamped now es e).sequence ≡ l.sequence + 1
unfolding stamped next_sequence
stamped-sequence now es e l h small = small_mod ∙ refl
  where
    small_mod :
        (elim (get_last? es) [ none ↦ 1 | some x ↦ (x.sequence + 1) % 2 ^ 64 ]) ≡ l.sequence + 1
    small_mod =
        subst (λ o. (elim o [ none ↦ 1 | some x ↦ (x.sequence + 1) % 2 ^ 64 ]) ≡ l.sequence + 1)
          (sym h) (omega arith)

-- What a call leaves: a history, which is the old one if there is an error.
abbrev Fine : List Entry → Option AppendError × List Entry → Type 0
Fine es z = IsHistory z.1 × ((z.0 ≡ none) ⊎ (z.1 ≡ es))

commit-Fine :
    (disk : Disk) (es next : List Entry)
    → IsHistory es
    → IsHistory next
    → Fine es (commit disk es next)
unfolding commit
commit-Fine disk es next h k = sized (disk.encoded_size next)
  where
    stored : (b : Bool) → Fine es (if b then (none, next) else (some write_failed, es))
    stored true = (k, inl refl)
    stored false = (h, inr refl)

    fits :
        (b : Bool)
        → Fine es (
            if b
            then (some over_capacity, es)
            else if disk.written next
            then (none, next)
            else (some write_failed, es))
    fits true = (h, inr refl)
    fits false = stored (disk.written next)

    sized :
        (o : Option ℕ)
        → Fine es (elim o [
          | none ↦ (some over_capacity, es)
          | some n ↦
              if ltb 2097152 n
              then (some over_capacity, es)
              else if disk.written next
              then (none, next)
              else (some write_failed, es)
        ])
    sized none = (h, inr refl)
    sized (some n) = fits (ltb 2097152 n)

-- Append keeps a history: at most 1000 entries, numbered without a gap. While the numbers stay below
-- 2^64. And one that gives an error leaves the entries as they were.
pub append-IsHistory :
    (disk : Disk) (now : ℕ) (e : Entry) (es : List Entry)
    → ((l : Entry) → get_last? es ≡ some l → l.sequence + 1 < 2 ^ 64)
    → IsHistory es
    → IsHistory (append disk now e es).1
      × (((append disk now e es).0 ≡ none) ⊎ ((append disk now e es).1 ≡ es))
unfolding append
append-IsHistory disk now e es small h = elim (Bool-cases (bad_fields e)) [
  | inl bad ↦
      subst {A = Option AppendError × List Entry} (Fine es)
        (sym (if_true (bad_fields e) _ (commit disk es next) bad)) (h, inr refl)
  | inr good ↦
      subst {A = Option AppendError × List Entry} (Fine es)
        (sym (if_false (bad_fields e) (some bad_field_size, es) (commit disk es next) good))
        (commit-Fine disk es next h next_history)
]
  where
    next : List Entry
    next = latest (es ++ stamped now es e ∷ [])

    next_history : IsHistory next
    next_history = latest-IsHistory (es ++ stamped now es e ∷ []) (
        Numbered-append es (stamped now es e) h.numbered
          (λ l k. stamped-sequence now es e l k (small l k)))
