-- ===== src/Api/Budget/Balance.antt =====
-- internal/api/server.go: the counter of reserved bytes against the requests that are alive.
use clash_of_tokens.Base.{ℕ, ◌+◌, ◌≤◌, ◌≡◌, Bool, List, [], ◌∷◌, ◌++◌, Option, none, some, length}
use clash_of_tokens.Api.Budget.{
  Limits, Holding, Gateway, Admission, Refusal, admitted, refused, admit, shrink_upload,
  reserve_stream, drop_upload, capture_part, depart,
}

abbrev pub held_by : Holding → ℕ
held_by h = h.upload + h.stream + h.capture

abbrev pub held : List Holding → ℕ
held [] = 0
held (h ∷ hs) = held_by h + held hs

module _ (l : Limits) where
  -- What a request that is alive does with its holding; it reserves for a stream once.
  pub data Change (g : Gateway) (h : Holding) : Gateway → Holding → Type 0 where
    shrinks :
        (retained : ℕ) → Change g h (shrink_upload retained h g).0 (shrink_upload retained h g).1
    streams :
        (h' : Holding)
        → h.stream ≡ 0
        → (reserve_stream l h g).1 ≡ some h'
        → Change g h (reserve_stream l h g).0 h'
    stays : (reserve_stream l h g).1 ≡ none → Change g h (reserve_stream l h g).0 h
    drops : (rereads : Bool) → Change g h (drop_upload rereads h g).0 (drop_upload rereads h g).1
    captures : (n : ℕ) → Change g h (capture_part l n h g).0 (capture_part l n h g).1

  -- The gateway with the requests that are alive, which take their steps in any order.
  pub data Reaches : Gateway → List Holding → Type 0 where
    start : (rejected : ℕ) → Reaches (record { buffered = 0; ingress = 0; rejected = rejected }) []
    enters :
        {g : Gateway} {live : List Holding} (size : Option ℕ) (h : Holding)
        → Reaches g live
        → (admit l size g).1 ≡ admitted h
        → Reaches (admit l size g).0 (h ∷ live)
    turned_away :
        {g : Gateway} {live : List Holding} (size : Option ℕ)
        → Reaches g live
        → (e : Refusal) → (admit l size g).1 ≡ refused e
        → Reaches (admit l size g).0 live
    changes :
        {g : Gateway} {h : Holding} {g' : Gateway} {h' : Holding} (xs ys : List Holding)
        {live : List Holding}
        → Reaches g live
        → live ≡ xs ++ (h ∷ ys)
        → Change g h g' h'
        → Reaches g' (xs ++ (h' ∷ ys))
    leaves :
        {g : Gateway} (h : Holding) (xs ys : List Holding) {live : List Holding}
        → Reaches g live
        → live ≡ xs ++ (h ∷ ys)
        → Reaches (depart h g) (xs ++ ys)

  pub record IsBalanced (g : Gateway) (live : List Holding) : Type 0 where
    pub exact : g.buffered ≡ held live
    pub places : g.ingress ≡ length live
    pub within : g.buffered ≤ l.max_buffered
    pub room : g.ingress ≤ l.ingress_places

  -- A change moves the counter and the holding alike.
  record Moves (g : Gateway) (h : Holding) (g' : Gateway) (h' : Holding) : Type 0 where
    alike : g'.buffered + held_by h ≡ g.buffered + held_by h'
    same_places : g'.ingress ≡ g.ingress
    under : g.buffered ≤ l.max_buffered → g'.buffered ≤ l.max_buffered

  abbrev Both : Gateway → Holding → Gateway × Holding → Type 0
  Both g h (g', h') = Moves g h g' h'

  -- What an admission leaves, by its answer.
  abbrev Admits : List Holding → Gateway × Admission → Type 0
  Admits live (g, admitted h) = IsBalanced g (h ∷ live)
  Admits live (g, refused e) = IsBalanced g live
