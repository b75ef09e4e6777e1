-- ===== src/Api/Budget.antt =====
-- internal/api/server.go: the bytes that requests reserve of the gateway, and the places at its ingress.
--
-- A request holds three reservations: of its upload, of its stream and of what is kept of an answer
-- for the usage in it. `buffered` is one counter for all, which reserve raises by a compare-and-swap;
-- a call of it is a step. Each deferred function gives back what its request holds when it ends.
pub mod Balance
use clash_of_tokens.Base.{
  ℕ, ◌+◌, ◌-◌, ◌*◌, Bool, true, false, not, Option, none, some, ltb, leb, if◌then◌else◌,
}
use clash_of_tokens.Api.Ingress.{smaller, reserved_bytes}

pub record Limits : Type 0 where
  pub max_buffered : ℕ
  pub max_output : ℕ
  pub max_body : ℕ
  pub ingress_places : ℕ

pub record Holding : Type 0 where
  pub upload : ℕ
  pub stream : ℕ
  pub capture : ℕ
  pub capturing : Bool

pub record Gateway : Type 0 where
  pub buffered : ℕ
  pub ingress : ℕ
  pub rejected : ℕ

-- Server.reserve.
unfoldable pub reserve : Limits → ℕ → Gateway → Option Gateway
reserve l n g =
    if leb (g.buffered + n) l.max_buffered
    then some (record g { buffered = g.buffered + n })
    else none

abbrev pub unreserve : ℕ → Gateway → Gateway
unreserve n g = record g { buffered = g.buffered - n }

abbrev pub reject : Gateway → Gateway
reject g = record g { rejected = g.rejected + 1 }

pub data Refusal : Type 0 where
  ingress_exhausted body_too_large byte_budget_exhausted : Refusal

-- The size that is reserved: that of a chunked body, which declares none, is the largest.
abbrev pub upload_size : Limits → Option ℕ → ℕ
upload_size l none = l.max_body
upload_size l (some n) = n

abbrev pub no_holding : Holding
no_holding = record { upload = 0; stream = 0; capture = 0; capturing = true }

pub data Admission : Type 0 where
  admitted : Holding → Admission
  refused : Refusal → Admission

abbrev pub with_upload : ℕ → Gateway → Option Gateway → Gateway × Admission
with_upload n g none =
    (reject (record g { ingress = g.ingress - 1 }), refused byte_budget_exhausted)
with_upload n g (some h) = (h, admitted (record no_holding { upload = n }))

-- The start of generate: a place at the ingress, and the bytes of the upload.
unfoldable pub admit : Limits → Option ℕ → Gateway → Gateway × Admission
unfolding reserve
admit l content_length g =
    if leb l.ingress_places g.ingress
    then (reject g, refused ingress_exhausted)
    else if ltb l.max_body (upload_size l content_length)
    then (g, refused body_too_large)
    else with_upload (reserved_bytes (upload_size l content_length))
        (record g { ingress = g.ingress + 1 })
        (reserve l (reserved_bytes (upload_size l content_length))
          (record g { ingress = g.ingress + 1 }))

-- When the upload has ended, the request keeps what it really holds, where that is less.
unfoldable pub shrink_upload : ℕ → Holding → Gateway → Gateway × Holding
shrink_upload retained h g =
    if ltb retained h.upload
    then (unreserve (h.upload - retained) g, record h { upload = retained })
    else (g, h)

abbrev pub stream_budget : Limits → ℕ
stream_budget l = 4 * smaller l.max_output 1_048_576 + 8192

abbrev pub streaming : ℕ → Holding → Gateway → Option Gateway → Gateway × Option Holding
streaming n h g none = (reject g, none)
streaming n h g (some g') = (g', some (record h { stream = n }))

-- A request for a stream reserves that too; `none` is the refusal.
unfoldable pub reserve_stream : Limits → Holding → Gateway → Gateway × Option Holding
unfolding reserve
reserve_stream l h g = streaming (stream_budget l) h g (reserve l (stream_budget l) g)

-- The upload is given back once the upstream has read it, but by an adapter that reads it again.
unfoldable pub drop_upload : Bool → Holding → Gateway → Gateway × Holding
drop_upload rereads h g =
    if rereads then (g, h) else (unreserve h.upload g, record h { upload = 0 })

abbrev pub captured : ℕ → Holding → Gateway → Option Gateway → Gateway × Holding
captured n h g none = (g, record h { capturing = false })
captured n h g (some g') = (g', record h { capture = h.capture + n })

-- A part of the answer is kept for its usage, within a limit and the budget.
unfoldable pub capture_part : Limits → ℕ → Holding → Gateway → Gateway × Holding
unfolding reserve
capture_part l n h g =
    if not h.capturing
    then (g, h)
    else if ltb (smaller l.max_output 1_048_576) (h.capture + n)
    then (g, record h { capturing = false })
    else captured n h g (reserve l n g)

-- The deferred functions of a request.
unfoldable pub depart : Holding → Gateway → Gateway
depart h g = record g {
  buffered = g.buffered - h.capture - h.stream - h.upload;
  ingress = g.ingress - 1;
}
