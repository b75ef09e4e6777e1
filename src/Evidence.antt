-- ===== src/Evidence.antt =====
-- internal/evidence/store.go: the bounded history of what the operator's checks found. JSON and the
-- file system are the record Disk: the size of the encoded entries, if they encode, and whether the
-- calls that write the file succeed.
pub mod History
use Prim.Native.String.{String}
use clash_of_tokens.Base.{
  ℕ, Bool, true, false, not, ◌&&◌, ◌||◌, List, [], ◌∷◌, ◌++◌, ◌⊎◌, inl, inr, Option, none, some,
  if◌then◌else◌, ltb, eqb, ◌+◌, ◌-◌, ◌%◌, ◌^◌, length, drop, get_last?,
}
use clash_of_tokens.Base.Int.{ℤ}
use clash_of_tokens.Config.Text.{byte_len}

pub record Entry : Type 0 where
  pub binding : String
  pub sequence : ℕ
  pub revision : ℕ
  pub kind : String
  pub resource : String
  pub model : String
  pub protocol : String
  pub checked_at : ℕ
  pub method : String
  pub status : String
  pub upstream_status : ℤ
  pub protocol_complete : Bool
  pub output_observed : Bool
  pub count : ℤ

pub record Disk : Type 0 where
  pub encoded_size : List Entry → Option ℕ
  pub written : List Entry → Bool

pub data AppendError : Type 0 where
  bad_field_size : AppendError
  over_capacity : AppendError
  write_failed : AppendError

unfoldable pub bad_fields : Entry → Bool
bad_fields e =
    ltb 64 (byte_len e.binding)
    || (ltb 512 (byte_len e.resource)
        || (ltb 512 (byte_len e.model)
            || (ltb 128 (byte_len e.method)
                || (ltb 128 (byte_len e.status) || ltb 64 (byte_len e.kind)))))

unfoldable pub next_sequence : List Entry → ℕ
next_sequence es = elim (get_last? es) [ none ↦ 1 | some e ↦ (e.sequence + 1) % 2 ^ 64 ]

-- The entry as it is stored: numbered, and dated if it has no date.
unfoldable pub stamped : ℕ → List Entry → Entry → Entry
unfolding next_sequence
stamped now es e = record e {
  sequence = next_sequence es;
  checked_at = if eqb e.checked_at 0 then now else e.checked_at;
}

-- At most the last 1000.
unfoldable pub latest : List Entry → List Entry
latest es = if ltb 1000 (length es) then drop (length es - 1000) es else es

unfoldable pub commit : Disk → List Entry → List Entry → Option AppendError × List Entry
commit disk es next = elim (disk.encoded_size next) [
  | none ↦ (some over_capacity, es)
  | some n ↦
      if ltb 2097152 n
      then (some over_capacity, es)
      else if disk.written next
      then (none, next)
      else (some write_failed, es)
]

-- Append: its error, and the entries that the store then holds.
unfoldable pub append : Disk → ℕ → Entry → List Entry → Option AppendError × List Entry
unfolding bad_fields stamped latest commit
append disk now e es =
    if bad_fields e
    then (some bad_field_size, es)
    else commit disk es (latest (es ++ stamped now es e ∷ []))
