-- ===== src/Protocol/Sse.antt =====
-- internal/protocol/sse.go: the reader of server-sent events, and the data of a frame.
--
-- A stream is its bytes and how it ends. bufio.Reader is Go's: ReadSlice gives the bytes up to a
-- newline, or a full buffer of `size` bytes without one, or what is left with the error of the end.
-- (The end is taken to come by a read of its own.)
pub mod Split
pub mod Frames
pub mod Lines
use clash_of_tokens.Base.{
  ℕ, zero, suc, ◌+◌, Bool, false, ◌&&◌, ◌||◌, List, [], ◌∷◌, ◌++◌, Option, none, some, ltb, eqb,
  if◌then◌else◌, length, is_empty, or_else,
}

pub data Cut : Type 0 where
  newline buffer_full ended : Cut

-- bufio.Reader.ReadSlice('\n') with room for so many bytes: the line, what follows, and the cause.
unfoldable pub read_slice : ℕ → List ℕ → List ℕ × List ℕ × Cut
read_slice zero xs = ([], xs, buffer_full)
read_slice (suc k) [] = ([], [], ended)
read_slice (suc k) (x ∷ xs) =
    let (line, rest, cut) = read_slice k xs in
    if eqb x 10 then (x ∷ [], xs, newline) else (x ∷ line, rest, cut)

-- What Next returns: a frame, or one of its errors.
pub data Event : Type 0 where
  frame : List ℕ → Event
  eof exceeds_limit truncated : Event

abbrev pub starts_with_cr : List ℕ → Bool
starts_with_cr [] = false
starts_with_cr (x ∷ xs) = eqb x 13

-- An empty line is LF or CRLF.
unfoldable pub is_blank_line : ℕ → List ℕ → Bool
is_blank_line line_bytes line =
    eqb line_bytes 1 || (eqb line_bytes 2 && (eqb (length line) 2 && starts_with_cr line))

-- A round of Next once ReadSlice has answered, with the frame so far, the bytes of the line so far
-- and what the next round makes of a line that goes on, or of a fresh one. `eof_end` says that the
-- stream ends by io.EOF.
unfoldable pub after_slice :
    ℕ
    → Bool
    → List ℕ
    → ℕ
    → List ℕ × List ℕ × Cut
    → Option (Event × List ℕ)
    → Option (Event × List ℕ)
    → Option (Event × List ℕ)
unfolding is_blank_line
after_slice limit eof_end acc line_bytes (line, rest, cut) more fresh =
    if ltb limit (length acc + length line) then some (exceeds_limit, rest) else (elim cut [
      | buffer_full ↦ more
      | ended ↦ some ((if eof_end && is_empty (acc ++ line) then eof else truncated), rest)
      | newline ↦
          if is_blank_line (line_bytes + length line) line
          then some (frame (acc ++ line), rest)
          else fresh
    ])

-- The loop of Next. `none` means that the fuel ran out.
unfoldable pub next_loop : ℕ → ℕ → ℕ → Bool → List ℕ → ℕ → List ℕ → Option (Event × List ℕ)
unfolding after_slice
next_loop zero size limit eof_end acc line_bytes input = none
next_loop (suc fuel) size limit eof_end acc line_bytes input =
    let slice = read_slice size input in
    let more =
      next_loop fuel size limit eof_end (acc ++ slice.0) (line_bytes + length slice.0) slice.1 in
    let fresh = next_loop fuel size limit eof_end (acc ++ slice.0) 0 slice.1 in
    after_slice limit eof_end acc line_bytes slice more fresh

-- SSEReader.Next. Each round but the last reads a byte, so that this fuel is enough.
unfoldable pub next : ℕ → ℕ → Bool → List ℕ → Option (Event × List ℕ)
next size limit eof_end input = next_loop (suc (length input)) size limit eof_end [] 0 input

-- bytes.Cut at a newline.
unfoldable pub cut_line : List ℕ → List ℕ × List ℕ
cut_line [] = ([], [])
cut_line (x ∷ xs) =
    let (line, rest) = cut_line xs in if eqb x 10 then ([], xs) else (x ∷ line, rest)

-- bytes.TrimSuffix(line, "\r").
unfoldable pub trim_cr : List ℕ → List ℕ
trim_cr [] = []
trim_cr (x ∷ []) = if eqb x 13 then [] else x ∷ []
trim_cr (x ∷ (y ∷ ys)) = x ∷ trim_cr (y ∷ ys)

-- The rest after a prefix, where the bytes have it.
unfoldable pub strip_prefix : List ℕ → List ℕ → Option (List ℕ)
strip_prefix [] xs = some xs
strip_prefix (p ∷ ps) [] = none
strip_prefix (p ∷ ps) (x ∷ xs) = let rest = strip_prefix ps xs in if eqb p x then rest else none

abbrev pub data_field : List ℕ
data_field = b'd' ∷ b'a' ∷ b't' ∷ b'a' ∷ b':' ∷ []

-- bytes.TrimPrefix(v, " ").
abbrev pub trim_space_prefix : List ℕ → List ℕ
trim_space_prefix [] = []
trim_space_prefix (x ∷ xs) = if eqb x 32 then xs else x ∷ xs

-- The data with one more line; `none` is the nil slice.
unfoldable pub join_line : Option (List ℕ) → List ℕ → Option (List ℕ)
join_line none v = some v
join_line (some xs) v = some (xs ++ (10 ∷ v))

unfoldable pub add_line : Option (List ℕ) → List ℕ → Option (List ℕ)
unfolding trim_cr strip_prefix join_line
add_line acc line = elim (strip_prefix data_field (trim_cr line)) [
  | none ↦ acc
  | some v ↦ join_line acc (trim_space_prefix v)
]

-- The loop of SSEData, a round for each line of the frame.
unfoldable pub sse_loop : ℕ → Option (List ℕ) → List ℕ → Option (List ℕ)
unfolding cut_line add_line
sse_loop zero acc xs = acc
sse_loop (suc fuel) acc [] = acc
sse_loop (suc fuel) acc (x ∷ xs) =
    let (line, rest) = cut_line (x ∷ xs) in sse_loop fuel (add_line acc line) rest

unfoldable pub sse_data : List ℕ → List ℕ
unfolding sse_loop
sse_data input = or_else (sse_loop (length input) none input) []
