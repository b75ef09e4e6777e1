-- ===== src/Api/Ingress.antt =====
-- internal/api/server.go: readIngressBody for a chunked upload, whose size is not declared.
--
-- The reader answers each Read with some bytes, of which those fit that the slice has room for, and
-- with an error or none.
use clash_of_tokens.Base.{
  ℕ, zero, suc, ◌+◌, ◌-◌, ◌*◌, ◌≤◌, ◌<◌, ◌≡◌, List, [], ◌++◌, Option, none, some, ltb, leb, eqb,
  if◌then◌else◌, length, take, is_empty,
}

pub data ReadError : Type 0 where
  eof no_progress other_error : ReadError

pub record ReadAnswer : Type 0 where
  pub bytes : List ℕ
  pub error : Option ReadError

-- The slice `body`, with its capacity, and the reads without a byte in a row.
pub record Upload : Type 0 where
  pub body : List ℕ
  pub capacity : ℕ
  pub empty_reads : ℕ

abbrev pub smaller : ℕ → ℕ → ℕ
smaller a b = if ltb a b then a else b

-- A full slice grows to twice its capacity, up to the limit.
unfoldable pub grow : ℕ → Upload → Upload
grow limit u =
    if eqb (length u.body) u.capacity
    then record u { capacity = smaller (u.capacity * 2) limit }
    else u

abbrev pub taken : ReadAnswer → Upload → List ℕ
taken a u = take (u.capacity - length u.body) a.bytes

unfoldable pub fill : ReadAnswer → Upload → Upload
fill a u = record u {
  body = u.body ++ taken a u;
  empty_reads = if is_empty (taken a u) then u.empty_reads + 1 else 0;
}

abbrev pub Ended : Type 0
Ended = Option (Upload × Option ReadError)

-- io.EOF is the end of a body and no error.
abbrev pub after_read : ReadAnswer → Upload → Ended → Ended
after_read a u more = elim a.error [
  | some eof ↦ some (u, none)
  | some no_progress ↦ some (u, some no_progress)
  | some other_error ↦ some (u, some other_error)
  | none ↦ if eqb u.empty_reads 100 then some (u, some no_progress) else more
]

-- The loop; `none` means that the fuel ran out.
unfoldable pub read_loop : ℕ → ℕ → (ℕ → ReadAnswer) → ℕ → Upload → Ended
unfolding grow fill
read_loop zero limit reads round u = none
read_loop (suc fuel) limit reads round u =
    let next = fill (reads round) (grow limit u) in
    let more = read_loop fuel limit reads (round + 1) next in
    if leb limit (length u.body) then some (u, none) else after_read (reads round) next more

-- At most 100 reads in a row give no byte, and no more than `size + 1` bytes are read.
unfoldable pub read_chunked : ℕ → (ℕ → ReadAnswer) → Ended
unfolding read_loop
read_chunked size reads =
    read_loop (100 * (size + 2) + 1) (size + 1) reads 0
      (record { body = []; capacity = smaller 4096 (size + 1); empty_reads = 0 })

-- The bytes that a request goes on to hold: the slice's capacity, a rewritten copy, and 8 KiB.
abbrev pub retained_bytes : Upload → ℕ
retained_bytes u = u.capacity + length u.body + 8192

abbrev pub reserved_bytes : ℕ → ℕ
reserved_bytes size = 2 * (size + 1) + 8192

record Fits (limit : ℕ) (u : Upload) : Type 0 where
  room : length u.body ≤ u.capacity
  bounded : u.capacity ≤ limit
  some_room : 0 < u.capacity
  patient : u.empty_reads < 100

abbrev measure : ℕ → Upload → ℕ
measure limit u = 100 * (limit - length u.body) + (100 - u.empty_reads)

record Grown (limit : ℕ) (u : Upload) (v : Upload) : Type 0 where
  same_body : v.body ≡ u.body
  same_empty : v.empty_reads ≡ u.empty_reads
  space : length u.body < v.capacity
  bounded : v.capacity ≤ limit

record Filled (limit : ℕ) (u : Upload) (w : Upload) : Type 0 where
  room : length w.body ≤ w.capacity
  bounded : w.capacity ≤ limit
  some_room : 0 < w.capacity
  patient : w.empty_reads ≤ 100
  closer : w.empty_reads < 100 → measure limit w < measure limit u

-- The upload that a read ends with.
abbrev Held : ℕ → Ended → Type 0
Held limit o =
    (r : Upload × Option ReadError) × (o ≡ some r)
    × (length r.0.body ≤ r.0.capacity)
    × (r.0.capacity ≤ limit)
