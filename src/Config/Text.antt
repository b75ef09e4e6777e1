-- ===== src/Config/Text.antt =====
-- The tests on texts that internal/config makes: lengths in bytes, the identifier of config.go, and
-- what it uses of Go's package strings. A Go string is UTF-8 here, as its JSON decoder leaves it.
use Prim.Native.Char.{code}
use Prim.Native.String.{String}
use text.Mathlib.Text.{starts_with}
use clash_of_tokens.Base.{
  ℕ, Bool, true, false, ◌&&◌, ◌||◌, ltb, leb, eqb, if◌then◌else◌, ◌+◌, ◌==◌, trim_prefix,
}

-- The bytes that a character takes in UTF-8.
unfoldable pub char_bytes : ℕ → ℕ
char_bytes c = if ltb c 128 then 1 else if ltb c 2048 then 2 else if ltb c 65536 then 3 else 4

-- `len(s)`.
unfoldable pub byte_len : String → ℕ
unfolding char_bytes
byte_len String.[] = 0
byte_len (String.◌∷◌ c s) = char_bytes (code c) + byte_len s

abbrev pub between : ℕ → ℕ → ℕ → Bool
between a b c = leb a c && leb c b

-- [a-zA-Z0-9]
unfoldable pub is_alphanumeric : ℕ → Bool
is_alphanumeric c = between 97 122 c || (between 65 90 c || between 48 57 c)

-- [a-zA-Z0-9_.-]
unfoldable pub is_name_char : ℕ → Bool
unfolding is_alphanumeric
is_name_char c = is_alphanumeric c || (eqb c 95 || (eqb c 46 || eqb c 45))

unfoldable pub all_name_chars : String → Bool
unfolding is_name_char
all_name_chars String.[] = true
all_name_chars (String.◌∷◌ c s) = is_name_char (code c) && all_name_chars s

-- identifier.MatchString: a first character and at most 95 more.
unfoldable pub is_identifier : String → Bool
unfolding all_name_chars byte_len
is_identifier String.[] = false
is_identifier (String.◌∷◌ c s) =
    is_alphanumeric (code c) && (all_name_chars s && leb (byte_len s) 95)

-- strings.ContainsAny(s, "?#\\").
unfoldable pub has_path_mark : String → Bool
has_path_mark String.[] = false
has_path_mark (String.◌∷◌ c s) =
    eqb (code c) 63 || (eqb (code c) 35 || (eqb (code c) 92 || has_path_mark s))

-- strings.TrimRight(s, "/").
unfoldable pub trim_slashes : String → String
trim_slashes String.[] = String.[]
trim_slashes (String.◌∷◌ c s) =
    let rest = trim_slashes s in
    if rest == "" && eqb (code c) 47 then String.[] else String.◌∷◌ c rest

-- unicode.IsSpace.
unfoldable pub is_space : ℕ → Bool
is_space c =
    between 9 13 c
    || (eqb c 32
        || (eqb c 133
            || (eqb c 160
                || (eqb c 5760
                    || (between 8192 8202 c
                        || (between 8232 8233 c || (eqb c 8239 || (eqb c 8287 || eqb c 12288))))))))

-- strings.TrimSpace(s) == "".
unfoldable pub is_blank : String → Bool
unfolding is_space
is_blank String.[] = true
is_blank (String.◌∷◌ c s) = is_space (code c) && is_blank s

-- ValidCredentialRef.
unfoldable pub valid_credential_ref : String → Bool
unfolding is_identifier
valid_credential_ref ref =
    ref == "" || (starts_with ref "cred://" && is_identifier (trim_prefix ref "cred://"))
