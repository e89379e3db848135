-- ===== src/Drive/Query.antt =====
-- The query that internal/drive/explorer.go sends for a search, read by the documented syntax of the
-- Drive's query strings: in a literal, a backslash takes the next character as it is.
use gdrive_bot.Base.{
  ℕ, ◌≡◌, ◌≢◌, refl, Option, none, some, [], ◌∷◌, ◌++◌, Str, ◌==◌, All, arith, if◌then◌else◌, Bool,
  true, false,
}
use gdrive_bot.Drive.{escape_drive_query_string}

abbrev with_char : Option (Str × Str) → ℕ → Option (Str × Str)
with_char none c = none
with_char (some (lit, rest)) c = some (c ∷ lit, rest)

-- The literal whose opening quote has been read, and the text behind its closing quote; `true`
-- stands behind a backslash.
unfoldable pub read_literal : Bool → Str → Option (Str × Str)
read_literal b [] = none
read_literal true (c ∷ s) = with_char (read_literal false s) c
read_literal false (c ∷ s) =
    let rest = read_literal false s in
    let taken = read_literal true s in
    if c == b'\'' then some ([], s) else if c == b'\\' then taken else with_char rest c

-- A search text with no backslash is read back as it was typed.
pub read_literal-escape_drive_query_string :
    (query rest : Str)
    → All (λ c. c ≢ b'\\') query
    → read_literal false (escape_drive_query_string query ++ b'\'' ∷ rest) ≡ some (query, rest)
unfolding read_literal escape_drive_query_string
read_literal-escape_drive_query_string [] rest h = refl
read_literal-escape_drive_query_string (c ∷ s) rest h =
    ground (arith, read_literal-escape_drive_query_string s rest h.1, h.0)

-- A backslash before a quote in the search text ends the literal inside that text.
pub escape_drive_query_string_injects :
    (before after rest : Str)
    → All (λ c. (c ≢ b'\\') × (c ≢ b'\'')) before
    → read_literal false
        (escape_drive_query_string (before ++ (b'\\' ∷ b'\'' ∷ after)) ++ b'\'' ∷ rest)
      ≡ some (before ++ b'\\' ∷ [], escape_drive_query_string after ++ b'\'' ∷ rest)
unfolding read_literal escape_drive_query_string
escape_drive_query_string_injects [] after rest h = refl
escape_drive_query_string_injects (c ∷ s) after rest h =
    ground (arith, escape_drive_query_string_injects s after rest h.1, h.0)
