-- ===== src/Utils/Files.antt =====
-- internal/utils/utils.go: IDs and file names. The random bytes of an ID are an argument. The file
-- system calls of that file are not modelled.
pub mod Laws
use gdrive_bot.Base.{
  ℕ, ◌+◌, ◌-◌, ◌/◌, ◌%◌, Bool, ◌||◌, List, [], ◌∷◌, ◌++◌, map, Str, bytes, ◌==◌, ltb, if◌then◌else◌,
}

-- one digit of hex.EncodeToString
unfoldable pub hex_digit : ℕ → ℕ
hex_digit n = if ltb n 10 then 48 + n else 87 + n

-- hex.EncodeToString
unfoldable pub hex_encode : List ℕ → Str
unfolding hex_digit
hex_encode [] = []
hex_encode (b ∷ bs) = hex_digit (b / 16 % 16) ∷ hex_digit (b % 16) ∷ hex_encode bs

-- NewID, of the eight bytes that were drawn
unfoldable pub new_id : List ℕ → Str
unfolding hex_encode
new_id drawn = hex_encode drawn

-- unsafeFilenameChars, all of them single bytes
unfoldable pub is_unsafe : ℕ → Bool
is_unsafe c =
    c == b'/'
    || (c == b'\\'
        || (c == b':'
            || (c == b'*'
                || (c == b'?'
                    || (c == 34 || (c == b'<' || (c == b'>' || (c == b'|' || c == 0))))))))

abbrev pub or_random : List ℕ → Str → Str
or_random drawn [] = bytes "file_" ++ new_id drawn
or_random drawn (c ∷ s) = c ∷ s

-- SafeFilename; `drawn` is for a name that is empty
unfoldable pub safe_filename : List ℕ → Str → Str
unfolding is_unsafe new_id
safe_filename drawn name = or_random drawn (map (λ c. if is_unsafe c then b'_' else c) name)
