-- ===== src/Utils/Files/Laws.antt =====
-- internal/utils/utils.go: what IDs and safe file names look like.
use gdrive_bot.Base.{
  ℕ, ◌*◌, ◌≤◌, ◌<◌, ◌≡◌, ◌≢◌, refl, ◌⊎◌, List, [], ◌∷◌, map, Str, length, All, arith, if◌then◌else◌,
}
use gdrive_bot.Utils.Files.{hex_digit, hex_encode, new_id, is_unsafe, or_random, safe_filename}

-- a lower-case hexadecimal digit
abbrev pub IsHex : ℕ → Type 0
IsHex c = ((b'0' ≤ c) × (c ≤ b'9')) ⊎ ((b'a' ≤ c) × (c ≤ b'f'))

-- the form of an ID
abbrev pub IsId : Str → Type 0
IsId s = (length s ≡ 16) × All IsHex s

hex_digit-IsHex : (n : ℕ) → n < 16 → IsHex (hex_digit n)
unfolding hex_digit
hex_digit-IsHex n h = ground arith

hex_encode-IsHex : (bs : List ℕ) → All IsHex (hex_encode bs)
unfolding hex_encode
hex_encode-IsHex [] = tt
hex_encode-IsHex (b ∷ bs) =
    (hex_digit-IsHex _ (omega arith), (hex_digit-IsHex _ (omega arith), hex_encode-IsHex bs))

length-hex_encode : (bs : List ℕ) → length (hex_encode bs) ≡ 2 * length bs
unfolding hex_encode
length-hex_encode [] = omega arith
length-hex_encode (b ∷ bs) = omega (arith, length-hex_encode bs)

-- Eight bytes make an ID.
pub new_id-IsId : (drawn : List ℕ) → length drawn ≡ 8 → IsId (new_id drawn)
unfolding new_id
new_id-IsId drawn h = (omega (arith, length-hex_encode drawn), hex_encode-IsHex drawn)

-- A character that can stand in one component of a path.
abbrev pub IsSafe : ℕ → Type 0
IsSafe c = (c ≢ b'/') × (c ≢ b'\\') × (c ≢ 0)

hex-IsSafe : (s : Str) → All IsHex s → All IsSafe s
hex-IsSafe [] h = tt
hex-IsSafe (c ∷ s) h = (ground arith, hex-IsSafe s h.1)

replaced-IsSafe : (c : ℕ) → IsSafe (if is_unsafe c then b'_' else c)
unfolding is_unsafe
replaced-IsSafe c = ground arith

map-IsSafe : (s : Str) → All IsSafe (map (λ c. if is_unsafe c then b'_' else c) s)
map-IsSafe [] = tt
map-IsSafe (c ∷ s) = (replaced-IsSafe c, map-IsSafe s)

length-map : (f : ℕ → ℕ) (s : Str) → length (map f s) ≡ length s
length-map f [] = refl
length-map f (c ∷ s) = omega (arith, length-map f s)

or_random-IsSafe :
    (drawn : List ℕ) (s : Str)
    → All IsSafe s
    → All IsSafe (or_random drawn s) × (length s ≤ length (or_random drawn s))
unfolding new_id
or_random-IsSafe drawn [] h = (
  (
    omega arith,
    (
      omega arith,
      (omega arith, (omega arith, (omega arith, hex-IsSafe _ (hex_encode-IsHex drawn)))),
    ),
  ),
  omega arith,
)
or_random-IsSafe drawn (c ∷ s) h = (h, omega arith)

-- A safe file name has no slash, backslash or zero byte, and is not shorter than the name that it
-- stands for.
pub safe_filename-IsSafe :
    (drawn : List ℕ) (name : Str)
    → All IsSafe (safe_filename drawn name) × (length name ≤ length (safe_filename drawn name))
unfolding safe_filename
safe_filename-IsSafe drawn name =
    let (safe, long) =
      or_random-IsSafe drawn (map (λ c. if is_unsafe c then b'_' else c) name) (map-IsSafe name) in
    (safe, omega (arith, length-map (λ c. if is_unsafe c then b'_' else c) name))
