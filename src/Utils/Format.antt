-- ===== src/Utils/Format.antt =====
-- internal/utils/format.go. Printing a float64 is a parameter: `tenths b d` is what
-- `%.1f` prints of `float64(b)/float64(d)`. Durations are nonnegative, as at both callers.
pub mod Laws
use gdrive_bot.Base.{
  ℕ, zero, suc, ◌+◌, ◌-◌, ◌*◌, ◌/◌, ◌%◌, ◌^◌, Bool, ◌||◌, Option, none, some, List, [], ◌∷◌, ◌++◌,
  Str, bytes, ltb, leb, if◌then◌else◌, ℤ, pos, negsuc, format_int, format_nat, length, take, drop,
}

-- strings.Join
unfoldable pub join : Str → List Str → Str
join sep [] = []
join sep (p ∷ []) = p
join sep (p ∷ q ∷ ps) = p ++ sep ++ join sep (q ∷ ps)

-- `for n := b / unit; n >= unit; n /= unit { div *= unit; exp++ }`, with fuel
unfoldable pub scale : ℕ → ℕ → ℕ → ℕ → Option (ℕ × ℕ)
scale zero n div exp = none
scale (suc f) n div exp =
    let next = scale f (n / 1024) (div * 1024) (exp + 1) in
    if leb 1024 n then next else some (div, exp)

-- `"KMGTPE"[exp]`; an index out of range panics.
unfoldable pub unit_letter : ℕ → Option ℕ
unit_letter zero = some b'K'
unit_letter (suc zero) = some b'M'
unit_letter (suc (suc zero)) = some b'G'
unit_letter (suc (suc (suc zero))) = some b'T'
unit_letter (suc (suc (suc (suc zero)))) = some b'P'
unit_letter (suc (suc (suc (suc (suc zero))))) = some b'E'
unit_letter (suc (suc (suc (suc (suc (suc n)))))) = none

-- Enough rounds for an int64, which is below 1024 ^ 7.
abbrev pub scale_fuel : ℕ
scale_fuel = 7

unfoldable pub scaled : (ℕ → ℕ → Str) → ℕ → Option (ℕ × ℕ) → Option Str
unfolding unit_letter
scaled tenths b none = none
scaled tenths b (some (div, exp)) = elim (unit_letter exp) [
  | none ↦ none
  | some c ↦ some (tenths b div ++ b' ' ∷ c ∷ b'B' ∷ [])
]

-- HumanBytes; `none` is a panic or a loop that does not end.
unfoldable pub human_bytes : (ℕ → ℕ → Str) → ℤ → Option Str
unfolding scale scaled
human_bytes tenths (negsuc n) = some (format_int (negsuc n) ++ bytes " B")
human_bytes tenths (pos b) =
    if ltb b 1024
    then some (format_int (pos b) ++ bytes " B")
    else scaled tenths b (scale scale_fuel (b / 1024) 1024 0)

abbrev pub second_ns : ℕ
second_ns = 1000000000

abbrev pub max_duration : ℕ
max_duration = 2 ^ 63 - 1

-- d.Round(time.Second), which saturates
unfoldable pub round_second : ℕ → ℕ
round_second d =
    let r = d % second_ns in
    if ltb (r + r) second_ns
    then d - r
    else if ltb (d + second_ns - r) (2 ^ 63)
    then d + second_ns - r
    else max_duration

-- Hours, minutes and seconds of a rounded duration.
unfoldable pub clock_parts : ℕ → ℕ × ℕ × ℕ
clock_parts d =
    let h = d / (3600 * second_ns) in
    let d' = d - h * (3600 * second_ns) in
    let m = d' / (60 * second_ns) in let d'' = d' - m * (60 * second_ns) in (h, m, d'' / second_ns)

unfoldable pub shown_parts : ℕ × ℕ × ℕ → List Str
shown_parts (h, m, s) =
    (if ltb 0 h then (format_nat h ++ b'h' ∷ []) ∷ [] else [])
    ++ ((if ltb 0 h || ltb 0 m then (format_nat m ++ b'm' ∷ []) ∷ [] else [])
        ++ (format_nat s ++ b's' ∷ []) ∷ [])

unfoldable pub human_duration : ℕ → Str
unfolding join round_second clock_parts shown_parts
human_duration d = join (b' ' ∷ []) (shown_parts (clock_parts (round_second d)))

-- TruncateMiddle, for `maxLen ≥ 0` (every call passes 40); it cuts bytes.
unfoldable pub truncate_middle : Str → ℕ → Str
truncate_middle s max_len =
    if leb (length s) max_len
    then s
    else if ltb max_len 5
    then take max_len s
    else let keep = max_len - 3 in
      let head = keep / 2 in
      let tail = keep - head in take head s ++ (bytes "..." ++ drop (length s - tail) s)
