-- ===== src/Utils/Format/Laws.antt =====
-- internal/utils/format.go: units, durations and shortened names.
use gdrive_bot.Base.{
  ℕ, zero, suc, ◌+◌, ◌-◌, ◌*◌, ◌/◌, ◌%◌, ◌^◌, ◌≤◌, ◌<◌, ◌≡◌, refl, Option, none, some, [], ◌∷◌,
  ◌++◌, Str, arith, length, length-append, length-take, length-drop, take, drop, pos, bytes,
}
use gdrive_bot.Utils.Format.{
  scale, scale_fuel, scaled, unit_letter, human_bytes, second_ns, round_second, clock_parts,
  truncate_middle,
}

-- The unit that the loop finds is the largest power of 1024 that the count reaches.
abbrev pub Fits : ℕ → Option (ℕ × ℕ) → Type 0
Fits b none = ⊥
Fits b (some (div, exp)) = (exp < 6) × (div ≡ 1024 ^ (exp + 1)) × (div ≤ b) × (b < div * 1024)

scale-Fits : (b : ℕ) → 1024 ≤ b → b < 2 ^ 63 → Fits b (scale scale_fuel (b / 1024) 1024 0)
unfolding scale
scale-Fits b lo hi = ground arith

-- What is printed of a byte count of at least one kilobyte: a number of units, and the unit.
abbrev pub Printed : (ℕ → ℕ → Str) → ℕ → Option Str → Type 0
Printed tenths b out =
    (exp : ℕ) × (c : ℕ) × (out ≡ some (tenths b (1024 ^ (exp + 1)) ++ b' ' ∷ c ∷ b'B' ∷ []))
    × (unit_letter exp ≡ some c)
    × (1024 ^ (exp + 1) ≤ b)
    × (b < 1024 ^ (exp + 1) * 1024)

unit_letter_total : (e : ℕ) → e < 6 → (c : ℕ) × (unit_letter e ≡ some c)
unfolding unit_letter
unit_letter_total zero h = (_, refl)
unit_letter_total (suc zero) h = (_, refl)
unit_letter_total (suc (suc zero)) h = (_, refl)
unit_letter_total (suc (suc (suc zero))) h = (_, refl)
unit_letter_total (suc (suc (suc (suc zero)))) h = (_, refl)
unit_letter_total (suc (suc (suc (suc (suc zero))))) h = (_, refl)
unit_letter_total (suc (suc (suc (suc (suc (suc e)))))) h = absurd (omega arith)

scaled-Printed :
    (tenths : ℕ → ℕ → Str) (b : ℕ) (r : Option (ℕ × ℕ))
    → Fits b r
    → Printed tenths b (scaled tenths b r)
unfolding scaled
scaled-Printed tenths b none h = absurd h
scaled-Printed tenths b (some (div, exp)) (h0, h1, h2, h3) =
    let (c, e) = unit_letter_total exp h0 in
    (exp, c, rw (e, scaled, ← h1), e, rw (← h1) h2, rw (← h1) h3)

-- round_second is within half a second.
pub round_second_near :
    (d : ℕ)
    → d + second_ns < 2 ^ 63
    → (round_second d % second_ns ≡ 0)
      × (2 * round_second d ≤ 2 * d + second_ns)
      × (2 * d ≤ 2 * round_second d + second_ns)
unfolding round_second
round_second_near d h = ground arith

pub clock_parts_lem :
    (d : ℕ)
    → d % second_ns ≡ 0
    → let (h, m, s) = clock_parts d in
      ((h * 3600 + m * 60 + s) * second_ns ≡ d) × (m < 60) × (s < 60)
unfolding clock_parts
clock_parts_lem d h = omega arith

-- Every int64 byte count of a kilobyte or more is printed, in the largest unit that it reaches.
pub human_bytes_unit :
    (tenths : ℕ → ℕ → Str) (b : ℕ)
    → 1024 ≤ b
    → b < 2 ^ 63
    → Printed tenths b (human_bytes tenths (pos b))
unfolding human_bytes
human_bytes_unit tenths b lo hi =
    let run : human_bytes tenths (pos b) ≡ scaled tenths b (scale scale_fuel (b / 1024) 1024 0) =
      ground arith in
    rw run (scaled-Printed tenths b _ (scale-Fits b lo hi))

pub length-truncate_middle : (s : Str) (n : ℕ) → length (truncate_middle s n) ≤ n
unfolding truncate_middle
length-truncate_middle s n = ground (
  arith,
  length-take n s,
  length-take ((n - 3) / 2) s,
  length-drop (length s - (n - 3 - (n - 3) / 2)) s,
  length-append (take ((n - 3) / 2) s) (bytes "..." ++ drop (length s - (n - 3 - (n - 3) / 2)) s),
)
