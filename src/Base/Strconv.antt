-- ===== src/Base/Strconv.antt =====
-- Go's `strconv.ParseInt(s, 10, 64)` and `strconv.Atoi`, whose values are the same on 64 bits.
use Prim.Native.Nat.{ℕ, suc, ◌+◌, ◌-◌, ◌*◌, ◌^◌, ◌≤◌, ◌<◌}
use mathlib.Core.Path.{◌≡◌, refl, ap, subst, ◌∙◌}
use mathlib.Core.Logic.{inl, inr}
use mathlib.Core.Bool.{Bool, true, false}
use mathlib.Core.List.{[], ◌∷◌}
use native.Mathlib.Omega.{arith}
use gdrive_bot.Base.Tests.{◌==◌, ltb, leb, if◌then◌else◌, Bool-cases}
use gdrive_bot.Base.Lists.{All, length}
use gdrive_bot.Base.Text.{Str}
use gdrive_bot.Base.Int.{ℤ, pos, negsuc, sub_ℕ}
use gdrive_bot.Base.Decimal.{
  is_digit, IsDigit, value_from, format_nat, format_int, format_nat-digits, format_nat-nonempty,
  value-format_nat,
}

pub data Unsigned : Type 0 where
  number : ℕ → Unsigned
  not_number : Unsigned
  overflow : Unsigned

-- What ParseInt gives: a number, a syntax error, or a range error with the closest number.
pub data Parsed : Type 0 where
  parsed : ℤ → Parsed
  bad_syntax : Parsed
  out_of_range : ℤ → Parsed

-- The loop of ParseUint behind the number `n`, which stops at the first digit too many.
unfoldable pub uint_from : ℕ → Str → Unsigned
uint_from n [] = number n
uint_from n (c ∷ s) =
    let rest = uint_from (n * 10 + (c - 48)) s in
    if is_digit c then (if ltb (n * 10 + (c - 48)) (2 ^ 64) then rest else overflow) else not_number

unfoldable pub parse_uint : Str → Unsigned
unfolding uint_from
parse_uint [] = not_number
parse_uint (c ∷ s) = uint_from 0 (c ∷ s)

unfoldable pub with_sign : Bool → Unsigned → Parsed
with_sign negative not_number = bad_syntax
with_sign false overflow = out_of_range (pos (2 ^ 63 - 1))
with_sign true overflow = out_of_range (negsuc (2 ^ 63 - 1))
with_sign false (number n) =
    if ltb n (2 ^ 63) then parsed (pos n) else out_of_range (pos (2 ^ 63 - 1))
with_sign true (number n) =
    if leb n (2 ^ 63) then parsed (sub_ℕ 0 n) else out_of_range (negsuc (2 ^ 63 - 1))

unfoldable pub parse_int : Str → Parsed
unfolding parse_uint with_sign
parse_int [] = bad_syntax
parse_int (c ∷ s) =
    if c == b'-'
    then with_sign true (parse_uint s)
    else if c == b'+'
    then with_sign false (parse_uint s)
    else with_sign false (parse_uint (c ∷ s))

-- The values of an int64.
abbrev pub InInt64 : ℤ → Type 0
InInt64 (pos n) = n < 2 ^ 63
InInt64 (negsuc n) = n < 2 ^ 63

pub value_from-grows : (n : ℕ) (s : Str) → n ≤ value_from n s
value_from-grows n [] = omega arith
value_from-grows n (c ∷ s) = omega (arith, value_from-grows (n * 10 + (c - b'0')) s)

uint_from-digits :
    (n : ℕ) (s : Str)
    → All IsDigit s
    → value_from n s < 2 ^ 64
    → uint_from n s ≡ number (value_from n s)
unfolding uint_from
uint_from-digits n [] d h = refl
uint_from-digits n (c ∷ s) d h = ground (
  arith,
  value_from-grows (n * 10 + (c - b'0')) s,
  uint_from-digits (n * 10 + (c - b'0')) s d.1 h,
)

parse_uint-digits :
    (s : Str)
    → 0 < length s
    → All IsDigit s
    → value_from 0 s < 2 ^ 64
    → parse_uint s ≡ number (value_from 0 s)
unfolding parse_uint
parse_uint-digits [] h0 d h = elim h0 [ ]
parse_uint-digits (c ∷ s) h0 d h = uint_from-digits 0 (c ∷ s) d h

format_nat-parse_uint : (n : ℕ) → n < 2 ^ 64 → parse_uint (format_nat n) ≡ number n
format_nat-parse_uint n h =
    subst (λ m. parse_uint (format_nat n) ≡ number m) (value-format_nat n)
      (parse_uint-digits (format_nat n) (format_nat-nonempty n) (format_nat-digits n)
        (omega (arith, value-format_nat n)))

-- A text that starts with a digit has no sign.
parse_int-unsigned :
    (s : Str) → 0 < length s → All IsDigit s → parse_int s ≡ with_sign false (parse_uint s)
unfolding parse_int
parse_int-unsigned [] h0 d = elim h0 [ ]
parse_int-unsigned (c ∷ s) h0 d = ground arith

parse_int_minus : (s : Str) → parse_int (b'-' ∷ s) ≡ with_sign true (parse_uint s)
unfolding parse_int
parse_int_minus s = refl

with_sign-InInt64 : (b : Bool) (u : Unsigned) (z : ℤ) → with_sign b u ≡ parsed z → InInt64 z
unfolding with_sign
with_sign-InInt64 true (number n) z e = ground arith
with_sign-InInt64 false (number n) z e = ground arith
with_sign-InInt64 true overflow z e = ground arith
with_sign-InInt64 false overflow z e = ground arith
with_sign-InInt64 b not_number z e = ground arith

with_sign_pos : (n : ℕ) → n < 2 ^ 63 → with_sign false (number n) ≡ parsed (pos n)
unfolding with_sign
with_sign_pos n h = ground arith

with_sign_neg : (n : ℕ) → n < 2 ^ 63 → with_sign true (number (suc n)) ≡ parsed (negsuc n)
unfolding with_sign
with_sign_neg n h = ground arith

-- ParseInt reads back every int64 that `%d` prints.
pub parse_int-format_int : (z : ℤ) → InInt64 z → parse_int (format_int z) ≡ parsed z
unfolding format_int
parse_int-format_int (pos n) h =
    parse_int-unsigned (format_nat n) (format_nat-nonempty n) (format_nat-digits n)
    ∙ ap (with_sign false) (format_nat-parse_uint n (omega (arith, h)))
    ∙ with_sign_pos n h
parse_int-format_int (negsuc n) h =
    parse_int_minus (format_nat (suc n))
    ∙ ap (with_sign true) (format_nat-parse_uint (suc n) (omega (arith, h)))
    ∙ with_sign_neg n h

pub parse_int-InInt64 : (s : Str) (z : ℤ) → parse_int s ≡ parsed z → InInt64 z
unfolding parse_int
parse_int-InInt64 [] z e = ground arith
parse_int-InInt64 (c ∷ s) z e = elim (Bool-cases (c == b'-')) [
  | inl h ↦ with_sign-InInt64 true (parse_uint s) z (cc)
  | inr h ↦ elim (Bool-cases (c == b'+')) [
    | inl k ↦ with_sign-InInt64 false (parse_uint s) z (cc)
    | inr k ↦ with_sign-InInt64 false (parse_uint (c ∷ s)) z (cc)
  ]
]
