-- ===== src/Base/Decimal.antt =====
-- Decimal printing, as by `%d`, and the value of a run of digits.
use Prim.Native.Nat.{ℕ, zero, suc, ◌+◌, ◌-◌, ◌*◌, ◌/◌, ◌%◌, ◌≤◌, ◌<◌}
use mathlib.Core.Path.{◌≡◌, refl, ap}
use mathlib.Core.Logic.{dite}
use mathlib.Core.Bool.{Bool, ◌&&◌}
use mathlib.Core.List.{[], ◌∷◌, ◌++◌}
use mathlib.Core.WellFounded.{Acc, WellFounded}
use native.Mathlib.Omega.{arith}
use native.Mathlib.Decide.{dec_lt}
use gdrive_bot.Base.Tests.{leb}
use gdrive_bot.Base.Lists.{All, All-append, length, length-append}
use gdrive_bot.Base.Text.{Str}
use gdrive_bot.Base.Int.{ℤ, pos, negsuc}

Acc-below : (k n : ℕ) → n < k → Acc ◌<◌ n
Acc-below zero n h = elim h [ ]
Acc-below (suc k) n h = Acc.intro n (λ m hm. Acc-below k m (omega arith))

unfoldable pub lt_wf : WellFounded ◌<◌
unfolding Acc-below
lt_wf = record { apply = λ n. Acc-below (suc n) n (omega arith) }

format_acc : (n : ℕ) → Acc ◌<◌ n → Str
format_acc n (Acc.intro _ smaller) =
    dite (dec_lt n 10) (λ _. (48 + n) ∷ [])
      (λ h. format_acc (n / 10) (smaller (n / 10) (omega arith)) ++ (48 + n % 10) ∷ [])

-- The decimal digits of a number.
unfoldable pub format_nat : ℕ → Str
unfolding format_acc lt_wf dec_lt
format_nat n = format_acc n (lt_wf.apply n)

-- `%d` of an int64
unfoldable pub format_int : ℤ → Str
unfolding format_nat
format_int (pos n) = format_nat n
format_int (negsuc n) = b'-' ∷ format_nat (suc n)

abbrev pub is_digit : ℕ → Bool
is_digit c = leb b'0' c && leb c b'9'

abbrev pub IsDigit : ℕ → Type 0
IsDigit c = (b'0' ≤ c) × (c ≤ b'9')

-- The number that digits spell behind `n`.
abbrev pub value_from : ℕ → Str → ℕ
value_from n [] = n
value_from n (c ∷ s) = value_from (n * 10 + (c - b'0')) s

pub value_from-append : (n : ℕ) (s t : Str) → value_from n (s ++ t) ≡ value_from (value_from n s) t
value_from-append n [] t = refl
value_from-append n (c ∷ s) t = value_from-append (n * 10 + (c - b'0')) s t

format_acc-digits : (n : ℕ) (w : Acc ◌<◌ n) → All IsDigit (format_acc n w)
unfolding format_acc
format_acc-digits n (Acc.intro _ smaller) =
    elim (dec_lt n 10)
      as (λ d. All IsDigit (
        dite d (λ _. (48 + n) ∷ [])
          (λ h. format_acc (n / 10) (smaller (n / 10) (omega arith)) ++ (48 + n % 10) ∷ []))) [
            | yes h ↦ (omega arith)
            | no h ↦
                All-append IsDigit _ _ (format_acc-digits (n / 10) (smaller (n / 10) (omega arith)))
                  (omega arith)
          ]

pub format_nat-digits : (n : ℕ) → All IsDigit (format_nat n)
unfolding format_nat
format_nat-digits n = format_acc-digits n (lt_wf.apply n)

format_acc-value : (n : ℕ) (w : Acc ◌<◌ n) → value_from 0 (format_acc n w) ≡ n
unfolding format_acc
format_acc-value n (Acc.intro _ smaller) =
    elim (dec_lt n 10)
      as (λ d.
        value_from 0 (
          dite d (λ _. (48 + n) ∷ [])
            (λ h. format_acc (n / 10) (smaller (n / 10) (omega arith)) ++ (48 + n % 10) ∷ []))
        ≡ n) [
          | yes h ↦ (omega arith)
          | no h ↦ omega (
            arith,
            value_from-append 0 (format_acc (n / 10) (smaller (n / 10) (omega arith)))
                ((48 + n % 10) ∷ []),
            format_acc-value (n / 10) (smaller (n / 10) (omega arith)),
          )
        ]

-- The digits of a number spell the number.
pub value-format_nat : (n : ℕ) → value_from 0 (format_nat n) ≡ n
unfolding format_nat
value-format_nat n = format_acc-value n (lt_wf.apply n)

format_acc-nonempty : (n : ℕ) (w : Acc ◌<◌ n) → 0 < length (format_acc n w)
unfolding format_acc
format_acc-nonempty n (Acc.intro _ smaller) =
    elim (dec_lt n 10)
      as (λ d.
        0
        < length (
            dite d (λ _. (48 + n) ∷ [])
              (λ h. format_acc (n / 10) (smaller (n / 10) (omega arith)) ++ (48 + n % 10) ∷ []))) [
                | yes h ↦ (omega arith)
                | no h ↦
                    (omega (
                      arith,
                      length-append (format_acc (n / 10) (smaller (n / 10) (omega arith)))
                          ((48 + n % 10) ∷ []),
                    ))
              ]

pub format_nat-nonempty : (n : ℕ) → 0 < length (format_nat n)
unfolding format_nat
format_nat-nonempty n = format_acc-nonempty n (lt_wf.apply n)

pub format_nat-injective : (m n : ℕ) → format_nat m ≡ format_nat n → m ≡ n
format_nat-injective m n h =
    omega (arith, ap (value_from 0) h, value-format_nat m, value-format_nat n)
