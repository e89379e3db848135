-- ===== src/Rclone/Eta.antt =====
-- internal/rclone/rclone.go: what parseETA makes of a duration of hours, minutes and seconds.
use gdrive_bot.Base.{
  ℕ, ◌+◌, ◌*◌, ◌^◌, ◌<◌, ◌≡◌, refl, sym, ap, ◌∙◌, ◌||◌, false, Option, none, some, [], ◌∷◌, ◌++◌,
  append_assoc, append-nil, Str, str_eq, length, All, ℤ, pos, add64, add64_pos, mul64, is_digit,
  IsDigit, format_nat, format_nat-digits, format_nat-nonempty, format_int, parse_int,
  parse_int-format_int, arith,
}
use gdrive_bot.Rclone.{matched, number_or_error, unit_seconds, scan_step, scan, parse_eta}

digit_step :
    (c : ℕ) (run : Str) (total : ℤ) → IsDigit c → scan_step c (run, total) ≡ (run ++ c ∷ [], total)
unfolding scan_step
digit_step c run total d = ground arith

scan-append : (p : Str × ℤ) (s t : Str) → scan p (s ++ t) ≡ scan (scan p s) t
unfolding scan
scan-append p [] t = refl
scan-append p (c ∷ s) t = scan-append (scan_step c p) s t

scan_digits : (run s : Str) (total : ℤ) → All IsDigit s → scan (run, total) s ≡ (run ++ s, total)
unfolding scan
scan_digits run [] total d = ap (λ r. (r, total)) (sym (append-nil run))
scan_digits run (c ∷ s) total d =
    ap (λ p. scan p s) (digit_step c run total d.0)
    ∙ scan_digits (run ++ c ∷ []) s total d.1
    ∙ ap (λ r. (r, total)) (append_assoc run (c ∷ []) s)

mul64_hours : (n : ℕ) → n * 3600 < 2 ^ 63 → mul64 (pos n) (pos 3600) ≡ pos (n * 3600)
unfolding mul64
mul64_hours n h = ground arith

mul64_minutes : (n : ℕ) → n * 60 < 2 ^ 63 → mul64 (pos n) (pos 60) ≡ pos (n * 60)
unfolding mul64
mul64_minutes n h = ground arith

mul64_one : (n : ℕ) → n < 2 ^ 63 → mul64 (pos n) (pos 1) ≡ pos n
unfolding mul64
mul64_one n h = ground arith

matched_run :
    (run : Str) (total : ℤ) (u : ℕ)
    → 0 < length run
    → matched run total (some u) ≡ add64 total (mul64 (number_or_error (parse_int run)) (pos u))
matched_run [] total u h = elim h [ ]
matched_run (c ∷ run) total u h = refl

number_back : (n : ℕ) → n < 2 ^ 63 → number_or_error (parse_int (format_nat n)) ≡ pos n
unfolding format_int
number_back n h = ap number_or_error (parse_int-format_int (pos n) h)

unit_step :
    (c u : ℕ) (run : Str) (total : ℤ)
    → is_digit c ≡ false
    → unit_seconds c ≡ some u
    → scan_step c (run, total) ≡ ([], matched run total (some u))
unfolding scan_step
unit_step c u run total d e = cc

-- a number and its unit
scan_part :
    (n c u : ℕ) (total : ℤ) (rest : Str)
    → n < 2 ^ 63
    → is_digit c ≡ false
    → unit_seconds c ≡ some u
    → scan ([], total) (format_nat n ++ c ∷ rest)
      ≡ scan ([], add64 total (mul64 (pos n) (pos u))) rest
unfolding scan
scan_part n c u total rest h d e =
    scan-append ([], total) (format_nat n) (c ∷ rest)
    ∙ ap (λ p. scan p (c ∷ rest)) (scan_digits [] (format_nat n) total (format_nat-digits n))
    ∙ ap (λ p. scan p rest)
        (unit_step c u (format_nat n) total d e
          ∙ ap (λ t. ([], t))
              (matched_run (format_nat n) total u (format_nat-nonempty n)
                ∙ ap (λ z. add64 total (mul64 z (pos u))) (number_back n h)))

-- what stands for a unit before the others, which is nothing where the unit is left out
abbrev pub part : ℕ → Option ℕ → Str → Str
part c none rest = rest
part c (some n) rest = format_nat n ++ c ∷ rest

abbrev pub amount : Option ℕ → ℕ
amount none = 0
amount (some n) = n

-- hours, minutes and seconds, each of which may be left out, as in "1m18s" and "45s"
abbrev pub printed : Option ℕ → Option ℕ → Option ℕ → Str
printed h m s = part b'h' h (part b'm' m (part b's' s []))

abbrev pub seconds : Option ℕ → Option ℕ → Option ℕ → ℕ
seconds h m s = amount h * 3600 + amount m * 60 + amount s

scan_optional :
    (o : Option ℕ) (c u t : ℕ) (rest : Str)
    → amount o < 2 ^ 63
    → t + amount o * u < 2 ^ 63
    → mul64 (pos (amount o)) (pos u) ≡ pos (amount o * u)
    → is_digit c ≡ false
    → unit_seconds c ≡ some u
    → scan ([], pos t) (part c o rest) ≡ scan ([], pos (t + amount o * u)) rest
scan_optional none c u t rest h b k d e = ap (λ x. scan ([], pos x) rest) (omega arith)
scan_optional (some n) c u t rest h b k d e =
    scan_part n c u (pos t) rest h d e
    ∙ ap (λ z. scan ([], z) rest) (ap (add64 (pos t)) k ∙ add64_pos t (n * u) b)

not_special :
    (a t : Str)
    → 0 < length a
    → All IsDigit a
    → (str_eq (a ++ t) [] || str_eq (a ++ t) (b'-' ∷ [])) ≡ false
unfolding str_eq
not_special [] t h d = elim h [ ]
not_special (c ∷ a) t h d = ground arith

-- a number before the rest is scanned, and so is the empty text
parse_eta-number :
    (n : ℕ) (t : Str) → parse_eta (format_nat n ++ t) ≡ (scan ([], pos 0) (format_nat n ++ t)).1
unfolding parse_eta
parse_eta-number n t =
    rw (not_special (format_nat n) t (format_nat-nonempty n) (format_nat-digits n)) refl

parse_eta-nothing : parse_eta [] ≡ (scan ([], pos 0) []).1
unfolding parse_eta scan str_eq
parse_eta-nothing = refl

parse_eta-scan :
    (h m s : Option ℕ) → parse_eta (printed h m s) ≡ (scan ([], pos 0) (printed h m s)).1
parse_eta-scan (some n) m s = parse_eta-number n _
parse_eta-scan none (some n) s = parse_eta-number n _
parse_eta-scan none none (some n) = parse_eta-number n _
parse_eta-scan none none none = parse_eta-nothing

one_unit : (n : ℕ) → n < 2 ^ 63 → mul64 (pos n) (pos 1) ≡ pos (n * 1)
one_unit n h = mul64_one n h ∙ ap pos (omega arith)

-- A text of hours, minutes and seconds, of which any may be left out, is parsed to the number of its seconds, where that is an int64.
pub parse_eta-printed :
    (h m s : Option ℕ) → seconds h m s < 2 ^ 63 → parse_eta (printed h m s) ≡ pos (seconds h m s)
unfolding scan unit_seconds
parse_eta-printed h m s b =
    parse_eta-scan h m s
    ∙ ap (λ p. p.1)
        (scan_optional h b'h' 3600 0 _ (omega (arith, b)) (omega (arith, b))
            (mul64_hours _ (omega (arith, b))) refl refl
          ∙ scan_optional m b'm' 60 _ _ (omega (arith, b)) (omega (arith, b))
              (mul64_minutes _ (omega (arith, b))) refl refl
          ∙ scan_optional s b's' 1 _ [] (omega (arith, b)) (omega (arith, b))
              (one_unit _ (omega (arith, b))) refl refl)
    ∙ ap pos (omega arith)
