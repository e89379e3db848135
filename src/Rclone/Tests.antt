-- ===== src/Rclone/Tests.antt =====
-- rclone's progress and an upload with one line of it.
use gdrive_bot.Base.{
  ◌≡◌, refl, false, none, some, [], ◌∷◌, Str, bytes, str_eq, ℤ, pos, if◌then◌else◌, plain, add64,
  mul64, format_nat, parse_int, parse_uint, uint_from, with_sign, Option, arith,
}
use gdrive_bot.Rclone.{
  Floats, Groups, Run, to_drive, parse_eta, scan, scan_step, unit_seconds, unit_multiplier,
}
use gdrive_bot.Rclone.Eta.{printed, parse_eta-printed}
use gdrive_bot.Rclone.Forwarded.{Reported, to_drive-Reported}

parse_eta-printed_example : parse_eta (printed none (some 1) (some 18)) ≡ pos 78
parse_eta-printed_example = parse_eta-printed none (some 1) (some 18) (omega arith)

-- the texts of durations
texts :
    (printed none (some 1) (some 18) ≡ bytes "1m18s") × (printed none none (some 45) ≡ bytes "45s")
unfolding format_nat
texts = (refl, refl)

-- the example of the source; days and other texts are passed over
short_eta : (parse_eta (bytes "1m18s") ≡ pos 78) × (parse_eta (bytes "2d3h") ≡ pos 10800)
unfolding parse_eta scan scan_step unit_seconds add64 mul64 parse_int parse_uint uint_from with_sign
    str_eq
short_eta = (refl, refl)

units : (unit_multiplier (bytes "MiB") ≡ 1048576) × (unit_multiplier (bytes "PiB") ≡ 1)
unfolding unit_multiplier str_eq
units = (refl, refl)

-- whole numbers
abbrev floats : Floats
floats = record {
  Float = ℤ;
  parse_float = λ s. pos 12;
  scaled = λ x n. x;
  to_int64 = λ x. x;
  nothing = pos 0;
  hundred = pos 100;
}

abbrev transferred : Str → Option Groups
transferred line =
    if str_eq line (bytes "Transferred")
    then some (record {
      done_value = bytes "12";
      done_unit = bytes "MiB";
      total_value = bytes "12";
      total_unit = bytes "MiB";
      percent = bytes "12";
      speed_value = bytes "12";
      speed_unit = bytes "MiB";
      eta = bytes "1s";
    })
    else none

abbrev a_run : Run
a_run = record {
  pipe_error = none;
  start_error = none;
  lines = (bytes "Transferred", false) ∷ (bytes "Elapsed", false) ∷ [];
  wait_error = some (plain (bytes "exit status 1"));
}

-- what the theorem says of this run
abbrev RunReported : Type 0
RunReported = Reported floats transferred a_run (to_drive floats transferred a_run)

to_drive-Reported_example : RunReported
to_drive-Reported_example = to_drive-Reported floats transferred a_run
