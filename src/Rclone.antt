-- ===== src/Rclone.antt =====
-- internal/rclone/rclone.go and internal/upload/rclone_upload.go: the command lines, the parsing of
-- rclone's progress, and an upload. The rclone process is a `Run`; the match of `transferredRe` and the
-- arithmetic in floating point are parameters. The messages of an upload are what went over the channel.
pub mod Arguments
pub mod Eta
pub mod Forwarded
pub mod Tests
use gdrive_bot.Base.{
  ℕ, ◌*◌, ◌-◌, leb, Bool, true, false, not, ◌&&◌, ◌||◌, ◌==◌, Option, none, some, List, [], ◌∷◌,
  ◌++◌, map, Str, bytes, str_eq, if◌then◌else◌, ℤ, pos, add64, mul64, format_int, is_digit, Parsed,
  parsed, bad_syntax, out_of_range, parse_int, Error, plain, error_text, wrap, map_error, Result,
  ok, err,
}
use gdrive_bot.Models.{GoogleToken}

-- float64, as far as a progress needs it
pub record Floats : Type 1 where
  pub Float : Type 0
  -- strconv.ParseFloat, whose error is ignored
  pub parse_float : Str → Float
  -- the product with a unit
  pub scaled : Float → ℕ → Float
  pub to_int64 : Float → ℤ
  pub nothing : Float
  pub hundred : Float

-- strings.ToUpper on the letters of a unit
abbrev upper : ℕ → ℕ
upper c = if leb b'a' c && leb c b'z' then c - 32 else c

unfoldable pub unit_multiplier : Str → ℕ
unfolding str_eq
unit_multiplier unit =
    let u = map upper unit in
    if str_eq u (bytes "KIB")
    then 1024
    else if str_eq u (bytes "MIB")
    then 1048576
    else if str_eq u (bytes "GIB")
    then 1073741824
    else if str_eq u (bytes "TIB")
    then 1099511627776
    else 1

-- ParseInt's number, whose error is ignored
abbrev pub number_or_error : Parsed → ℤ
number_or_error (parsed n) = n
number_or_error bad_syntax = pos 0
number_or_error (out_of_range n) = n

-- the seconds of a unit of parseETA's pattern
unfoldable pub unit_seconds : ℕ → Option ℕ
unit_seconds c =
    if c == b'h'
    then some 3600
    else if c == b'm'
    then some 60
    else if c == b's'
    then some 1
    else none

abbrev pub matched : Str → ℤ → Option ℕ → ℤ
matched [] total u = total
matched (c ∷ run) total none = total
matched (c ∷ run) total (some u) =
    add64 total (mul64 (number_or_error (parse_int (c ∷ run))) (pos u))

-- One byte of the scan for `(\d+)([hms])`: the digits that stand before it, and the total.
unfoldable pub scan_step : ℕ → Str × ℤ → Str × ℤ
unfolding unit_seconds parse_int add64 mul64
scan_step c (run, total) =
    if is_digit c then (run ++ c ∷ [], total) else ([], matched run total (unit_seconds c))

unfoldable pub scan : Str × ℤ → Str → Str × ℤ
unfolding scan_step
scan p [] = p
scan p (c ∷ s) = scan (scan_step c p) s

-- parseETA
unfoldable pub parse_eta : Str → ℤ
unfolding str_eq scan
parse_eta eta = if str_eq eta [] || str_eq eta (bytes "-") then pos 0 else (scan ([], pos 0) eta).1

-- The groups of `transferredRe` in a line.
pub record Groups : Type 0 where
  pub done_value : Str
  pub done_unit : Str
  pub total_value : Str
  pub total_unit : Str
  pub percent : Str
  pub speed_value : Str
  pub speed_unit : Str
  pub eta : Str

-- A run of the rclone process: the errors of StderrPipe, Start and Wait, and the lines of its output,
-- each with whether the select behind it found the context done.
pub record Run : Type 0 where
  pub pipe_error : Option Error
  pub start_error : Option Error
  pub lines : List (Str × Bool)
  pub wait_error : Option Error

module _ (floats : Floats) (transferred : Str → Option Groups) where
  open floats use {Float, parse_float, scaled, to_int64, nothing, hundred}

  pub record UploadProgress : Type 0 where
    pub bytes_done : ℤ
    pub bytes_total : ℤ
    pub speed : Float
    pub eta_seconds : ℤ
    pub percent : Float
    pub done : Bool
    pub failure : Option Error

  unfoldable pub progress_of : Groups → UploadProgress
  unfolding unit_multiplier parse_eta
  progress_of g = record {
    bytes_done = to_int64 (scaled (parse_float g.done_value) (unit_multiplier g.done_unit));
    bytes_total = to_int64 (scaled (parse_float g.total_value) (unit_multiplier g.total_unit));
    speed = scaled (parse_float g.speed_value) (unit_multiplier g.speed_unit);
    eta_seconds = parse_eta g.eta;
    percent = parse_float g.percent;
    done = false;
    failure = none;
  }

  abbrev pub progress_or_none : Option Groups → Option UploadProgress
  progress_or_none none = none
  progress_or_none (some g) = some (progress_of g)

  -- parseProgressLine
  unfoldable pub parse_progress_line : Str → Option UploadProgress
  unfolding progress_of
  parse_progress_line line = progress_or_none (transferred line)

  -- a line that is no progress, or that the context's end overtakes, is not sent
  abbrev pub sent_line : Option UploadProgress → Bool → List UploadProgress → List UploadProgress
  sent_line none canceled rest = rest
  sent_line (some p) true rest = rest
  sent_line (some p) false rest = p ∷ rest

  unfoldable pub read_lines : List (Str × Bool) → List UploadProgress
  unfolding parse_progress_line
  read_lines [] = []
  read_lines ((line, canceled) ∷ more) =
      sent_line (parse_progress_line line) canceled (read_lines more)

  abbrev pub last_message : Float → Option Error → UploadProgress
  last_message percent e = record {
    bytes_done = pos 0;
    bytes_total = pos 0;
    speed = nothing;
    eta_seconds = pos 0;
    percent = percent;
    done = true;
    failure = e;
  }

  unfoldable pub waited :
      Option Error → List UploadProgress → List UploadProgress × Result (Unit {0})
  unfolding wrap
  waited none sent = (sent ++ last_message hundred none ∷ [], ok tt)
  waited (some e) sent =
      (sent ++ last_message nothing (some e) ∷ [], err (wrap (bytes "rclone: upload failed: ") e))

  unfoldable pub started : Option Error → Run → List UploadProgress × Result (Unit {0})
  unfolding waited read_lines wrap
  started (some e) run = ([], err (wrap (bytes "rclone: start upload: ") e))
  started none run = waited run.wait_error (read_lines run.lines)

  unfoldable pub piped : Option Error → Run → List UploadProgress × Result (Unit {0})
  unfolding started wrap
  piped (some e) run = ([], err (wrap (bytes "rclone: stderr pipe: ") e))
  piped none run = started run.start_error run

  -- Upload
  unfoldable pub upload : Run → List UploadProgress × Result (Unit {0})
  unfolding piped
  upload run = piped run.pipe_error run

  -- upload.Progress
  pub record Progress : Type 0 where
    pub bytes_done : ℤ
    pub bytes_total : ℤ
    pub speed : Float
    pub eta_seconds : ℤ
    pub done : Bool
    pub failure : Option Error

  unfoldable pub forwarded : UploadProgress → Progress
  forwarded p = record {
    bytes_done = p.bytes_done;
    bytes_total = p.bytes_total;
    speed = p.speed;
    eta_seconds = p.eta_seconds;
    done = p.done;
    failure = p.failure;
  }

  -- ToDrive
  unfoldable pub to_drive : Run → List Progress × Result (Unit {0})
  unfolding upload forwarded wrap
  to_drive run =
      let (sent, r) = upload run in (map forwarded sent, map_error (wrap (bytes "upload: ")) r)
