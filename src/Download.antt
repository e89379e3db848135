-- ===== src/Download.antt =====
-- internal/download: the copy loop that both downloaders share, its ticker and its speed, and the two
-- downloaders. What a round of the loop meets (the context, the Read, the Write, the clock) is a
-- parameter, and so are HTTP, the Bot API and the file system; a speed in floating point is a `Rate`.
-- `Copy.sent` is what went over the channel. `Progress.Err`, which no downloader sets, is left out.
pub mod Complete
pub mod Ends
pub mod Paced
pub mod Saved
pub mod Tests
use gdrive_bot.Base.{
  ℕ, zero, suc, ◌-◌, ◌≤◌, ◌≡◌, Bool, true, false, ◌||◌, not, Option, none, some, List, [], ◌∷◌,
  ◌++◌, Str, bytes, if◌then◌else◌, ◌==◌, ltb, ℤ, pos, add64, sub64, eqb_ℤ, ltb_ℤ, format_int,
  length, take, Error, plain, wrap, Result, ok, err,
}

-- float64, as far as a speed needs it
pub record Rates : Type 1 where
  pub Rate : Type 0
  pub still : Rate
  -- float64(n) / seconds, of a count and of nanoseconds
  pub quotient : ℤ → ℕ → Rate
  pub is_negative : Rate → Bool

-- progressTicker: `none` is the zero time
pub record Ticker : Type 0 where
  pub last : Option ℕ

-- 1200 ms in nanoseconds
abbrev pub min_delta : ℕ
min_delta = 1200000000

abbrev pub too_early : Option ℕ → ℕ → Bool
too_early none asked = false
too_early (some last) asked = ltb (asked - last) min_delta

-- ready, which reads the clock twice
unfoldable pub ready : ℕ → ℕ → Ticker → Ticker × Bool
ready asked noted t =
    if too_early t.last asked then (t, false) else (record { last = some noted }, true)

pub record SpeedTracker : Type 0 where
  pub last_bytes : ℤ
  pub last_time : ℕ

-- io.Reader's end of a Read: no error, io.EOF, or another error
pub data ReadEnd : Type 0 where
  more : ReadEnd
  eof : ReadEnd
  broken : Error → ReadEnd

-- What a round of the loop meets.
pub record Round : Type 0 where
  -- ctx.Err(), where the context is done
  pub canceled : Option Error
  -- what Read put into the buffer, and its error
  pub chunk : Str
  pub read_end : ReadEnd
  -- how many bytes Write took, and its error
  pub written : ℕ
  pub write_error : Option Error
  -- the readings of the clock in ready and in update
  pub asked : ℕ
  pub noted : ℕ
  pub measured : ℕ

-- What io.Reader and io.Writer promise: a buffer of 256 KiB, and an error where Write took too little.
pub record Lawful (r : Round) : Type 0 where
  pub in_buffer : length r.chunk ≤ 262144
  pub all_taken : r.write_error ≡ none → r.written ≡ length r.chunk

module _ (rates : Rates) where
  open rates use {Rate, still, quotient, is_negative}

  pub record Progress : Type 0 where
    pub bytes_done : ℤ
    pub bytes_total : ℤ
    pub speed : Rate
    pub done : Bool

  abbrev pub at_least_still : Rate → Rate
  at_least_still r = if is_negative r then still else r

  -- speedTracker.update
  unfoldable pub update : ℕ → ℤ → SpeedTracker → SpeedTracker × Rate
  unfolding sub64
  update now total_done s = if now - s.last_time == 0 then (s, still) else (
    record { last_bytes = total_done; last_time = now },
    at_least_still (quotient (sub64 total_done s.last_bytes) (now - s.last_time)),
  )

  pub record Copy : Type 0 where
    pub file : Str
    pub done : ℤ
    pub ticker : Ticker
    pub tracker : SpeedTracker
    pub sent : List Progress

  -- a message of the loop
  unfoldable pub report : ℤ → Round → Copy → Copy
  unfolding update
  report total r c =
      let (s, speed) = update r.measured c.done c.tracker in
      record c {
        tracker = s;
        sent =
            c.sent
            ++ record { bytes_done = c.done; bytes_total = total; speed = speed; done = false }
              ∷ [];
      }

  unfoldable pub told : ℤ → Round → Copy → Ticker × Bool → Copy
  unfolding report
  told total r c (t, true) = report total r (record c { ticker = t })
  told total r c (t, false) = record c { ticker = t }

  unfoldable pub tick : ℤ → Round → Copy → Copy
  unfolding ready told
  tick total r c = told total r c (ready r.asked r.noted c.ticker)

  -- the last message
  unfoldable pub conclude : ℤ → Copy → Copy
  conclude total c = record c {
    sent =
        c.sent
        ++ record { bytes_done = c.done; bytes_total = total; speed = still; done = true } ∷ [];
  }

  -- what the error of Read leads to; `none` is the next round
  unfoldable pub ended : ℤ → ReadEnd → Copy → Copy × Option (Result (Unit {0}))
  unfolding conclude wrap
  ended total more c = (c, none)
  ended total eof c = (conclude total c, some (ok tt))
  ended total (broken e) c = (c, some (err (wrap (bytes "download: read: ") e)))

  unfoldable pub wrote : ℤ → Round → Option Error → Copy → Copy × Option (Result (Unit {0}))
  unfolding tick ended add64 wrap
  wrote total r (some e) c = (c, some (err (wrap (bytes "download: write: ") e)))
  wrote total r none c =
      ended total r.read_end
        (tick total r (record c { done = add64 c.done (pos (length r.chunk)) }))

  unfoldable pub after_read : ℤ → Round → Copy → Copy × Option (Result (Unit {0}))
  unfolding wrote ended
  after_read total r c =
      if length r.chunk == 0
      then ended total r.read_end c
      else wrote total r r.write_error (record c { file = c.file ++ take r.written r.chunk })

  unfoldable pub unless_canceled :
      ℤ → Round → Option Error → Copy → Copy × Option (Result (Unit {0}))
  unfolding after_read
  unless_canceled total r (some e) c = (c, some (err e))
  unless_canceled total r none c = after_read total r c

  -- one round of the loop
  unfoldable pub round : ℤ → Round → Copy → Copy × Option (Result (Unit {0}))
  unfolding unless_canceled
  round total r c = unless_canceled total r r.canceled c

  abbrev pub go_on :
      (Copy → Copy × Option (Result (Unit {0})))
      → Copy × Option (Result (Unit {0}))
      → Copy × Option (Result (Unit {0}))
  go_on next (c, none) = next c
  go_on next (c, some r) = (c, some r)

  -- the rounds from the `i`-th on, so many at most; `none` is a loop that goes on
  unfoldable pub rounds : ℤ → (ℕ → Round) → ℕ → ℕ → Copy → Copy × Option (Result (Unit {0}))
  unfolding round
  rounds total script zero i c = (c, none)
  rounds total script (suc n) i c = go_on (rounds total script n (suc i)) (round total (script i) c)

  abbrev pub fresh : ℕ → Copy
  fresh now = record {
    file = [];
    done = pos 0;
    ticker = record { last = none };
    tracker = record { last_bytes = pos 0; last_time = now };
    sent = [];
  }

  -- streamWithProgress, to a file that was just created
  unfoldable pub stream_with_progress : ℕ → ℕ → ℤ → (ℕ → Round) → Copy × Option (Result (Unit {0}))
  unfolding rounds
  stream_with_progress fuel now total script = rounds total script fuel 0 (fresh now)

-- A response of an HTTP server: its body as the rounds of the loop that copies it.
pub record Response : Type 0 where
  pub status : ℤ
  pub content_length : ℤ
  pub body : ℕ → Round

-- The Bot API, HTTP and the file system.
pub record Net : Type 0 where
  -- GetFile and URL: where a file is, and its size
  pub get_file : Str → Result (Str × ℤ)
  -- http.NewRequestWithContext
  pub build : Str → Option Error
  -- Client.Do
  pub do_request : Str → Result Response
  -- os.Create
  pub create : Str → Option Error

module _ (rates : Rates) (net : Net) where
  -- The local file, where there is one, and the outcome.
  abbrev pub Download : Type 0
  Download = Option (Copy rates) × Option (Result (Unit {0}))

  abbrev failed : Error → Download
  failed e = (none, some (err e))

  abbrev copied : Copy rates × Option (Result (Unit {0})) → Download
  copied (c, r) = (some c, r)

  unfoldable pub into_file : Option Error → ℕ → ℕ → ℤ → (ℕ → Round) → Download
  unfolding stream_with_progress wrap
  into_file (some e) fuel now total body = failed (wrap (bytes "download: create local file: ") e)
  into_file none fuel now total body = copied (stream_with_progress rates fuel now total body)

  abbrev pub bad_status : Str → ℤ → Error
  bad_status server status =
      plain (bytes "download: " ++ (server ++ (bytes " returned status " ++ format_int status)))

  abbrev pub is_success : ℤ → Bool
  is_success status = not (ltb_ℤ status (pos 200) || not (ltb_ℤ status (pos 300)))

  unfoldable pub save_link : ℕ → ℕ → Str → Result Response → Download
  unfolding into_file wrap format_int
  save_link fuel now path (err e) = failed (wrap (bytes "download: request: ") e)
  save_link fuel now path (ok r) =
      if is_success r.status
      then into_file (net.create path) fuel now r.content_length r.body
      else failed (bad_status (bytes "server") r.status)

  unfoldable pub request_link : ℕ → ℕ → Str → Str → Option Error → Download
  unfolding save_link wrap
  request_link fuel now url path (some e) = failed (wrap (bytes "download: build request: ") e)
  request_link fuel now url path none = save_link fuel now path (net.do_request url)

  -- DirectLink
  unfoldable pub direct_link : ℕ → ℕ → Str → Str → Download
  unfolding request_link
  direct_link fuel now url path = request_link fuel now url path (net.build url)

  unfoldable pub save_file : ℕ → ℕ → ℤ → Str → Result Response → Download
  unfolding into_file wrap format_int
  save_file fuel now size path (err e) = failed (wrap (bytes "download: request: ") e)
  save_file fuel now size path (ok r) =
      if eqb_ℤ r.status (pos 200)
      then into_file (net.create path) fuel now size r.body
      else failed (bad_status (bytes "telegram") r.status)

  unfoldable pub request_file : ℕ → ℕ → Str → ℤ → Str → Option Error → Download
  unfolding save_file wrap
  request_file fuel now url size path (some e) = failed (wrap (bytes "download: build request: ") e)
  request_file fuel now url size path none = save_file fuel now size path (net.do_request url)

  unfoldable pub located : ℕ → ℕ → Str → Result (Str × ℤ) → Download
  unfolding request_file wrap
  located fuel now path (err e) = failed (wrap (bytes "download: get file: ") e)
  located fuel now path (ok (url, size)) = request_file fuel now url size path (net.build url)

  -- TelegramFile
  unfoldable pub telegram_file : ℕ → ℕ → Str → Str → Download
  unfolding located
  telegram_file fuel now file_id path = located fuel now path (net.get_file file_id)
