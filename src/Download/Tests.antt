-- ===== src/Download/Tests.antt =====
-- A download of three bytes in two rounds.
use gdrive_bot.Base.{
  ℕ, zero, suc, ◌+◌, ◌*◌, ◌≤◌, ◌≡◌, ◌≢◌, refl, true, false, inr, none, some, [], ◌∷◌, Str, bytes, ℤ,
  pos, add64, sub64, format_int, format_nat, plain, ok, err, length, arith, subst, ok_inj,
}
use gdrive_bot.Download.{
  Rates, ready, told, tick, report, update, conclude, ReadEnd, more, eof, Round, Lawful, Copy,
  ended, wrote, after_read, unless_canceled, round, rounds, stream_with_progress, Response, Net,
  into_file, is_success, save_link, request_link, direct_link, save_file, request_file, located,
  telegram_file,
}
use gdrive_bot.Download.Complete.{Copied, stream_with_progress-Copied}
use gdrive_bot.Download.Ends.{stream_with_progress-Ended}
use gdrive_bot.Download.Paced.{Clocked, stream_with_progress-Few}
use gdrive_bot.Download.Saved.{Whole, direct_link-Whole}

-- a speed in whole bytes a second
abbrev rates : Rates
rates = record { Rate = ℤ; still = pos 0; quotient = λ n t. n; is_negative = λ r. false }

abbrev read_at : ℕ → Str → ReadEnd → Round
read_at t chunk e = record {
  canceled = none;
  chunk = chunk;
  read_end = e;
  written = length chunk;
  write_error = none;
  asked = t;
  noted = t;
  measured = t;
}

-- the second Read returns its last byte with io.EOF
abbrev script : ℕ → Round
script zero = read_at 10 (1 ∷ 2 ∷ []) more
script (suc n) = read_at 20 (3 ∷ []) eof

script-Lawful : (i : ℕ) → Lawful (script i)
script-Lawful zero = record { in_buffer = omega arith; all_taken = λ e. refl }
script-Lawful (suc n) = record { in_buffer = omega arith; all_taken = λ e. refl }

abbrev complete : Copy rates
complete = record {
  file = 1 ∷ 2 ∷ 3 ∷ [];
  done = pos 3;
  ticker = record { last = some 10 };
  tracker = record { last_bytes = pos 2; last_time = 10 };
  sent =
      record { bytes_done = pos 2; bytes_total = pos 3; speed = pos 2; done = false }
      ∷ record { bytes_done = pos 3; bytes_total = pos 3; speed = pos 0; done = true }
      ∷ [];
}

stream_runs : stream_with_progress rates 5 0 (pos 3) script ≡ (complete, some (ok tt))
unfolding stream_with_progress rounds round unless_canceled after_read wrote ended tick told report
    ready update conclude add64 sub64
stream_runs = refl

-- what the theorem says of this copy
abbrev CopiedAll : Type 0
CopiedAll = Copied rates (pos 3) script 5 (stream_with_progress rates 5 0 (pos 3) script)

stream_with_progress-Copied_example : CopiedAll
stream_with_progress-Copied_example =
    stream_with_progress-Copied rates (pos 3) script script-Lawful 5 0

abbrev Returns : Type 0
Returns = (stream_with_progress rates 2 0 (pos 3) script).1 ≢ none

stream_with_progress-Ended_example : Returns
stream_with_progress-Ended_example =
    stream_with_progress-Ended rates (pos 3) script 1 (inr (λ e. cc)) 2 0 (omega arith)

script_onward :
    (j : ℕ)
    → ((script j).asked ≤ (script j).noted)
      × ((script j).noted ≤ (script (suc j)).asked)
      × ((script j).noted ≤ 30)
script_onward zero = omega arith
script_onward (suc n) = omega arith

script-Clocked : Clocked rates (pos 3) 0 script 30 5
script-Clocked = record {
  span = omega arith;
  begins = omega arith;
  onward = λ j l. script_onward j;
}

stream_with_progress-Few_example :
    length (stream_with_progress rates 5 0 (pos 3) script).0.sent * 1200000000 + 0 ≤ 30 + 2400000000
stream_with_progress-Few_example =
    stream_with_progress-Few rates (pos 3) 0 script 30 5 0 script-Clocked

abbrev answer : Response
answer = record { status = pos 206; content_length = pos 3; body = script }

abbrev net : Net
net = record {
  get_file = λ id. ok (bytes "https://files/1", pos 3);
  build = λ url. none;
  do_request = λ url. ok answer;
  create = λ path. none;
}

answers-Lawful :
    (url : Str) (r : Response) → net.do_request url ≡ ok r → (i : ℕ) → Lawful (r.body i)
answers-Lawful url r e i = subst (λ q. Lawful (q.body i)) (ok_inj e) (script-Lawful i)

abbrev LinkSaved : Type 0
LinkSaved =
    (r : Response) × (net.do_request (bytes "https://a/b") ≡ ok r)
    × (is_success rates net r.status ≡ true)
    × Whole rates net 5 r.content_length r.body complete

direct_link-Whole_example : LinkSaved
unfolding direct_link request_link save_link into_file stream_with_progress rounds round
    unless_canceled after_read wrote ended tick told report ready update conclude add64 sub64
direct_link-Whole_example =
    direct_link-Whole rates net 5 0 (bytes "https://a/b") (bytes "b") complete
      (answers-Lawful (bytes "https://a/b")) refl

-- the Bot API's server must answer with 200
partial_content :
    telegram_file rates net 5 0 (bytes "f") (bytes "b")
    ≡ (none, some (err (plain (bytes "download: telegram returned status 206"))))
unfolding telegram_file located request_file save_file format_int format_nat
partial_content = refl
