-- ===== src/Download/Saved.antt =====
-- internal/download: what DirectLink (link.go) and TelegramFile (telegram.go) leave where they return nil.
use gdrive_bot.Base.{
  ℕ, suc, ◌<◌, ◌≡◌, refl, ap, subst, Bool, true, false, Option, none, some, some_inj, Str, ℤ, pos,
  eqb_ℤ, Error, Result, ok, err, if◌then◌else◌,
}
use gdrive_bot.Download.{
  Rates, eof, Round, Lawful, Copy, stream_with_progress, Response, Net, Download, copied, failed,
  into_file, is_success, save_link, request_link, direct_link, save_file, request_file, located,
  telegram_file,
}
use gdrive_bot.Download.Complete.{received, Concluded, Copied, stream_with_progress-Copied}

module _ (rates : Rates) (net : Net) where
  -- All of a body is in the file, to its end, and the last message counts it.
  pub record Whole (fuel : ℕ) (total : ℤ) (body : ℕ → Round) (c : Copy rates) : Type 0 where
    last : ℕ
    in_fuel : last < fuel
    at_end : (body last).read_end ≡ eof
    concluded : Concluded rates total (received body (suc last)) c

  Copied-Whole :
      (fuel : ℕ) (total : ℤ) (body : ℕ → Round) (c : Copy rates)
      (p : Copy rates × Option (Result (Unit {0})))
      → Copied rates total body fuel p
      → copied rates net p ≡ (some c, some (ok tt))
      → Whole fuel total body c
  Copied-Whole fuel total body c (d, none) k e = cc
  Copied-Whole fuel total body c (d, some (err x)) k e = cc
  Copied-Whole fuel total body c (d, some (ok u)) (j, l, m, n) e = record {
    last = j;
    in_fuel = l;
    at_end = m;
    concluded =
        subst (Concluded rates total (received body (suc j))) (some_inj (ap (λ p. p.0) e)) n;
  }

  into_file-Whole :
      (o : Option Error) (fuel now : ℕ) (total : ℤ) (body : ℕ → Round) (c : Copy rates)
      → ((i : ℕ) → Lawful (body i))
      → into_file rates net o fuel now total body ≡ (some c, some (ok tt))
      → Whole fuel total body c
  unfolding into_file
  into_file-Whole (some x) fuel now total body c l e = cc
  into_file-Whole none fuel now total body c l e =
      Copied-Whole fuel total body c (stream_with_progress rates fuel now total body)
        (stream_with_progress-Copied rates total body l fuel now) e

  -- a response of the server whose body is in the file
  pub record Fetched (fuel : ℕ) (url : Str) (c : Copy rates) (r : Response) (total : ℤ)
      : Type 0 where
    answered : net.do_request url ≡ ok r
    whole : Whole fuel total r.body c

  when_success :
      (b : Bool) (d : Download rates net) (x : Error) (c : Copy rates)
      → (if b then d else failed rates net x) ≡ (some c, some (ok tt))
      → (b ≡ true) × (d ≡ (some c, some (ok tt)))
  when_success true d x c e = (refl, e)
  when_success false d x c e = cc

  save_link-Whole :
      (fuel now : ℕ) (path : Str) (q : Result Response) (c : Copy rates)
      → ((r : Response) → q ≡ ok r → (i : ℕ) → Lawful (r.body i))
      → save_link rates net fuel now path q ≡ (some c, some (ok tt))
      → (r : Response) × (q ≡ ok r)
        × (is_success rates net r.status ≡ true)
        × Whole fuel r.content_length r.body c
  unfolding save_link
  save_link-Whole fuel now path (err x) c l e = cc
  save_link-Whole fuel now path (ok r) c l e =
      let k = when_success (is_success rates net r.status) _ _ c e in
      (
        r,
        refl,
        k.0,
        into_file-Whole (net.create path) fuel now r.content_length r.body c (l r refl) k.1,
      )

  request_link-Whole :
      (fuel now : ℕ) (url path : Str) (o : Option Error) (c : Copy rates)
      → ((r : Response) → net.do_request url ≡ ok r → (i : ℕ) → Lawful (r.body i))
      → request_link rates net fuel now url path o ≡ (some c, some (ok tt))
      → (r : Response) × (net.do_request url ≡ ok r)
        × (is_success rates net r.status ≡ true)
        × Whole fuel r.content_length r.body c
  unfolding request_link
  request_link-Whole fuel now url path (some x) c l e = cc
  request_link-Whole fuel now url path none c l e =
      save_link-Whole fuel now path (net.do_request url) c l e

  -- Where DirectLink returns nil, the server answered with a 2xx status, and the file holds the response's body to its end.
  pub direct_link-Whole :
      (fuel now : ℕ) (url path : Str) (c : Copy rates)
      → ((r : Response) → net.do_request url ≡ ok r → (i : ℕ) → Lawful (r.body i))
      → direct_link rates net fuel now url path ≡ (some c, some (ok tt))
      → (r : Response) × (net.do_request url ≡ ok r)
        × (is_success rates net r.status ≡ true)
        × Whole fuel r.content_length r.body c
  unfolding direct_link
  direct_link-Whole fuel now url path c l e =
      request_link-Whole fuel now url path (net.build url) c l e

  save_file-Whole :
      (fuel now : ℕ) (size : ℤ) (path : Str) (q : Result Response) (c : Copy rates)
      → ((r : Response) → q ≡ ok r → (i : ℕ) → Lawful (r.body i))
      → save_file rates net fuel now size path q ≡ (some c, some (ok tt))
      → (r : Response) × (q ≡ ok r) × (eqb_ℤ r.status (pos 200) ≡ true) × Whole fuel size r.body c
  unfolding save_file
  save_file-Whole fuel now size path (err x) c l e = cc
  save_file-Whole fuel now size path (ok r) c l e =
      let k = when_success (eqb_ℤ r.status (pos 200)) _ _ c e in
      (r, refl, k.0, into_file-Whole (net.create path) fuel now size r.body c (l r refl) k.1)

  request_file-Whole :
      (fuel now : ℕ) (url : Str) (size : ℤ) (path : Str) (o : Option Error) (c : Copy rates)
      → ((r : Response) → net.do_request url ≡ ok r → (i : ℕ) → Lawful (r.body i))
      → request_file rates net fuel now url size path o ≡ (some c, some (ok tt))
      → (r : Response) × (net.do_request url ≡ ok r)
        × (eqb_ℤ r.status (pos 200) ≡ true)
        × Whole fuel size r.body c
  unfolding request_file
  request_file-Whole fuel now url size path (some x) c l e = cc
  request_file-Whole fuel now url size path none c l e =
      save_file-Whole fuel now size path (net.do_request url) c l e

  located-Whole :
      (fuel now : ℕ) (path : Str) (q : Result (Str × ℤ)) (c : Copy rates)
      → ((url : Str) (r : Response) → net.do_request url ≡ ok r → (i : ℕ) → Lawful (r.body i))
      → located rates net fuel now path q ≡ (some c, some (ok tt))
      → (f : Str × ℤ) × (q ≡ ok f)
        × (r : Response) × (net.do_request f.0 ≡ ok r)
        × (eqb_ℤ r.status (pos 200) ≡ true)
        × Whole fuel f.1 r.body c
  unfolding located
  located-Whole fuel now path (err x) c l e = cc
  located-Whole fuel now path (ok (url, size)) c l e =
      let (r, a, k, w) = request_file-Whole fuel now url size path (net.build url) c (l url) e in
      ((url, size), refl, r, a, k, w)

  -- Where TelegramFile returns nil, the Bot API knew the file, its server answered with status 200, and the local file holds the response's body to its end.
  pub telegram_file-Whole :
      (fuel now : ℕ) (file_id path : Str) (c : Copy rates)
      → ((url : Str) (r : Response) → net.do_request url ≡ ok r → (i : ℕ) → Lawful (r.body i))
      → telegram_file rates net fuel now file_id path ≡ (some c, some (ok tt))
      → (f : Str × ℤ) × (net.get_file file_id ≡ ok f)
        × (r : Response) × (net.do_request f.0 ≡ ok r)
        × (eqb_ℤ r.status (pos 200) ≡ true)
        × Whole fuel f.1 r.body c
  unfolding telegram_file
  telegram_file-Whole fuel now file_id path c l e =
      located-Whole fuel now path (net.get_file file_id) c l e
