-- ===== src/Rclone/Forwarded.antt =====
-- internal/upload/rclone_upload.go: what the reader of ToDrive's channel gets, and what it returns.
use gdrive_bot.Base.{
  ◌≡◌, ◌⊎◌, inl, inr, refl, Bool, true, false, Option, none, some, List, [], ◌∷◌, ◌++◌, map, Str,
  All, Error, Result, ok, err, map_error, wrap, bytes, ap, subst, some_inj,
}
use gdrive_bot.Rclone.{
  Floats, Groups, Run, UploadProgress, Progress, progress_of, progress_or_none, parse_progress_line,
  sent_line, read_lines, last_message, waited, started, piped, upload, forwarded, to_drive,
}

module _ (floats : Floats) (transferred : Str → Option Groups) where
  abbrev Running : Progress floats transferred → Type 0
  Running p = (p.done ≡ false) × (p.failure ≡ none)

  -- messages of a running upload, and a last one with the error of the process
  pub record Ended (e : Option Error) (sent : List (Progress floats transferred)) : Type 0 where
    earlier : List (Progress floats transferred)
    running : All Running earlier
    last : Progress floats transferred
    done : last.done ≡ true
    failure : last.failure ≡ e
    all : sent ≡ earlier ++ last ∷ []

  -- nothing was sent of a process that did not start
  abbrev pub Reported : Run → List (Progress floats transferred) × Result (Unit {0}) → Type 0
  Reported run (sent, ok u) =
      (run.pipe_error ≡ none) × (run.start_error ≡ none) × (run.wait_error ≡ none) × Ended none sent
  Reported run (sent, err x) =
      ((e : Error) × ((run.pipe_error ≡ some e) ⊎ (run.start_error ≡ some e)) × (sent ≡ []))
      ⊎ ((e : Error) × (run.wait_error ≡ some e) × Ended (some e) sent)

  line-Running :
      (o : Option (UploadProgress floats transferred)) (b : Bool)
      (rest : List (UploadProgress floats transferred))
      → ((p : UploadProgress floats transferred)
          → o ≡ some p
          → Running (forwarded floats transferred p))
      → All Running (map (forwarded floats transferred) rest)
      → All Running (map (forwarded floats transferred) (sent_line floats transferred o b rest))
  line-Running none b rest h k = k
  line-Running (some p) true rest h k = k
  line-Running (some p) false rest h k = (h p refl, k)

  parsed-Running :
      (o : Option Groups) (p : UploadProgress floats transferred)
      → progress_or_none floats transferred o ≡ some p
      → Running (forwarded floats transferred p)
  unfolding progress_of forwarded
  parsed-Running none p e = cc
  parsed-Running (some g) p e =
      subst (λ q. Running (forwarded floats transferred q)) (some_inj e) (refl, refl)

  lines-Running :
      (lines : List (Str × Bool))
      → All Running (map (forwarded floats transferred) (read_lines floats transferred lines))
  unfolding read_lines parse_progress_line
  lines-Running [] = tt
  lines-Running ((line, b) ∷ more) =
      line-Running (parse_progress_line floats transferred line) b _
        (parsed-Running (transferred line)) (lines-Running more)

  map_snoc :
      (xs : List (UploadProgress floats transferred)) (x : UploadProgress floats transferred)
      → map (forwarded floats transferred) (xs ++ x ∷ [])
        ≡ map (forwarded floats transferred) xs ++ forwarded floats transferred x ∷ []
  map_snoc [] x = refl
  map_snoc (y ∷ ys) x = ap (λ r. forwarded floats transferred y ∷ r) (map_snoc ys x)

  ended :
      (e : Option Error) (lines : List (Str × Bool)) (f : floats.Float)
      → Ended e (
          map
            (forwarded floats transferred)
            (read_lines floats transferred lines ++ last_message floats transferred f e ∷ []))
  unfolding forwarded
  ended e lines f = record {
    earlier = map (forwarded floats transferred) (read_lines floats transferred lines);
    running = lines-Running lines;
    last = forwarded floats transferred (last_message floats transferred f e);
    done = refl;
    failure = refl;
    all = map_snoc (read_lines floats transferred lines) (last_message floats transferred f e);
  }

  -- what ToDrive makes of an upload
  abbrev through :
      List (UploadProgress floats transferred) × Result (Unit {0})
      → List (Progress floats transferred) × Result (Unit {0})
  through (sent, r) =
      (map (forwarded floats transferred) sent, map_error (wrap (bytes "upload: ")) r)

  waited-Reported :
      (run : Run) (o : Option Error)
      → run.pipe_error ≡ none
      → run.start_error ≡ none
      → run.wait_error ≡ o
      → Reported run
          (through (waited floats transferred o (read_lines floats transferred run.lines)))
  unfolding waited
  waited-Reported run none a b e = (a, b, e, ended none run.lines floats.hundred)
  waited-Reported run (some x) a b e = inr (x, e, ended (some x) run.lines floats.nothing)

  started-Reported :
      (run : Run) (o : Option Error)
      → run.pipe_error ≡ none
      → run.start_error ≡ o
      → Reported run (through (started floats transferred o run))
  unfolding started
  started-Reported run none a b = waited-Reported run run.wait_error a b refl
  started-Reported run (some x) a b = inl (x, inr b, refl)

  piped-Reported :
      (run : Run) (o : Option Error)
      → run.pipe_error ≡ o
      → Reported run (through (piped floats transferred o run))
  unfolding piped
  piped-Reported run none a = started-Reported run run.start_error a refl
  piped-Reported run (some x) a = inl (x, inl a, refl)

  -- ToDrive returns nil exactly where the rclone process started and ended without an error, and then the messages are those of a running upload and a last one that says that it is done; where the process ended with an error, the last one carries that error; where it could not be started, there is none.
  pub to_drive-Reported : (run : Run) → Reported run (to_drive floats transferred run)
  unfolding to_drive upload
  to_drive-Reported run = piped-Reported run run.pipe_error refl
