-- ===== src/Download/Complete.antt =====
-- internal/download/telegram.go: what the copy loop leaves in the file.
use gdrive_bot.Base.{
  ℕ, zero, suc, ◌+◌, ◌≤◌, ◌<◌, ◌==◌, ◌≡◌, refl, sym, ap, subst, ◌∙◌, Bool, true, false, Option,
  none, some, List, [], ◌∷◌, ◌++◌, Str, append_assoc, append-nil, ℤ, pos, add64, wrapped,
  add64-wrapped, length, length-append, take, drop, Error, Result, ok, err, arith, Bool-cases, inl,
  inr,
}
use gdrive_bot.Download.{
  Rates, Ticker, ready, told, ReadEnd, more, eof, broken, Round, Lawful, Progress, Copy, report,
  tick, conclude, ended, wrote, after_read, unless_canceled, round, go_on, rounds, fresh,
  stream_with_progress,
}

-- The bytes of the first rounds.
abbrev pub received : (ℕ → Round) → ℕ → Str
received script zero = []
received script (suc n) = received script n ++ (script n).chunk

take_all : (n : ℕ) (s : Str) → n ≡ length s → take n s ≡ s
take_all zero [] h = refl
take_all zero (c ∷ s) h = ground arith
take_all (suc n) [] h = ground arith
take_all (suc n) (c ∷ s) h = ap (λ t. c ∷ t) (take_all n s (omega (arith, h)))

take-drop : (n : ℕ) (s : Str) → take n s ++ drop n s ≡ s
take-drop zero s = refl
take-drop (suc n) [] = refl
take-drop (suc n) (c ∷ s) = ap (λ t. c ∷ t) (take-drop n s)

module _ (rates : Rates) where
  -- The file holds these bytes, and the counter counts them.
  pub record Holds (s : Str) (c : Copy rates) : Type 0 where
    file : c.file ≡ s
    done : c.done ≡ wrapped (length s)

  -- the last message says that all bytes of the file have come
  pub record Concluded (total : ℤ) (s : Str) (c : Copy rates) : Type 0 where
    file : c.file ≡ s
    earlier : List (Progress rates)
    sent :
        c.sent
        ≡ earlier
          ++ record {
            bytes_done = wrapped (length s);
            bytes_total = total;
            speed = rates.still;
            done = true;
          }
            ∷ []

  told-Holds :
      (total : ℤ) (r : Round) (s : Str) (c : Copy rates) (p : Ticker × Bool)
      → Holds s c
      → Holds s (told rates total r c p)
  unfolding told report
  told-Holds total r s c (t, true) h = record { file = h.file; done = h.done }
  told-Holds total r s c (t, false) h = record { file = h.file; done = h.done }

  abbrev pub Prefix : Str → Str → Type 0
  Prefix p s = (rest : Str) × (p ++ rest ≡ s)

  -- What a round does that ends in `o`, after which `s` is there.
  abbrev Done : ℤ → ReadEnd → Str → Copy rates × Option (Result (Unit {0})) → Type 0
  Done total e s (c, none) = (e ≡ more) × Holds s c
  Done total e s (c, some (ok u)) = (e ≡ eof) × Concluded total s c
  Done total e s (c, some (err x)) = Prefix c.file s

  ended-Done :
      (total : ℤ) (e : ReadEnd) (s : Str) (c : Copy rates)
      → Holds s c
      → Done total e s (ended rates total e c)
  unfolding ended conclude
  ended-Done total more s c h = (refl, h)
  ended-Done total eof s c h = (
    refl,
    record {
      file = h.file;
      earlier = c.sent;
      sent =
          ap
            (λ d.
              c.sent
              ++ record { bytes_done = d; bytes_total = total; speed = rates.still; done = true }
                ∷ [])
            h.done;
    },
  )
  ended-Done total (broken x) s c h = ([], append-nil c.file ∙ h.file)

  wrote-Done :
      (total : ℤ) (r : Round) (o : Option Error) (s : Str) (c : Copy rates)
      → length r.chunk ≤ 262144
      → Prefix c.file (s ++ r.chunk)
      → (o ≡ none → c.file ≡ s ++ r.chunk)
      → c.done ≡ wrapped (length s)
      → Done total r.read_end (s ++ r.chunk) (wrote rates total r o c)
  unfolding wrote tick
  wrote-Done total r (some x) s c l p f d = p
  wrote-Done total r none s c l p f d = ended-Done total r.read_end (s ++ r.chunk) _ (
      told-Holds total r (s ++ r.chunk) (record c { done = add64 c.done (pos (length r.chunk)) })
        (ready r.asked r.noted c.ticker)
        record {
          file = f refl;
          done =
              ap (λ z. add64 z (pos (length r.chunk))) d
              ∙ add64-wrapped (length s) (length r.chunk) (omega (arith, l))
              ∙ ap wrapped (sym (length-append s r.chunk));
        })

  empty_chunk : (s t : Str) → (length t == 0) ≡ true → s ++ t ≡ s
  empty_chunk s [] h = append-nil s
  empty_chunk s (b ∷ t) h = ground arith

  after_read-Done :
      (total : ℤ) (r : Round) (s : Str) (c : Copy rates)
      → Lawful r
      → Holds s c
      → Done total r.read_end (s ++ r.chunk) (after_read rates total r c)
  unfolding after_read
  after_read-Done total r s c l h = elim (Bool-cases (length r.chunk == 0)) [
    | inl k ↦ rw k (
        subst (λ t. Done total r.read_end t (ended rates total r.read_end c))
          (sym (empty_chunk s r.chunk k)) (ended-Done total r.read_end s c h))
    | inr k ↦ rw k (
        wrote-Done total r r.write_error s _ l.in_buffer
          (
            drop r.written r.chunk,
            append_assoc c.file (take r.written r.chunk) (drop r.written r.chunk)
                ∙ ap (λ t. c.file ++ t) (take-drop r.written r.chunk)
                ∙ ap (λ t. t ++ r.chunk) h.file,
          )
          (λ e.
            ap (λ t. c.file ++ t) (take_all r.written r.chunk (l.all_taken e))
            ∙ ap (λ t. t ++ r.chunk) h.file)
          h.done)
  ]

  unless_canceled-Done :
      (total : ℤ) (r : Round) (o : Option Error) (s : Str) (c : Copy rates)
      → Lawful r
      → Holds s c
      → Done total r.read_end (s ++ r.chunk) (unless_canceled rates total r o c)
  unfolding unless_canceled
  unless_canceled-Done total r (some x) s c l h = (r.chunk, ap (λ t. t ++ r.chunk) h.file)
  unless_canceled-Done total r none s c l h = after_read-Done total r s c l h

  round-Done :
      (total : ℤ) (r : Round) (s : Str) (c : Copy rates)
      → Lawful r
      → Holds s c
      → Done total r.read_end (s ++ r.chunk) (round rates total r c)
  unfolding round
  round-Done total r s c l h = unless_canceled-Done total r r.canceled s c l h

  -- What a run of the loop over the rounds of `script` ends with, after `n` of them.
  abbrev pub Copied : ℤ → (ℕ → Round) → ℕ → Copy rates × Option (Result (Unit {0})) → Type 0
  Copied total script n (c, none) = Holds (received script n) c
  Copied total script n (c, some (ok u)) =
      (k : ℕ) × (k < n) × ((script k).read_end ≡ eof) × Concluded total (received script (suc k)) c
  Copied total script n (c, some (err x)) =
      (k : ℕ) × (k < n) × Prefix c.file (received script (suc k))

  i_is : (i m : ℕ) → 0 + i ≡ m → i ≡ m
  i_is i m e = omega (arith, e)

  module _ (total : ℤ) (script : ℕ → Round) (lawful : (i : ℕ) → Lawful (script i)) where
    go_on-Copied :
        (n i m : ℕ) (p : Copy rates × Option (Result (Unit {0})))
        → suc n + i ≡ m
        → Done total (script i).read_end (received script (suc i)) p
        → ((c : Copy rates)
            → Holds (received script (suc i)) c
            → Copied total script m (rounds rates total script n (suc i) c))
        → Copied total script m (go_on rates (rounds rates total script n (suc i)) p)
    go_on-Copied n i m (c, none) e d k = k c d.1
    go_on-Copied n i m (c, some (ok u)) e d k = (i, omega arith, d.0, d.1)
    go_on-Copied n i m (c, some (err x)) e d k = (i, omega arith, d)

    rounds-Copied :
        (n i m : ℕ) (c : Copy rates)
        → n + i ≡ m
        → Holds (received script i) c
        → Copied total script m (rounds rates total script n i c)
    unfolding rounds
    rounds-Copied zero i m c e h = subst (λ k. Holds (received script k) c) (i_is i m e) h
    rounds-Copied (suc n) i m c e h =
        go_on-Copied n i m (round rates total (script i) c) e
          (round-Done total (script i) (received script i) c (lawful i) h)
          (λ c' h'. rounds-Copied n (suc i) m c' (omega arith) h')

    -- Where the rounds keep the promises of io.Reader and io.Writer: a copy that succeeds met io.EOF, left all bytes read so far in the file and reported their number last; one that fails left some first part of the bytes read; one that goes on left all of them.
    pub stream_with_progress-Copied :
        (fuel now : ℕ) → Copied total script fuel (stream_with_progress rates fuel now total script)
    unfolding stream_with_progress
    stream_with_progress-Copied fuel now =
        rounds-Copied fuel 0 fuel (fresh rates now) (omega arith)
          record { file = refl; done = refl }
