-- ===== src/Download/Ends.antt =====
-- internal/download/telegram.go: the copy loop ends.
use gdrive_bot.Base.{
  ℕ, zero, suc, ◌+◌, ◌≤◌, ◌<◌, ◌==◌, ◌≢◌, refl, sym, subst, ==_iff, Bool-cases, ◌⊎◌, inl, inr,
  Option, none, some, ℤ, length, Error, Result, arith,
}
use gdrive_bot.Download.{
  Rates, ReadEnd, more, eof, broken, Round, Copy, ended, wrote, after_read, unless_canceled, round,
  go_on, rounds, stream_with_progress,
}

-- A round that is the loop's last: the context is done, or Read returns io.EOF or an error.
abbrev pub Stops : Round → Type 0
Stops r = (r.canceled ≢ none) ⊎ (r.read_end ≢ more)

module _ (rates : Rates) where
  abbrev Returned : Copy rates × Option (Result (Unit {0})) → Type 0
  Returned p = p.1 ≢ none

  ended-Returned :
      (total : ℤ) (e : ReadEnd) (c : Copy rates) → e ≢ more → Returned (ended rates total e c)
  unfolding ended
  ended-Returned total more c h = elim (h refl) [ ]
  ended-Returned total eof c h = λ e. cc
  ended-Returned total (broken x) c h = λ e. cc

  wrote-Returned :
      (total : ℤ) (r : Round) (o : Option Error) (c : Copy rates)
      → r.read_end ≢ more
      → Returned (wrote rates total r o c)
  unfolding wrote
  wrote-Returned total r (some x) c h = λ e. cc
  wrote-Returned total r none c h = ended-Returned total r.read_end _ h

  after_read-Returned :
      (total : ℤ) (r : Round) (c : Copy rates)
      → r.read_end ≢ more
      → Returned (after_read rates total r c)
  unfolding after_read
  after_read-Returned total r c h = elim (Bool-cases (length r.chunk == 0)) [
    | inl k ↦ rw k (ended-Returned total r.read_end c h)
    | inr k ↦ rw k (wrote-Returned total r r.write_error _ h)
  ]

  unless_canceled-Returned :
      (total : ℤ) (r : Round) (o : Option Error) (c : Copy rates)
      → (o ≢ none) ⊎ (r.read_end ≢ more)
      → Returned (unless_canceled rates total r o c)
  unfolding unless_canceled
  unless_canceled-Returned total r (some x) c h = λ e. cc
  unless_canceled-Returned total r none c (inl h) = elim (h refl) [ ]
  unless_canceled-Returned total r none c (inr h) = after_read-Returned total r c h

  module _ (total : ℤ) (script : ℕ → Round) (k : ℕ) (stops : Stops (script k)) where
    go_on-Returned :
        (n i : ℕ) (p : Copy rates × Option (Result (Unit {0})))
        → Returned p ⊎ ((c : Copy rates) → Returned (rounds rates total script n (suc i) c))
        → Returned (go_on rates (rounds rates total script n (suc i)) p)
    go_on-Returned n i (c, none) (inl h) = elim (h refl) [ ]
    go_on-Returned n i (c, none) (inr h) = h c
    go_on-Returned n i (c, some r) h = λ e. cc

    rounds-Returned :
        (n i : ℕ) (c : Copy rates) → i ≤ k → k < n + i → Returned (rounds rates total script n i c)
    unfolding rounds round
    rounds-Returned zero i c l h = λ e. omega (arith, l, h)
    rounds-Returned (suc n) i c l h = elim (Bool-cases (i == k)) [
      | inl e ↦ go_on-Returned n i (round rates total (script i) c) (
          inl (
            unless_canceled-Returned total (script i) (script i).canceled c
              (subst (λ j. Stops (script j)) (sym ((==_iff i k).0 e)) stops)))
      | inr e ↦
          go_on-Returned n i (round rates total (script i) c)
            (inr (λ c'. rounds-Returned n (suc i) c' (ground arith) (omega arith)))
    ]

    -- Where a round is canceled, or its Read returns io.EOF or an error, a loop that is allowed that many rounds returns.
    pub stream_with_progress-Ended :
        (fuel now : ℕ) → k < fuel → (stream_with_progress rates fuel now total script).1 ≢ none
    unfolding stream_with_progress
    stream_with_progress-Ended fuel now h = rounds-Returned fuel 0 _ (omega arith) (omega arith)
