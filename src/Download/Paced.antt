-- ===== src/Download/Paced.antt =====
-- internal/download/progress.go: how often the copy loop of telegram.go reports.
use gdrive_bot.Base.{
  ℕ, zero, suc, ◌+◌, ◌*◌, ◌≤◌, ◌<◌, ◌==◌, ◌≡◌, refl, subst, Bool, true, false, Bool-cases, inl, inr,
  Option, none, some, List, [], ◌∷◌, ◌++◌, ℤ, pos, add64, length, length-append, Error, Result,
  arith,
}
use gdrive_bot.Download.{
  Rates, Ticker, ready, told, tick, report, conclude, ReadEnd, more, eof, broken, Round, Copy,
  ended, wrote, after_read, unless_canceled, round, go_on, rounds, fresh, stream_with_progress,
}

-- So many messages came since `t0`, the last at the ticker's time, at most one in an interval.
abbrev Paced : ℕ → ℕ → Option ℕ → ℕ → Type 0
Paced t0 t none n = n ≡ 0
Paced t0 t (some l) n = (t0 ≤ l) × (l ≤ t) × (n * 1200000000 + t0 ≤ l + 1200000000)

abbrev counted : Bool → ℕ → ℕ
counted true n = suc n
counted false n = n

ready_lem :
    (t0 asked noted n : ℕ) (o : Option ℕ)
    → t0 ≤ asked
    → asked ≤ noted
    → Paced t0 asked o n
    → Paced t0 noted
        (ready asked noted record { last = o }).0.last
        (counted (ready asked noted record { last = o }).1 n)
unfolding ready
ready_lem t0 asked noted n none a b p = (omega (arith, a, b), omega arith, omega (arith, a, b, p))
ready_lem t0 asked noted n (some l) a b p = ground arith

ready-Paced :
    (t0 asked noted n : ℕ) (t : Ticker)
    → t0 ≤ asked
    → asked ≤ noted
    → Paced t0 asked t.last n
    → Paced t0 noted (ready asked noted t).0.last (counted (ready asked noted t).1 n)
unfolding ready
ready-Paced t0 asked noted n t a b p = ready_lem t0 asked noted n t.last a b p

later-Paced :
    (t0 t u n : ℕ) (o : Option ℕ)
    → t0 ≤ t
    → t ≤ u
    → Paced t0 t o n
    → Paced t0 u o n × (n * 1200000000 + t0 ≤ u + 1200000000)
later-Paced t0 t u n none a b p = (p, omega (arith, a, b, p))
later-Paced t0 t u n (some l) a b p =
    ((p.0, omega (arith, p.1, b), p.2), omega (arith, p.1, p.2, b))

length_snoc : {A : Type 0} (xs : List A) (x : A) → suc (length xs) ≡ length (xs ++ x ∷ [])
length_snoc xs x = omega (arith, length-append xs (x ∷ []))

module _ (rates : Rates) where
  abbrev PacedCopy : ℕ → ℕ → Copy rates → Type 0
  PacedCopy t0 t c = Paced t0 t c.ticker.last (length c.sent)

  -- the last message may come at once
  abbrev pub PacedEnd : ℕ → ℕ → Copy rates × Option (Result (Unit {0})) → Type 0
  PacedEnd t0 t (c, none) = PacedCopy t0 t c
  PacedEnd t0 t (c, some r) = length c.sent * 1200000000 + t0 ≤ t + 2400000000

  told-Paced :
      (total : ℤ) (r : Round) (t0 t : ℕ) (c : Copy rates) (p : Ticker × Bool)
      → Paced t0 t p.0.last (counted p.1 (length c.sent))
      → PacedCopy t0 t (told rates total r c p)
  unfolding told report
  told-Paced total r t0 t c (k, true) h = subst (λ m. Paced t0 t k.last m) (length_snoc c.sent _) h
  told-Paced total r t0 t c (k, false) h = h

  ended-Paced :
      (total : ℤ) (e : ReadEnd) (t0 t : ℕ) (c : Copy rates)
      → t0 ≤ t
      → PacedCopy t0 t c
      → PacedEnd t0 t (ended rates total e c)
  unfolding ended conclude
  ended-Paced total more t0 t c l h = h
  ended-Paced total eof t0 t c l h = omega (
    arith,
    length-append c.sent (
        record { bytes_done = c.done; bytes_total = total; speed = rates.still; done = true } ∷ []),
    (later-Paced t0 t t (length c.sent) c.ticker.last l (omega arith) h).1,
  )
  ended-Paced total (broken x) t0 t c l h =
      omega (arith, (later-Paced t0 t t (length c.sent) c.ticker.last l (omega arith) h).1)

  module _ (total : ℤ) (t0 : ℕ) where
    PacedFrom : Round → (Copy rates → Copy rates × Option (Result (Unit {0}))) → Type 0
    PacedFrom r f =
        (u : ℕ) (c : Copy rates)
        → t0 ≤ u
        → u ≤ r.asked
        → r.asked ≤ r.noted
        → PacedCopy t0 u c
        → PacedEnd t0 r.noted (f c)

    at_once :
        (r : Round) (u : ℕ) (c : Copy rates)
        → t0 ≤ u
        → u ≤ r.asked
        → r.asked ≤ r.noted
        → PacedCopy t0 u c
        → length c.sent * 1200000000 + t0 ≤ r.noted + 2400000000
    at_once r u c a b d h =
        omega
          (arith, a, b, d, (later-Paced t0 u u (length c.sent) c.ticker.last a (omega arith) h).1)

    wrote-Paced : (r : Round) (o : Option Error) → PacedFrom r (wrote rates total r o)
    unfolding PacedFrom wrote tick
    wrote-Paced r (some x) u c a b d h = at_once r u c a b d h
    wrote-Paced r none u c a b d h =
        ended-Paced total r.read_end t0 r.noted
          (tick rates total r (record c { done = add64 c.done (pos (length r.chunk)) }))
          (omega (arith, a, b, d))
          (told-Paced total r t0 r.noted (record c { done = add64 c.done (pos (length r.chunk)) })
            (ready r.asked r.noted c.ticker)
            (ready-Paced t0 r.asked r.noted (length c.sent) c.ticker (omega (arith, a, b)) d
              (later-Paced t0 u r.asked (length c.sent) c.ticker.last a b h).0))

    after_read-Paced : (r : Round) → PacedFrom r (after_read rates total r)
    unfolding PacedFrom after_read
    after_read-Paced r u c a b d h = elim (Bool-cases (length r.chunk == 0)) [
      | inl k ↦ rw k (
          ended-Paced total r.read_end t0 r.noted c (omega (arith, a, b, d))
            (later-Paced t0 u r.noted (length c.sent) c.ticker.last a (omega (arith, b, d)) h).0)
      | inr k ↦ rw k (wrote-Paced r r.write_error u _ a b d h)
    ]

    unless_canceled-Paced :
        (r : Round) (o : Option Error) → PacedFrom r (unless_canceled rates total r o)
    unfolding PacedFrom unless_canceled
    unless_canceled-Paced r (some x) u c a b d h = at_once r u c a b d h
    unless_canceled-Paced r none u c a b d h = after_read-Paced r u c a b d h

    abbrev Few : ℕ → Copy rates × Option (Result (Unit {0})) → Type 0
    Few t p = length p.0.sent * 1200000000 + t0 ≤ t + 2400000000

    go_on-Few :
        (t : ℕ) (r : Round) (f : Copy rates → Copy rates × Option (Result (Unit {0})))
        (p : Copy rates × Option (Result (Unit {0})))
        → r.noted ≤ t
        → PacedEnd t0 r.noted p
        → ((c : Copy rates) → PacedCopy t0 r.noted c → Few t (f c))
        → Few t (go_on rates f p)
    go_on-Few t r f (c, none) l h k = k c h
    go_on-Few t r f (c, some x) l h k = omega (arith, h, l)

    module _ (script : ℕ → Round) (t1 : ℕ) where
      rounds-Few :
          (n i u : ℕ) (c : Copy rates)
          → t0 ≤ u
          → u ≤ t1
          → u ≤ (script i).asked
          → ((j : ℕ)
              → j < n + i
              → ((script j).asked ≤ (script j).noted)
                × ((script j).noted ≤ (script (suc j)).asked)
                × ((script j).noted ≤ t1))
          → PacedCopy t0 u c
          → Few t1 (rounds rates total script n i c)
      unfolding rounds round PacedFrom
      rounds-Few zero i u c a b d clock h =
          omega (arith, b, (later-Paced t0 u u (length c.sent) c.ticker.last a (omega arith) h).1)
      rounds-Few (suc n) i u c a b d clock h =
          let k = clock i (omega arith) in
          go_on-Few t1 (script i) (rounds rates total script n (suc i))
            (round rates total (script i) c) k.2
            (unless_canceled-Paced (script i) (script i).canceled u c a d k.0 h)
            (λ c' h'.
              rounds-Few n (suc i) (script i).noted c' (omega (arith, a, d, k.0)) k.2 k.1
                (λ j l. clock j (omega (arith, l))) h')

      -- The readings of the clock go from `t0` to `t1`.
      pub record Clocked (fuel : ℕ) : Type 0 where
        pub span : t0 ≤ t1
        pub begins : t0 ≤ (script 0).asked
        pub onward :
            (j : ℕ)
            → j < fuel
            → ((script j).asked ≤ (script j).noted)
              × ((script j).noted ≤ (script (suc j)).asked)
              × ((script j).noted ≤ t1)

      -- Where the clock goes forward from `t0` to `t1`, the copy loop sends at most two messages more than there are intervals of 1.2 s between them.
      pub stream_with_progress-Few :
          (fuel now : ℕ)
          → Clocked fuel
          → length (stream_with_progress rates fuel now total script).0.sent * 1200000000 + t0
            ≤ t1 + 2400000000
      unfolding stream_with_progress
      stream_with_progress-Few fuel now k =
          rounds-Few fuel 0 t0 (fresh rates now) (omega arith) k.span k.begins
            (λ j l. k.onward j (omega (arith, l))) refl
