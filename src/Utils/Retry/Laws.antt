-- ===== src/Utils/Retry/Laws.antt =====
-- How `Retry` of internal/utils/retry.go ends, and what it keeps.
use gdrive_bot.Base.{
  ℕ, zero, suc, ◌+◌, ◌≤◌, ◌<◌, ◌≡◌, refl, subst, Option, none, some, ℤ, Error, plain, non_retryable,
  Result, ok, err, arith, Str,
}
use gdrive_bot.Utils.Retry.{max_attempts, exhausted, settle, guarded, resumed, attempts, retry}

module _ {W : Type 0} (cancelled : W → Option Error) (pause : ℕ → W → W × Option Error)
    (fn : ℕ → W → W × Result (Unit {0})) (max : ℕ) where
  -- How a run whose attempts are numbered from `first` to `max` ends, and in which state.
  pub data Ended (first : ℕ) (r : W × Result (Unit {0})) : Type 0 where
    -- an attempt succeeded
    succeeded : (a : ℕ) (w : W) → first ≤ a → a ≤ max → fn a w ≡ r → r.1 ≡ ok tt → Ended first r
    -- an attempt failed for good
    gave_up :
        (a : ℕ) (w : W) (e : Error)
        → first ≤ a
        → a ≤ max
        → fn a w ≡ r
        → r.1 ≡ err (non_retryable e)
        → Ended first r
    -- the context was done before an attempt, or in a wait
    cut_off : (e : Error) → cancelled r.0 ≡ some e → r.1 ≡ err e → Ended first r
    cut_short :
        (a : ℕ) (w : W) (e : Error)
        → first ≤ a
        → a < max
        → pause a w ≡ (r.0, some e)
        → r.1 ≡ err e
        → Ended first r
    -- the last attempt failed
    ran_out :
        (w : W) (s : Str)
        → first ≤ max
        → fn max w ≡ (r.0, err (plain s))
        → r.1 ≡ err (exhausted max (some (plain s)))
        → Ended first r

  later : {first : ℕ} {r : W × Result (Unit {0})} → Ended (first + 1) r → Ended first r
  later (succeeded a w h k e f) = succeeded a w (omega arith) k e f
  later (gave_up a w x h k e f) = gave_up a w x (omega arith) k e f
  later (cut_off e c f) = cut_off e c f
  later (cut_short a w e h k p f) = cut_short a w e (omega arith) k p f
  later (ran_out w s h e f) = ran_out w s (omega arith) e f

  guarded-Ended :
      (first : ℕ) (w : W) (c : Option Error) (next : W × Result (Unit {0}))
      → cancelled w ≡ c
      → Ended first next
      → Ended first (guarded c next w)
  unfolding guarded
  guarded-Ended first w none next q h = h
  guarded-Ended first w (some e) next q h = cut_off e q refl

  resumed-Ended :
      (first : ℕ) (w : W) (p : W × Option Error) (again : W → W × Result (Unit {0}))
      → first < max
      → pause first w ≡ p
      → ((x : W) → Ended (first + 1) (again x))
      → Ended first (resumed p again)
  unfolding resumed
  resumed-Ended first w (x, none) again lt q h = later (h x)
  resumed-Ended first w (x, some e) again lt q h = cut_short first w e (omega arith) lt q refl

  settle-Ended :
      (left first : ℕ) (again : Option Error → W → W × Result (Unit {0})) (w : W)
      (r : W × Result (Unit {0}))
      → first + left ≡ max
      → fn first w ≡ r
      → ((o : Option Error) (x : W) → 0 < left → Ended (first + 1) (again o x))
      → Ended first (settle cancelled pause fn max left first again r)
  unfolding settle
  settle-Ended left first again w (v, ok u) k q next =
      succeeded first w (omega arith) (omega arith) q refl
  settle-Ended left first again w (v, err (non_retryable e)) k q next =
      gave_up first w e (omega arith) (omega arith) q refl
  settle-Ended zero first again w (v, err (plain s)) k q next =
      let same : first ≡ max = omega arith in
      ran_out w s (omega arith) (subst (λ a. fn a w ≡ (v, err (plain s))) same q) refl
  settle-Ended (suc left) first again w (v, err (plain s)) k q next =
      resumed-Ended first v (pause first v) (again (some (plain s))) (omega arith) refl
        (λ x. next (some (plain s)) x (omega arith))

  attempts-Ended :
      (left first : ℕ) (last : Option Error) (w : W)
      → 0 < left
      → first + left ≡ max + 1
      → Ended first (attempts cancelled pause fn max left first last w)
  unfolding attempts
  attempts-Ended zero first last w h k = absurd (omega arith)
  attempts-Ended (suc left) first last w h k = guarded-Ended first w (cancelled w) _ refl (
      settle-Ended left first (attempts cancelled pause fn max left (first + 1)) w (fn first w)
        (omega arith) refl (λ o x lt. attempts-Ended left (first + 1) o x lt (omega arith)))

module _ {W : Type 0} (cancelled : W → Option Error) (pause : ℕ → W → W × Option Error) where
  pub max_attempts_pos : (n : ℤ) → 0 < max_attempts n
  unfolding max_attempts
  max_attempts_pos n = ground arith

  -- Retry ends, in one of five ways: an attempt between 1 and the maximum succeeded, or failed for
  -- good, or was the last one and failed; or the context was done before an attempt or in a wait.
  pub retry-Ended :
      (n : ℤ) (fn : ℕ → W → W × Result (Unit {0})) (w : W)
      → Ended cancelled pause fn (max_attempts n) 1 (retry cancelled pause n fn w)
  unfolding retry
  retry-Ended n fn w =
      attempts-Ended cancelled pause fn (max_attempts n) (max_attempts n) 1 none w
        (max_attempts_pos n) (omega arith)

  module _ (P : W → Type 0) (kept : (a : ℕ) (w : W) → P w → P (pause a w).0) where
    resumed_inv :
        (p : W × Option Error) (again : W → W × Result (Unit {0}))
        → P p.0
        → ((x : W) → P x → P (again x).0)
        → P (resumed p again).0
    unfolding resumed
    resumed_inv (x, none) again h k = k x h
    resumed_inv (x, some e) again h k = h

    guarded_inv :
        (c : Option Error) (next : W × Result (Unit {0})) (w : W)
        → P w
        → P next.0
        → P (guarded c next w).0
    unfolding guarded
    guarded_inv none next w h k = k
    guarded_inv (some e) next w h k = h

    module _ (fn : ℕ → W → W × Result (Unit {0})) (max : ℕ)
        (acts : (a : ℕ) (w : W) → P w → P (fn a w).0) where
      settle_inv :
          (left a : ℕ) (again : Option Error → W → W × Result (Unit {0}))
          (r : W × Result (Unit {0}))
          → P r.0
          → ((o : Option Error) (x : W) → P x → P (again o x).0)
          → P (settle cancelled pause fn max left a again r).0
      unfolding settle
      settle_inv left a again (v, ok u) h k = h
      settle_inv left a again (v, err (non_retryable e)) h k = h
      settle_inv zero a again (v, err (plain s)) h k = h
      settle_inv (suc left) a again (v, err (plain s)) h k =
          resumed_inv (pause a v) (again (some (plain s))) (kept a v h) (k (some (plain s)))

      attempts_inv :
          (left a : ℕ) (last : Option Error) (w : W)
          → P w
          → P (attempts cancelled pause fn max left a last w).0
      unfolding attempts
      attempts_inv zero a last w h = h
      attempts_inv (suc left) a last w h = guarded_inv (cancelled w) _ w h (
          settle_inv left a (attempts cancelled pause fn max left (a + 1)) (fn a w) (acts a w h)
            (attempts_inv left (a + 1)))

    -- What the attempts and the waits keep, a whole Retry keeps.
    pub retry_inv :
        (n : ℤ) (fn : ℕ → W → W × Result (Unit {0})) (w : W)
        → ((a : ℕ) (x : W) → P x → P (fn a x).0)
        → P w
        → P (retry cancelled pause n fn w).0
    unfolding retry
    retry_inv n fn w acts h = attempts_inv fn (max_attempts n) acts (max_attempts n) 1 none w h
