-- ===== src/Utils/Retry.antt =====
-- internal/utils/retry.go. The state `W` is whatever the attempts act on. `cancelled` is `ctx.Err()`;
-- `pause` is the wait between two attempts, in which others act: it ends with an error if the
-- context is done first. The length of the wait, with its random jitter in floating point, is not
-- modelled.
pub mod Laws
use gdrive_bot.Base.{
  ℕ, zero, suc, ◌+◌, Bool, true, false, Option, none, some, ◌++◌, Str, bytes, ℤ, pos, negsuc,
  if◌then◌else◌, ltb, Error, plain, non_retryable, error_text, Result, ok, err, format_nat,
}

-- DefaultRetryConfig(n).MaxAttempts
unfoldable pub max_attempts : ℤ → ℕ
max_attempts (pos n) = if ltb 0 n then n else 10
max_attempts (negsuc n) = 10

-- isNonRetryable
abbrev pub is_non_retryable : Error → Bool
is_non_retryable (plain s) = false
is_non_retryable (non_retryable e) = true

-- `%w` of an error that may be nil
abbrev pub last_text : Option Error → Str
last_text none = bytes "%!w(<nil>)"
last_text (some e) = error_text e

abbrev pub exhausted : ℕ → Option Error → Error
exhausted max last =
    plain (bytes "retry: exhausted " ++ (format_nat max ++ (bytes " attempts: " ++ last_text last)))

-- `if err := ctx.Err(); err != nil { return err }` before what follows
unfoldable pub guarded {ℓ} :
    {A : Type ℓ} → Option Error → A × Result (Unit {0}) → A → A × Result (Unit {0})
guarded none next w = next
guarded (some e) next w = (w, err e)

-- the end of a wait
unfoldable pub resumed {ℓ} :
    {A : Type ℓ} → A × Option Error → (A → A × Result (Unit {0})) → A × Result (Unit {0})
resumed (w, none) again = again w
resumed (w, some e) again = (w, err e)

module _ {W : Type 0} (cancelled : W → Option Error) (pause : ℕ → W → W × Option Error) where
  module _ (fn : ℕ → W → W × Result (Unit {0})) (max : ℕ) where
    -- What follows an attempt: `again` is the next round. The last attempt does not wait.
    unfoldable pub settle :
        ℕ
        → ℕ
        → (Option Error → W → W × Result (Unit {0}))
        → W × Result (Unit {0})
        → W × Result (Unit {0})
    unfolding resumed
    settle left attempt again (w, ok u) = (w, ok u)
    settle left attempt again (w, err (non_retryable e)) = (w, err (non_retryable e))
    settle zero attempt again (w, err (plain s)) = (w, err (exhausted max (some (plain s))))
    settle (suc left) attempt again (w, err (plain s)) =
        resumed (pause attempt w) (again (some (plain s)))

    -- `left` attempts are left, from number `attempt` on.
    unfoldable pub attempts : ℕ → ℕ → Option Error → W → W × Result (Unit {0})
    unfolding settle guarded
    attempts zero attempt last w = (w, err (exhausted max last))
    attempts (suc left) attempt last w =
        guarded (cancelled w) (settle left attempt (attempts left (attempt + 1)) (fn attempt w)) w

  -- Retry, at DefaultRetryConfig(n)
  unfoldable pub retry : ℤ → (ℕ → W → W × Result (Unit {0})) → W → W × Result (Unit {0})
  unfolding attempts max_attempts
  retry n fn w = attempts fn (max_attempts n) (max_attempts n) 1 none w
