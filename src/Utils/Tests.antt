-- ===== src/Utils/Tests.antt =====
-- Concrete runs of internal/utils.
use gdrive_bot.Base.{
  ℕ, suc, ◌+◌, ◌*◌, ◌%◌, ◌≤◌, ◌≡◌, Option, none, bytes, pos, Error, plain, Result, err, arith,
}
use gdrive_bot.Utils.Format.{second_ns, round_second}
use gdrive_bot.Utils.Format.Laws.{round_second_near}
use gdrive_bot.Utils.Retry.{max_attempts, retry}
use gdrive_bot.Utils.Retry.Laws.{Ended, retry-Ended}

round_second_near_example :
    (round_second 1600000000 % second_ns ≡ 0)
    × (2 * round_second 1600000000 ≤ 2 * 1600000000 + second_ns)
    × (2 * 1600000000 ≤ 2 * round_second 1600000000 + second_ns)
round_second_near_example = round_second_near 1600000000 (omega arith)

-- a counter of attempts, all of which fail
abbrev failing : ℕ → ℕ → ℕ × Result (Unit {0})
failing a w = (suc w, err (plain (bytes "timeout")))

abbrev never : ℕ → Option Error
never w = none

abbrev wait : ℕ → ℕ → ℕ × Option Error
wait a w = (w, none)

retry-Ended_example :
    Ended never wait failing (max_attempts (pos 3)) 1 (retry never wait (pos 3) failing 0)
retry-Ended_example = retry-Ended never wait (pos 3) failing 0
