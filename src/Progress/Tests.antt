-- ===== src/Progress/Tests.antt =====
-- A run of the editor: three updates, one tick after the second, and Close.
use gdrive_bot.Base.{◌≡◌, refl, none, some, List, [], ◌∷◌, Str, bytes}
use gdrive_bot.Progress.{
  waiting, exited, closed, not_called, Editor, new_editor, update, take_pending, send_held,
  exit_loop, cancel_loop, take_last, send_last, Reach, started, updated, ticked, held_sent,
  canceled, ended, last_taken, last_sent,
}
use gdrive_bot.Progress.Order.{Sub, newest, closed_newest, sent-Sub}

abbrev half : Str
half = bytes "50%"

abbrev most : Str
most = bytes "90%"

abbrev all : Str
all = bytes "100%"

abbrev updates : List Str
updates = all ∷ most ∷ half ∷ []

abbrev at_close : Editor
at_close = record { pending = some all; loop = waiting; closing = not_called; sent = most ∷ [] }

closes_soon : Reach updates at_close
unfolding new_editor update take_pending send_held
closes_soon =
    updated _ _ all (
      held_sent _ _ (some most) (ticked _ _ (updated _ _ most (updated _ _ half started)) refl)
        refl)

abbrev after_close : Editor
after_close = record { pending = none; loop = exited; closing = closed; sent = all ∷ most ∷ [] }

has_closed : Reach updates after_close
unfolding exit_loop cancel_loop take_last send_last
has_closed =
    last_sent _ _ (some all)
      (last_taken _ _ (ended _ _ (canceled _ _ closes_soon refl) refl (λ n. cc)) refl refl) refl

closed_newest_example : newest (all ∷ most ∷ []) ≡ some all
closed_newest_example = closed_newest updates after_close has_closed refl refl

sent-Sub_example : Sub (all ∷ most ∷ []) updates
sent-Sub_example = sent-Sub updates after_close has_closed
