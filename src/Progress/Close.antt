-- ===== src/Progress/Close.antt =====
-- internal/progress/editor.go: Close comes to its end.
use gdrive_bot.Base.{◌≡◌, refl, Option, List, Str}
use gdrive_bot.Progress.{
  Loop, waiting, holding, exited, Closing, not_called, awaiting_loop, flushing, closed, Editor,
  send_held, exit_loop, cancel_loop, take_last, send_last, Reach, held_sent, canceled, ended,
  last_taken, last_sent,
}

abbrev Closes : List Str → Type 0
Closes us = (d : Editor) × Reach us d × (d.closing ≡ closed)

-- Close comes to its end from each of its stages.
module _ (us : List Str) where
  flushing-Closes :
      (e : Editor) (last : Option Str) → Reach us e → e.closing ≡ flushing last → Closes us
  unfolding send_last
  flushing-Closes e last r c = (send_last last e, last_sent us e last r c, refl)

  exited-Closes :
      (e : Editor) → Reach us e → e.loop ≡ exited → e.closing ≡ awaiting_loop → Closes us
  unfolding take_last
  exited-Closes e r w c = flushing-Closes (take_last e) e.pending (last_taken us e r w c) refl

  waiting-Closes :
      (e : Editor) → Reach us e → e.loop ≡ waiting → e.closing ≡ awaiting_loop → Closes us
  unfolding exit_loop
  waiting-Closes e r w c = exited-Closes (exit_loop e) (ended us e r w (λ n. cc)) refl c

  awaiting_loop-Closes :
      (e : Editor) (l : Loop) → Reach us e → e.loop ≡ l → e.closing ≡ awaiting_loop → Closes us
  unfolding send_held
  awaiting_loop-Closes e waiting r w c = waiting-Closes e r w c
  awaiting_loop-Closes e (holding held) r w c =
      waiting-Closes (send_held held e) (held_sent us e held r w) refl c
  awaiting_loop-Closes e exited r w c = exited-Closes e r w c

  closing-Closes : (e : Editor) (k : Closing) → Reach us e → e.closing ≡ k → Closes us
  unfolding cancel_loop
  closing-Closes e not_called r c =
      awaiting_loop-Closes (cancel_loop e) e.loop (canceled us e r c) refl refl
  closing-Closes e awaiting_loop r c = awaiting_loop-Closes e e.loop r refl c
  closing-Closes e (flushing last) r c = flushing-Closes e last r c
  closing-Closes e closed r c = (e, r, c)

-- Whatever an editor has come to, Close can come to its end, with no further update.
pub Reach-closed :
    (us : List Str) (e : Editor) → Reach us e → (d : Editor) × Reach us d × (d.closing ≡ closed)
Reach-closed us e r = closing-Closes us e e.closing r refl
