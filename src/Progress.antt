-- ===== src/Progress.antt =====
-- internal/progress/editor.go: the rate-limited editor of a status message. The goroutine of `loop`,
-- the callers of Update and the caller of Close interleave: a critical section, a send, a cancel and
-- the end of the goroutine are one step each. The texts that were sent stand newest first; whether
-- Telegram takes an edit is not modelled, as `send` ignores it, and a tick may come at any time.
pub mod Order
pub mod Close
pub mod Tests
use gdrive_bot.Base.{◌≡◌, ◌≢◌, Option, none, some, List, [], ◌∷◌, Str}

-- Where the goroutine stands: in its `select`, with a text taken (or none), or done.
pub data Loop : Type 0 where
  waiting : Loop
  holding : Option Str → Loop
  exited : Loop

-- Where Close stands: not called, in `wg.Wait()`, with the last text taken (or none), or done.
pub data Closing : Type 0 where
  not_called : Closing
  awaiting_loop : Closing
  flushing : Option Str → Closing
  closed : Closing

pub record Editor : Type 0 where
  pub pending : Option Str
  pub loop : Loop
  pub closing : Closing
  pub sent : List Str

-- New
unfoldable pub new_editor : Editor
new_editor = record { pending = none; loop = waiting; closing = not_called; sent = [] }

-- Update
unfoldable pub update : Str → Editor → Editor
update text e = record e { pending = some text }

-- `if p != nil { e.send(*p) }`
unfoldable pub send : Option Str → List Str → List Str
send none sent = sent
send (some text) sent = text ∷ sent

-- a tick: the goroutine takes the pending text
unfoldable pub take_pending : Editor → Editor
take_pending e = record e { pending = none; loop = holding e.pending }

-- the goroutine sends the text that it holds
unfoldable pub send_held : Option Str → Editor → Editor
unfolding send
send_held held e = record e { loop = waiting; sent = send held e.sent }

-- the goroutine finds its context done
unfoldable pub exit_loop : Editor → Editor
exit_loop e = record e { loop = exited }

-- Close: cancel, then the critical section behind `wg.Wait()`, then the last send
unfoldable pub cancel_loop : Editor → Editor
cancel_loop e = record e { closing = awaiting_loop }

unfoldable pub take_last : Editor → Editor
take_last e = record e { pending = none; closing = flushing e.pending }

unfoldable pub send_last : Option Str → Editor → Editor
unfolding send
send_last last e = record e { closing = closed; sent = send last e.sent }

-- The states that an editor can come to, with the texts of the updates made so far, newest first.
pub data Reach : List Str → Editor → Type 0 where
  started : Reach [] new_editor
  updated :
      (us : List Str) (e : Editor) (text : Str) → Reach us e → Reach (text ∷ us) (update text e)
  ticked : (us : List Str) (e : Editor) → Reach us e → e.loop ≡ waiting → Reach us (take_pending e)
  held_sent :
      (us : List Str) (e : Editor) (held : Option Str)
      → Reach us e
      → e.loop ≡ holding held
      → Reach us (send_held held e)
  canceled :
      (us : List Str) (e : Editor) → Reach us e → e.closing ≡ not_called → Reach us (cancel_loop e)
  ended :
      (us : List Str) (e : Editor)
      → Reach us e
      → e.loop ≡ waiting
      → e.closing ≢ not_called
      → Reach us (exit_loop e)
  last_taken :
      (us : List Str) (e : Editor)
      → Reach us e
      → e.loop ≡ exited
      → e.closing ≡ awaiting_loop
      → Reach us (take_last e)
  last_sent :
      (us : List Str) (e : Editor) (last : Option Str)
      → Reach us e
      → e.closing ≡ flushing last
      → Reach us (send_last last e)
