-- ===== src/Telegram.antt =====
-- The Telegram client, third-party code, as the handlers use it: `Chat` is what it keeps.
use gdrive_bot.Base.{Option, List, Str, ℤ, Error, Result}
use gdrive_bot.Explorer.Render.{Button}

pub record Telegram : Type 1 where
  pub Chat : Type 0
  -- Message.Reply: the new message's ID. The keyboard of a reply is left out.
  pub reply : Str → Chat → Chat × Result ℤ
  -- EditMessageText of a message of the bot, with its keyboard
  pub edit : Str → Option (List (List Button)) → Chat → Chat × Option Error
  -- CallbackQuery.Answer, whose outcome the bot ignores
  pub answer : Str → Chat → Chat
  -- Bot.SendMessage to a chat
  pub send : ℤ → Str → Chat → Chat × Option Error
