-- ===== src/Bot/Commands.antt =====
-- Start (internal/handlers/start.go), Status (login.go) and MyFiles (myfiles.go), which internal/bot/bot.go
-- registers.
use gdrive_bot.Base.{
  ℕ, Option, none, some, ◌++◌, Str, bytes, ℤ, error_text, Result, ok, err, Act, ◌>>=◌,
}
use gdrive_bot.Database.Users.{get}
use gdrive_bot.Deps.{settings, drive_client_for}
use gdrive_bot.Explorer.{open_root}
use gdrive_bot.Explorer.Render.{View}
use gdrive_bot.Messages.{Message, on_explorer, reply, replied}
use gdrive_bot.Models.{User}
use gdrive_bot.Bot.{Env, World, on_messages, on_login}

module _ (env : Env) where
  -- Start
  unfoldable pub start : Act (World env) (Unit {0})
  unfolding replied
  start = on_messages env (
      replied env.messages (
        bytes
          "👋 <b>Welcome to your private Google Drive manager.</b>\n\n<b>Get started:</b>\n/login — connect your Google Drive\n/myfiles — browse, rename, delete, share\n/status — check login status\n\nSend any file or a direct https:// link and it will be uploaded to your Drive."))

  abbrev not_logged_in : Str
  not_logged_in = bytes "❌ <b>Not logged in.</b> Send /login to connect your Google Drive."

  abbrev status_text : Result User → Str
  status_text (err e) = not_logged_in
  status_text (ok u) = elim u.google_token [
    | none ↦ not_logged_in
    | some t ↦
        bytes "✅ <b>Logged in</b>\nRclone remote: <code>" ++ (u.rclone_remote ++ bytes "</code>")
  ]

  -- Status
  unfoldable pub status : Message → Act (World env) (Unit {0})
  unfolding replied get
  status m = on_messages env (λ w.
      replied env.messages (status_text (get env.messages.login.users m.user_id w.login.users).1) w)

  -- the placeholder is edited
  unfoldable pub edit_placeholder : Str → Option View → Act (World env) (Unit {0})
  edit_placeholder text view = on_login env (λ l.
      let (c, e) =
        env.messages.login.telegram.edit text (elim view [ none ↦ none | some v ↦ some v.keyboard ])
          l.chat in
      (record l { chat = c }, elim e [ none ↦ ok tt | some x ↦ err x ]))

  unfoldable pub show_view : World env × Result View → World env × Result (Unit {0})
  unfolding edit_placeholder
  show_view (w, err e) = edit_placeholder (bytes "❌ Couldn't load Drive: " ++ error_text e) none w
  show_view (w, ok v) = edit_placeholder v.text (some v) w

  unfoldable pub page_size : ℕ → World env → World env × ℤ
  unfolding settings
  page_size now w =
      let (s, set) = settings env.settings now env.defaults w.settings in
      (record w { settings = s }, set.page_size)

  unfoldable pub open_view : Message → ℤ → ℤ → Act (World env) View
  unfolding open_root
  open_view m message_id size = on_messages env (λ x.
      on_explorer env.messages
        (open_root env.messages.explorer
          (record { now = m.now; remote = x.remote; key = (m.user_id, m.chat_id, message_id) })
          size)
        x)

  -- what follows the placeholder
  unfoldable pub open_drive : Message → ℤ → Act (World env) (Unit {0})
  unfolding page_size show_view open_view
  open_drive m message_id w =
      let (w1, size) = page_size m.now w in show_view (open_view m message_id size w1)

  unfoldable pub client_or_error :
      Result (Unit {0}) → Act (World env) (Unit {0}) → Act (World env) (Unit {0})
  unfolding replied
  client_or_error (ok u) act = act
  client_or_error (err e) act = on_messages env (replied env.messages (bytes "❌ " ++ error_text e))

  -- where the user has a Drive client
  unfoldable pub with_client : Message → Act (World env) (Unit {0}) → Act (World env) (Unit {0})
  unfolding drive_client_for client_or_error
  with_client m act w =
      client_or_error
        (drive_client_for env.messages.login.users env.messages.connect m.user_id
          w.messages.login.users)
        act w

  -- MyFiles
  unfoldable pub my_files : Message → Act (World env) (Unit {0})
  unfolding with_client reply open_drive
  my_files m =
      with_client m
        (on_messages env (reply env.messages (bytes "📂 Loading your Drive…")) >>= open_drive m)
