-- ===== src/Bot.antt =====
-- internal/bot/bot.go: the state of the bot, an update of Telegram, and the wrapper that asks for rights
-- before a handler runs. gotgbot's test of a command's name and the text of /stats are parameters.
-- Updates without a user, and the resize of the worker pool, are left out.
pub mod Commands
pub mod Dispatch
pub mod Refused
pub mod Owned
pub mod Tests
use gdrive_bot.Base.{
  ℕ, Bool, true, false, ◌||◌, not, Option, none, some, List, [], ◌∷◌, ◌++◌, Str, bytes, str_eq,
  if◌then◌else◌, ℤ, pos, format_int, Error, error_text, Result, ok, err, Act, ◌>>=◌, ◌>>◌, continue,
  Parsed, parsed, bad_syntax, out_of_range, parse_int, trim_space, behind_space,
}
use gdrive_bot.Database.{Collection}
use gdrive_bot.Database.Users.{get}
use gdrive_bot.Deps.{Defaults, settings, drive_client_for}
use gdrive_bot.Explorer.{open_root}
use gdrive_bot.Explorer.Render.{View}
use gdrive_bot.Guard.{is_authorized, authorize, unauth}
use gdrive_bot.Login.{login, logout}
use gdrive_bot.Messages.{Message, on_explorer, reply, replied, ignored}
use gdrive_bot.Messages.Incoming.{incoming_file, incoming_text, or_no_client}
use gdrive_bot.Callbacks.{Press}
use gdrive_bot.Callbacks.Router.{dispatch}
use gdrive_bot.Models.{User, Settings}
use gdrive_bot.Owner.{Machine, Fate, disk, users, broadcast, clean, restart, shutdown}
use gdrive_bot.Tuning.{set_workers, set_queue, set_download_limit, set_upload_limit}

pub record Env : Type 1 where
  pub messages : gdrive_bot.Messages.Env
  pub settings : Collection (Unit {0}) Settings
  pub machine : Machine
  pub defaults : Defaults
  pub tenths : ℕ → ℕ → Str
  pub quoted : Str → Str
  -- whether a text is this command, as handlers.NewCommand of gotgbot tells
  pub is_command : Str → Str → Bool
  -- /stats, of gopsutil's readings, the queue's counts and the uptime
  pub stats_text : Str

abbrev pub owner_env : Env → gdrive_bot.Owner.Env
owner_env env = record {
  login = env.messages.login;
  settings = env.settings;
  machine = env.machine;
  defaults = env.defaults;
  owner_id = env.messages.owner_id;
  tenths = env.tenths;
}

abbrev pub callback_env : Env → gdrive_bot.Callbacks.Env
callback_env env = record {
  login = env.messages.login;
  explorer = env.messages.explorer;
  owner_id = env.messages.owner_id;
  connect = env.messages.connect;
  quoted = env.quoted;
}

-- An update with its user's name: a message, or a press of a button.
pub data Update : Type 0 where
  incoming : Str → Message → Update
  pressed : Press → Update

abbrev pub sender : Update → ℤ
sender (incoming username m) = m.user_id
sender (pressed p) = p.user_id

abbrev pub time : Update → ℕ
time (incoming username m) = m.now
time (pressed p) = p.now

module _ (env : Env) where
  pub record World : Type 0 where
    pub messages : gdrive_bot.Messages.World env.messages
    pub settings : env.settings.Store
    pub disk : env.machine.Disk
    pub fate : Fate

  abbrev pub on_messages :
      {A : Type 0} → Act (gdrive_bot.Messages.World env.messages) A → Act World A
  on_messages f w = let (m, r) = f w.messages in (record w { messages = m }, r)

  abbrev pub on_login :
      {A : Type 0} → Act (gdrive_bot.Login.World env.messages.login) A → Act World A
  on_login f = on_messages (λ m. let (l, r) = f m.login in (record m { login = l }, r))

  abbrev pub on_guard :
      {A : Type 0}
      → Act
          (gdrive_bot.Guard.World env.messages.login.users env.messages.explorer.cache
            env.messages.owner_id)
          A
      → Act World A
  on_guard f = on_messages (λ m.
      let (g, r) = f (record { stored = m.login.users; cached = m.cached }) in
      (record m { login = record m.login { users = g.stored }; cached = g.cached }, r))

  abbrev pub on_settings : {A : Type 0} → Act env.settings.Store A → Act World A
  on_settings f w = let (s, r) = f w.settings in (record w { settings = s }, r)

  abbrev pub on_owner : {A : Type 0} → Act (gdrive_bot.Owner.World (owner_env env)) A → Act World A
  on_owner f w =
      let (o, r) = f (record {
        login = w.messages.login;
        settings = w.settings;
        disk = w.disk;
        fate = w.fate;
      }) in
      (
        record w {
          messages = record w.messages { login = o.login };
          settings = o.settings;
          disk = o.disk;
          fate = o.fate;
        },
        r,
      )

  abbrev pub on_press :
      {A : Type 0} → Act (gdrive_bot.Callbacks.World (callback_env env)) A → Act World A
  on_press f = on_messages (λ m.
      let (c, r) =
        f (record { login = m.login; states = m.states; cached = m.cached; remote = m.remote }) in
      (record m { login = c.login; states = c.states; cached = c.cached; remote = c.remote }, r))

  abbrev denial : ℤ → Str
  denial user_id =
      bytes
        "🚫 You are not authorized to use this bot. Ask the owner to run /auth on your Telegram ID: "
      ++ format_int user_id

  -- RequireAuth and the wrapper `auth` of registerHandlers, once IsAuthorized has answered
  unfoldable pub admitted : ℤ → Act World (Unit {0}) → Bool → Act World (Unit {0})
  unfolding ignored format_int
  admitted user_id handler true w = handler w
  admitted user_id handler false w = on_messages (ignored env.messages (denial user_id)) w

  unfoldable pub check_user : Str → Message → Act World Bool
  unfolding is_authorized
  check_user username m = on_guard (
      is_authorized env.messages.login.users env.messages.explorer.cache env.messages.owner_id m.now
        m.user_id username)

  unfoldable pub auth : Str → Message → Act World (Unit {0}) → Act World (Unit {0})
  unfolding check_user admitted
  auth username m handler = check_user username m >>= admitted m.user_id handler
