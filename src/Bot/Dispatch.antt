-- ===== src/Bot/Dispatch.antt =====
-- internal/bot/bot.go: registerHandlers, and which handler an update reaches; the argument of a command
-- (internal/handlers/ownercommands.go).
use gdrive_bot.Base.{
  Bool, true, false, ◌||◌, Option, none, some, List, [], ◌∷◌, Str, bytes, str_eq, if◌then◌else◌, ℤ,
  ok, Act, Parsed, parsed, bad_syntax, out_of_range, parse_int, trim_space, behind_space,
}
use gdrive_bot.Guard.{authorize, unauth}
use gdrive_bot.Login.{login, logout}
use gdrive_bot.Messages.{Message, replied}
use gdrive_bot.Messages.Incoming.{incoming_file, incoming_text}
use gdrive_bot.Callbacks.Router.{dispatch}
use gdrive_bot.Owner.{Machine, Fate, disk, users, broadcast, clean, restart, shutdown}
use gdrive_bot.Tuning.{set_workers, set_queue, set_download_limit, set_upload_limit}
use gdrive_bot.Bot.{
  Env, World, Update, incoming, pressed, owner_env, callback_env, on_messages, on_login, on_guard,
  on_settings, on_owner, on_press, auth,
}
use gdrive_bot.Bot.Commands.{start, status, my_files}

-- commandArg
unfoldable pub command_arg : Str → Str
unfolding trim_space behind_space
command_arg text = trim_space (behind_space text)

abbrev number_of : Parsed → Option ℤ
number_of (parsed n) = some n
number_of bad_syntax = none
number_of (out_of_range n) = none

-- the number of a command
unfoldable pub number_arg : Message → Option ℤ
unfolding command_arg parse_int
number_arg m = number_of (parse_int (command_arg m.text))

unfoldable pub has_file : Message → Bool
has_file m =
    elim m.document [ some a ↦ true | none ↦ false ]
    || (elim m.video [ some a ↦ true | none ↦ false ]
        || (elim m.audio [ some a ↦ true | none ↦ false ]
            || elim m.photo [ [] ↦ false | (a ∷ more) ↦ true ]))

module _ (env : Env) where
  -- the commands in the order of registerHandlers
  unfoldable pub commands : Message → List (Str × Act (World env) (Unit {0}))
  unfolding start login logout status my_files disk authorize unauth set_workers set_queue
      set_download_limit set_upload_limit users broadcast clean restart shutdown number_arg
      command_arg replied
  commands m =
      (bytes "start", start env)
      ∷ (bytes "login", on_login env (login env.messages.login m.now m.user_id m.chat_id))
      ∷ (bytes "logout", on_login env (logout env.messages.login m.now m.user_id))
      ∷ (bytes "status", status env m)
      ∷ (bytes "myfiles", my_files env m)
      ∷ (bytes "stats", on_messages env (replied env.messages env.stats_text))
      ∷ (bytes "disk", on_owner env (disk (owner_env env)))
      ∷ (
        bytes "auth",
        on_guard env (
            authorize env.messages.login.users env.messages.explorer.cache env.messages.owner_id
              m.now m.user_id (number_arg m)),
      )
      ∷ (
        bytes "unauth",
        on_guard env (
            unauth env.messages.login.users env.messages.explorer.cache env.messages.owner_id m.now
              m.user_id (number_arg m)),
      )
      ∷ (
        bytes "setworkers",
        on_settings env
            (set_workers env.settings env.messages.owner_id m.now m.user_id (number_arg m)),
      )
      ∷ (
        bytes "setqueue",
        on_settings env
            (set_queue env.settings env.messages.owner_id m.now m.user_id (number_arg m)),
      )
      ∷ (
        bytes "setdownloadlimit",
        on_settings env
            (set_download_limit env.settings env.messages.owner_id m.now m.user_id (number_arg m)),
      )
      ∷ (
        bytes "setuploadlimit",
        on_settings env
            (set_upload_limit env.settings env.messages.owner_id m.now m.user_id (number_arg m)),
      )
      ∷ (bytes "users", on_owner env (users (owner_env env) m.user_id))
      ∷ (bytes "broadcast", on_owner env (broadcast (owner_env env) m.user_id (command_arg m.text)))
      ∷ (bytes "clean", on_owner env (clean (owner_env env) m.user_id))
      ∷ (bytes "settings", on_owner env (gdrive_bot.Owner.settings (owner_env env) m.now m.user_id))
      ∷ (bytes "restart", on_owner env (restart (owner_env env) m.user_id))
      ∷ (bytes "shutdown", on_owner env (shutdown (owner_env env) m.user_id))
      ∷ []

  -- the first command that the text is
  unfoldable pub matching :
      Str → List (Str × Act (World env) (Unit {0})) → Option (Act (World env) (Unit {0}))
  matching text [] = none
  matching text ((name, act) ∷ rest) =
      let later = matching text rest in if env.is_command name text then some act else later

  -- a message that is no command: a file, a text, or neither
  unfoldable pub on_content : Str → Message → Act (World env) (Unit {0})
  unfolding auth has_file incoming_file incoming_text trim_space str_eq
  on_content username m =
      if has_file m
      then auth env username m (on_messages env (incoming_file env.messages m))
      else if str_eq m.text []
      then (λ w. (w, ok tt))
      else auth env username m
          (on_messages env (incoming_text env.messages (record m { text = trim_space m.text })))

  unfoldable pub on_message :
      Str → Message → Option (Act (World env) (Unit {0})) → Act (World env) (Unit {0})
  unfolding auth on_content
  on_message username m (some handler) = auth env username m handler
  on_message username m none = on_content username m

  -- The dispatcher, with the handlers of registerHandlers: the first that matches runs.
  unfoldable pub handle_update : Update → Act (World env) (Unit {0})
  unfolding matching commands on_message dispatch
  handle_update (incoming username m) = on_message username m (matching m.text (commands m))
  handle_update (pressed p) = on_press env (dispatch (callback_env env) p)
