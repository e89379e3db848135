-- ===== src/Login.antt =====
-- internal/handlers/login.go: the login conversation. The oauth2 library, net/url and rclone are
-- parameters; the text of a message comes trimmed, as by strings.TrimSpace. `none` for an exchange
-- or a remote's error is success.
pub mod Laws
pub mod Tests
use gdrive_bot.Base.{
  ℕ, ◌+◌, Bool, true, false, ltb, Option, none, some, List, [], ◌∷◌, ◌++◌, Str, bytes, str_eq,
  has_prefix, if◌then◌else◌, ℤ, format_int, Error, plain, wrap, Result, ok, err, Act, ◌>>=◌, ◌>>◌,
  pure, raise, map_error, continue,
}
use gdrive_bot.Database.{Collection}
use gdrive_bot.Database.States.{get_login, upsert_login, delete_login}
use gdrive_bot.Database.Users.{get, save_google_token, clear_google_token}
use gdrive_bot.Models.{User, GoogleToken, PendingLogin}
use gdrive_bot.Telegram.{Telegram}

pub record LoginCalls : Type 1 where
  pub Outside : Type 0
  -- auth.Manager.Exchange
  pub exchange : Str → Outside → Outside × Result GoogleToken
  -- rclone.Manager.CreateOrUpdateRemote and RemoveRemote
  pub create_remote : Str → GoogleToken → Outside → Outside × Option Error
  pub remove_remote : Str → Outside → Outside × Option Error
  -- auth.ExtractCode
  pub extract_code : Str → Result Str

pub record Env : Type 1 where
  pub users : Collection ℤ User
  pub logins : Collection ℤ PendingLogin
  pub calls : LoginCalls
  pub telegram : Telegram

-- rclone.RemoteName
unfoldable pub remote_name : ℤ → Str
remote_name telegram_id = bytes "user_" ++ format_int telegram_id

-- 15 minutes, in nanoseconds
abbrev pub pending_login_ttl : ℕ
pending_login_ttl = 900000000000

abbrev pub as_result : {S : Type 0} → S × Option Error → S × Result (Unit {0})
as_result (s, none) = (s, ok tt)
as_result (s, some e) = (s, err e)

module _ (env : Env) where
  pub record World : Type 0 where
    pub users : env.users.Store
    pub logins : env.logins.Store
    pub outside : env.calls.Outside
    pub chat : env.telegram.Chat

  abbrev pub on_users : {A : Type 0} → Act env.users.Store A → Act World A
  on_users m w = let (s, r) = m w.users in (record w { users = s }, r)

  abbrev pub on_logins : {A : Type 0} → Act env.logins.Store A → Act World A
  on_logins m w = let (s, r) = m w.logins in (record w { logins = s }, r)

  abbrev pub on_outside : {A : Type 0} → Act env.calls.Outside A → Act World A
  on_outside m w = let (s, r) = m w.outside in (record w { outside = s }, r)

  abbrev pub on_chat : {A : Type 0} → Act env.telegram.Chat A → Act World A
  on_chat m w = let (s, r) = m w.chat in (record w { chat = s }, r)

  -- the text of the first reply, whose lines tell the user what to do
  abbrev step_one : Str
  step_one =
      bytes "🔑 <b>Authorization Step 1/2</b>\n\n"
      ++ (bytes "1. Tap <b>Authorize Google</b> below and sign in.\n"
          ++ (bytes "2. Grant Drive access when prompted.\n"
              ++ (bytes "3. You'll land on a page that can't load — that's expected.\n"
                  ++ bytes
                      "4. Copy the <b>full address-bar URL</b> (starts with <code>http://127.0.0.1:1/?code=</code>) and send it here.")))

  abbrev not_right : Str
  not_right =
      bytes
        "That doesn't look right. Please paste the <b>full URL</b> from your browser's address bar "
      ++ bytes "(e.g. <code>http://127.0.0.1:1/?code=4/0A…</code>)."

  abbrev pub step_two : Str
  step_two =
      bytes
        "🔐 <b>Authorization Step 2/2</b>\n\nGot your code. Tap below to finish connecting your Google Drive."

  -- Login
  unfoldable pub login : ℕ → ℤ → ℤ → Act World (Unit {0})
  unfolding upsert_login
  login now user_id chat_id = on_chat (env.telegram.reply step_one) >>= λ message_id. on_logins (
      upsert_login env.logins (record {
        telegram_id = user_id;
        step = 1;
        auth_code = [];
        message_id = message_id;
        chat_id = chat_id;
        created_at = now;
        expires_at = now + pending_login_ttl;
      }))

  -- a reply whose outcome is ignored
  abbrev told : Str → World → World
  told text w = (on_chat (env.telegram.reply text) w).0

  abbrev pub dropped : {A : Type 0} → World × Result A → World × Result (Unit {0})
  dropped (w, ok a) = (w, ok tt)
  dropped (w, err e) = (w, err e)

  -- the code of a message: of the URL, or the message itself
  unfoldable pub code_of : Str → Option Str
  code_of text = elim (env.calls.extract_code text) [
    | ok code ↦ some code
    | err e ↦ if has_prefix text (bytes "4/") then some text else none
  ]

  unfoldable pub take_code : PendingLogin → Option Str → World → World × Result (Unit {0})
  unfolding upsert_login
  take_code pending none w = (told not_right w, ok tt)
  take_code pending (some code) w = dropped (
      (on_logins (upsert_login env.logins (record pending { auth_code = code; step = 2 }))
          >> on_chat (env.telegram.reply step_two))
        w)

  unfoldable pub login_message :
      ℕ → ℤ → Str → Result PendingLogin → World → World × (Bool × Result (Unit {0}))
  unfolding take_code code_of delete_login
  login_message now user_id text (err e) w = (w, (false, ok tt))
  login_message now user_id text (ok pending) w =
      if ltb pending.expires_at now
      then (
        told (bytes "⌛ Login session expired. Send /login to start again.")
            (on_logins (delete_login env.logins user_id) w).0,
        (true, ok tt),
      )
      else (let (w', r) = take_code pending (code_of text) w in (w', (true, r)))

  -- HandleLoginMessage: whether the message was consumed, and the error
  unfoldable pub handle_login_message : ℕ → ℤ → Str → World → World × (Bool × Result (Unit {0}))
  unfolding get_login login_message
  handle_login_message now user_id text w =
      login_message now user_id text (get_login env.logins user_id w.logins).1 w

  abbrev pub no_pending_login : Error
  no_pending_login = plain (bytes "no pending login found — send /login to start again")

  -- an action whose error is wrapped
  abbrev pub or_wrap : {A : Type 0} → Str → Act World A → Act World A
  or_wrap prefix m w = let (w', r) = m w in (w', map_error (wrap prefix) r)

  -- the pending login is deleted, whatever that answers
  unfoldable pub forget_login : ℤ → Act World Str
  unfolding delete_login remote_name
  forget_login user_id w =
      ((on_logins (delete_login env.logins user_id) w).0, ok (remote_name user_id))

  abbrev pub save_credentials : ℕ → ℤ → GoogleToken → Act World (Unit {0})
  save_credentials now user_id token =
      or_wrap (bytes "saving credentials: ")
        (on_users (save_google_token env.users now user_id token (remote_name user_id)))

  abbrev pub make_remote : ℤ → GoogleToken → Act World (Unit {0})
  make_remote user_id token =
      or_wrap (bytes "setting up rclone remote: ")
        (on_outside (λ o. as_result (env.calls.create_remote (remote_name user_id) token o)))

  unfoldable pub keep_login : ℕ → ℤ → GoogleToken → Act World Str
  unfolding forget_login save_google_token remote_name
  keep_login now user_id token =
      make_remote user_id token >> (save_credentials now user_id token >> forget_login user_id)

  abbrev pub exchanged : Str → Act World GoogleToken
  exchanged code =
      or_wrap (bytes "exchanging code with Google: ") (on_outside (env.calls.exchange code))

  -- the last steps of CompleteLogin, once the code is there
  unfoldable pub connect_drive : ℕ → ℤ → Str → Act World Str
  unfolding keep_login
  connect_drive now user_id code = exchanged code >>= keep_login now user_id

  unfoldable pub complete_with : ℕ → ℤ → Result PendingLogin → Act World Str
  unfolding connect_drive
  complete_with now user_id (err e) w = (w, err no_pending_login)
  complete_with now user_id (ok pending) w =
      if str_eq pending.auth_code []
      then (w, err no_pending_login)
      else connect_drive now user_id pending.auth_code w

  -- CompleteLogin
  unfoldable pub complete_login : ℕ → ℤ → Act World Str
  unfolding complete_with get_login
  complete_login now user_id w =
      complete_with now user_id (get_login env.logins user_id w.logins).1 w

  -- the error of RemoveRemote is ignored
  abbrev pub remote_removed : User → World → World
  remote_removed u w =
      if str_eq u.rclone_remote []
      then w
      else (on_outside (λ o. as_result (env.calls.remove_remote u.rclone_remote o)) w).0

  abbrev pub say_logged_out : Act World ℤ
  say_logged_out =
      on_chat (env.telegram.reply (bytes "✅ Logged out. Your Drive credentials have been removed."))

  unfoldable pub disconnect : ℕ → ℤ → User → Act World (Unit {0})
  unfolding clear_google_token
  disconnect now user_id u w =
      dropped (
        (on_users (clear_google_token env.users now user_id) >> say_logged_out)
          (remote_removed u w))

  abbrev pub not_connected : Act World (Unit {0})
  not_connected w =
      dropped (on_chat (env.telegram.reply (bytes "You're not currently logged in.")) w)

  unfoldable pub logout_user : ℕ → ℤ → Result User → Act World (Unit {0})
  unfolding disconnect
  logout_user now user_id (err e) w = not_connected w
  logout_user now user_id (ok u) w = elim u.google_token [
    | none ↦ not_connected w
    | some t ↦ disconnect now user_id u w
  ]

  -- Logout
  unfoldable pub logout : ℕ → ℤ → Act World (Unit {0})
  unfolding logout_user get
  logout now user_id w = logout_user now user_id (get env.users user_id w.users).1 w
