-- ===== src/Login/Tests.antt =====
-- A user who logs in, on an in-memory database, with services that always answer.
use native.Mathlib.Decide.{ℕ_discrete}
use gdrive_bot.Base.{
  ◌≡◌, refl, true, false, Option, none, some, List, [], ◌∷◌, Str, bytes, ℤ, pos, negsuc, ok, err,
}
use gdrive_bot.Database.Assoc.{assoc_collection}
use gdrive_bot.Deps.{drive_client_for, not_logged_in}
use gdrive_bot.Models.{User, GoogleToken, PendingLogin}
use gdrive_bot.Telegram.{Telegram}
use gdrive_bot.Login.{Env, LoginCalls, World, remote_name, complete_login, logout}
use gdrive_bot.Login.Laws.{Connected, complete_login-Connected, drive_client_for-logout}

unfoldable pub int_discrete : Discrete ℤ
unfolding ℕ_discrete
int_discrete = hlevel ℕ_discrete

abbrev pub a_token : GoogleToken
a_token = record {
  access_token = bytes "ya29";
  refresh_token = bytes "1//r";
  token_type = bytes "Bearer";
  expiry = 900;
}

abbrev pub services : LoginCalls
services = record {
  Outside = Unit {0};
  exchange = λ c o. (o, ok a_token);
  create_remote = λ r t o. (o, none);
  remove_remote = λ r o. (o, none);
  extract_code = λ t. ok t;
}

-- the chat keeps the texts, newest first
abbrev pub chats : Telegram
chats = record {
  Chat = List Str;
  reply = λ t c. (t ∷ c, ok (pos 8));
  edit = λ t k c. (t ∷ c, none);
  answer = λ t c. t ∷ c;
  send = λ id t c. (t ∷ c, none);
}

abbrev pub env : Env
env = record {
  users = assoc_collection int_discrete;
  logins = assoc_collection int_discrete;
  calls = services;
  telegram = chats;
}

abbrev pub member : User
member = record {
  telegram_id = pos 7;
  username = bytes "ann";
  is_owner = false;
  is_authed = true;
  authed_by = pos 1;
  authed_at = 10;
  google_token = none;
  rclone_remote = [];
  root_folder_id = [];
  created_at = 5;
  updated_at = 10;
}

abbrev pub logged_in : User
logged_in = record member { google_token = some a_token; rclone_remote = bytes "user_7" }

abbrev pub half_done : PendingLogin
half_done = record {
  telegram_id = pos 7;
  step = 2;
  auth_code = bytes "4/0A";
  message_id = pos 3;
  chat_id = pos 7;
  created_at = 5;
  expires_at = 900;
}

abbrev before : World env
before = record {
  users = (pos 7, member) ∷ [];
  logins = (pos 7, half_done) ∷ [];
  outside = tt;
  chat = [];
}

-- what the theorem says of this run
abbrev HasConnected : Type 0
HasConnected =
    (bytes "user_7" ≡ remote_name (pos 7))
    × Connected env 20 (pos 7) member (bytes "user_7") (complete_login env 20 (pos 7) before).0

complete_login-Connected_example : HasConnected
unfolding int_discrete complete_login remote_name gdrive_bot.Base.str_eq gdrive_bot.Base.format_int
complete_login-Connected_example =
    complete_login-Connected env 20 (pos 7) (bytes "user_7") before member refl refl

abbrev after : World env
after = record before { users = (pos 7, logged_in) ∷ [] }

drive_client_for-logout_example :
    drive_client_for env.users (λ t. none) (pos 7) (logout env 20 (pos 7) after).0.users
    ≡ err not_logged_in
unfolding int_discrete logout
drive_client_for-logout_example =
    drive_client_for-logout env 20 (pos 7) (λ t. none) after (some logged_in) refl refl
