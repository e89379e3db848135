-- ===== src/Auth/Tests.antt =====
-- A user who logged out while a client of theirs was in use.
use gdrive_bot.Base.{◌≡◌, refl, none, some, [], ◌∷◌, bytes, str_eq, ℤ, pos, Result, ok, err, plain}
use gdrive_bot.Database.{Collection}
use gdrive_bot.Database.Users.{with_access}
use gdrive_bot.Login.Tests.{logged_in, int_discrete}
use gdrive_bot.Models.{User}
use gdrive_bot.Auth.{OauthToken, World, token, extract_code, code_in}
use gdrive_bot.Auth.Revived.{revived, token_revives}

abbrev users : Collection ℤ User
users = gdrive_bot.Login.Tests.env.users

abbrev logged_out : User
logged_out = record logged_in { google_token = none; rclone_remote = [] }

abbrev fresh_token : OauthToken
fresh_token = record {
  access_token = bytes "ya30";
  token_type = bytes "Bearer";
  refresh_token = bytes "1//r";
  expiry = 4000;
}

-- a token source that always has this token
abbrev answers : (Unit {0}) → (Unit {0}) × Result OauthToken
answers s = (s, ok fresh_token)

abbrev world : World users (Unit {0}) answers
world = record { stored = (pos 7, logged_out) ∷ []; source = tt }

token_revives_example :
    users.docs (token users (Unit {0}) answers 30 (pos 7) world).0.stored (pos 7)
    ≡ some (record logged_out { google_token = some (revived fresh_token); updated_at = 30 })
unfolding int_discrete with_access
token_revives_example =
    token_revives users (Unit {0}) answers 30 (pos 7) world logged_out fresh_token refl refl refl
      refl

-- a redirect without a code
no_code :
    extract_code (λ s. ok (λ key. [])) (bytes "http://127.0.0.1:1/?error=access_denied")
    ≡ err (plain (bytes "auth: no 'code' parameter found in URL"))
unfolding extract_code code_in str_eq
no_code = refl
