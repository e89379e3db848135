-- ===== src/Auth.antt =====
-- internal/auth/oauth.go, with the callback that DriveClientFor of internal/handlers/deps.go gives to its
-- token source. oauth2's reusing token source is `inner`, and net/url is `parse_url`: the query of a URL.
-- AuthURL, Exchange and RandomState only call the libraries.
pub mod Revived
pub mod Tests
use gdrive_bot.Base.{
  ℕ, Option, none, some, [], Str, bytes, str_eq, if◌then◌else◌, ℤ, Error, plain, wrap, Result, ok,
  err,
}
use gdrive_bot.Database.{Collection}
use gdrive_bot.Database.Users.{update_access_token}
use gdrive_bot.Models.{User, GoogleToken}

-- oauth2.Token
pub record OauthToken : Type 0 where
  pub access_token : Str
  pub token_type : Str
  pub refresh_token : Str
  pub expiry : ℕ

-- tokenToModel
unfoldable pub token_to_model : OauthToken → GoogleToken
token_to_model t = record {
  access_token = t.access_token;
  refresh_token = t.refresh_token;
  token_type = t.token_type;
  expiry = t.expiry;
}

-- the token that TokenSource starts from
unfoldable pub base_token : GoogleToken → OauthToken
base_token t = record {
  access_token = t.access_token;
  token_type = t.token_type;
  refresh_token = t.refresh_token;
  expiry = t.expiry;
}

unfoldable pub code_in : Result (Str → Str) → Result Str
unfolding wrap str_eq
code_in (err e) = err (wrap (bytes "auth: not a valid URL: ") e)
code_in (ok query) =
    if str_eq (query (bytes "code")) []
    then err (plain (bytes "auth: no 'code' parameter found in URL"))
    else ok (query (bytes "code"))

-- ExtractCode
unfoldable pub extract_code : (Str → Result (Str → Str)) → Str → Result Str
unfolding code_in
extract_code parse_url pasted_url = code_in (parse_url pasted_url)

module _ (users : Collection ℤ User) (Source : Type 0)
    (inner : Source → Source × Result OauthToken) where
  -- the database and the inner token source
  pub record World : Type 0 where
    pub stored : users.Store
    pub source : Source

  -- the callback of DriveClientFor, which ignores the database's error
  unfoldable pub on_refresh : ℕ → ℤ → OauthToken → World → World
  unfolding update_access_token
  on_refresh now user_id t w = record w {
    stored = (update_access_token users now user_id t.access_token t.expiry w.stored).0;
  }

  unfoldable pub refreshed : ℕ → ℤ → World × Result OauthToken → World × Result OauthToken
  unfolding on_refresh
  refreshed now user_id (w, err e) = (w, err e)
  refreshed now user_id (w, ok t) = (on_refresh now user_id t w, ok t)

  -- persistingTokenSource.Token, of a client that was made for this user
  unfoldable pub token : ℕ → ℤ → World → World × Result OauthToken
  unfolding refreshed
  token now user_id w =
      let (s, r) = inner w.source in refreshed now user_id (record w { source = s }, r)
