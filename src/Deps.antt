-- ===== src/Deps.antt =====
-- internal/handlers/deps.go: the settings with their fallback, and the Drive client of a user. What
-- `drive.NewClient` answers for a token is a parameter; the callback that
-- stores a refreshed access token is in Auth.
use gdrive_bot.Base.{ℕ, Option, none, some, ℤ, Error, plain, bytes, Result, ok, err}
use gdrive_bot.Database.{Collection}
use gdrive_bot.Database.Settings.{get_or_create}
use gdrive_bot.Models.{Settings, User, GoogleToken, default_settings}

-- the static defaults of the configuration
pub record Defaults : Type 0 where
  pub workers : ℤ
  pub queue_size : ℤ
  pub download_limit_mb : ℤ
  pub upload_limit_mb : ℤ

-- defaultSettings
unfoldable pub defaults_of : ℕ → Defaults → Settings
defaults_of now d =
    default_settings now d.workers d.queue_size d.download_limit_mb d.upload_limit_mb

-- what settings returns where the database fails: the defaults, and 10 for the last two
abbrev pub settings_or : ℕ → Defaults → Result Settings → Settings
settings_or now d (ok s) = s
settings_or now d (err e) =
    default_settings now d.workers d.queue_size d.download_limit_mb d.upload_limit_mb

module _ (col : Collection (Unit {0}) Settings) where
  -- settings, and SettingsPublic
  unfoldable pub settings : ℕ → Defaults → col.Store → col.Store × Settings
  unfolding defaults_of
  settings now d s =
      let (s', r) = get_or_create col (defaults_of now d) s in (s', settings_or now d r)

abbrev pub not_logged_in : Error
not_logged_in = plain (bytes "you haven't logged in yet — send /login first")

abbrev pub client_of : (GoogleToken → Option Error) → Option GoogleToken → Result (Unit {0})
client_of connect none = err not_logged_in
client_of connect (some t) = elim (connect t) [ none ↦ ok tt | some e ↦ err e ]

abbrev pub client_for : (GoogleToken → Option Error) → Result (Option User) → Result (Unit {0})
client_for connect (ok (some u)) = client_of connect u.google_token
client_for connect (ok none) = err not_logged_in
client_for connect (err e) = err not_logged_in

module _ (users : Collection ℤ User) where
  -- DriveClientFor: whether there is a client
  unfoldable pub drive_client_for :
      (GoogleToken → Option Error) → ℤ → users.Store → Result (Unit {0})
  drive_client_for connect user_id s = client_for connect (users.find_one s user_id)
