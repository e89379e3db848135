-- ===== src/Database/Users.antt =====
-- internal/database/users.go. An absent token is `none`, and an absent string is empty.
use gdrive_bot.Base.{
  ℕ, Bool, true, false, ◌||◌, Option, none, some, List, [], Str, ℤ, pos, Act, ◌>>◌, Result, ok, err,
}
use mathlib.Core.Option
use gdrive_bot.Database.{Collection}
use gdrive_bot.Database.States.{done, or_not_found}
use gdrive_bot.Models.{User, GoogleToken}

-- the update of EnsureExists: `$setOnInsert` and `$set`
unfoldable pub ensured : ℕ → ℤ → Str → Bool → Option User → Option User
ensured now id username is_owner none = some (record {
  telegram_id = id;
  username = username;
  is_owner = is_owner;
  is_authed = is_owner;
  authed_by = pos 0;
  authed_at = 0;
  google_token = none;
  rclone_remote = [];
  root_folder_id = [];
  created_at = now;
  updated_at = now;
})
ensured now id username is_owner (some u) =
    some (record u { username = username; updated_at = now })

-- `$set` of SetAuthed
unfoldable pub with_authed : ℕ → Bool → ℤ → User → User
with_authed now true by u = record u {
  is_authed = true;
  authed_by = by;
  authed_at = now;
  updated_at = now;
}
with_authed now false by u = record u { is_authed = false; updated_at = now }

-- UpdateAccessToken; `$set` on a path below an absent token creates it
unfoldable pub with_access : ℕ → Str → ℕ → User → User
with_access now access expiry u = record u {
  google_token = some (elim u.google_token [
    | none ↦ record { access_token = access; refresh_token = []; token_type = []; expiry = expiry }
    | some t ↦ record t { access_token = access; expiry = expiry }
  ]);
  updated_at = now;
}

-- The right to use the bot, in IsAuthorized and in the filters of ListAuthorized and CountAll
abbrev pub may_use : User → Bool
may_use u = u.is_owner || u.is_authed

-- `errors.Is(err, ErrNotFound)` is no error for IsAuthorized.
unfoldable pub user_may : Result (Option User) → Result Bool
user_may (ok none) = ok false
user_may (ok (some u)) = ok (may_use u)
user_may (err e) = err e

module _ (col : Collection ℤ User) where
  unfoldable pub get : ℤ → Act col.Store User
  get id s = (s, or_not_found (col.find_one s id))

  unfoldable pub ensure_exists : ℕ → ℤ → Str → Bool → Act col.Store User
  unfolding ensured get
  ensure_exists now id username is_owner =
      (λ s. done (col.write s id (ensured now id username is_owner))) >> get id

  unfoldable pub set_authed : ℕ → ℤ → Bool → ℤ → Act col.Store (Unit {0})
  unfolding with_authed
  set_authed now id authed by s =
      done (col.write s id (Option.map {A = User} (with_authed now authed by)))

  unfoldable pub save_google_token : ℕ → ℤ → GoogleToken → Str → Act col.Store (Unit {0})
  save_google_token now id token remote s = done (
      col.write s id (
        Option.map {A = User}
          (λ u. record u { google_token = some token; rclone_remote = remote; updated_at = now })))

  unfoldable pub update_access_token : ℕ → ℤ → Str → ℕ → Act col.Store (Unit {0})
  unfolding with_access
  update_access_token now id access expiry s =
      done (col.write s id (Option.map {A = User} (with_access now access expiry)))

  unfoldable pub clear_google_token : ℕ → ℤ → Act col.Store (Unit {0})
  clear_google_token now id s = done (
      col.write s id (
        Option.map {A = User}
          (λ u. record u { google_token = none; rclone_remote = []; updated_at = now })))

  unfoldable pub user_is_authorized : ℤ → Act col.Store Bool
  unfolding user_may
  user_is_authorized id s = (s, user_may (col.find_one s id))

  unfoldable pub list_authorized : Act col.Store (List User)
  list_authorized s = (s, col.find_all s may_use)

  -- CountAll
  unfoldable pub count_all : Act col.Store (ℕ × ℕ)
  count_all s = elim (col.count s (λ _. true)) [
    | err e ↦ (s, err e)
    | ok total ↦ elim (col.count s may_use) [
      | err e ↦ (s, err e)
      | ok authorized ↦ (s, ok (total, authorized))
    ]
  ]
