-- ===== src/Guard.antt =====
-- internal/middleware/auth.go, and the commands /auth and /unauth of
-- internal/handlers/ownercommands.go that change what it decides. The replies of the commands are
-- left out; the argument of a command is what `strconv.ParseInt` gave, `none` for an error.
pub mod Coherence
pub mod Answers
pub mod Commands
pub mod Tests
use gdrive_bot.Base.{
  ℕ, Bool, true, false, ◌||◌, ◌≡◌, Option, none, some, [], ◌++◌, Str, bytes, str_eq, if◌then◌else◌,
  ℤ, pos, eqb_ℤ, format_int, Result, ok, err, Act, ◌>>=◌, ◌>>◌, pure,
}
use gdrive_bot.Cache.Interface.{Cache}
use gdrive_bot.Database.{Collection}
use gdrive_bot.Database.Users.{ensure_exists, set_authed, may_use}
use gdrive_bot.Models.{User}

-- authCacheTTL, in nanoseconds
abbrev auth_cache_ttl : ℤ
auth_cache_ttl = pos 300000000000

-- Guard.cacheKey
unfoldable pub cache_key : ℤ → Str
cache_key user_id = bytes "authz:" ++ format_int user_id

-- json.Marshal of a bool, and json.Unmarshal into a bool that is false
abbrev pub marshal_bool : Bool → Str
marshal_bool b = if b then bytes "true" else bytes "false"

abbrev pub unmarshal_bool : Str → Bool
unmarshal_bool raw = str_eq raw (bytes "true")

module _ (users : Collection ℤ User) (cache : Cache) (owner_id : ℤ) where
  pub record World : Type 0 where
    pub stored : users.Store
    pub cached : cache.Store

  abbrev pub on_users : {A : Type 0} → Act users.Store A → Act World A
  on_users m w = let (s, r) = m w.stored in (record w { stored = s }, r)

  -- store the answer of the database
  unfoldable pub remember : ℕ → ℤ → User → Act World Bool
  unfolding cache_key
  remember now user_id u w = (
    record w {
      cached = cache.set now (cache_key user_id) (marshal_bool (may_use u)) auth_cache_ttl w.cached;
    },
    ok (may_use u),
  )

  -- a hit or a miss
  unfoldable pub decide : ℕ → ℤ → Str → Option Str → Act World Bool
  unfolding ensure_exists remember
  decide now user_id username (some raw) = pure (unmarshal_bool raw)
  decide now user_id username none =
      on_users (ensure_exists users now user_id username (eqb_ℤ user_id owner_id))
      >>= remember now user_id

  unfoldable pub consult : ℕ → ℤ → Str → Act World Bool
  unfolding decide cache_key
  consult now user_id username w =
      let (c, raw) = cache.get now (cache_key user_id) w.cached in
      decide now user_id username raw (record w { cached = c })

  -- IsAuthorized
  unfoldable pub is_authorized : ℕ → ℤ → Str → Act World Bool
  unfolding consult
  is_authorized now user_id username w =
      if eqb_ℤ user_id owner_id then (w, ok true) else consult now user_id username w

  -- Invalidate
  unfoldable pub invalidate : ℤ → Act World (Unit {0})
  unfolding cache_key
  invalidate user_id w = (record w { cached = cache.delete (cache_key user_id) w.cached }, ok tt)

  unfoldable pub is_owner : ℤ → Bool
  is_owner user_id = eqb_ℤ user_id owner_id

  -- what /auth and /unauth do for the owner
  unfoldable pub grant : ℕ → ℤ → ℤ → Act World (Unit {0})
  unfolding ensure_exists set_authed invalidate
  grant now by target =
      on_users (ensure_exists users now target [] false)
      >> (on_users (set_authed users now target true by) >> invalidate target)

  unfoldable pub revoke : ℕ → ℤ → ℤ → Act World (Unit {0})
  unfolding set_authed invalidate
  revoke now by target = on_users (set_authed users now target false by) >> invalidate target

  -- requireOwner and the argument, before what a command does
  unfoldable pub owner_command : ℤ → Option ℤ → (ℤ → Act World (Unit {0})) → Act World (Unit {0})
  unfolding is_owner
  owner_command caller none act w = (w, ok tt)
  owner_command caller (some target) act w = if is_owner caller then act target w else (w, ok tt)

  -- Authorize and Unauth
  unfoldable pub authorize : ℕ → ℤ → Option ℤ → Act World (Unit {0})
  unfolding owner_command grant
  authorize now caller arg = owner_command caller arg (grant now caller)

  unfoldable pub unauth : ℕ → ℤ → Option ℤ → Act World (Unit {0})
  unfolding owner_command revoke
  unauth now caller arg = owner_command caller arg (revoke now caller)
