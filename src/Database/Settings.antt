-- ===== src/Database/Settings.antt =====
-- internal/database/settings.go. The collection has one document, so its key is the unit type; the
-- document's constant ID is left out.
pub mod Laws
use gdrive_bot.Base.{ℕ, none, some, ℤ, pos, Option, Error, Result, ok, err, Act, ◌>>=◌}
use gdrive_bot.Database.{Collection}
use gdrive_bot.Models.{Settings, default_settings}

-- the answer to `InsertOne` or `ReplaceOne` of a document
abbrev pub answered : {S : Type 0} → Settings → S × Option Error → S × Result Settings
answered v (s, none) = (s, ok v)
answered v (s, some e) = (s, err e)

-- `current` as the command changed it, with the time and the caller
unfoldable pub mutated : ℕ → ℤ → (Settings → Settings) → Settings → Settings
mutated now by mutate s =
    let s' : Settings = mutate s in record s' { updated_at = now; updated_by = by }

module _ (col : Collection (Unit {0}) Settings) where
  unfoldable pub seed : Settings → Result (Option Settings) → Act col.Store Settings
  seed defaults (ok none) s = answered defaults (col.insert_one s tt defaults)
  seed defaults (ok (some v)) s = (s, ok v)
  seed defaults (err e) s = (s, err e)

  -- GetOrCreate
  unfoldable pub get_or_create : Settings → Act col.Store Settings
  unfolding seed
  get_or_create defaults s = seed defaults (col.find_one s tt) s

  unfoldable pub replace : Settings → Act col.Store Settings
  replace v s = answered v (col.write s tt (λ _. some v))

  -- Update
  unfoldable pub update : ℕ → ℤ → (Settings → Settings) → Act col.Store Settings
  unfolding get_or_create replace mutated
  update now by mutate =
      get_or_create (default_settings now (pos 4) (pos 50) (pos 0) (pos 0)) >>= λ current.
      replace (mutated now by mutate current)
