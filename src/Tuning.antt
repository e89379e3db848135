-- ===== src/Tuning.antt =====
-- internal/handlers/ownercommands.go: the commands that tune the settings. An argument that is no int64
-- is `none`. The replies, and the resize of the worker pool, are left out.
pub mod Laws
pub mod Tests
use gdrive_bot.Base.{
  ℕ, Bool, true, false, Option, none, some, ◌++◌, Str, bytes, if◌then◌else◌, ℤ, pos, eqb_ℤ, ltb_ℤ,
  format_int, Result, ok, err, Act,
}
use gdrive_bot.Database.{Collection}
use gdrive_bot.Database.Settings.{update}
use gdrive_bot.Models.{Settings}

unfoldable pub limit_label : ℤ → Str
limit_label mb = if eqb_ℤ mb (pos 0) then bytes "unlimited" else format_int mb ++ bytes " MB"

abbrev pub stored : {S : Type 0} → S × Result Settings → S × Result (Unit {0})
stored (s, ok v) = (s, ok tt)
stored (s, err e) = (s, err e)

module _ (col : Collection (Unit {0}) Settings) (owner_id : ℤ) where
  -- what the four commands share: the owner, a number of at least `least`, and the update
  unfoldable pub tune : ℕ → ℤ → ℤ → (ℤ → Settings → Settings) → Option ℤ → Act col.Store (Unit {0})
  unfolding update
  tune now caller least change none s = (s, ok tt)
  tune now caller least change (some n) s =
      if eqb_ℤ caller owner_id
      then (if ltb_ℤ n least then (s, ok tt) else stored (update col now caller (change n) s))
      else (s, ok tt)

  -- SetWorkers, SetQueue, SetDownloadLimit and SetUploadLimit
  unfoldable pub set_workers : ℕ → ℤ → Option ℤ → Act col.Store (Unit {0})
  unfolding tune
  set_workers now caller = tune now caller (pos 1) (λ n s. record s { workers = n })

  unfoldable pub set_queue : ℕ → ℤ → Option ℤ → Act col.Store (Unit {0})
  unfolding tune
  set_queue now caller = tune now caller (pos 1) (λ n s. record s { queue_size = n })

  unfoldable pub set_download_limit : ℕ → ℤ → Option ℤ → Act col.Store (Unit {0})
  unfolding tune
  set_download_limit now caller =
      tune now caller (pos 0) (λ n s. record s { download_limit_mb = n })

  unfoldable pub set_upload_limit : ℕ → ℤ → Option ℤ → Act col.Store (Unit {0})
  unfolding tune
  set_upload_limit now caller = tune now caller (pos 0) (λ n s. record s { upload_limit_mb = n })
