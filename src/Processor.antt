-- ===== src/Processor.antt =====
-- internal/bot/processor.go: one download and upload of a task. The transfers themselves (HTTP, the
-- Bot API, rclone) and the local disk are a parameter, `Transfers`; the edits of the status message
-- are cosmetic and left out. One reading of the clock, `now`, serves a whole Process. `World.file_size` is `t.FileSize`, which the attempts of a job share.
pub mod Outcome
pub mod Uploaded
pub mod Tests
use gdrive_bot.Base.{
  ℕ, zero, suc, Bool, true, false, ◌&&◌, ◌||◌, not, Option, none, some, List, [], ◌∷◌, ◌++◌, Str,
  bytes, str_eq, if◌then◌else◌, ℤ, pos, ltb_ℤ, mul64, Error, plain, non_retryable, error_text, wrap,
  Result, ok, err,
}
use gdrive_bot.Database.{Collection}
use gdrive_bot.Database.Tasks.{update_status, set_result}
use gdrive_bot.Deps.{Defaults, settings, drive_client_for}
use gdrive_bot.Drive.{FilesService, Entry, list_page}
use gdrive_bot.Models.{
  Task, TaskType, TaskStatus, User, GoogleToken, Settings, downloading, uploading, completed,
  failed,
}
use gdrive_bot.Utils.Files.{safe_filename}
use gdrive_bot.Utils.Format.{human_bytes}

-- The local file of a task in the downloads directory; `drawn` is for an empty file name.
unfoldable pub local_name : List ℕ → Task → Str
unfolding safe_filename
local_name drawn t = t.id ++ b'_' ∷ safe_filename drawn t.file_name

pub record Transfers : Type 1 where
  pub Outside : Type 0
  pub ensure_dir : Outside → Outside × Option Error
  -- download.TelegramFile and download.DirectLink, from a source to a local name
  pub download : TaskType → Str → Str → Outside → Outside × Option Error
  -- os.Stat(path).Size()
  pub stat : Str → Outside → Option ℤ
  -- upload.ToDrive, of a local name to a remote's folder
  pub upload : Str → Str → Str → ℤ → Outside → Outside × Option Error
  -- os.Remove
  pub remove : Str → Outside → Outside

-- What the processor is built on.
pub record Env : Type 1 where
  pub tasks : Collection Str Task
  pub users : Collection ℤ User
  pub settings : Collection (Unit {0}) Settings
  pub files : FilesService
  pub transfers : Transfers
  pub connect : GoogleToken → Option Error
  pub defaults : Defaults
  pub tenths : ℕ → ℕ → Str
  -- `%q` of a text
  pub quoted : Str → Str
  -- what the Drive is after a second has passed
  pub later : files.Remote → files.Remote

-- the first entry with this name
unfoldable pub named : Str → List Entry → Option Entry
named name [] = none
named name (e ∷ es) = if str_eq e.name name then some e else named name es

abbrev pub or_again : (Option Error → Result Entry) → Option Error → Option Entry → Result Entry
or_again again last none = again last
or_again again last (some e) = ok e

-- one round of findUploadedFile, and what follows it
unfoldable pub after_round :
    (Option Error → Result Entry) → Str → Option Error → Result (List Entry × Str) → Result Entry
unfolding named
after_round again name last (err e) = again (some e)
after_round again name last (ok (entries, token)) = or_again again last (named name entries)

abbrev pub no_such_file : Str → Error
no_such_file quoted =
    plain (bytes "file " ++ (quoted ++ bytes " not found in Drive listing after upload"))

abbrev pub last_or : Error → Option Error → Error
last_or e none = e
last_or e (some x) = x

-- u.RcloneRemote of a user who is logged in, else `none`
abbrev pub remote_of : Result (Option User) → Option Str
remote_of (ok (some u)) = elim u.google_token [
  | none ↦ none
  | some t ↦ if str_eq u.rclone_remote [] then none else some u.rclone_remote
]
remote_of (ok none) = none
remote_of (err e) = none

module _ (env : Env) where
  open env.transfers use {Outside}

  pub record World : Type 0 where
    pub tasks : env.tasks.Store
    pub users : env.users.Store
    pub settings : env.settings.Store
    pub remote : env.files.Remote
    pub outside : env.transfers.Outside
    pub file_size : ℤ

  -- `_ = UpdateStatus(…)`
  unfoldable pub mark : ℕ → Str → TaskStatus → Str → World → World
  unfolding update_status
  mark now id status text w = record w {
    tasks = (update_status env.tasks now id status text w.tasks).0;
  }

  -- the rounds of findUploadedFile, and the last error
  unfoldable pub search_rounds : ℕ → Str → Str → Option Error → env.files.Remote → Result Entry
  unfolding after_round
  search_rounds zero folder name last r = err (last_or (no_such_file (env.quoted name)) last)
  search_rounds (suc n) folder name last r =
      after_round (λ l. search_rounds n folder name l (env.later r)) name last
        (list_page env.files r folder name (pos 5) [])

  -- findUploadedFile
  unfoldable pub find_uploaded_file : Str → Str → env.files.Remote → Result Entry
  unfolding search_rounds
  find_uploaded_file dest name =
      search_rounds 5 (if str_eq dest [] then bytes "root" else dest) name none

  unfoldable pub record_result : ℕ → Task → Result Entry → World → World
  unfolding mark set_result
  record_result now t (err e) w = mark now t.id completed [] w
  record_result now t (ok e) w = record w { tasks = (set_result env.tasks now t.id e.id w.tasks).0 }

  unfoldable pub finish_with : ℕ → Task → Result (Unit {0}) → World → World
  unfolding mark record_result find_uploaded_file
  finish_with now t (err e) w = mark now t.id completed [] w
  finish_with now t (ok u) w =
      record_result now t (find_uploaded_file t.dest_folder_id t.file_name w.remote) w

  -- finish, which returns nil
  unfoldable pub finish : ℕ → Task → World → World
  unfolding finish_with drive_client_for
  finish now t w = finish_with now t (drive_client_for env.users env.connect t.user_id w.users) w

  -- a failure that Process records
  unfoldable pub fail : ℕ → Task → Error → World → World × Result (Unit {0})
  unfolding mark
  fail now t e w = (mark now t.id failed (error_text e) w, err e)

  -- after the upload
  unfoldable pub uploaded : ℕ → Task → World × Option Error → World × Result (Unit {0})
  unfolding fail finish
  uploaded now t (w, some e) = fail now t e w
  uploaded now t (w, none) = (finish now t w, ok tt)

  abbrev pub run_upload : Str → Task → Str → ℤ → World → World × Option Error
  run_upload remote t path max_retries w =
      let (o, e) = env.transfers.upload remote t.dest_folder_id path max_retries w.outside in
      (record w { outside = o }, e)

  unfoldable pub send_up : ℕ → Task → Str → Option Str → World → World × Result (Unit {0})
  unfolding mark uploaded
  send_up now t path none w = (w, err (non_retryable (plain (bytes "user not logged in"))))
  send_up now t path (some remote) w =
      let w1 = mark now t.id uploading [] w in
      let (s, set) = settings env.settings now env.defaults w1.settings in
      uploaded now t (run_upload remote t path set.max_retries (record w1 { settings = s }))

  -- uploadLimitMB > 0 && t.FileSize > uploadLimitMB*1024*1024
  abbrev pub over_limit : ℤ → ℤ → Bool
  over_limit limit_mb size =
      ltb_ℤ (pos 0) limit_mb && ltb_ℤ (mul64 (mul64 limit_mb (pos 1024)) (pos 1024)) size

  abbrev pub shown_size : ℤ → Str
  shown_size n = elim (human_bytes env.tenths n) [ none ↦ [] | some s ↦ s ]

  abbrev pub too_large : ℤ → ℤ → Str
  too_large limit_mb size =
      bytes "❌ File too large ("
      ++ (shown_size size
          ++ (bytes "). Upload limit is "
              ++ (shown_size (mul64 (mul64 limit_mb (pos 1024)) (pos 1024)) ++ bytes ".")))

  unfoldable pub checked : ℕ → Task → Str → ℤ → World → World × Result (Unit {0})
  unfolding mark send_up
  checked now t path limit_mb w =
      if over_limit limit_mb w.file_size
      then (
        mark now t.id failed (too_large limit_mb w.file_size) w,
        err (non_retryable (plain (bytes "file exceeds upload limit"))),
      )
      else send_up now t path (remote_of (env.users.find_one w.users t.user_id)) w

  abbrev pub sized : Option ℤ → World → World
  sized none w = w
  sized (some n) w = record w { file_size = n }

  -- after the download
  unfoldable pub downloaded : ℕ → Task → Str → World × Option Error → World × Result (Unit {0})
  unfolding fail checked
  downloaded now t path (w, some e) = fail now t e w
  downloaded now t path (w, none) =
      let w1 = sized (env.transfers.stat path w.outside) w in
      let (s, set) = settings env.settings now env.defaults w1.settings in
      checked now t path set.upload_limit_mb (record w1 { settings = s })

  abbrev pub run_download : Task → Str → World → World × Option Error
  run_download t path w =
      let (o, e) = env.transfers.download t.type t.source path w.outside in
      (record w { outside = o }, e)

  abbrev pub removed : Str → World × Result (Unit {0}) → World × Result (Unit {0})
  removed path (w, r) = (record w { outside = env.transfers.remove path w.outside }, r)

  unfoldable pub prepared : ℕ → List ℕ → Task → World × Option Error → World × Result (Unit {0})
  unfolding downloaded local_name
  prepared now drawn t (w, some e) = (w, err (wrap (bytes "ensure download dir: ") e))
  prepared now drawn t (w, none) =
      let path = local_name drawn t in removed path (downloaded now t path (run_download t path w))

  -- Process
  unfoldable pub process : ℕ → List ℕ → Task → World → World × Result (Unit {0})
  unfolding mark prepared
  process now drawn t w =
      let w1 = mark now t.id downloading [] w in
      let (o, e) = env.transfers.ensure_dir w1.outside in
      prepared now drawn t (record w1 { outside = o }, e)
