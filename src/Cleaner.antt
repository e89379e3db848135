-- ===== src/Cleaner.antt =====
-- internal/bot/cleaner.go: one sweep of the downloads directory. Whether `os.Stat` and `os.Remove`
-- succeed on a name is a parameter; a sweep reads the tasks once, and other goroutines are taken not
-- to act while it runs. The loop that starts a sweep at every tick is not modelled.
pub mod Laws
pub mod Tests
use gdrive_bot.Base.{
  ℕ, ◌+◌, Bool, true, false, not, ◌&&◌, ◌||◌, Option, none, some, List, [], ◌∷◌, ◌++◌, Str, str_eq,
  ◌==◌, ltb, leb, if◌then◌else◌, ℤ, pos, negsuc, add64, mul64, Result, ok, err, length, take, drop,
  ltb_ℤ,
}
use gdrive_bot.Database.{Collection}
use gdrive_bot.Database.Tasks.{pending}
use gdrive_bot.Models.{
  Task, TaskStatus, queued, downloading, uploading, completed, failed, canceled,
}

pub record DirEntry : Type 0 where
  pub name : Str
  pub is_dir : Bool
  pub size : ℤ

pub record FileCalls : Type 0 where
  pub stat_ok : Str → Bool
  pub remove_ok : Str → Bool

-- What a sweep leaves, and what it reports.
pub record Swept : Type 0 where
  pub left : List DirEntry
  pub freed : ℤ
  pub removed : ℕ

-- NewCleaner: the interval, in nanoseconds
unfoldable pub new_cleaner : ℤ → ℤ
new_cleaner interval_min =
    mul64 (if ltb_ℤ (pos 0) interval_min then interval_min else pos 60) (pos 60000000000)

unfoldable pub all_hex : Str → Bool
all_hex [] = true
all_hex (c ∷ s) = (leb b'0' c && leb c b'9' || leb b'a' c && leb c b'f') && all_hex s

-- `name[16] == '_'`
unfoldable pub starts_with_bar : Str → Bool
starts_with_bar [] = false
starts_with_bar (c ∷ s) = c == b'_'

-- taskIDFromFilename
unfoldable pub task_id_from_filename : Str → Str
unfolding all_hex starts_with_bar
task_id_from_filename name =
    if ltb (length name) 17 || not (starts_with_bar (drop 16 name))
    then []
    else if all_hex (take 16 name)
    then take 16 name
    else []

abbrev pub is_active : TaskStatus → Bool
is_active queued = false
is_active downloading = true
is_active uploading = true
is_active completed = false
is_active failed = false
is_active canceled = false

unfoldable pub active_ids : List Task → List Str
active_ids [] = []
active_ids (t ∷ ts) = let rest = active_ids ts in if is_active t.status then t.id ∷ rest else rest

-- activeTaskIDs; a failed query is an empty set
unfoldable pub active_task_ids : Result (List Task) → List Str
unfolding active_ids
active_task_ids (err e) = []
active_task_ids (ok ts) = active_ids ts

-- `active[id]`
unfoldable pub has_id : Str → List Str → Bool
has_id id [] = false
has_id id (i ∷ ids) = str_eq i id || has_id id ids

-- `taskID != "" && active[taskID]`
unfoldable pub is_protected : List Str → Str → Bool
unfolding task_id_from_filename has_id
is_protected active name =
    let id = task_id_from_filename name in not (str_eq id []) && has_id id active

abbrev pub keep : DirEntry → Swept → Swept
keep e s = record s { left = s.left ++ e ∷ [] }

module _ (fs : FileCalls) (active : List Str) where
  -- the body of the loop
  unfoldable pub sweep_entry : DirEntry → Swept → Swept
  unfolding is_protected
  sweep_entry e s =
      if e.is_dir
      then keep e s
      else if is_protected active e.name
      then keep e s
      else if not (fs.stat_ok e.name)
      then keep e s
      else if fs.remove_ok e.name
      then record s { freed = add64 s.freed e.size; removed = s.removed + 1 }
      else keep e s

  unfoldable pub sweep_entries : List DirEntry → Swept → Swept
  unfolding sweep_entry
  sweep_entries [] s = s
  sweep_entries (e ∷ es) s = sweep_entries es (sweep_entry e s)

module _ (col : Collection Str Task) where
  -- run; `none` is a directory that cannot be read, of which nothing is removed
  unfoldable pub run_sweep : FileCalls → Option (List DirEntry) → col.Store → Swept
  unfolding active_task_ids sweep_entries pending
  run_sweep fs none tasks = record { left = []; freed = pos 0; removed = 0 }
  run_sweep fs (some entries) tasks =
      sweep_entries fs (active_task_ids (pending col tasks).1) entries
        (record { left = []; freed = pos 0; removed = 0 })
