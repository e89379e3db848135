-- ===== src/Database/Tasks.antt =====
-- internal/database/tasks.go.
use gdrive_bot.Base.{
  ℕ, ◌+◌, Bool, true, false, ◌&&◌, List, [], Str, str_eq, if◌then◌else◌, ℤ, eqb_ℤ, Act,
}
use mathlib.Core.Option
use gdrive_bot.Database.{Collection}
use gdrive_bot.Database.States.{done, or_not_found}
use gdrive_bot.Models.{
  Task, TaskStatus, queued, downloading, uploading, completed, failed, canceled,
}

-- the status filter of Pending, and the one that checkUserQueueLimit passes
abbrev pub is_pending : TaskStatus → Bool
is_pending queued = true
is_pending downloading = true
is_pending uploading = true
is_pending completed = false
is_pending failed = false
is_pending canceled = false

-- the times that UpdateStatus sets
unfoldable pub stamp : TaskStatus → ℕ → Task → Task
stamp queued now t = t
stamp downloading now t = record t { started_at = now }
stamp uploading now t = t
stamp completed now t = record t { completed_at = now }
stamp failed now t = record t { completed_at = now }
stamp canceled now t = record t { completed_at = now }

-- `$set` of UpdateStatus
unfoldable pub with_status : ℕ → TaskStatus → Str → Task → Task
unfolding stamp
with_status now status last_err t = stamp status now (record t {
  status = status;
  last_error = if str_eq last_err [] then t.last_error else last_err;
})

-- `$set` of SetResult
unfoldable pub with_result : ℕ → Str → Task → Task
with_result now file_id t = record t {
  result_file_id = file_id;
  status = completed;
  completed_at = now;
}

-- `$inc` of IncrementRetry
unfoldable pub with_retry : Task → Task
with_retry t = record t { retry_count = t.retry_count + 1 }

-- the document that Insert stores
abbrev pub fresh : ℕ → Task → Task
fresh now t = record t { created_at = now; status = queued }

module _ (col : Collection Str Task) where
  unfoldable pub insert : ℕ → Task → Act col.Store (Unit {0})
  insert now t s = done (col.insert_one s t.id (fresh now t))

  unfoldable pub get : Str → Act col.Store Task
  get id s = (s, or_not_found (col.find_one s id))

  -- UpdateByID does nothing where there is no such task.
  unfoldable pub update_status : ℕ → Str → TaskStatus → Str → Act col.Store (Unit {0})
  unfolding with_status
  update_status now id status last_err s =
      done (col.write s id (Option.map (with_status now status last_err)))

  unfoldable pub set_result : ℕ → Str → Str → Act col.Store (Unit {0})
  unfolding with_result
  set_result now id file_id s =
      done (col.write s id (Option.map {A = Task} (with_result now file_id)))

  unfoldable pub increment_retry : Str → Act col.Store (Unit {0})
  unfolding with_retry
  increment_retry id s = done (col.write s id (Option.map {A = Task} with_retry))

  unfoldable pub pending : Act col.Store (List Task)
  pending s = (s, col.find_all s (λ t. is_pending t.status))

  -- CountForUser with the three statuses of is_pending
  unfoldable pub count_for_user : ℤ → Act col.Store ℕ
  count_for_user user_id s = (s, col.count s (λ t. eqb_ℤ t.user_id user_id && is_pending t.status))
