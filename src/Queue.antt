-- ===== src/Queue.antt =====
-- internal/queue: the job queue. The channel is the list of its waiting jobs, oldest first, with a
-- capacity of at least 1; a context is a number, done once it is in `finished`; the map of cancel functions takes
-- a task's ID to its job's context. An action is one critical section, or one send or receive, and
-- several workers interleave by them. What other goroutines do in the waits of a retry and during Resume, and the
-- processor are parameters. The start and stop of the workers are in Pool. Log lines are not modelled.
pub mod Enqueue
pub mod Process
pub mod Resume
pub mod Pool
pub mod Tests
use gdrive_bot.Base.{
  ℕ, suc, ◌+◌, ◌-◌, Bool, true, false, ◌||◌, Option, none, some, List, [], ◌∷◌, ◌++◌, Str, bytes,
  str_eq, if◌then◌else◌, ltb, ◌==◌, ℤ, Error, plain, error_text, wrap, Result, ok, err, Act,
  format_nat, length,
}
use gdrive_bot.Database.{Collection}
use gdrive_bot.Database.Tasks.{fresh, insert, update_status, increment_retry, pending}
use gdrive_bot.Models.{Task, failed}
use gdrive_bot.Utils.Retry.{retry}

pub record Job : Type 0 where
  pub task : Task
  pub ctx : ℕ

-- delete(m, k), for the map of cancel functions
unfoldable pub remove : Str → List (Str × ℕ) → List (Str × ℕ)
remove k [] = []
remove k ((j, c) ∷ m) = let rest = remove k m in if str_eq j k then rest else (j, c) ∷ rest

unfoldable pub lookup : Str → List (Str × ℕ) → Option ℕ
lookup k [] = none
lookup k ((j, c) ∷ m) = if str_eq j k then some c else lookup k m

-- m[k] = c
unfoldable pub insert_key : Str → ℕ → List (Str × ℕ) → List (Str × ℕ)
unfolding remove
insert_key k c m = (k, c) ∷ remove k m

unfoldable pub contains : ℕ → List ℕ → Bool
contains c [] = false
contains c (d ∷ ds) = d == c || contains c ds

abbrev pub context_canceled : Error
context_canceled = plain (bytes "context canceled")

abbrev pub queue_full : Str
queue_full = bytes "queue full"

-- `if t.ID == "" { t.ID = utils.NewID() }`
abbrev pub with_id : Str → Task → Task
with_id id t = record t { id = if str_eq t.id [] then id else t.id }

module _ (col : Collection Str Task) where
  pub record Manager : Type 0 where
    pub tasks : col.Store
    pub jobs : List Job
    pub capacity : ℕ
    pub max_retries : ℤ
    pub cancels : List (Str × ℕ)
    pub finished : List ℕ
    pub next_ctx : ℕ
    pub active : ℕ

  -- NewManager, with the tasks that the database holds
  unfoldable pub new_manager : col.Store → ℕ → ℤ → Manager
  new_manager tasks queue_size max_retries = record {
    tasks = tasks;
    jobs = [];
    capacity = queue_size;
    max_retries = max_retries;
    cancels = [];
    finished = [];
    next_ctx = 0;
    active = 0;
  }

  -- cancel() of a context
  abbrev pub finish_ctx : ℕ → Manager → Manager
  finish_ctx c m = record m { finished = c ∷ m.finished }

  -- context.WithCancel, and `m.cancels[id] = cancel`
  unfoldable pub register : Task → Manager → Manager × Job
  unfolding insert_key
  register t m = (
    record m { cancels = insert_key t.id m.next_ctx m.cancels; next_ctx = suc m.next_ctx },
    record { task = t; ctx = m.next_ctx },
  )

  -- a failed status update is ignored
  unfoldable pub mark_failed : ℕ → Str → Str → Manager → Manager
  unfolding update_status
  mark_failed now id text m = record m { tasks = (update_status col now id failed text m.tasks).0 }

  -- the `select` of Enqueue: send, or give up at once
  unfoldable pub send : Bool → ℕ → Job → Manager → Manager × Result Job
  unfolding mark_failed remove
  send true now job m = (record m { jobs = m.jobs ++ job ∷ [] }, ok job)
  send false now job m = (
    mark_failed now job.task.id queue_full
        (record m { cancels = remove job.task.id m.cancels; finished = job.ctx ∷ m.finished }),
    err (plain (bytes "queue: full (capacity " ++ (format_nat m.capacity ++ bytes ")"))),
  )

  abbrev pub has_room : Manager → Bool
  has_room m = ltb (length m.jobs) m.capacity

  unfoldable pub enqueue_stored : ℕ → Task → Result (Unit {0}) → Manager → Manager × Result Job
  unfolding register send
  enqueue_stored now t (err e) m = (m, err (wrap (bytes "queue: persist task: ") e))
  enqueue_stored now t (ok u) m = let (m', job) = register t m in send (has_room m') now job m'

  -- Enqueue; Insert sets the time and the status of the task that the job holds too.
  unfoldable pub enqueue : ℕ → Str → Task → Manager → Manager × Result Job
  unfolding insert enqueue_stored
  enqueue now id t m =
      let t' = fresh now (with_id id t) in
      let (s, r) = insert col now t' m.tasks in enqueue_stored now t' r (record m { tasks = s })

  unfoldable pub cancel_found : Str → Option ℕ → Manager → Manager × Bool
  unfolding remove
  cancel_found id none m = (m, false)
  cancel_found id (some c) m =
      (record m { cancels = remove id m.cancels; finished = c ∷ m.finished }, true)

  -- Cancel
  unfoldable pub cancel : Str → Manager → Manager × Bool
  unfolding lookup cancel_found
  cancel id m = cancel_found id (lookup id m.cancels) m

  -- the `select` of Resume: a task that finds the queue full is only logged
  unfoldable pub place : Bool → Job → Manager → Manager
  place true job m = record m { jobs = m.jobs ++ job ∷ [] }
  place false job m = m

  -- Start comes before Resume, so that workers act during the loop: `others` is what they do before the lock of a round and before its `select`, each of which has a number.
  module _ (others : ℕ → Manager → Manager) where
    -- one round of Resume
    unfoldable pub resume_task : ℕ → Task → Manager → Manager
    unfolding register place
    resume_task n t m =
        let (m', job) = register t (others n m) in
        let m'' = others (suc n) m' in place (has_room m'') job m''

    unfoldable pub resume_tasks : ℕ → List Task → Manager → Manager
    unfolding resume_task
    resume_tasks n [] m = m
    resume_tasks n (t ∷ ts) m = resume_tasks (suc (suc n)) ts (resume_task n t m)

    unfoldable pub resume_loaded : Result (List Task) → Manager → Manager × Result (Unit {0})
    unfolding resume_tasks
    resume_loaded (err e) m = (m, err (wrap (bytes "queue: load pending tasks: ") e))
    resume_loaded (ok ts) m = (resume_tasks 0 ts m, ok tt)

    -- Resume
    unfoldable pub resume : Manager → Manager × Result (Unit {0})
    unfolding pending resume_loaded
    resume m = resume_loaded (pending col m.tasks).1 m

  -- a worker's receive
  unfoldable pub take_job : List Job → Manager → Option (Job × Manager)
  take_job [] m = none
  take_job (j ∷ js) m = some (j, record m { jobs = js })

  unfoldable pub receive : Manager → Option (Job × Manager)
  unfolding take_job
  receive m = take_job m.jobs m

  -- `job.Ctx.Err()`
  unfoldable pub ctx_err : Job → Manager → Option Error
  unfolding contains
  ctx_err job m = if contains job.ctx m.finished then some context_canceled else none

  -- the end of `process`: what the deferred calls undo, after a failure is recorded
  unfoldable pub settle_job : ℕ → Job → Manager × Result (Unit {0}) → Manager
  unfolding mark_failed remove
  settle_job now job (m, ok u) = record m {
    cancels = remove job.task.id m.cancels;
    finished = job.ctx ∷ m.finished;
    active = m.active - 1;
  }
  settle_job now job (m, err e) =
      let m' = mark_failed now job.task.id (error_text e) m in
      record m' {
        cancels = remove job.task.id m'.cancels;
        finished = job.ctx ∷ m'.finished;
        active = m'.active - 1;
      }

  abbrev pub Processor : Type 0
  Processor = Job → Manager → Manager × Result (Unit {0})

  module _ (pause : ℕ → Manager → Manager × Option Error) (processor : Processor) where
    -- the function that `process` retries
    unfoldable pub attempt : Job → ℕ → Manager → Manager × Result (Unit {0})
    unfolding increment_retry
    attempt job n m =
        processor job
          (if ltb 1 n then record m { tasks = (increment_retry col job.task.id m.tasks).0 } else m)

    unfoldable pub process : ℕ → Job → Manager → Manager
    unfolding settle_job ctx_err attempt
    process now job m =
        settle_job now job (
          retry (ctx_err job) pause m.max_retries (attempt job)
            (record m { active = m.active + 1 }))
