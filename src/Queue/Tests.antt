-- ===== src/Queue/Tests.antt =====
-- A concrete queue on the in-memory collection.
use native.Mathlib.Decide.{ℕ_discrete}
use gdrive_bot.Base.{
  Error, Option, ℕ, ◌≡◌, refl, none, [], ◌∷◌, Str, bytes, pos, negsuc, ok, drop, map, arith, true,
  str_eq, false, ◌+◌,
}
use gdrive_bot.Database.{Collection, In}
use gdrive_bot.Database.Assoc.{assoc_collection}
use gdrive_bot.Database.Tasks.{fresh, insert, update_status, pending}
use gdrive_bot.Models.{Task, direct_link, queued, downloading}
use gdrive_bot.Queue.{
  Job, Manager, Processor, enqueue, with_id, cancel, process, resume, resume_loaded, resume_tasks,
  resume_task, register, place, context_canceled, queue_full,
}
use gdrive_bot.Queue.Enqueue.{Accepted, Refused, enqueue-Accepted, enqueue-Refused}
use gdrive_bot.Queue.Process.{Cleared, Dropped, process-Cleared, process_canceled}
use gdrive_bot.Queue.Resume.{task_of, enqueue_survives}
use gdrive_bot.Queue.Pool.{Pool, Runs, working, launched, starts, sends, takes, Runs-conserved}

Str_discrete : Discrete Str
Str_discrete = hlevel ℕ_discrete

abbrev col : Collection Str Task
col = assoc_collection Str_discrete

abbrev a_task : Task
a_task = record {
  id = bytes "ab12";
  user_id = pos 7;
  chat_id = negsuc 99;
  type = direct_link;
  status = queued;
  source = bytes "https://example.org/a.iso";
  file_name = bytes "a.iso";
  file_size = pos 0;
  dest_folder_id = [];
  status_message_id = pos 3;
  retry_count = 0;
  last_error = [];
  created_at = 0;
  started_at = 0;
  completed_at = 0;
  result_file_id = [];
}

abbrev b_task : Task
b_task = record a_task { id = bytes "cd34"; status = downloading }

abbrev idle : Manager col
idle = record {
  tasks = [];
  jobs = [];
  capacity = 1;
  max_retries = pos 3;
  cancels = [];
  finished = [];
  next_ctx = 0;
  active = 0;
}

abbrev first_job : Job
first_job = record { task = fresh 5 a_task; ctx = 0 }

-- one job waits, and the queue is full
abbrev busy : Manager col
busy = record idle {
  tasks = (bytes "ab12", fresh 5 a_task) ∷ [];
  jobs = first_job ∷ [];
  cancels = (bytes "ab12", 0) ∷ [];
  next_ctx = 1;
}

-- two tasks are left from before a restart
abbrev restarted : Manager col
restarted = record idle { tasks = (bytes "ab12", a_task) ∷ (bytes "cd34", b_task) ∷ [] }

abbrev no_wait : ℕ → Manager col → Manager col × Option Error
no_wait n m = (m, none)

abbrev does_nothing : Processor col
does_nothing job m = (m, ok tt)

enqueue-Accepted_example :
    Accepted col
      (fresh 5 (with_id (bytes "ff") a_task))
      idle
      first_job
      (enqueue col 5 (bytes "ff") a_task idle).0
unfolding enqueue str_eq
enqueue-Accepted_example = enqueue-Accepted col 5 (bytes "ff") a_task idle refl

enqueue-Refused_example :
    Refused col 9
      (fresh 9 (with_id (bytes "ff") b_task))
      busy
      (enqueue col 9 (bytes "ff") b_task busy)
unfolding insert Str_discrete str_eq ℕ_discrete update_status
enqueue-Refused_example = enqueue-Refused col 9 (bytes "ff") b_task busy (omega arith) refl refl

enqueue_survives_example : In first_job.task (first_job.task ∷ [])
unfolding enqueue pending Str_discrete str_eq ℕ_discrete
enqueue_survives_example =
    enqueue_survives col 5 (bytes "ff") a_task idle (first_job.task ∷ []) refl refl

process-Cleared_example : Cleared col first_job (process col no_wait does_nothing 9 first_job busy)
process-Cleared_example = process-Cleared col no_wait does_nothing 9 first_job busy

process_canceled_example :
    ((cancel col (bytes "ab12") busy).1 ≡ true)
    × Dropped col no_wait does_nothing 9
        (bytes "ab12")
        (fresh 5 a_task)
        busy
        (process col no_wait does_nothing 9 first_job (cancel col (bytes "ab12") busy).0)
unfolding gdrive_bot.Queue.lookup str_eq Str_discrete ℕ_discrete update_status
process_canceled_example =
    process_canceled col no_wait does_nothing 9 first_job busy (fresh 5 a_task) refl refl refl

-- a worker that receives a job at every turn
abbrev receives : ℕ → Manager col → Manager col
receives n m = record m { jobs = drop 1 m.jobs }

last_waits : map task_of (resume col receives restarted).0.jobs ≡ b_task ∷ []
unfolding resume resume_loaded resume_tasks resume_task register place pending Str_discrete
    ℕ_discrete
last_waits = refl

-- without a worker the second finds the queue full
only_first : map task_of (resume col (λ n m. m) restarted).0.jobs ≡ a_task ∷ []
unfolding resume resume_loaded resume_tasks resume_task register place pending Str_discrete
    ℕ_discrete
only_first = refl

-- one worker takes the only job
abbrev one_waiting : Pool
one_waiting = record {
  waiting = first_job ∷ [];
  workers = launched 1;
  processed = [];
  stopping = false;
}

abbrev one_busy : Pool
one_busy = record {
  waiting = [];
  workers = working first_job ∷ [];
  processed = [];
  stopping = false;
}

one_taken : Runs (first_job ∷ []) one_busy
one_taken =
    takes (first_job ∷ []) one_waiting [] [] first_job [] (sends [] _ first_job (starts 1)) refl
      refl

Runs-conserved_example : 0 + (1 + 0) ≡ 1
Runs-conserved_example = Runs-conserved (λ j. true) (first_job ∷ []) one_busy one_taken
