-- ===== src/Queue/Resume.antt =====
-- What `Resume` of internal/queue/worker.go puts back, and what a stored task means after a restart.
use gdrive_bot.Base.{ℕ, suc, ◌≡◌, ap, List, [], ◌∷◌, ◌++◌, Str, ok, length, take, map}
use gdrive_bot.Database.{Collection, In}
use gdrive_bot.Database.Tasks.{is_pending, pending}
use gdrive_bot.Models.{Task}
use gdrive_bot.Queue.{Job, Manager, enqueue}
use gdrive_bot.Queue.Enqueue.{enqueue-Accepted}

abbrev pub task_of : Job → Task
task_of j = j.task

-- `Fits room freed ts ss`: a bounded buffer with this many free places takes `ss` of the items `ts`, in
-- their order, while the readers free that many places; an item is left out only where no place is free.
pub data Fits : ℕ → ℕ → List Task → List Task → Type 0 where
  ends : (room : ℕ) → Fits room 0 [] []
  frees :
      (room freed : ℕ) (ts ss : List Task)
      → Fits (suc room) freed ts ss
      → Fits room (suc freed) ts ss
  takes :
      (room freed : ℕ) (t : Task) (ts ss : List Task)
      → Fits room freed ts ss
      → Fits (suc room) freed (t ∷ ts) (t ∷ ss)
  leaves_out :
      (freed : ℕ) (t : Task) (ts ss : List Task) → Fits 0 freed ts ss → Fits 0 freed (t ∷ ts) ss

-- the first of the items, as many as there were places
abbrev Begins : ℕ → List Task → List Task → Type 0
Begins room ts ss = (more : List Task) × (ss ≡ take room ts ++ more)

-- What a Resume of these tasks comes to, from the jobs that wait before and after it, with this many
-- free places before.
pub record Resumed (room : ℕ) (ts : List Task) (js ks : List Job) : Type 0 where
  -- what the workers received meanwhile, and what was sent
  taken : List Job
  sent : List Task
  order : map task_of js ++ sent ≡ map task_of (taken ++ ks)
  fits : Fits room (length taken) ts sent
  begins : Begins room ts sent

module _ (col : Collection Str Task) where
  -- All that it does to the queue is to receive jobs.
  abbrev pub OnlyReceives : (Manager col → Manager col) → Type 0
  OnlyReceives act =
      (m : Manager col)
      → (taken : List Job) × (m.jobs ≡ taken ++ (act m).jobs) × ((act m).capacity ≡ m.capacity)

  -- A task that Enqueue accepted is among those that a restart at that moment would resume.
  pub enqueue_survives :
      (now : ℕ) (id : Str) (t : Task) (m : Manager col) {job : Job} (ts : List Task)
      → (enqueue col now id t m).1 ≡ ok job
      → (pending col (enqueue col now id t m).0.tasks).1 ≡ ok ts
      → In job.task ts
  unfolding pending
  enqueue_survives now id t m {job} ts e p =
      let (same, jobs, room, doc, found) = enqueue-Accepted col now id t m e in
      col.find_all_complete _ _ ts job.task.id job.task p doc (ap (λ x. is_pending x.status) same)
