-- ===== src/Queue/Enqueue.antt =====
-- What `Enqueue` of internal/queue/worker.go does when it accepts a task and when it refuses one.
use mathlib.Core.Option
use gdrive_bot.Base.{
  ◌≤◌, ◌∙◌, ◌∙◌, ℕ, ◌≡◌, ◌<◌, refl, sym, ap, subst, Bool, true, false, none, some, List, [], ◌∷◌,
  ◌++◌, Str, str_eq, str_eq_refl, Result, ok, err, ok_inj, length, if◌then◌else◌, ltb, arith,
}
use gdrive_bot.Database.{Collection}
use gdrive_bot.Database.States.{outcome-ok}
use gdrive_bot.Database.Tasks.{fresh, insert, update_status, with_status}
use gdrive_bot.Models.{Task, failed}
use gdrive_bot.Queue.{
  Job, Manager, remove, lookup, insert_key, contains, queue_full, register, mark_failed, send,
  enqueue_stored, with_id, enqueue,
}

pub lookup_removed : (k : Str) (m : List (Str × ℕ)) → lookup k (remove k m) ≡ none
unfolding remove lookup
lookup_removed k [] = refl
lookup_removed k ((j, c) ∷ m) =
    elim (str_eq j k)
        as (λ b. str_eq j k ≡ b → lookup k (if b then remove k m else (j, c) ∷ remove k m) ≡ none) [
          | true ↦ λ _. lookup_removed k m
          | false ↦ λ e.
              subst (λ b. (if b then some c else lookup k (remove k m)) ≡ none) (sym e)
                (lookup_removed k m)
        ]
      refl

pub lookup_inserted : (k : Str) (c : ℕ) (m : List (Str × ℕ)) → lookup k (insert_key k c m) ≡ some c
unfolding lookup insert_key
lookup_inserted k c m = ap (λ b. if b then some c else lookup k (remove k m)) (str_eq_refl k)

pub contains_head : (c : ℕ) (cs : List ℕ) → contains c (c ∷ cs) ≡ true
unfolding contains
contains_head c cs = ground arith

module _ (col : Collection Str Task) where
  -- What accepting the job promises.
  abbrev pub Accepted : Task → Manager col → Job → Manager col → Type 0
  Accepted t m job m' =
      (job.task ≡ t)
      × (m'.jobs ≡ m.jobs ++ job ∷ [])
      × (length m.jobs < m.capacity)
      × (col.docs m'.tasks job.task.id ≡ some job.task)
      × (lookup job.task.id m'.cancels ≡ some job.ctx)

  send-Accepted :
      (now : ℕ) (b : Bool) (t : Task) (m : Manager col) {job : Job}
      → ltb (length m.jobs) m.capacity ≡ b
      → col.docs m.tasks t.id ≡ some t
      → (send col b now (register col t m).1 (register col t m).0).1 ≡ ok job
      → Accepted t m job (send col b now (register col t m).1 (register col t m).0).0
  unfolding send register
  send-Accepted now true t m {job} room doc e =
      subst (λ j. Accepted t m j (send col true now (register col t m).1 (register col t m).0).0)
        (ok_inj e) (refl, refl, ground arith, doc, lookup_inserted t.id m.next_ctx m.cancels)
  send-Accepted now false t m room doc e = cc

  enqueue_stored-Accepted :
      (now : ℕ) (t : Task) (r : Result (Unit {0})) (m : Manager col) {job : Job}
      → (r ≡ ok tt → col.docs m.tasks t.id ≡ some t)
      → (enqueue_stored col now t r m).1 ≡ ok job
      → Accepted t m job (enqueue_stored col now t r m).0
  unfolding enqueue_stored register
  enqueue_stored-Accepted now t (err x) m doc e = cc
  enqueue_stored-Accepted now t (ok u) m doc e =
      send-Accepted now (ltb (length m.jobs) m.capacity) t m refl (doc refl) e

  -- Where Enqueue returns a job, it holds the task as queued now, there was room for it and it is the last one in the queue, the
  -- database holds its task, whose ID was not in use, and Cancel would end the job's context.
  pub enqueue-Accepted :
      (now : ℕ) (id : Str) (t : Task) (m : Manager col) {job : Job}
      → (enqueue col now id t m).1 ≡ ok job
      → Accepted (fresh now (with_id id t)) m job (enqueue col now id t m).0
  unfolding enqueue insert
  enqueue-Accepted now id t m e =
      let t' = fresh now (with_id id t) in
      enqueue_stored-Accepted now t' (insert col now t' m.tasks).1 _
        (λ h. (col.insert_docs m.tasks t'.id t' (outcome-ok _ h)).1) e

  -- What refusing the task with this ID promises.
  abbrev pub Refused : ℕ → Task → Manager col → Manager col × Result Job → Type 0
  Refused now t m (m', r) =
      (¬ ((j : Job) × (r ≡ ok j)))
      × (m'.jobs ≡ m.jobs)
      × (col.docs m'.tasks t.id ≡ some (with_status now failed queue_full t))
      × (contains m.next_ctx m'.finished ≡ true)
      × (lookup t.id m'.cancels ≡ none)

  send-Refused :
      (now : ℕ) (t : Task) (m : Manager col)
      → col.docs m.tasks t.id ≡ some t
      → (update_status col now t.id failed queue_full m.tasks).1 ≡ ok tt
      → Refused now t m (send col false now (register col t m).1 (register col t m).0)
  unfolding send register mark_failed update_status
  send-Refused now t m doc e = (
    λ h. cc,
    refl,
    col.write_docs m.tasks t.id _ (outcome-ok _ e)
        ∙ ap (Option.map {A = Task} (with_status now failed queue_full)) doc,
    contains_head m.next_ctx m.finished,
    lookup_removed t.id (insert_key t.id m.next_ctx m.cancels),
  )

  enqueue_stored-Refused :
      (now : ℕ) (t : Task) (r : Result (Unit {0})) (b : Bool) (m : Manager col)
      → r ≡ ok tt
      → ltb (length m.jobs) m.capacity ≡ b
      → m.capacity ≤ length m.jobs
      → col.docs m.tasks t.id ≡ some t
      → (update_status col now t.id failed queue_full m.tasks).1 ≡ ok tt
      → Refused now t m (enqueue_stored col now t r m)
  unfolding enqueue_stored register
  enqueue_stored-Refused now t (err x) b m h room full doc e = cc
  enqueue_stored-Refused now t (ok u) true m h room full doc e = absurd (ground arith)
  enqueue_stored-Refused now t (ok u) false m h room full doc e =
      subst (λ b. Refused now t m (send col b now (register col t m).1 (register col t m).0))
        (sym room) (send-Refused now t m doc e)

  -- Where the database takes the task and its later update, but the queue has no room, Enqueue
  -- returns an error, the queue is as it was, the task is stored as failed with the text "queue
  -- full", its context is done, and Cancel does not find it.
  pub enqueue-Refused :
      (now : ℕ) (id : Str) (t : Task) (m : Manager col)
      → m.capacity ≤ length m.jobs
      → (insert col now (fresh now (with_id id t)) m.tasks).1 ≡ ok tt
      → (update_status col now
          (with_id id t).id
          failed
          queue_full
          (insert col now (fresh now (with_id id t)) m.tasks).0).1
        ≡ ok tt
      → Refused now (fresh now (with_id id t)) m (enqueue col now id t m)
  unfolding enqueue insert
  enqueue-Refused now id t m full stored updated =
      let t' = fresh now (with_id id t) in
      enqueue_stored-Refused now t' (insert col now t' m.tasks).1 _
        (record m { tasks = (insert col now t' m.tasks).0 }) stored refl full
        (col.insert_docs m.tasks t'.id t' (outcome-ok _ stored)).1 updated
