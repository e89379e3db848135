-- ===== src/Queue/Process.antt =====
-- What a worker's `process` and `Cancel` of internal/queue/worker.go guarantee, for any processor.
use mathlib.Core.Option
use gdrive_bot.Base.{
  ℕ, ◌<◌, ◌+◌, ◌≡◌, refl, sym, ◌∙◌, ap, subst, true, Option, none, some, some_inj, Str, Error,
  error_text, Result, ok, err, arith, zero, suc, if◌then◌else◌,
}
use gdrive_bot.Database.{Collection}
use gdrive_bot.Database.States.{outcome-ok}
use gdrive_bot.Database.Tasks.{update_status, with_status}
use gdrive_bot.Models.{Task, failed}
use gdrive_bot.Queue.{
  Job, Manager, Processor, lookup, contains, context_canceled, mark_failed, cancel_found, cancel,
  ctx_err, settle_job, attempt, process,
}
use gdrive_bot.Queue.Enqueue.{lookup_removed, contains_head}
use gdrive_bot.Utils.Retry.{guarded, attempts, max_attempts, retry}
use gdrive_bot.Utils.Retry.Laws.{max_attempts_pos}

guarded_stop :
    {W : Type 0} (o : Option Error) {x : Error} (next : W × Result (Unit {0})) (w : W)
    → o ≡ some x
    → guarded o next w ≡ (w, err x)
unfolding guarded
guarded_stop none next w e = cc
guarded_stop (some y) next w e = ap (λ z. (w, err z)) (some_inj e)

module _ (col : Collection Str Task) where
  -- The bookkeeping of a job is undone.
  abbrev pub Cleared : Job → Manager col → Type 0
  Cleared job m = (lookup job.task.id m.cancels ≡ none) × (contains job.ctx m.finished ≡ true)

  settle_job-Cleared :
      (now : ℕ) (job : Job) (p : Manager col × Result (Unit {0}))
      → Cleared job (settle_job col now job p)
  unfolding settle_job
  settle_job-Cleared now job (m, ok u) = (lookup_removed _ m.cancels, contains_head _ m.finished)
  settle_job-Cleared now job (m, err e) = (
    lookup_removed _ (mark_failed col now job.task.id (error_text e) m).cancels,
    contains_head _ (mark_failed col now job.task.id (error_text e) m).finished,
  )

  module _ (pause : ℕ → Manager col → Manager col × Option Error) (processor : Processor col) where
    -- However a job ends, its context is done and its cancel function is gone from the map.
    pub process-Cleared :
        (now : ℕ) (job : Job) (m : Manager col)
        → Cleared job (process col pause processor now job m)
    unfolding process
    process-Cleared now job m = settle_job-Cleared now job _

    attempts_canceled :
        (n : ℕ) (fn : ℕ → Manager col → Manager col × Result (Unit {0})) (max : ℕ) (job : Job)
        (m : Manager col)
        → 0 < n
        → contains job.ctx m.finished ≡ true
        → attempts (ctx_err col job) pause fn max n 1 none m ≡ (m, err context_canceled)
    unfolding attempts ctx_err
    attempts_canceled zero fn max job m h e = absurd (omega arith)
    attempts_canceled (suc n) fn max job m h e =
        guarded_stop _ _ m (ap (λ b. if b then some context_canceled else none) e)

    -- The document, the count of active jobs and the queue, after a job that never ran.
    abbrev pub Dropped : ℕ → Str → Task → Manager col → Manager col → Type 0
    Dropped now id t m m' =
        (col.docs m'.tasks id ≡ some (with_status now failed (error_text context_canceled) t))
        × (m'.active ≡ m.active)
        × (m'.jobs ≡ m.jobs)

    process-Dropped :
        (now : ℕ) (job : Job) (m : Manager col) (t : Task)
        → contains job.ctx m.finished ≡ true
        → col.docs m.tasks job.task.id ≡ some t
        → (update_status col now job.task.id failed (error_text context_canceled) m.tasks).1 ≡ ok tt
        → Dropped now job.task.id t m (process col pause processor now job m)
    unfolding process retry mark_failed settle_job update_status
    process-Dropped now job m t over doc updated =
        let started = record m { active = m.active + 1 } in
        subst (λ p. Dropped now job.task.id t m (settle_job col now job p))
          (sym (
            attempts_canceled (max_attempts m.max_retries) (attempt col pause processor job) _ job
              started (max_attempts_pos (ctx_err col job) pause m.max_retries) over))
          (
            col.write_docs m.tasks job.task.id _ (outcome-ok _ updated)
                ∙ ap (Option.map {A = Task} (with_status now failed (error_text context_canceled)))
                    doc,
            omega arith,
            refl,
          )

    -- A job that Cancel ends while it waits: Cancel reports that it found it, and the worker that
    -- takes it records the task as failed with "context canceled", never as canceled, whatever the
    -- processor would have done. The database is assumed to take the update.
    pub process_canceled :
        (now : ℕ) (job : Job) (m : Manager col) (t : Task)
        → lookup job.task.id m.cancels ≡ some job.ctx
        → col.docs m.tasks job.task.id ≡ some t
        → (update_status col now job.task.id failed (error_text context_canceled) m.tasks).1 ≡ ok tt
        → ((cancel col job.task.id m).1 ≡ true)
          × Dropped now job.task.id t m
              (process col pause processor now job (cancel col job.task.id m).0)
    unfolding cancel cancel_found
    process_canceled now job m t found doc updated =
        subst
          (λ o.
            ((cancel_found col job.task.id o m).1 ≡ true)
            × Dropped now job.task.id t m
                (process col pause processor now job (cancel_found col job.task.id o m).0))
          (sym found)
          (refl, process-Dropped now job _ t (contains_head job.ctx m.finished) doc updated)
