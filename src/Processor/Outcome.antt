-- ===== src/Processor/Outcome.antt =====
-- What internal/bot/processor.go records of a task, by how Process returns.
use mathlib.Core.Option
use gdrive_bot.Base.{
  ℕ, ◌≡◌, ◌≢◌, refl, sym, ◌∙◌, ap, subst, Bool, true, false, Option, none, some, List, [], Str,
  bytes, ◌⊎◌, inl, inr, ℤ, Error, plain, non_retryable, wrap, Result, ok, err, if◌then◌else◌,
}
use gdrive_bot.Database.{In}
use gdrive_bot.Database.Tasks.{
  is_pending, pending, stamp, with_status, with_result, update_status, set_result,
}
use gdrive_bot.Drive.{Entry}
use gdrive_bot.Models.{
  Task, TaskStatus, queued, downloading, uploading, completed, failed, canceled,
}
use gdrive_bot.Processor.{
  Env, World, local_name, mark, record_result, finish_with, finish, fail, uploaded, send_up,
  checked, over_limit, too_large, sized, downloaded, run_download, prepared, process, remote_of,
}

abbrev pub no_login : Error
no_login = non_retryable (plain (bytes "user not logged in"))

-- What the stored task says after Process has returned.
abbrev pub Recorded : Result (Unit {0}) → Task → Type 0
Recorded (ok u) d = d.status ≡ completed
Recorded (err e) d =
    (d.status ≡ failed)
    ⊎ ((d.status ≡ downloading)
        × ((e ≡ no_login) ⊎ ((x : Error) × (e ≡ wrap (bytes "ensure download dir: ") x))))

status-with_status :
    (now : ℕ) (s : TaskStatus) (text : Str) (t : Task) → (with_status now s text t).status ≡ s
unfolding with_status stamp
status-with_status now queued text t = refl
status-with_status now downloading text t = refl
status-with_status now uploading text t = refl
status-with_status now completed text t = refl
status-with_status now failed text t = refl
status-with_status now canceled text t = refl

clash : (b : Bool) → b ≡ true → b ≡ false → ⊥
clash b p q = cc

failed-Recorded :
    (e : Error) (d : Task)
    → e ≢ no_login
    → ((x : Error) → e ≢ wrap (bytes "ensure download dir: ") x)
    → Recorded (err e) d
    → d.status ≡ failed
failed-Recorded e d n1 n2 (inl f) = f
failed-Recorded e d n1 n2 (inr (s, inl q)) = absurd (n1 q)
failed-Recorded e d n1 n2 (inr (s, inr (x, q))) = absurd (n2 x q)

module _ (env : Env)
    (takes : (s : env.tasks.Store) (k : Str) (f : Option Task → Option Task)
      → (env.tasks.write s k f).1 ≡ none) where
  -- the stored task has this status
  abbrev pub HasStatus : Str → TaskStatus → World env → Type 0
  HasStatus id s w = (d : Task) × (env.tasks.docs w.tasks id ≡ some d) × (d.status ≡ s)

  abbrev Ends : Str → World env × Result (Unit {0}) → Type 0
  Ends id (w, r) = (d : Task) × (env.tasks.docs w.tasks id ≡ some d) × Recorded r d

  mark-HasStatus :
      (now : ℕ) (id : Str) (s : TaskStatus) (text : Str) (w : World env) (d : Task)
      → env.tasks.docs w.tasks id ≡ some d
      → HasStatus id s (mark env now id s text w)
  unfolding mark update_status
  mark-HasStatus now id s text w d h = (
    with_status now s text d,
    env.tasks.write_docs w.tasks id _ (takes w.tasks id _)
        ∙ ap (Option.map {A = Task} (with_status now s text)) h,
    status-with_status now s text d,
  )

  record_result-HasStatus :
      (now : ℕ) (t : Task) (r : Result Entry) (w : World env) (d : Task)
      → env.tasks.docs w.tasks t.id ≡ some d
      → HasStatus t.id completed (record_result env now t r w)
  unfolding record_result set_result with_result
  record_result-HasStatus now t (err e) w d h = mark-HasStatus now t.id completed [] w d h
  record_result-HasStatus now t (ok e) w d h = (
    with_result now e.id d,
    env.tasks.write_docs w.tasks t.id _ (takes w.tasks t.id _)
        ∙ ap (Option.map {A = Task} (with_result now e.id)) h,
    refl,
  )

  finish_with-HasStatus :
      (now : ℕ) (t : Task) (r : Result (Unit {0})) (w : World env) (d : Task)
      → env.tasks.docs w.tasks t.id ≡ some d
      → HasStatus t.id completed (finish_with env now t r w)
  unfolding finish_with
  finish_with-HasStatus now t (err e) w d h = mark-HasStatus now t.id completed [] w d h
  finish_with-HasStatus now t (ok u) w d h = record_result-HasStatus now t _ w d h

  fail-Ends :
      (now : ℕ) (t : Task) (e : Error) (w : World env) (d : Task)
      → env.tasks.docs w.tasks t.id ≡ some d
      → Ends t.id (fail env now t e w)
  unfolding fail
  fail-Ends now t e w d h =
      let (d', i, s) = mark-HasStatus now t.id failed _ w d h in (d', i, inl s)

  uploaded-Ends :
      (now : ℕ) (t : Task) (p : World env × Option Error) (d : Task)
      → env.tasks.docs p.0.tasks t.id ≡ some d
      → Ends t.id (uploaded env now t p)
  unfolding uploaded finish
  uploaded-Ends now t (w, some e) d h = fail-Ends now t e w d h
  uploaded-Ends now t (w, none) d h = finish_with-HasStatus now t _ w d h

  send_up-Ends :
      (now : ℕ) (t : Task) (path : Str) (r : Option Str) (w : World env)
      → HasStatus t.id downloading w
      → Ends t.id (send_up env now t path r w)
  unfolding send_up
  send_up-Ends now t path none w (d, h, s) = (d, h, inr (s, inl refl))
  send_up-Ends now t path (some remote) w (d, h, s) =
      let (d', h', s') = mark-HasStatus now t.id uploading [] w d h in uploaded-Ends now t _ d' h'

  checked-Ends :
      (now : ℕ) (t : Task) (path : Str) (limit_mb : ℤ) (w : World env)
      → HasStatus t.id downloading w
      → Ends t.id (checked env now t path limit_mb w)
  unfolding checked
  checked-Ends now t path limit_mb w (d, h, s) =
      elim (over_limit env limit_mb w.file_size)
        as (λ b. Ends t.id (
          if b
          then (
            mark env now t.id failed (too_large env limit_mb w.file_size) w,
            err (non_retryable (plain (bytes "file exceeds upload limit"))),
          )
          else send_up env now t path (remote_of (env.users.find_one w.users t.user_id)) w)) [
            | true ↦
                (let (d', i, s') =
                    mark-HasStatus now t.id failed (too_large env limit_mb w.file_size) w d h in
                  (d', i, inl s'))
            | false ↦
                send_up-Ends now t path (remote_of (env.users.find_one w.users t.user_id)) w
                  (d, h, s)
          ]

  sized_tasks : (n : Option ℤ) (w : World env) → (sized env n w).tasks ≡ w.tasks
  sized_tasks none w = refl
  sized_tasks (some n) w = refl

  downloaded-Ends :
      (now : ℕ) (t : Task) (path : Str) (p : World env × Option Error)
      → HasStatus t.id downloading p.0
      → Ends t.id (downloaded env now t path p)
  unfolding downloaded
  downloaded-Ends now t path (w, some e) (d, h, s) = fail-Ends now t e w d h
  downloaded-Ends now t path (w, none) (d, h, s) =
      checked-Ends now t path _ _
        (d, subst (λ x. env.tasks.docs x t.id ≡ some d) (sym (sized_tasks _ w)) h, s)

  prepared-Ends :
      (now : ℕ) (drawn : List ℕ) (t : Task) (p : World env × Option Error)
      → HasStatus t.id downloading p.0
      → Ends t.id (prepared env now drawn t p)
  unfolding prepared
  prepared-Ends now drawn t (w, some e) (d, h, s) = (d, h, inr (s, inr (e, refl)))
  prepared-Ends now drawn t (w, none) k =
      downloaded-Ends now t (local_name drawn t) (run_download env t (local_name drawn t) w) k

  -- Where the database holds the task and takes every write, Process returns nil only with the
  -- task stored as completed; and where it returns an error, the task is stored as failed, or it is
  -- stored as downloading and the error is that the user is not logged in or that the downloads
  -- directory could not be made.
  pub process-Recorded :
      (now : ℕ) (drawn : List ℕ) (t d : Task) (w : World env)
      → env.tasks.docs w.tasks t.id ≡ some d
      → (d' : Task) × (env.tasks.docs (process env now drawn t w).0.tasks t.id ≡ some d')
        × Recorded (process env now drawn t w).1 d'
  unfolding process
  process-Recorded now drawn t d w h =
      prepared-Ends now drawn t _ (mark-HasStatus now t.id downloading [] w d h)

  not_pending :
      (s : env.tasks.Store) (d : Task) (ts : List Task)
      → d.status ≡ failed
      → (pending env.tasks s).1 ≡ ok ts
      → ¬ In d ts
  unfolding pending
  not_pending s d ts f p i =
      clash (is_pending d.status) (env.tasks.find_all_sound s _ ts d p i).0 (ap is_pending f)

  -- Where an attempt returns an error that the retry may follow, but for a missing downloads directory,
  -- and the database holds the task and takes every write, the stored task is not among those that
  -- a restart during the wait for the next attempt loads.
  pub process_fails_lost :
      (now : ℕ) (drawn : List ℕ) (t d : Task) (w : World env) (e : Error) (ts : List Task)
      → env.tasks.docs w.tasks t.id ≡ some d
      → (process env now drawn t w).1 ≡ err e
      → e ≢ no_login
      → ((x : Error) → e ≢ wrap (bytes "ensure download dir: ") x)
      → (pending env.tasks (process env now drawn t w).0.tasks).1 ≡ ok ts
      → (d' : Task) × (env.tasks.docs (process env now drawn t w).0.tasks t.id ≡ some d')
        × (¬ In d' ts)
  process_fails_lost now drawn t d w e ts h q n1 n2 p =
      let (d', i, r) = process-Recorded now drawn t d w h in
      let r' : Recorded (err e) d' = subst (λ x. Recorded x d') q r in
      (d', i, not_pending _ d' ts (failed-Recorded e d' n1 n2 r') p)
