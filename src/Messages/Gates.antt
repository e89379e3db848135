-- ===== src/Messages/Gates.antt =====
-- The gates of internal/handlers/upload.go: which messages cannot reach the queue.
use gdrive_bot.Base.{
  ℕ, ◌≤◌, ◌≡◌, refl, sym, ◌∙◌, subst, Bool, true, false, leb, ltb, Option, none, some, [], Str,
  str_eq, if◌then◌else◌, eqb_ℤ, Error, plain, bytes, Result, ok, err, Act, continue, inl, inr, ◌⊎◌,
  arith, pos,
}
use gdrive_bot.Database.Tasks.{count_for_user}
use gdrive_bot.Database.States.{get_login, or_not_found}
use gdrive_bot.Login.{login_message, handle_login_message, take_code, dropped, on_chat, step_two}
use gdrive_bot.Models.{PendingLogin, telegram_file, direct_link}
use gdrive_bot.Messages.{
  Env, World, Message, extract_file, reply, ignored, has_token, too_many, check_user_queue_limit,
  require_logged_in,
}
use gdrive_bot.Messages.Incoming.{
  limited, checked_upload, queue_upload, incoming_file, link_upload, after_login, incoming_text,
}

module _ (env : Env) (m : Message) where
  -- the user is not logged in, or is not the owner and has as many unfinished tasks as are allowed
  abbrev pub Refused : World env → Type 0
  Refused w =
      (has_token (env.login.users.find_one w.login.users m.user_id) ≡ false)
      ⊎ ((eqb_ℤ m.user_id env.owner_id ≡ false)
          × ((n : ℕ) × ((count_for_user env.tasks m.user_id w.queue.tasks).1 ≡ ok n) × (25 ≤ n)))

  limit_reached :
      (w : World env) (n : ℕ)
      → eqb_ℤ m.user_id env.owner_id ≡ false
      → (count_for_user env.tasks m.user_id w.queue.tasks).1 ≡ ok n
      → 25 ≤ n
      → check_user_queue_limit env m.user_id w ≡ some (too_many n)
  unfolding check_user_queue_limit count_for_user
  limit_reached w n o c h = let full : leb 25 n ≡ true = ground arith in rw (o, c, full) refl

  queue-limited :
      (o : Option Error) (e : Error) (upload : Act (World env) (Unit {0})) (w : World env)
      → o ≡ some e
      → (limited env o upload w).0.queue ≡ w.queue
  unfolding limited ignored reply
  queue-limited none e upload w h = cc
  queue-limited (some x) e upload w h = refl

  queue-checked_upload :
      (upload : Act (World env) (Unit {0})) (w : World env)
      → Refused w
      → (checked_upload env m upload w).0.queue ≡ w.queue
  unfolding checked_upload require_logged_in ignored reply
  queue-checked_upload upload w (inl t) = rw t refl
  queue-checked_upload upload w (inr (o, (n, c, h))) =
      step (has_token (env.login.users.find_one w.login.users m.user_id))
    where
      step :
          (b : Bool)
          → (continue
              (if b then (w, ok tt) else (
                (ignored env (bytes "❌ Please /login before uploading.") w).0,
                err (plain (bytes "not logged in")),
              ))
              (λ _ w. limited env (check_user_queue_limit env m.user_id w) upload w)).0.queue
            ≡ w.queue
      step true = queue-limited _ (too_many n) upload w (limit_reached w n o c h)
      step false = refl

  -- A message with a file, or with a link, of a user who is not logged in, or is not the owner and has 25
  -- unfinished tasks or more by the database's count, leaves the queue and its tasks as they are.
  pub queue-Refused :
      (w : World env)
      → Refused w
      → ((incoming_file env m w).0.queue ≡ w.queue) × ((link_upload env m w).0.queue ≡ w.queue)
  unfolding incoming_file link_upload
  queue-Refused w h = (file (str_eq (extract_file m).file_id []), link (env.is_direct_link m.text))
    where
      file :
          (b : Bool)
          → (if b
              then (w, ok tt)
              else checked_upload env m
                  (queue_upload env m telegram_file
                    (extract_file m).file_id
                    (extract_file m).file_name
                    (extract_file m).file_size)
                  w).0.queue
            ≡ w.queue
      file true = refl
      file false = queue-checked_upload _ w h

      link :
          (b : Bool)
          → (if b
              then checked_upload env m
                  (queue_upload env m direct_link m.text (env.suggest_filename m.text) (pos 0))
                  w
              else (w, ok tt)).0.queue
            ≡ w.queue
      link true = queue-checked_upload _ w h
      link false = refl

  -- everything but the login's own state and the chat is the same
  abbrev pub LoginOnly : World env → World env → Type 0
  LoginOnly w w' =
      (w'.queue ≡ w.queue)
      × (w'.remote ≡ w.remote)
      × (w'.states ≡ w.states)
      × (w'.login.users ≡ w.login.users)

  users-dropped :
      {A : Type 0} (p : gdrive_bot.Login.World env.login × Result A)
      → (dropped env.login p).0.users ≡ p.0.users
  users-dropped (l, ok a) = refl
  users-dropped (l, err e) = refl

  users-continue :
      {A B : Type 0} (p : gdrive_bot.Login.World env.login × Result A)
      (f : Act env.login.telegram.Chat B)
      → (continue p (λ _. on_chat env.login f)).0.users ≡ p.0.users
  users-continue (l, ok a) f = refl
  users-continue (l, err e) f = refl

  users-take_code :
      (p : PendingLogin) (code : Option Str) (l : gdrive_bot.Login.World env.login)
      → (take_code env.login p code l).0.users ≡ l.users
  unfolding take_code
  users-take_code p none l = refl
  users-take_code p (some code) l =
      users-dropped _ ∙ users-continue _ (env.login.telegram.reply (step_two env.login))

  consumed-login_message :
      (p : PendingLogin) (l : gdrive_bot.Login.World env.login)
      → ((login_message env.login m.now m.user_id m.text (ok p) l).1.0 ≡ true)
        × ((login_message env.login m.now m.user_id m.text (ok p) l).0.users ≡ l.users)
  unfolding login_message
  consumed-login_message p l =
      go (ltb p.expires_at m.now) _ _ (refl, refl) (refl, users-take_code p _ l)
    where
      go :
          (b : Bool) (q r : gdrive_bot.Login.World env.login × (Bool × Result (Unit {0})))
          → (q.1.0 ≡ true) × (q.0.users ≡ l.users)
          → (r.1.0 ≡ true) × (r.0.users ≡ l.users)
          → ((if b then q else r).1.0 ≡ true) × ((if b then q else r).0.users ≡ l.users)
      go true q r hq hr = hq
      go false q r hq hr = hr

  LoginOnly-consumed :
      (w : World env) (l : gdrive_bot.Login.World env.login) (b : Bool) (r : Result (Unit {0}))
      → l.users ≡ w.login.users
      → b ≡ true
      → LoginOnly w (after_login env m (record w { login = l }) b r).0
  unfolding after_login
  LoginOnly-consumed w l true r u e = (refl, refl, refl, u)
  LoginOnly-consumed w l false r u e = cc

  -- While the database finds a pending login of the user, every text message is taken for the login:
  -- it reaches no queue, no Drive, no explorer state and no user's document.
  pub LoginOnly-incoming_text :
      (w : World env) (p : PendingLogin)
      → env.login.logins.find_one w.login.logins m.user_id ≡ ok (some p)
      → LoginOnly w (incoming_text env m w).0
  unfolding incoming_text handle_login_message get_login
  LoginOnly-incoming_text w p h = text (str_eq m.text [])
    where
      handled :
          Result (Option PendingLogin)
          → gdrive_bot.Login.World env.login × (Bool × Result (Unit {0}))
      handled r = login_message env.login m.now m.user_id m.text (or_not_found r) w.login

      after : Result (Option PendingLogin) → World env × Result (Unit {0})
      after r =
          after_login env m (record w { login = (handled r).0 }) (handled r).1.0 (handled r).1.1

      taken : LoginOnly w (after (ok (some p))).0
      taken =
          (let (yes_consumed, users) = consumed-login_message p w.login in
            LoginOnly-consumed w _ _ _ users yes_consumed)

      text :
          (b : Bool)
          → LoginOnly w
              (if b
                then (w, ok tt)
                else after (env.login.logins.find_one w.login.logins m.user_id)).0
      text true = (refl, refl, refl, refl)
      text false = subst (λ r. LoginOnly w (after r).0) (sym h) taken
