-- ===== src/Bot/Refused.antt =====
-- What an update of a user without rights leaves as it was.
use gdrive_bot.Base.{
  ◌≡◌, refl, Bool, true, false, Bool-cases, inl, inr, Option, none, some, Str, ℤ, eqb_ℤ, str_eq,
  Result, ok, err, Act, continue, ◌∙◌, ◌||◌, [],
}
use gdrive_bot.Guard.Answers.{Coherent, is_authorized_answer}
use gdrive_bot.Guard.Coherence.{allowed}
use gdrive_bot.Messages.{Message, ignored}
use gdrive_bot.Callbacks.Denied.{dispatch-Untouched}
use gdrive_bot.Bot.{
  Env, World, Update, incoming, pressed, sender, time, callback_env, admitted, check_user, auth,
}
use gdrive_bot.Bot.Dispatch.{has_file, on_content, on_message, matching, commands, handle_update}

or_false : (a b : Bool) → a ≡ false → b ≡ false → (a || b) ≡ false
or_false a b p q = cc

module _ (env : Env) where
  -- the Drive, the explorer states, the logins, the accounts at Google and rclone, the queue with its
  -- tasks, the settings, the downloads directory and the process are the same
  pub record Same (w w' : World env) : Type 0 where
    remote : w'.messages.remote ≡ w.messages.remote
    states : w'.messages.states ≡ w.messages.states
    logins : w'.messages.login.logins ≡ w.messages.login.logins
    outside : w'.messages.login.outside ≡ w.messages.login.outside
    queue : w'.messages.queue ≡ w.messages.queue
    settings : w'.settings ≡ w.settings
    disk : w'.disk ≡ w.disk
    fate : w'.fate ≡ w.fate

  -- the user has no rights, and the cache knows no better
  pub record Stranger (u : Update) (w : World env) : Type 0 where
    pub coherent :
        Coherent env.messages.login.users env.messages.explorer.cache env.messages.owner_id
          (time u)
          (record { stored = w.messages.login.users; cached = w.messages.cached })
    pub not_owner : eqb_ℤ (sender u) env.messages.owner_id ≡ false
    pub not_allowed :
        allowed (env.messages.login.users.docs w.messages.login.users (sender u)) ≡ false

  same : (w : World env) → Same w w
  same w = record {
    remote = refl;
    states = refl;
    logins = refl;
    outside = refl;
    queue = refl;
    settings = refl;
    disk = refl;
    fate = refl;
  }

  refused-Same :
      (user_id : ℤ) (handler : Act (World env) (Unit {0})) (w : World env)
      (q : World env × Result Bool)
      → Same w q.0
      → ((b : Bool) → q.1 ≡ ok b → b ≡ false)
      → Same w (continue q (admitted env user_id handler)).0
  unfolding admitted ignored gdrive_bot.Messages.reply
  refused-Same user_id handler w (v, ok true) u denied = cc (denied true refl)
  refused-Same user_id handler w (v, ok false) u denied = record {
    remote = u.remote;
    states = u.states;
    logins = u.logins;
    outside = u.outside;
    queue = u.queue;
    settings = u.settings;
    disk = u.disk;
    fate = u.fate;
  }
  refused-Same user_id handler w (v, err e) u denied = u

  -- whatever the handler
  auth-Same :
      (username : Str) (m : Message) (w : World env) (handler : Act (World env) (Unit {0}))
      → Stranger (incoming username m) w
      → Same w (auth env username m handler w).0
  unfolding auth check_user
  auth-Same username m w handler s =
      refused-Same m.user_id handler w _
        record {
          remote = refl;
          states = refl;
          logins = refl;
          outside = refl;
          queue = refl;
          settings = refl;
          disk = refl;
          fate = refl;
        }
        (λ b e.
          is_authorized_answer env.messages.login.users env.messages.explorer.cache
            env.messages.owner_id m.now m.user_id username _ b s.coherent e
          ∙ or_false _ _ s.not_owner s.not_allowed)

  on_content-Same :
      (username : Str) (m : Message) (w : World env)
      → Stranger (incoming username m) w
      → Same w (on_content env username m w).0
  unfolding on_content
  on_content-Same username m w s = elim (Bool-cases (has_file m)) [
    | inl k ↦ rw k (auth-Same username m w _ s)
    | inr k ↦ rw k (elim (Bool-cases (str_eq m.text [])) [
      | inl j ↦ rw j (same w)
      | inr j ↦ rw j (auth-Same username m w _ s)
    ])
  ]

  on_message-Same :
      (username : Str) (m : Message) (w : World env) (o : Option (Act (World env) (Unit {0})))
      → Stranger (incoming username m) w
      → Same w (on_message env username m o w).0
  unfolding on_message
  on_message-Same username m w none s = on_content-Same username m w s
  on_message-Same username m w (some handler) s = auth-Same username m w handler s

  -- Where the cache agrees with the database, and the database gives a user who is not the owner no right, no update of that user, be it a command, a file, a text or a press, changes the Drive, an explorer state, a login, the queue or its tasks, the settings, the downloads directory or the process.
  pub handle_update-Same :
      (u : Update) (w : World env) → Stranger u w → Same w (handle_update env u w).0
  unfolding handle_update
  handle_update-Same (incoming username m) w s =
      on_message-Same username m w (matching env m.text (commands env m)) s
  handle_update-Same (pressed p) w s =
      let (remote, states, logins, outside) =
        dispatch-Untouched (callback_env env) p
          (record {
            login = w.messages.login;
            states = w.messages.states;
            cached = w.messages.cached;
            remote = w.messages.remote;
          })
          s.coherent s.not_owner s.not_allowed in
      record {
        remote = remote;
        states = states;
        logins = logins;
        outside = outside;
        queue = refl;
        settings = refl;
        disk = refl;
        fate = refl;
      }
