-- ===== src/Bot/Owned.antt =====
-- What an update of a user who is not the owner leaves as it was.
pub mod Actions
use gdrive_bot.Base.{
  ℕ, ◌≡◌, refl, ap, Bool, true, false, Bool-cases, inl, inr, Option, none, some, List, [], ◌∷◌, All,
  Str, bytes, ℤ, pos, eqb_ℤ, str_eq, Result, ok, err, Act, continue, ◌∙◌,
}
use gdrive_bot.Database.Settings.Laws.{get_or_create_same}
use gdrive_bot.Deps.{settings}
use gdrive_bot.Explorer.Render.{View}
use gdrive_bot.Models.{Settings}
use gdrive_bot.Messages.{Message, reply}
use gdrive_bot.Tuning.{tune, set_workers, set_queue, set_download_limit, set_upload_limit}
use gdrive_bot.Owner
use gdrive_bot.Bot.{
  Env, World, Update, incoming, pressed, sender, owner_env, on_messages, on_settings, on_owner,
  admitted, check_user, auth,
}
use gdrive_bot.Bot.Commands.{
  start, status, edit_placeholder, show_view, page_size, open_view, open_drive, client_or_error,
  with_client, my_files,
}
use gdrive_bot.Bot.Dispatch.{
  has_file, on_content, on_message, matching, commands, handle_update, number_arg, command_arg,
}
use gdrive_bot.Bot.Owned.Actions.{
  Kept, Keeps, kept, on_messages-Keeps, continue-Kept, start-Keeps, status-Keeps, my_files-Keeps,
}

module _ (env : Env) where
  show_disk-Keeps :
      (r : Result (ℤ × ℤ × ℤ))
      → Keeps env (Unit {0}) (on_owner env (Owner.show_disk (owner_env env) r))
  unfolding Owner.show_disk Owner.reply
  show_disk-Keeps (ok usage) = record {
    keeps = λ w. record { settings = λ v e. refl; disk = refl; fate = refl };
  }
  show_disk-Keeps (err e) = record {
    keeps = λ w. record { settings = λ v e. refl; disk = refl; fate = refl };
  }

  disk-Keeps : Keeps env (Unit {0}) (on_owner env (Owner.disk (owner_env env)))
  unfolding Owner.disk
  disk-Keeps = record { keeps = λ w. (show_disk-Keeps (env.machine.disk_usage w.disk)).keeps w }

  tune-Keeps :
      (now : ℕ) (caller least : ℤ) (change : ℤ → Settings → Settings) (arg : Option ℤ)
      → eqb_ℤ caller env.messages.owner_id ≡ false
      → Keeps env
          (Unit {0})
          (on_settings env (tune env.settings env.messages.owner_id now caller least change arg))
  unfolding tune
  tune-Keeps now caller least change none o = record { keeps = λ w. kept env w }
  tune-Keeps now caller least change (some n) o = record { keeps = λ w. rw o (kept env w) }

  module _ (m : Message) (o : eqb_ℤ m.user_id env.messages.owner_id ≡ false) where
    -- the commands of the owner, of another user
    users-Keeps : Keeps env (Unit {0}) (on_owner env (Owner.users (owner_env env) m.user_id))
    unfolding Owner.users Owner.require_owner Owner.refuse Owner.reply
    users-Keeps = record {
      keeps = λ w. rw o (record { settings = λ v e. refl; disk = refl; fate = refl });
    }

    broadcast-Keeps :
        Keeps env
          (Unit {0})
          (on_owner env (Owner.broadcast (owner_env env) m.user_id (command_arg m.text)))
    unfolding Owner.broadcast Owner.require_owner Owner.refuse Owner.reply
    broadcast-Keeps = record {
      keeps = λ w. rw o (record { settings = λ v e. refl; disk = refl; fate = refl });
    }

    clean-Keeps : Keeps env (Unit {0}) (on_owner env (Owner.clean (owner_env env) m.user_id))
    unfolding Owner.clean Owner.require_owner Owner.refuse Owner.reply
    clean-Keeps = record {
      keeps = λ w. rw o (record { settings = λ v e. refl; disk = refl; fate = refl });
    }

    settings-Keeps :
        Keeps env (Unit {0}) (on_owner env (Owner.settings (owner_env env) m.now m.user_id))
    unfolding Owner.settings Owner.require_owner Owner.refuse Owner.reply
    settings-Keeps = record {
      keeps = λ w. rw o (record { settings = λ v e. refl; disk = refl; fate = refl });
    }

    restart-Keeps : Keeps env (Unit {0}) (on_owner env (Owner.restart (owner_env env) m.user_id))
    unfolding Owner.restart Owner.require_owner Owner.refuse Owner.reply
    restart-Keeps = record {
      keeps = λ w. rw o (record { settings = λ v e. refl; disk = refl; fate = refl });
    }

    shutdown-Keeps : Keeps env (Unit {0}) (on_owner env (Owner.shutdown (owner_env env) m.user_id))
    unfolding Owner.shutdown Owner.require_owner Owner.refuse Owner.reply
    shutdown-Keeps = record {
      keeps = λ w. rw o (record { settings = λ v e. refl; disk = refl; fate = refl });
    }

    commands-Keep : All (λ p. Keeps env (Unit {0}) p.1) (commands env m)
    unfolding commands set_workers set_queue set_download_limit set_upload_limit
    commands-Keep = (
      start-Keeps env,
      (
        on_messages-Keeps env _,
        (
          on_messages-Keeps env _,
          (
            status-Keeps env m,
            (
              my_files-Keeps env m,
              (
                on_messages-Keeps env _,
                (
                  disk-Keeps,
                  (
                    on_messages-Keeps env _,
                    (
                      on_messages-Keeps env _,
                      (
                        tune-Keeps m.now m.user_id (pos 1) (λ n s. record s { workers = n })
                            (number_arg m) o,
                        (
                          tune-Keeps m.now m.user_id (pos 1) (λ n s. record s { queue_size = n })
                              (number_arg m) o,
                          (
                            tune-Keeps m.now m.user_id (pos 0)
                                (λ n s. record s { download_limit_mb = n }) (number_arg m) o,
                            (
                              tune-Keeps m.now m.user_id (pos 0)
                                  (λ n s. record s { upload_limit_mb = n }) (number_arg m) o,
                              (
                                users-Keeps,
                                (
                                  broadcast-Keeps,
                                  (
                                    clean-Keeps,
                                    (settings-Keeps, (restart-Keeps, (shutdown-Keeps, tt))),
                                  ),
                                ),
                              ),
                            ),
                          ),
                        ),
                      ),
                    ),
                  ),
                ),
              ),
            ),
          ),
        ),
      ),
    )

  abbrev AnyKeeps : Option (Act (World env) (Unit {0})) → Type 0
  AnyKeeps none = Unit
  AnyKeeps (some act) = Keeps env (Unit {0}) act

  matching-Keeps :
      (text : Str) (acts : List (Str × Act (World env) (Unit {0})))
      → All (λ p. Keeps env (Unit {0}) p.1) acts
      → AnyKeeps (matching env text acts)
  unfolding matching
  matching-Keeps text [] k = tt
  matching-Keeps text ((name, a) ∷ rest) k = elim (Bool-cases (env.is_command name text)) [
    | inl b ↦ rw b k.0
    | inr b ↦ rw b (matching-Keeps text rest k.1)
  ]

  admitted-Keeps :
      (user_id : ℤ) (handler : Act (World env) (Unit {0})) (b : Bool)
      → Keeps env (Unit {0}) handler
      → Keeps env (Unit {0}) (admitted env user_id handler b)
  unfolding admitted
  admitted-Keeps user_id handler true k = k
  admitted-Keeps user_id handler false k = on_messages-Keeps env _

  -- RequireAuth does not touch them
  auth-Keeps :
      (username : Str) (m : Message) (handler : Act (World env) (Unit {0}))
      → Keeps env (Unit {0}) handler
      → Keeps env (Unit {0}) (auth env username m handler)
  unfolding auth check_user
  auth-Keeps username m handler k = record {
    keeps = λ w.
        continue-Kept env w (check_user env username m w) (admitted env m.user_id handler)
          (record { settings = λ v e. refl; disk = refl; fate = refl })
          (λ b. admitted-Keeps m.user_id handler b k);
  }

  on_content-Keeps :
      (username : Str) (m : Message) → Keeps env (Unit {0}) (on_content env username m)
  unfolding on_content
  on_content-Keeps username m = elim (Bool-cases (has_file m)) [
    | inl k ↦ rw k (auth-Keeps username m _ (on_messages-Keeps env _))
    | inr k ↦ rw k (elim (Bool-cases (str_eq m.text [])) [
      | inl j ↦ rw j (record { keeps = kept env })
      | inr j ↦ rw j (auth-Keeps username m _ (on_messages-Keeps env _))
    ])
  ]

  on_message-Keeps :
      (username : Str) (m : Message) (o : Option (Act (World env) (Unit {0})))
      → AnyKeeps o
      → Keeps env (Unit {0}) (on_message env username m o)
  unfolding on_message
  on_message-Keeps username m none k = on_content-Keeps username m
  on_message-Keeps username m (some handler) k = auth-Keeps username m handler k

  -- No update of a user who is not the configured owner changes the settings that are stored, removes the downloads directory or ends the process.
  pub handle_update-Kept :
      (u : Update) (w : World env)
      → eqb_ℤ (sender u) env.messages.owner_id ≡ false
      → Kept env w (handle_update env u w).0
  unfolding handle_update
  handle_update-Kept (incoming username m) w o =
      (on_message-Keeps username m (matching env m.text (commands env m))
          (matching-Keeps m.text (commands env m) (commands-Keep m o))).keeps
        w
  handle_update-Kept (pressed p) w o = record { settings = λ v e. refl; disk = refl; fate = refl }
