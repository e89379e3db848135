-- ===== src/Bot/Owned/Actions.antt =====
-- internal/bot/bot.go: what an action of the bot keeps, and the commands that are open to every user.
use gdrive_bot.Base.{
  ℕ, ◌≡◌, refl, ap, Option, none, some, Str, bytes, ℤ, Result, ok, err, Act, continue, ◌∙◌,
}
use gdrive_bot.Database.Settings.Laws.{get_or_create_same}
use gdrive_bot.Deps.{settings}
use gdrive_bot.Explorer.Render.{View}
use gdrive_bot.Models.{Settings}
use gdrive_bot.Messages.{Message, reply}
use gdrive_bot.Bot.{Env, World, on_messages}
use gdrive_bot.Bot.Commands.{
  start, status, edit_placeholder, show_view, page_size, open_view, open_drive, client_or_error,
  with_client, my_files,
}

module _ (env : Env) where
  -- The downloads directory and the process are the same, and settings that were stored.
  pub record Kept (w w' : World env) : Type 0 where
    pub settings :
        (v : Settings) → env.settings.docs w.settings tt ≡ some v → w'.settings ≡ w.settings
    pub disk : w'.disk ≡ w.disk
    pub fate : w'.fate ≡ w.fate

  -- an action that keeps them
  pub record Keeps (A : Type 0) (act : Act (World env) A) : Type 0 where
    pub keeps : (w : World env) → Kept w (act w).0

  pub kept : (w : World env) → Kept w w
  kept w = record { settings = λ v e. refl; disk = refl; fate = refl }

  trans : (w v u : World env) → Kept w v → Kept v u → Kept w u
  trans w v u a b = record {
    settings = λ x e.
        b.settings x (ap (λ s. env.settings.docs s tt) (a.settings x e) ∙ e) ∙ a.settings x e;
    disk = b.disk ∙ a.disk;
    fate = b.fate ∙ a.fate;
  }

  pub on_messages-Keeps :
      {A : Type 0} (f : Act (gdrive_bot.Messages.World env.messages) A)
      → Keeps A (on_messages env f)
  on_messages-Keeps f = record {
    keeps = λ w. record { settings = λ v e. refl; disk = refl; fate = refl };
  }

  pub continue-Kept :
      {A B : Type 0} (w : World env) (q : World env × Result A) (f : A → Act (World env) B)
      → Kept w q.0
      → ((a : A) → Keeps B (f a))
      → Kept w (continue q f).0
  continue-Kept w (v, ok a) f h k = trans w v _ h ((k a).keeps v)
  continue-Kept w (v, err e) f h k = h

  pub start-Keeps : Keeps (Unit {0}) (start env)
  unfolding start
  start-Keeps = on_messages-Keeps _

  pub status-Keeps : (m : Message) → Keeps (Unit {0}) (status env m)
  unfolding status
  status-Keeps m = on_messages-Keeps _

  edit_placeholder-Keeps :
      (text : Str) (v : Option View) → Keeps (Unit {0}) (edit_placeholder env text v)
  unfolding edit_placeholder
  edit_placeholder-Keeps text v = on_messages-Keeps _

  show_view-Kept :
      (w : World env) (q : World env × Result View) → Kept w q.0 → Kept w (show_view env q).0
  unfolding show_view
  show_view-Kept w (v, err e) h = trans w v _ h ((edit_placeholder-Keeps _ none).keeps v)
  show_view-Kept w (v, ok x) h = trans w v _ h ((edit_placeholder-Keeps x.text (some x)).keeps v)

  page_size-Kept : (now : ℕ) (w : World env) → Kept w (page_size env now w).0
  unfolding page_size settings
  page_size-Kept now w = record {
    settings = λ v e. get_or_create_same env.settings _ v w.settings e;
    disk = refl;
    fate = refl;
  }

  open_view-Keeps : (m : Message) (id size : ℤ) → Keeps View (open_view env m id size)
  unfolding open_view
  open_view-Keeps m id size = on_messages-Keeps _

  open_drive-Keeps : (m : Message) (id : ℤ) → Keeps (Unit {0}) (open_drive env m id)
  unfolding open_drive
  open_drive-Keeps m id = record {
    keeps = λ w.
        let (w1, size) = page_size env m.now w in
        show_view-Kept w (open_view env m id size w1)
          (trans w w1 _ (page_size-Kept m.now w) ((open_view-Keeps m id size).keeps w1));
  }

  client_or_error-Keeps :
      (r : Result (Unit {0})) (act : Act (World env) (Unit {0}))
      → Keeps (Unit {0}) act
      → Keeps (Unit {0}) (client_or_error env r act)
  unfolding client_or_error
  client_or_error-Keeps (ok u) act k = k
  client_or_error-Keeps (err e) act k = on_messages-Keeps _

  pub my_files-Keeps : (m : Message) → Keeps (Unit {0}) (my_files env m)
  unfolding my_files with_client
  my_files-Keeps m = record {
    keeps = λ w.
        (client_or_error-Keeps _ _ record {
          keeps = λ v.
              continue-Kept v
                (on_messages env (reply env.messages (bytes "📂 Loading your Drive…")) v)
                (open_drive env m)
                ((on_messages-Keeps (reply env.messages (bytes "📂 Loading your Drive…"))).keeps v)
                (λ id. open_drive-Keeps m id);
        }).keeps
          w;
  }
