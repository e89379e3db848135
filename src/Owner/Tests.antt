-- ===== src/Owner/Tests.antt =====
-- The owner's commands on a bot with two authorized users.
use gdrive_bot.Base.{
  ℕ, ◌≡◌, refl, none, some, List, [], ◌∷◌, bytes, ℤ, pos, eqb_ℤ, if◌then◌else◌, plain, ok,
  format_nat, str_eq, false,
}
use gdrive_bot.Login.Tests.{logged_in}
use gdrive_bot.Models.{User}
use gdrive_bot.Owner.{
  Env, Machine, goes_on, World, deliver, broadcast, broadcast_to, sent_text, reply, refuse,
  require_owner, clean, restart,
}
use gdrive_bot.Owner.Broadcast.{Announced, broadcast-Announced}
use gdrive_bot.Database.Users.{list_authorized}

-- a downloads directory is the number of its files
abbrev pub machine : Machine
machine = record {
  Disk = ℕ;
  dir_size = λ d. pos d;
  remove_all = λ d. (0, none);
  ensure_dir = λ d. d;
  disk_usage = λ d. ok (pos 3, pos 1, pos 2);
  max_procs = 4;
}

-- messages to user 9 fail
abbrev bot : Env
bot = record {
  login = record gdrive_bot.Login.Tests.env {
    telegram = record gdrive_bot.Login.Tests.env.telegram {
      send =
          λ id t c. if eqb_ℤ id (pos 9) then (c, some (plain (bytes "blocked"))) else (t ∷ c, none);
    };
  };
  settings = gdrive_bot.Tuning.Tests.col;
  machine = machine;
  defaults = record {
    workers = pos 4;
    queue_size = pos 50;
    download_limit_mb = pos 0;
    upload_limit_mb = pos 0;
  };
  owner_id = pos 1;
  tenths = λ b d. format_nat b;
}

abbrev user : ℤ → User
user id = record logged_in { telegram_id = id }

abbrev three : List User
three = user (pos 1) ∷ user (pos 9) ∷ user (pos 7) ∷ []

abbrev world : World bot
world = record {
  login = record { users = []; logins = []; outside = tt; chat = [] };
  settings = [];
  disk = 5;
  fate = goes_on;
}

-- a restart that is asked for by another user
not_restarted : (restart bot (pos 7) world).0.fate ≡ goes_on
unfolding restart require_owner refuse reply
not_restarted = refl

cleaned : (clean bot (pos 1) world).0.disk ≡ 0
unfolding clean require_owner reply
cleaned = refl

-- the owner, a user whom messages do not reach, another user, and one without the right to use the bot
abbrev stored : World bot
stored = record world {
  login = record world.login {
    users =
        (pos 1, user (pos 1))
        ∷ (pos 9, user (pos 9))
        ∷ (pos 7, user (pos 7))
        ∷ (pos 5, record (user (pos 5)) { is_owner = false; is_authed = false })
        ∷ [];
  };
}

broadcast-Announced_example : Announced bot (bytes "hi") three stored
unfolding list_authorized gdrive_bot.Login.Tests.int_discrete
broadcast-Announced_example = broadcast-Announced bot (bytes "hi") three stored (λ e. cc) refl

-- one message, and the report
announced :
    (broadcast bot (pos 1) (bytes "hi") stored).0.login.chat
    ≡ bytes "✅ Broadcast sent to 2/3 users." ∷ bytes "📢 hi" ∷ []
unfolding broadcast require_owner broadcast_to reply sent_text deliver list_authorized str_eq
    gdrive_bot.Login.Tests.int_discrete
announced = refl
