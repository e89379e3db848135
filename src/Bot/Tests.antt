-- ===== src/Bot/Tests.antt =====
-- Updates of a stranger and of a user, on the bot of Messages.Tests.
use gdrive_bot.Base.{
  ◌≡◌, refl, true, none, some, [], ◌∷◌, Str, bytes, str_eq, has_prefix, ℤ, pos, negsuc, trim_space,
  behind_space, drop_all, drop_any, ◌++◌, parse_int, parse_uint, uint_from, with_sign, format_nat,
  Option,
}
use gdrive_bot.Cache
use gdrive_bot.Guard.Answers.{Coherent}
use gdrive_bot.Login.Tests.{int_discrete}
use gdrive_bot.Messages.{Message}
use gdrive_bot.Messages.Tests.{a_link}
use gdrive_bot.Owner.{Fate, goes_on}
use gdrive_bot.Bot.{Env, World, Update, incoming}
use gdrive_bot.Bot.Dispatch.{handle_update, command_arg, number_arg}
use gdrive_bot.Bot.Refused.{Stranger, Same, handle_update-Same}
use gdrive_bot.Bot.Owned.{handle_update-Kept}
use gdrive_bot.Bot.Owned.Actions.{Kept}

abbrev bot : Env
bot = record {
  messages = gdrive_bot.Messages.Tests.bot;
  settings = gdrive_bot.Tuning.Tests.col;
  machine = gdrive_bot.Owner.Tests.machine;
  defaults = record {
    workers = pos 4;
    queue_size = pos 50;
    download_limit_mb = pos 0;
    upload_limit_mb = pos 0;
  };
  tenths = λ b d. format_nat b;
  quoted = λ s. s;
  is_command = λ name text. has_prefix text (b'/' ∷ name);
  stats_text = bytes "📊 <b>Stats</b>";
}

abbrev world : World bot
world = record {
  messages = gdrive_bot.Messages.Tests.world;
  settings = [];
  disk = 5;
  fate = goes_on;
}

-- user 9, whom nobody knows, asks for the removal of the downloads
abbrev a_clean : Update
a_clean = incoming (bytes "eve") (record a_link { user_id = pos 9; text = bytes "/clean" })

cold-Coherent :
    Coherent bot.messages.login.users bot.messages.explorer.cache
      (pos 1)
      20
      (record { stored = world.messages.login.users; cached = world.messages.cached })
unfolding Cache.lookup
cold-Coherent id t raw h e = cc

stranger : Stranger bot a_clean world
unfolding int_discrete
stranger = record { coherent = cold-Coherent; not_owner = refl; not_allowed = refl }

-- what the theorems say of this update
abbrev NothingDone : Type 0
NothingDone = Same bot world (handle_update bot a_clean world).0

handle_update-Same_example : NothingDone
handle_update-Same_example = handle_update-Same bot a_clean world stranger

abbrev NotCleaned : Type 0
NotCleaned = Kept bot world (handle_update bot a_clean world).0

handle_update-Kept_example : NotCleaned
handle_update-Kept_example = handle_update-Kept bot a_clean world refl

-- the argument is trimmed, also of a no-break space
number_read :
    number_arg (record a_link { text = bytes "/setworkers   -8" ++ 194 ∷ 160 ∷ [] })
    ≡ some (negsuc 7)
unfolding number_arg command_arg behind_space trim_space drop_all drop_any has_prefix
    gdrive_bot.Base.drop_prefix parse_int parse_uint uint_from with_sign
number_read = refl
