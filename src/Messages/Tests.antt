-- ===== src/Messages/Tests.antt =====
-- Messages on a concrete bot: the in-memory database and cache, and a Drive with one file.
use native.Mathlib.Decide.{ℕ_discrete}
use gdrive_bot.Base.{◌≡◌, refl, true, none, [], ◌∷◌, Str, bytes, pos, ok, arith, inr}
use gdrive_bot.Database.{Collection}
use gdrive_bot.Database.Tasks.{count_for_user}
use gdrive_bot.Database.Assoc.{assoc_collection}
use gdrive_bot.Drive.Tests.{shared, anyone, owner}
use gdrive_bot.Login.Tests.{logged_in, half_done, int_discrete}
use gdrive_bot.Models.{Task}
use gdrive_bot.Queue.{new_manager}
use gdrive_bot.Messages.{Env, World, Message}
use gdrive_bot.Messages.Incoming.{incoming_file, link_upload, incoming_text}
use gdrive_bot.Messages.Gates.{LoginOnly, queue-Refused, LoginOnly-incoming_text}

pub Str_discrete : Discrete Str
Str_discrete = hlevel ℕ_discrete

-- a database that counts 30 unfinished tasks
abbrev pub busy : Collection Str Task
busy = record (assoc_collection Str_discrete) { count = λ s p. ok 30 }

abbrev pub bot : Env
bot = record {
  login = gdrive_bot.Login.Tests.env;
  explorer = record gdrive_bot.Explorer.Tests.env { files = shared };
  tasks = busy;
  owner_id = pos 1;
  connect = λ t. none;
  is_direct_link = λ s. true;
  suggest_filename = λ s. bytes "file.iso";
}

abbrev pub world : World bot
world = record {
  login = record {
    users = (pos 7, logged_in) ∷ [];
    logins = (pos 7, half_done) ∷ [];
    outside = tt;
    chat = [];
  };
  states = [];
  cached = [];
  remote = owner ∷ anyone ∷ [];
  queue = new_manager busy [] 50 (pos 3);
}

abbrev pub a_link : Message
a_link = record {
  now = 20;
  user_id = pos 7;
  chat_id = pos 7;
  text = bytes "https://example.org/file.iso";
  document = none;
  video = none;
  audio = none;
  photo = [];
  new_id = bytes "0123456789abcdef";
}

queue-Refused_example :
    ((incoming_file bot a_link world).0.queue ≡ world.queue)
    × ((link_upload bot a_link world).0.queue ≡ world.queue)
unfolding count_for_user new_manager
queue-Refused_example = queue-Refused bot a_link world (inr (refl, (30, refl, omega arith)))

-- what the theorem says of this message
abbrev Taken : Type 0
Taken = LoginOnly bot a_link world (incoming_text bot a_link world).0

LoginOnly-incoming_text_example : Taken
unfolding int_discrete
LoginOnly-incoming_text_example = LoginOnly-incoming_text bot a_link world half_done refl
