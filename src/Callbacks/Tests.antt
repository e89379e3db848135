-- ===== src/Callbacks/Tests.antt =====
-- Presses on a concrete bot: the in-memory database and cache, and a Drive with one file.
use gdrive_bot.Base.{
  ◌≡◌, ◌≢◌, refl, ℕ, true, false, not, Option, none, some, List, [], ◌∷◌, ◌++◌, Str, bytes, pos,
  negsuc, ok, length, ◌≤◌, arith, Bool, format_nat,
}
use gdrive_bot.Drive.{FilesService, Permission, file_meta}
use gdrive_bot.Explorer.{render_current}
use gdrive_bot.Drive.Operations.{any_public, is_public, set_public, remove_listed, remove_public}
use gdrive_bot.Drive.Tests.{photo, shared, shared_laws, anyone, owner, without}
use gdrive_bot.Callbacks.{Env, World, Press, strip_prefix}
use gdrive_bot.Callbacks.Router.{toggle_share, share_or_links, dispatch}
use gdrive_bot.Callbacks.Confirmed.{dispatch_keeps}
use gdrive_bot.Callbacks.Sharing.{is_public-toggle_share}
use gdrive_bot.Login.Tests.{logged_in, member, int_discrete}

abbrev bot : Env
bot = record {
  login = gdrive_bot.Login.Tests.env;
  explorer = record gdrive_bot.Explorer.Tests.env { files = shared };
  owner_id = pos 1;
  connect = λ t. none;
  quoted = λ s. s;
}

abbrev world : World bot
world = record {
  login = record { users = (pos 7, logged_in) ∷ []; logins = []; outside = tt; chat = [] };
  states = [];
  cached = [];
  remote = owner ∷ anyone ∷ [];
}

-- a press by a user
abbrev press : ℕ → Str → Press
press user data_text = record {
  now = 20;
  user_id = pos user;
  username = bytes "ann";
  chat_id = pos user;
  message_id = pos 3;
  callback_data = data_text;
}

is_public-toggle_share_example : false ≡ not true
unfolding toggle_share share_or_links is_public set_public remove_listed remove_public any_public
    without gdrive_bot.Base.str_eq file_meta
is_public-toggle_share_example =
    is_public-toggle_share bot shared_laws (bytes "f1") world true false refl refl refl

-- a Drive that also keeps whether its file is there
abbrev one_file : FilesService
one_file = record {
  Remote = Bool × List Permission;
  list = λ r q n t. ok (photo ∷ [], []);
  get = λ r f. ok photo;
  update_name = λ r f n. (r, none);
  remove = λ r f. ((false, r.1), none);
  permissions = λ r f. r.1;
  list_permissions = λ r f. ok r.1;
  create_permission = λ r f type role. ((r.0, anyone ∷ r.1), none);
  delete_permission = λ r f id. ((r.0, without id r.1), none);
  create = λ r n t p. (r, ok (bytes "new"));
}

abbrev second_bot : Env
second_bot = record bot { explorer = record gdrive_bot.Explorer.Tests.env { files = one_file } }

abbrev second_world : World second_bot
second_world = record { login = world.login; states = []; cached = []; remote = (true, []) }

abbrev IsThere : Bool × List Permission → Type 0
IsThere r = r.0 ≡ true

dispatch_keeps_example :
    IsThere (dispatch second_bot (press 7 (bytes "dl:share:f1")) second_world).0.remote
unfolding strip_prefix
dispatch_keeps_example =
    dispatch_keeps second_bot IsThere ((λ r f t o h. h), (λ r f i h. h))
      (press 7 (bytes "dl:share:f1")) second_world refl refl
