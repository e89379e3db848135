-- ===== src/Messages/Incoming.antt =====
-- internal/handlers/upload.go and internal/handlers/myfiles.go: the handlers of a file, of a text, and
-- of the answer to a prompt.
use gdrive_bot.Base.{
  Bool, true, false, Option, none, some, [], ◌∷◌, ◌++◌, Str, bytes, str_eq, if◌then◌else◌, ℤ, pos,
  not, Error, error_text, Result, ok, err, Act, ◌>>=◌, ◌>>◌,
}
use gdrive_bot.Deps.{drive_client_for}
use gdrive_bot.Drive.Operations.{rename}
use gdrive_bot.Explorer.{find_pending, search}
use gdrive_bot.Explorer.Render.{View}
use gdrive_bot.Explorer.State.{PendingPrompt}
use gdrive_bot.Login.{handle_login_message}
use gdrive_bot.Models.{Task, TaskType, telegram_file, direct_link, queued}
use gdrive_bot.Queue.{Job, enqueue}
use gdrive_bot.Messages.{
  Env, World, Message, extract_file, on_explorer, on_remote, on_queue, reply, replied, ignored,
  edited, check_user_queue_limit, require_logged_in,
}

-- a warning sign with the variation selector U+FE0F, and a space
abbrev warning : Str
warning = bytes "⚠" ++ (239 ∷ 184 ∷ 143 ∷ bytes " ")

-- The task that a handler makes; its ID, times and status come with Enqueue.
unfoldable pub new_task : Message → TaskType → Str → Str → ℤ → ℤ → Task
new_task m type source name size status_message_id = record {
  id = [];
  user_id = m.user_id;
  chat_id = m.chat_id;
  type = type;
  status = queued;
  source = source;
  file_name = name;
  file_size = size;
  dest_folder_id = [];
  status_message_id = status_message_id;
  retry_count = 0;
  last_error = [];
  created_at = 0;
  started_at = 0;
  completed_at = 0;
  result_file_id = [];
}

module _ (env : Env) where
  -- an Enqueue that fails is told in the status message
  abbrev pub told_queued : World env × Result (Job) → World env × Result (Unit {0})
  told_queued (w, ok job) = (w, ok tt)
  told_queued (w, err e) = (edited env (bytes "❌ Couldn't queue upload: " ++ error_text e) w, ok tt)

  unfoldable pub queue_upload : Message → TaskType → Str → Str → ℤ → Act (World env) (Unit {0})
  unfolding reply enqueue new_task
  queue_upload m type source name size =
      reply env (bytes "📥 Queued: " ++ name) >>= λ status_message_id w. told_queued (
        on_queue env
          (enqueue env.tasks m.now m.new_id (new_task m type source name size status_message_id)) w)

  -- the limit, and then the upload
  unfoldable pub limited : Option Error → Act (World env) (Unit {0}) → Act (World env) (Unit {0})
  unfolding ignored
  limited none upload w = upload w
  limited (some e) upload w = ignored env (warning ++ error_text e) w

  -- what both handlers do before an upload
  unfoldable pub checked_upload : Message → Act (World env) (Unit {0}) → Act (World env) (Unit {0})
  unfolding require_logged_in check_user_queue_limit limited
  checked_upload m upload = require_logged_in env m.user_id >> λ w.
      limited (check_user_queue_limit env m.user_id w) upload w

  -- IncomingFile
  unfoldable pub incoming_file : Message → Act (World env) (Unit {0})
  unfolding extract_file checked_upload queue_upload
  incoming_file m w =
      let a = extract_file m in
      if str_eq a.file_id []
      then (w, ok tt)
      else checked_upload m (queue_upload m telegram_file a.file_id a.file_name a.file_size) w

  -- a reply with an error behind a mark
  abbrev failed : Str → Error → Act (World env) (Unit {0})
  failed mark e = replied env (bytes "❌ " ++ (mark ++ error_text e))

  -- where the user has a Drive client, else its error as a reply
  unfoldable pub or_no_client : Message → Act (World env) (Unit {0}) → Act (World env) (Unit {0})
  unfolding drive_client_for replied
  or_no_client m act w =
      elim (drive_client_for env.login.users env.connect m.user_id w.login.users) [
        | ok u ↦ act w
        | err e ↦ failed [] e w
      ]

  abbrev renamed : Str → World env × Result (Unit {0}) → World env × Result (Unit {0})
  renamed new_name (w, err e) = failed (bytes "Rename failed: ") e w
  renamed new_name (w, ok u) =
      replied env (bytes "✅ Renamed to \"" ++ (new_name ++ bytes "\"."))
        (record w { cached = env.explorer.cache.invalidate_prefix (bytes "explist:") w.cached })

  -- applyRename
  unfoldable pub apply_rename : Message → Str → Str → Act (World env) (Unit {0})
  unfolding or_no_client rename replied
  apply_rename m file_id new_name =
      or_no_client m
        (λ w. renamed new_name (on_remote env (rename env.explorer.files file_id new_name) w))

  -- the listing is shown in its message, or in a fresh one
  abbrev shown : View → World env → Option Error → World env × Result (Unit {0})
  shown v w none = (w, ok tt)
  shown v w (some e) = replied env v.text w

  abbrev found : World env × Result View → World env × Result (Unit {0})
  found (w, err e) = failed (bytes "Search failed: ") e w
  found (w, ok v) =
      let (c, e) = env.login.telegram.edit v.text (some v.keyboard) w.login.chat in
      shown v (record w { login = record w.login { chat = c } }) e

  -- applySearch
  unfoldable pub apply_search : Message → ℤ → Str → Act (World env) (Unit {0})
  unfolding or_no_client search replied
  apply_search m message_id query = or_no_client m (λ w. found (
      on_explorer env
        (search env.explorer
          (record { now = m.now; remote = w.remote; key = (m.user_id, m.chat_id, message_id) })
          query)
        w))

  -- gate 3
  unfoldable pub link_upload : Message → Act (World env) (Unit {0})
  unfolding checked_upload queue_upload
  link_upload m w =
      if env.is_direct_link m.text
      then checked_upload m
          (queue_upload m direct_link m.text (env.suggest_filename m.text) (pos 0)) w
      else (w, ok tt)

  -- gate 2
  unfoldable pub after_prompt :
      Message → World env × Result PendingPrompt → World env × Result (Unit {0})
  unfolding link_upload apply_rename apply_search
  after_prompt m (w, err e) = link_upload m w
  after_prompt m (w, ok p) =
      if not (str_eq p.rename_file_id [])
      then apply_rename m p.rename_file_id m.text w
      else if p.is_search
      then apply_search m p.message_id m.text w
      else link_upload m w

  -- gate 1
  unfoldable pub after_login :
      Message → World env → Bool → Result (Unit {0}) → World env × Result (Unit {0})
  unfolding after_prompt find_pending
  after_login m w true r = (w, r)
  after_login m w false r =
      after_prompt m (on_explorer env (find_pending env.explorer m.user_id m.chat_id) w)

  -- IncomingText
  unfoldable pub incoming_text : Message → Act (World env) (Unit {0})
  unfolding after_login handle_login_message
  incoming_text m w =
      if str_eq m.text []
      then (w, ok tt)
      else (let (l, res) = handle_login_message env.login m.now m.user_id m.text w.login in
          after_login m (record w { login = l }) res.0 res.1)
