-- ===== src/Messages.antt =====
-- internal/handlers/upload.go and internal/handlers/myfiles.go: what a message of a user starts. The
-- text of a message comes trimmed, as by strings.TrimSpace, and Enqueue's new ID comes with the message.
pub mod Incoming
pub mod Gates
pub mod Tests
use gdrive_bot.Base.{
  ℕ, Bool, true, false, leb, Option, none, some, List, [], ◌∷◌, ◌++◌, Str, bytes, str_eq,
  if◌then◌else◌, ℤ, pos, eqb_ℤ, format_nat, Error, plain, error_text, Result, ok, err, Act, ◌>>=◌,
  ◌>>◌, continue,
}
use gdrive_bot.Database.{Collection}
use gdrive_bot.Database.Tasks.{count_for_user}
use gdrive_bot.Deps.{drive_client_for}
use gdrive_bot.Drive.Operations.{rename}
use gdrive_bot.Explorer.{find_pending, search}
use gdrive_bot.Explorer.Render.{View}
use gdrive_bot.Explorer.State.{PendingPrompt}
use gdrive_bot.Login.{handle_login_message}
use gdrive_bot.Models.{Task, TaskType, telegram_file, direct_link, queued, GoogleToken, User}
use gdrive_bot.Queue.{Manager, Job, enqueue}

pub record Attachment : Type 0 where
  pub file_id : Str
  pub file_name : Str
  pub file_size : ℤ

pub record Message : Type 0 where
  pub now : ℕ
  pub user_id : ℤ
  pub chat_id : ℤ
  pub text : Str
  pub document : Option Attachment
  pub video : Option Attachment
  pub audio : Option Attachment
  -- the sizes of a photo, in the order of Telegram
  pub photo : List Attachment
  pub new_id : Str

-- the last size of a photo
unfoldable pub last_photo : List Attachment → Attachment
last_photo [] = record { file_id = []; file_name = []; file_size = pos 0 }
last_photo (a ∷ []) = record a { file_name = bytes "photo.jpg" }
last_photo (a ∷ b ∷ more) = last_photo (b ∷ more)

abbrev coalesce : Str → Attachment → Attachment
coalesce fallback a = record a {
  file_name = if str_eq a.file_name [] then fallback else a.file_name;
}

-- extractFile; an attachment without an ID is none
unfoldable pub extract_file : Message → Attachment
unfolding last_photo
extract_file m = elim m.document [
  | some a ↦ coalesce (bytes "document") a
  | none ↦ elim m.video [
    | some a ↦ coalesce (bytes "video.mp4") a
    | none ↦ elim m.audio [ some a ↦ coalesce (bytes "audio.mp3") a | none ↦ last_photo m.photo ]
  ]
]

-- `err == nil && u.GoogleToken != nil`
abbrev pub has_token : Result (Option User) → Bool
has_token (err e) = false
has_token (ok none) = false
has_token (ok (some u)) = elim u.google_token [ none ↦ false | some t ↦ true ]

abbrev pub max_concurrent_per_user : ℕ
max_concurrent_per_user = 25

abbrev pub too_many : ℕ → Error
too_many n =
    plain
      (bytes "you have " ++ (format_nat n ++ bytes " uploads in progress — wait for one to finish"))

pub record Env : Type 1 where
  pub login : gdrive_bot.Login.Env
  pub explorer : gdrive_bot.Explorer.Env
  pub tasks : Collection Str Task
  pub owner_id : ℤ
  pub connect : GoogleToken → Option Error
  -- download.IsDirectLink and download.SuggestFilename, on net/url
  pub is_direct_link : Str → Bool
  pub suggest_filename : Str → Str

module _ (env : Env) where
  pub record World : Type 0 where
    pub login : gdrive_bot.Login.World env.login
    pub states : env.explorer.states.Store
    pub cached : env.explorer.cache.Store
    pub remote : env.explorer.files.Remote
    pub queue : Manager env.tasks

  abbrev pub on_explorer :
      {A : Type 0} → Act (gdrive_bot.Explorer.World env.explorer) A → Act World A
  on_explorer f w =
      let (x, r) = f (record { stored = w.states; cached = w.cached }) in
      (record w { states = x.stored; cached = x.cached }, r)

  abbrev pub on_remote : {A : Type 0} → Act env.explorer.files.Remote A → Act World A
  on_remote f w = let (d, r) = f w.remote in (record w { remote = d }, r)

  abbrev pub on_queue : {A : Type 0} → Act (Manager env.tasks) A → Act World A
  on_queue f w = let (q, r) = f w.queue in (record w { queue = q }, r)

  -- Message.Reply
  unfoldable pub reply : Str → Act World ℤ
  reply text w =
      let (c, r) = env.login.telegram.reply text w.login.chat in
      (record w { login = record w.login { chat = c } }, r)

  -- a reply whose error is the handler's, and one whose outcome is ignored
  unfoldable pub replied : Str → Act World (Unit {0})
  unfolding reply
  replied text = reply text >>= λ _ w. (w, ok tt)

  unfoldable pub ignored : Str → Act World (Unit {0})
  unfolding reply
  ignored text w = ((reply text w).0, ok tt)

  abbrev pub edited : Str → World → World
  edited text w = record w {
    login = record w.login { chat = (env.login.telegram.edit text none w.login.chat).0 };
  }

  -- checkUserQueueLimit
  unfoldable pub check_user_queue_limit : ℤ → World → Option Error
  unfolding count_for_user
  check_user_queue_limit user_id w =
      if eqb_ℤ user_id env.owner_id
      then none
      else elim (count_for_user env.tasks user_id w.queue.tasks).1 [
        | err e ↦ none
        | ok n ↦ if leb max_concurrent_per_user n then some (too_many n) else none
      ]

  -- requireLoggedIn
  unfoldable pub require_logged_in : ℤ → Act World (Unit {0})
  unfolding ignored
  require_logged_in user_id w =
      if has_token (env.login.users.find_one w.login.users user_id) then (w, ok tt) else (
        (ignored (bytes "❌ Please /login before uploading.") w).0,
        err (plain (bytes "not logged in")),
      )
