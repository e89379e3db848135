-- ===== src/Callbacks.antt =====
-- internal/callbacks: what a press of a button does. `remote` is the Drive of the user who presses;
-- `quoted` prints a text by `%q`. A press of a button whose message is gone is not
-- modelled, and a panic of the explorer is an error, which Dispatch answers.
pub mod Router
pub mod Denied
pub mod Kept
pub mod Confirmed
pub mod Sharing
pub mod Buttons
pub mod Tests
use gdrive_bot.Base.{
  ℕ, Bool, true, false, not, Option, none, some, List, [], ◌∷◌, ◌++◌, Str, bytes, str_eq, ◌==◌,
  if◌then◌else◌, ℤ, pos, negsuc, Error, plain, error_text, Result, ok, err, Act, ◌>>=◌, ◌>>◌, pure,
  raise, continue,
}
use gdrive_bot.Deps.{drive_client_for}
use gdrive_bot.Drive.{Entry, file_meta}
use gdrive_bot.Drive.Operations.{delete, set_public, is_public, view_link, direct_link}
use gdrive_bot.Explorer.{
  Request, open_folder, back, home, refresh, page, await_search, clear_search, await_rename,
  render_current,
}
use gdrive_bot.Explorer.Menus.{file_menu, download_menu, delete_confirm, rename_prompt}
use gdrive_bot.Explorer.Render.{View, Button}
use gdrive_bot.Login.{complete_login}
use gdrive_bot.Models.{GoogleToken}

-- strings.HasPrefix with strings.TrimPrefix: the rest behind a prefix that is there
unfoldable pub strip_prefix : Str → Str → Option Str
strip_prefix [] s = some s
strip_prefix (c ∷ p) [] = none
strip_prefix (c ∷ p) (d ∷ s) = let rest = strip_prefix p s in if c == d then rest else none

-- one case of a switch on prefixes, and the cases behind it
abbrev pub prefixed : {A : Type 0} → Str → Str → (Str → A) → A → A
prefixed prefix s act others = elim (strip_prefix prefix s) [ some rest ↦ act rest | none ↦ others ]

-- What the router is built on.
pub record Env : Type 1 where
  pub login : gdrive_bot.Login.Env
  pub explorer : gdrive_bot.Explorer.Env
  pub owner_id : ℤ
  pub connect : GoogleToken → Option Error
  pub quoted : Str → Str

-- A press of a button.
pub record Press : Type 0 where
  pub now : ℕ
  pub user_id : ℤ
  pub username : Str
  pub chat_id : ℤ
  pub message_id : ℤ
  pub callback_data : Str

module _ (env : Env) where
  pub record World : Type 0 where
    pub login : gdrive_bot.Login.World env.login
    pub states : env.explorer.states.Store
    pub cached : env.explorer.cache.Store
    pub remote : env.explorer.files.Remote

  abbrev pub on_guard :
      {A : Type 0}
      → Act (gdrive_bot.Guard.World env.login.users env.explorer.cache env.owner_id) A
      → Act World A
  on_guard m w =
      let (g, r) = m (record { stored = w.login.users; cached = w.cached }) in
      (record w { login = record w.login { users = g.stored }; cached = g.cached }, r)

  abbrev pub on_explorer :
      {A : Type 0} → Act (gdrive_bot.Explorer.World env.explorer) A → Act World A
  on_explorer m w =
      let (x, r) = m (record { stored = w.states; cached = w.cached }) in
      (record w { states = x.stored; cached = x.cached }, r)

  abbrev pub on_login : {A : Type 0} → Act (gdrive_bot.Login.World env.login) A → Act World A
  on_login m w = let (l, r) = m w.login in (record w { login = l }, r)

  abbrev pub on_remote : {A : Type 0} → Act env.explorer.files.Remote A → Act World A
  on_remote m w = let (d, r) = m w.remote in (record w { remote = d }, r)

  -- a call that only reads the Drive
  abbrev pub read : {A : Type 0} → (env.explorer.files.Remote → Result A) → Act World A
  read f w = (w, f w.remote)

  abbrev pub as_result : {S : Type 0} → S × Option Error → S × Result (Unit {0})
  as_result (s, none) = (s, ok tt)
  as_result (s, some e) = (s, err e)

  abbrev pub on_chat : {A : Type 0} → Act env.login.telegram.Chat A → Act World A
  on_chat m w = let (c, r) = m w.login.chat in (record w { login = record w.login { chat = c } }, r)

  -- editMessage, with a keyboard or with none
  unfoldable pub edit_message : Str → Option (List (List Button)) → Act World (Unit {0})
  edit_message text kb = on_chat (λ c. as_result (env.login.telegram.edit text kb c))

  unfoldable pub edit_view : View → Act World (Unit {0})
  unfolding edit_message
  edit_view v = edit_message v.text (some v.keyboard)

  unfoldable pub answer : Str → World → World
  answer text w = record w {
    login = record w.login { chat = env.login.telegram.answer text w.login.chat };
  }

  -- where the user has a Drive client
  unfoldable pub with_client : Press → Act World (Unit {0}) → Act World (Unit {0})
  unfolding drive_client_for
  with_client p act w =
      continue (w, drive_client_for env.login.users env.connect p.user_id w.login.users) (λ _. act)

  -- a call of the explorer for the button's message
  unfoldable pub on_message :
      {A : Type 0}
      → Press
      → (Request env.explorer → Act (gdrive_bot.Explorer.World env.explorer) A)
      → Act World A
  on_message p m w =
      on_explorer
        (m (record { now = p.now; remote = w.remote; key = (p.user_id, p.chat_id, p.message_id) }))
        w

  -- what it renders, shown
  unfoldable pub show :
      Press
      → (Request env.explorer → Act (gdrive_bot.Explorer.World env.explorer) View)
      → Act World (Unit {0})
  unfolding on_message edit_view
  show p m = on_message p m >>= edit_view

  unfoldable pub meta : Str → Act World Entry
  unfolding file_meta
  meta file_id = read (λ r. file_meta env.explorer.files r file_id)

  -- openFileMenu, and the cases "delcancel:" and "back:"
  unfoldable pub open_file_menu : Str → Act World (Unit {0})
  unfolding meta edit_view file_menu
  open_file_menu file_id = meta file_id >>= λ e. edit_view (file_menu env.explorer.tenths e)

  unfoldable pub open_download_menu : Entry → Act World (Unit {0})
  unfolding edit_view download_menu
  open_download_menu e = read (download_menu env.explorer.files env.explorer.tenths e) >>= edit_view
