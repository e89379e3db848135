-- ===== src/Callbacks/Router.antt =====
-- internal/callbacks: the handlers and the dispatch of internal/callbacks/router.go.
use gdrive_bot.Base.{
  Bool, true, false, not, none, [], ◌++◌, Str, bytes, str_eq, if◌then◌else◌, pos, negsuc, plain,
  error_text, Result, ok, err, Act, ◌>>=◌, ◌>>◌, pure, raise,
}
use gdrive_bot.Drive.Operations.{delete, set_public, is_public, view_link, direct_link}
use gdrive_bot.Explorer.{
  open_folder, back, home, refresh, page, await_search, clear_search, await_rename, render_current,
}
use gdrive_bot.Explorer.Menus.{delete_confirm, rename_prompt}
use gdrive_bot.Guard.{is_authorized}
use gdrive_bot.Login.{complete_login}
use gdrive_bot.Callbacks.{
  Env, World, Press, prefixed, strip_prefix, on_guard, on_login, on_remote, read, edit_message,
  edit_view, answer, with_client, on_message, show, meta, open_file_menu, open_download_menu,
}

module _ (env : Env) where
  -- an answer to the press itself
  abbrev pub told : Str → Act (World env) (Unit {0})
  told text w = (answer env text w, ok tt)

  unfoldable pub ask_search : Press → Act (World env) (Unit {0})
  unfolding on_message await_search edit_message
  ask_search p =
      on_message env p (await_search env.explorer)
      >> edit_message env
          (bytes
            "🔍 Send the filename (or partial name) you want to search for.\n\nReply to this message or just type and send.")
          none

  -- the cases of handleExplorer on the whole action
  unfoldable pub navigate : Press → Str → Act (World env) (Unit {0})
  unfolding show ask_search
  navigate p action =
      if str_eq action (bytes "back")
      then show env p (back env.explorer)
      else if str_eq action (bytes "home")
      then show env p (home env.explorer)
      else if str_eq action (bytes "refresh")
      then show env p (refresh env.explorer)
      else if str_eq action (bytes "prevpage")
      then show env p (λ req. page env.explorer req (negsuc 0))
      else if str_eq action (bytes "nextpage")
      then show env p (λ req. page env.explorer req (pos 1))
      else if str_eq action (bytes "search")
      then ask_search p
      else if str_eq action (bytes "clearsearch")
      then show env p (clear_search env.explorer)
      else raise (plain (bytes "unknown explorer action: " ++ env.quoted action))

  -- handleExplorer
  unfoldable pub handle_explorer : Press → Str → Act (World env) (Unit {0})
  unfolding with_client strip_prefix show open_file_menu navigate
  handle_explorer p action = with_client env p (
      prefixed (bytes "open:") action (λ id. show env p (λ req. open_folder env.explorer req id))
        (prefixed (bytes "file:") action (open_file_menu env) (navigate p action)))

  unfoldable pub ask_rename : Press → Str → Act (World env) (Unit {0})
  unfolding meta on_message edit_view rename_prompt
  ask_rename p id = meta env id >>= λ e.
      on_message env p (λ req. await_rename env.explorer req id) >> edit_view env (rename_prompt e)

  unfoldable pub ask_delete : Str → Act (World env) (Unit {0})
  unfolding meta edit_view delete_confirm
  ask_delete id = meta env id >>= λ e. edit_view env (delete_confirm e)

  -- every cached page of every listing is dropped
  unfoldable pub drop_listings : Act (World env) (Unit {0})
  drop_listings w = (
    record w { cached = env.explorer.cache.invalidate_prefix (bytes "explist:") w.cached },
    ok tt,
  )

  unfoldable pub confirm_delete : Press → Str → Act (World env) (Unit {0})
  unfolding delete drop_listings show
  confirm_delete p id =
      on_remote env (delete env.explorer.files id)
      >> (drop_listings >> show env p (render_current env.explorer))

  unfoldable pub share_or_links : Str → Act (World env) (Unit {0})
  unfolding meta open_download_menu
  share_or_links id = meta env id >>= open_download_menu env

  -- handleFile
  unfoldable pub handle_file : Press → Str → Act (World env) (Unit {0})
  unfolding with_client strip_prefix ask_rename ask_delete confirm_delete open_file_menu
      share_or_links show
  handle_file p action = with_client env p (
      prefixed (bytes "rename:") action (ask_rename p) (
        prefixed (bytes "delete:") action ask_delete (
          prefixed (bytes "delconfirm:") action (confirm_delete p) (
            prefixed (bytes "delcancel:") action (open_file_menu env) (
              prefixed (bytes "download:") action share_or_links (
                prefixed (bytes "back:") action (λ _. show env p (render_current env.explorer))
                  (pure tt)))))))

  -- the case "share:" of handleDownloadMenu
  unfoldable pub toggle_share : Str → Act (World env) (Unit {0})
  unfolding is_public set_public share_or_links
  toggle_share id = read env (is_public env.explorer.files id) >>= λ public.
      on_remote env (set_public env.explorer.files id (not public)) >> share_or_links id

  -- handleDownloadMenu
  unfoldable pub handle_download_menu : Press → Str → Act (World env) (Unit {0})
  unfolding with_client strip_prefix toggle_share open_file_menu answer view_link direct_link
  handle_download_menu p action = with_client env p (
      prefixed (bytes "share:") action toggle_share (
        prefixed (bytes "viewlink:") action (λ id. told (view_link id))
          (prefixed (bytes "directlink:") action (λ id. told (direct_link id))
            (prefixed (bytes "back:") action (open_file_menu env) (pure tt)))))

  abbrev login_done : Str → Str
  login_done remote =
      bytes "✅ <b>Login complete!</b> Your Google Drive is now connected.\n\nRclone remote: <code>"
      ++ (remote
          ++ bytes
              "</code>\n\nSend /myfiles to start browsing, or just send any file or link to upload.")

  -- the outcome of this edit is ignored
  unfoldable pub show_login_done : Str → Act (World env) (Unit {0})
  unfolding edit_message
  show_login_done remote w = ((edit_message env (login_done remote) none w).0, ok tt)

  -- handleLoginContinue
  unfoldable pub handle_login_continue : Press → Act (World env) (Unit {0})
  unfolding complete_login show_login_done
  handle_login_continue p =
      on_login env (complete_login env.login p.now p.user_id) >>= show_login_done

  -- the switch of Dispatch
  unfoldable pub handle : Press → Str → Act (World env) (Unit {0})
  unfolding strip_prefix handle_explorer handle_file handle_download_menu handle_login_continue
  handle p data_text = prefixed (bytes "expl:") data_text (handle_explorer p) (
      prefixed (bytes "file:") data_text (handle_file p) (
        prefixed (bytes "dl:") data_text (handle_download_menu p)
          (if str_eq data_text (bytes "login:continue") then handle_login_continue p else pure tt)))

  abbrev ack_text : Result (Unit {0}) → Str
  ack_text (ok u) = []
  ack_text (err e) = bytes "❌ " ++ error_text e

  -- the press is always acknowledged
  unfoldable pub acknowledged : World env × Result (Unit {0}) → World env × Result (Unit {0})
  unfolding answer
  acknowledged (w, r) = (answer env (ack_text r) w, r)

  unfoldable pub admitted : Press → Bool → Act (World env) (Unit {0})
  unfolding handle acknowledged answer
  admitted p true w = acknowledged (handle p p.callback_data w)
  admitted p false w = told (bytes "🚫 Not authorized.") w

  -- Dispatch
  unfoldable pub dispatch : Press → Act (World env) (Unit {0})
  unfolding is_authorized admitted
  dispatch p =
      on_guard env
        (is_authorized env.login.users env.explorer.cache env.owner_id p.now p.user_id p.username)
      >>= admitted p
