-- ===== src/Callbacks/Confirmed.antt =====
-- Only the confirmation of a deletion deletes: what any other press leaves of the Drive.
use gdrive_bot.Base.{
  ◌≡◌, refl, sym, ◌∙◌, Bool, true, false, not, none, Str, bytes, str_eq, if◌then◌else◌, pure,
}
use gdrive_bot.Drive.Operations.{is_public, set_public, view_link, direct_link}
use gdrive_bot.Explorer.{await_rename, render_current}
use gdrive_bot.Explorer.Menus.{delete_confirm, rename_prompt}
use gdrive_bot.Login.{complete_login}
use gdrive_bot.Callbacks.{
  Env, World, Press, strip_prefix, on_remote, on_login, read, answer, edit_view, edit_message, show,
  on_message, meta, open_file_menu,
}
use gdrive_bot.Callbacks.Router.{
  handle_explorer, ask_rename, ask_delete, confirm_delete, share_or_links, handle_file,
  toggle_share, handle_download_menu, handle_login_continue, show_login_done, handle, acknowledged,
  admitted, dispatch, told,
}
use gdrive_bot.Callbacks.Kept.{
  strip_prefix-append, SharingKeeps, set_public_keeps, Keeps, continue_keeps, then-Keeps,
  same-Keeps, prefixed-Keeps, with_client-Keeps, show-Keeps, open_file_menu-Keeps,
  share_or_links-Keeps, handle_explorer-Keeps,
}

module _ (env : Env) (P : env.explorer.files.Remote → Type 0) where
  ask_rename-Keeps : (p : Press) (id : Str) → Keeps env P (ask_rename env p id)
  unfolding ask_rename meta edit_view edit_message on_message
  ask_rename-Keeps p id = then-Keeps env P (meta env id) _ (same-Keeps env P _ (λ w. refl)) (λ e.
      then-Keeps env P (on_message env p (λ req. await_rename env.explorer req id))
        (λ _. edit_view env (rename_prompt e)) (same-Keeps env P _ (λ w. refl))
        (λ _. same-Keeps env P _ (λ w. refl)))

  ask_delete-Keeps : (id : Str) → Keeps env P (ask_delete env id)
  unfolding ask_delete meta edit_view edit_message
  ask_delete-Keeps id =
      then-Keeps env P (meta env id) (λ e. edit_view env (delete_confirm e))
        (same-Keeps env P _ (λ w. refl)) (λ e. same-Keeps env P _ (λ w. refl))

  handle_file-Keeps :
      (p : Press) (action : Str)
      → strip_prefix (bytes "delconfirm:") action ≡ none
      → Keeps env P (handle_file env p action)
  unfolding handle_file
  handle_file-Keeps p action c = with_client-Keeps env P p _ (
      prefixed-Keeps env P (bytes "rename:") action (ask_rename env p) _
        (λ id _. ask_rename-Keeps p id)
        (λ _.
          prefixed-Keeps env P (bytes "delete:") action (ask_delete env) _
            (λ id _. ask_delete-Keeps id)
            (λ _.
              prefixed-Keeps env P (bytes "delconfirm:") action (confirm_delete env p) _
                (λ id e. cc)
                (λ _.
                  prefixed-Keeps env P (bytes "delcancel:") action (open_file_menu env) _
                    (λ id _. open_file_menu-Keeps env P id)
                    (λ _.
                      prefixed-Keeps env P (bytes "download:") action (share_or_links env) _
                        (λ id _. share_or_links-Keeps env P id)
                        (λ _.
                          prefixed-Keeps env P (bytes "back:") action
                            (λ _. show env p (render_current env.explorer)) (pure tt)
                            (λ id _. show-Keeps env P p (render_current env.explorer))
                            (λ _. same-Keeps env P _ (λ w. refl))))))))

  module _ (keeps : SharingKeeps env.explorer.files P) where
    set_public-Keeps :
        (id : Str) (b : Bool) → Keeps env P (on_remote env (set_public env.explorer.files id b))
    set_public-Keeps id b = record {
      keeps = λ w h. set_public_keeps env.explorer.files P keeps id b w.remote h;
    }

    toggle_share-Keeps : (id : Str) → Keeps env P (toggle_share env id)
    unfolding toggle_share
    toggle_share-Keeps id =
        then-Keeps env P (read env (is_public env.explorer.files id)) _
          (same-Keeps env P _ (λ w. refl))
          (λ b.
            then-Keeps env P (on_remote env (set_public env.explorer.files id (not b)))
              (λ _. share_or_links env id) (set_public-Keeps id (not b))
              (λ _. share_or_links-Keeps env P id))

    handle_download_menu-Keeps :
        (p : Press) (action : Str) → Keeps env P (handle_download_menu env p action)
    unfolding handle_download_menu answer
    handle_download_menu-Keeps p action = with_client-Keeps env P p _ (
        prefixed-Keeps env P (bytes "share:") action (toggle_share env) _
          (λ id _. toggle_share-Keeps id)
          (λ _.
            prefixed-Keeps env P (bytes "viewlink:") action (λ id. told env (view_link id)) _
              (λ id _. same-Keeps env P _ (λ w. refl))
              (λ _.
                prefixed-Keeps env P (bytes "directlink:") action (λ id. told env (direct_link id))
                  _ (λ id _. same-Keeps env P _ (λ w. refl))
                  (λ _.
                    prefixed-Keeps env P (bytes "back:") action (open_file_menu env) (pure tt)
                      (λ id _. open_file_menu-Keeps env P id)
                      (λ _. same-Keeps env P _ (λ w. refl))))))

    handle_login_continue-Keeps : (p : Press) → Keeps env P (handle_login_continue env p)
    unfolding handle_login_continue show_login_done edit_message
    handle_login_continue-Keeps p =
        then-Keeps env P (on_login env (complete_login env.login p.now p.user_id))
          (show_login_done env) (same-Keeps env P _ (λ w. refl))
          (λ r. same-Keeps env P _ (λ w. refl))

    last-Keeps :
        (p : Press) (b : Bool) → Keeps env P (if b then handle_login_continue env p else pure tt)
    last-Keeps p true = handle_login_continue-Keeps p
    last-Keeps p false = same-Keeps env P _ (λ w. refl)

    handle-Keeps :
        (p : Press) (text : Str)
        → strip_prefix (bytes "file:delconfirm:") text ≡ none
        → Keeps env P (handle env p text)
    unfolding handle
    handle-Keeps p text c =
        prefixed-Keeps env P (bytes "expl:") text (handle_explorer env p) _
          (λ t _. handle_explorer-Keeps env P p t)
          (λ _.
            prefixed-Keeps env P (bytes "file:") text (handle_file env p) _
              (λ t e.
                handle_file-Keeps p t
                  (sym (strip_prefix-append (bytes "file:") (bytes "delconfirm:") text t e) ∙ c))
              (λ _.
                prefixed-Keeps env P (bytes "dl:") text (handle_download_menu env p) _
                  (λ t _. handle_download_menu-Keeps p t)
                  (λ _. last-Keeps p (str_eq text (bytes "login:continue")))))

    admitted-Keeps :
        (p : Press) (b : Bool)
        → strip_prefix (bytes "file:delconfirm:") p.callback_data ≡ none
        → Keeps env P (admitted env p b)
    unfolding admitted acknowledged answer
    admitted-Keeps p true c = record { keeps = (handle-Keeps p p.callback_data c).keeps }
    admitted-Keeps p false c = same-Keeps env P _ (λ w. refl)

    -- Whatever property of the Drive a permission that is created or deleted keeps, every press keeps
    -- whose data do not begin with "file:delconfirm:".
    pub dispatch_keeps :
        (p : Press) (w : World env)
        → strip_prefix (bytes "file:delconfirm:") p.callback_data ≡ none
        → P w.remote
        → P (dispatch env p w).0.remote
    unfolding dispatch
    dispatch_keeps p w c h = continue_keeps env P _ (admitted env p) h (λ b. admitted-Keeps p b c)
