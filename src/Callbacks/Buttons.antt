-- ===== src/Callbacks/Buttons.antt =====
-- The buttons of a file's menus, and the cases of the router that they reach.
use gdrive_bot.Base.{ℕ, ◌≡◌, refl, Bool, List, [], ◌∷◌, ◌++◌, map, Str, Act}
use gdrive_bot.Drive.{Entry}
use gdrive_bot.Explorer.{render_current}
use gdrive_bot.Explorer.Menus.{file_menu, share_menu, delete_confirm, rename_prompt}
use gdrive_bot.Explorer.Render.{View, Button}
use gdrive_bot.Drive.Operations.{view_link, direct_link}
use gdrive_bot.Callbacks.{Env, World, Press, strip_prefix, with_client, show, open_file_menu}
use gdrive_bot.Callbacks.Router.{
  told, ask_rename, ask_delete, confirm_delete, share_or_links, toggle_share, handle_file,
  handle_download_menu, handle,
}

-- the data of the buttons of a keyboard, row by row
abbrev pub data_of : List (List Button) → List Str
data_of [] = []
data_of (row ∷ rows) = map (λ b. b.callback_data) row ++ data_of rows

module _ (env : Env) (p : Press) where
  abbrev pub presses : View → List (Act (World env) (Unit {0}))
  presses v = map (handle env p) (data_of v.keyboard)

  abbrev pub of_client : List (Act (World env) (Unit {0})) → List (Act (World env) (Unit {0}))
  of_client = map (with_client env p)

  -- For every file, a press of each button of its four menus does, where the user has a Drive client,
  -- what the button is labelled with, on that file.
  pub presses_lem :
      (tenths : ℕ → ℕ → Str) (e : Entry) (public : Bool)
      → (presses (file_menu tenths e)
          ≡ of_client (
              ask_rename env p e.id
              ∷ share_or_links env e.id
              ∷ ask_delete env e.id
              ∷ show env p (render_current env.explorer)
              ∷ []))
        × (presses (share_menu tenths e public)
            ≡ of_client (
                toggle_share env e.id
                ∷ told env (view_link e.id)
                ∷ told env (direct_link e.id)
                ∷ open_file_menu env e.id
                ∷ []))
        × (presses (delete_confirm e)
            ≡ of_client (confirm_delete env p e.id ∷ open_file_menu env e.id ∷ []))
        × (presses (rename_prompt e) ≡ of_client (show env p (render_current env.explorer) ∷ []))
  unfolding file_menu share_menu delete_confirm rename_prompt handle handle_file
      handle_download_menu strip_prefix
  presses_lem tenths e public = (refl, refl, refl, refl)
