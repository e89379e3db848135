-- ===== src/Explorer/Menus.antt =====
-- internal/explorer/filemenu.go: the menus of a file. `tenths` prints a quotient by `%.1f`.
use gdrive_bot.Base.{ℕ, Bool, [], ◌∷◌, ◌++◌, Str, bytes, if◌then◌else◌, Result, ok}
use gdrive_bot.Drive.{FilesService, Entry, bind}
use gdrive_bot.Drive.Operations.{is_public}
use gdrive_bot.Explorer.Render.{View, button, size_text}

unfoldable pub file_menu : (ℕ → ℕ → Str) → Entry → View
unfolding size_text
file_menu tenths e = record {
  text = bytes "📄 " ++ (e.name ++ (bytes "\nSize: " ++ size_text tenths e.size));
  keyboard =
      (button (bytes "✏ Rename") (bytes "file:rename:" ++ e.id)
        ∷ button (bytes "⬇ Download") (bytes "file:download:" ++ e.id)
        ∷ [])
      ∷ (button (bytes "🗑 Delete") (bytes "file:delete:" ++ e.id) ∷ [])
      ∷ (button (bytes "🔙 Back") (bytes "file:back:" ++ e.id) ∷ [])
      ∷ [];
}

abbrev share_status_word : Bool → Str
share_status_word public = if public then bytes "Public (anyone with the link)" else bytes "Private"

-- DownloadMenu, for an answer of IsPublic
unfoldable pub share_menu : (ℕ → ℕ → Str) → Entry → Bool → View
unfolding size_text
share_menu tenths e public = record {
  text =
      bytes "📄 "
      ++ (e.name
          ++ (bytes "\nSize: "
              ++ (size_text tenths e.size ++ (bytes "\n\nSharing: " ++ share_status_word public))));
  keyboard =
      (button
          (if public
            then bytes "🔗 Share: ON (tap to disable)"
            else bytes "🔗 Share: OFF (tap to enable)")
          (bytes "dl:share:" ++ e.id)
        ∷ [])
      ∷ (button (bytes "👁 View link") (bytes "dl:viewlink:" ++ e.id)
          ∷ button (bytes "⬇ Direct link") (bytes "dl:directlink:" ++ e.id)
          ∷ [])
      ∷ (button (bytes "🔙 Back") (bytes "dl:back:" ++ e.id) ∷ [])
      ∷ [];
}

module _ (svc : FilesService) where
  -- DownloadMenu
  unfoldable pub download_menu : (ℕ → ℕ → Str) → Entry → svc.Remote → Result View
  unfolding is_public share_menu
  download_menu tenths e r = bind (is_public svc e.id r) (λ public. ok (share_menu tenths e public))

unfoldable pub delete_confirm : Entry → View
delete_confirm e = record {
  text = bytes "🗑 Delete \"" ++ (e.name ++ bytes "\"?\n\nThis cannot be undone.");
  keyboard =
      (button (bytes "✅ Confirm delete") (bytes "file:delconfirm:" ++ e.id)
        ∷ button (bytes "❌ Cancel") (bytes "file:delcancel:" ++ e.id)
        ∷ [])
      ∷ [];
}

unfoldable pub rename_prompt : Entry → View
rename_prompt e = record {
  text = bytes "✏ Renaming \"" ++ (e.name ++ bytes "\"\n\nSend new filename.");
  keyboard = (button (bytes "❌ Cancel") (bytes "file:back:" ++ e.id) ∷ []) ∷ [];
}
