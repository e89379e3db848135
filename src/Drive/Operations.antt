-- ===== src/Drive/Operations.antt =====
-- internal/drive/operations.go: what the client changes in a Drive.
use gdrive_bot.Base.{
  Bool, true, false, Option, none, some, List, [], ◌∷◌, ◌++◌, Str, bytes, str_eq, Error, Result, ok,
  err, Act, map_error, wrap, ◌||◌,
}
use gdrive_bot.Drive.{FilesService, Permission, bind, drive_folder_mime_type}

-- a call that answers with an error or nothing
abbrev pub reported : {R : Type 0} → Str → R × Option Error → R × Result (Unit {0})
reported prefix (r, none) = (r, ok tt)
reported prefix (r, some e) = (r, err (wrap prefix e))

unfoldable pub any_public : List Permission → Bool
any_public [] = false
any_public (p ∷ ps) = str_eq p.type (bytes "anyone") || any_public ps

module _ (svc : FilesService) where
  unfoldable pub rename : Str → Str → Act svc.Remote (Unit {0})
  rename file_id new_name r =
      reported (bytes "drive: rename: ") (svc.update_name r file_id new_name)

  unfoldable pub delete : Str → Act svc.Remote (Unit {0})
  delete file_id r = reported (bytes "drive: delete: ") (svc.remove r file_id)

  abbrev pub then_rest :
      svc.Remote × Option Error → Act svc.Remote (Unit {0}) → svc.Remote × Result (Unit {0})
  then_rest (r, none) rest = rest r
  then_rest (r, some e) rest = (r, err (wrap (bytes "drive: remove public permission: ") e))

  -- the loop of SetPublic: every "anyone" permission is deleted
  unfoldable pub remove_public : Str → List Permission → Act svc.Remote (Unit {0})
  remove_public file_id [] r = (r, ok tt)
  remove_public file_id (p ∷ ps) r = elim (str_eq p.type (bytes "anyone")) [
    | true ↦ then_rest (svc.delete_permission r file_id p.id) (remove_public file_id ps)
    | false ↦ remove_public file_id ps r
  ]

  unfoldable pub remove_listed : Str → Result (List Permission) → Act svc.Remote (Unit {0})
  unfolding remove_public
  remove_listed file_id (err e) r = (r, err (wrap (bytes "drive: list permissions: ") e))
  remove_listed file_id (ok ps) r = remove_public file_id ps r

  -- SetPublic
  unfoldable pub set_public : Str → Bool → Act svc.Remote (Unit {0})
  unfolding remove_listed
  set_public file_id true r =
      reported (bytes "drive: set public: ")
        (svc.create_permission r file_id (bytes "anyone") (bytes "reader"))
  set_public file_id false r = remove_listed file_id (svc.list_permissions r file_id) r

  -- IsPublic
  unfoldable pub is_public : Str → svc.Remote → Result Bool
  unfolding any_public
  is_public file_id r =
      bind (map_error (wrap (bytes "drive: list permissions: ")) (svc.list_permissions r file_id))
        (λ ps. ok (any_public ps))

  -- CreateFolder
  unfoldable pub create_folder : Str → Str → Act svc.Remote Str
  create_folder parent_id name r =
      let (r', res) = svc.create r name drive_folder_mime_type parent_id in
      (r', map_error (wrap (bytes "drive: create folder: ")) res)

unfoldable pub view_link : Str → Str
view_link file_id = bytes "https://drive.google.com/file/d/" ++ (file_id ++ bytes "/view")

unfoldable pub direct_link : Str → Str
direct_link file_id =
    bytes "https://drive.google.com/uc?id=" ++ (file_id ++ bytes "&export=download")
