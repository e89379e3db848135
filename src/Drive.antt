-- ===== src/Drive.antt =====
-- internal/drive: the Drive client, over an abstract Files and Permissions service. `Remote` is the
-- user's Drive as the service keeps it; a call may fail.
pub mod Query
pub mod Operations
pub mod Sharing
pub mod Tests
use gdrive_bot.Base.{
  ◌==◌, ℕ, zero, ◌==◌, suc, Bool, true, false, ◌||◌, Option, none, some, List, [], ◌∷◌, ◌++◌, map,
  Str, bytes, str_eq, if◌then◌else◌, ℤ, Error, Result, ok, err, map_error, wrap,
}
use gdrive_bot.Models.{BreadcrumbEntry}

-- The fields of a Drive file that the client asks for.
pub record DriveFile : Type 0 where
  pub id : Str
  pub name : Str
  pub mime_type : Str
  pub size : ℤ
  pub parents : List Str

pub record Permission : Type 0 where
  pub id : Str
  pub type : Str

pub record FilesService : Type 1 where
  pub Remote : Type 0
  -- Files.List().Q(q).PageSize(n).PageToken(t): the files and the next page's token
  pub list : Remote → Str → ℤ → Option Str → Result (List DriveFile × Str)
  pub get : Remote → Str → Result DriveFile
  pub update_name : Remote → Str → Str → Remote × Option Error
  pub remove : Remote → Str → Remote × Option Error
  -- Permissions.List, Create and Delete; `permissions` is what the service holds
  pub permissions : Remote → Str → List Permission
  pub list_permissions : Remote → Str → Result (List Permission)
  pub create_permission : Remote → Str → Str → Str → Remote × Option Error
  pub delete_permission : Remote → Str → Str → Remote × Option Error
  -- Files.Create with a name, a type and a parent: the new file's ID
  pub create : Remote → Str → Str → Str → Remote × Result Str

pub record Entry : Type 0 where
  pub id : Str
  pub name : Str
  pub is_folder : Bool
  pub size : ℤ
  pub mime_type : Str

abbrev pub drive_folder_mime_type : Str
drive_folder_mime_type = bytes "application/vnd.google-apps.folder"

-- the row that ListPage and FileMeta make of a file
unfoldable pub entry_of : DriveFile → Entry
entry_of f = record {
  id = f.id;
  name = f.name;
  is_folder = str_eq f.mime_type drive_folder_mime_type;
  size = f.size;
  mime_type = f.mime_type;
}

-- escapeDriveQueryString; a quote is one byte of UTF-8, and no other character holds that byte
unfoldable pub escape_drive_query_string : Str → Str
escape_drive_query_string [] = []
escape_drive_query_string (c ∷ s) =
    let rest = escape_drive_query_string s in if c == b'\'' then b'\\' ∷ c ∷ rest else c ∷ rest

-- The text of the query that ListPage sends.
unfoldable pub list_query : Str → Str → Str
unfolding escape_drive_query_string
list_query folder_id query =
    let folder = if str_eq folder_id [] then bytes "root" else folder_id in
    let q = b'\'' ∷ (folder ++ bytes "' in parents and trashed = false") in
    if str_eq query []
    then q
    else q ++ (bytes " and name contains '" ++ (escape_drive_query_string query ++ b'\'' ∷ []))

abbrev root_crumb : BreadcrumbEntry
root_crumb = record { folder_id = bytes "root"; name = bytes "Root" }

abbrev is_root : Str → Bool
is_root folder_id = str_eq folder_id [] || str_eq folder_id (bytes "root")

abbrev pub bind : {A B : Type 0} → Result A → (A → Result B) → Result B
bind (ok a) f = f a
bind (err e) f = err e

module _ (svc : FilesService) (remote : svc.Remote) where
  unfoldable pub list_page : Str → Str → ℤ → Str → Result (List Entry × Str)
  unfolding list_query
  list_page folder_id query page_size page_token =
      let token : Option Str = if str_eq page_token [] then none else some page_token in
      bind
        (map_error (wrap (bytes "drive: list files: "))
          (svc.list remote (list_query folder_id query) page_size token))
        (λ res. ok (map entry_of res.0, res.1))

  unfoldable pub folder_name : Str → Result Str
  folder_name folder_id =
      if is_root folder_id
      then ok (bytes "Root")
      else bind (map_error (wrap (bytes "drive: get folder name: ")) (svc.get remote folder_id))
          (λ f. ok f.name)

  -- The walk up the parents: at most `fuel` rounds, as `i < 25` allows.
  unfoldable pub climb : ℕ → Str → List BreadcrumbEntry → Result (List BreadcrumbEntry)
  climb zero current chain = ok chain
  climb (suc fuel) current chain = elim (str_eq current []) [
    | true ↦ ok chain
    | false ↦ elim (svc.get remote current) [
      | err e ↦ err (wrap (bytes "drive: breadcrumb walk: ") e)
      | ok f ↦ elim f.parents [
        | [] ↦ ok (record { folder_id = f.id; name = f.name } ∷ chain)
        | p ∷ ps ↦ climb fuel p (record { folder_id = f.id; name = f.name } ∷ chain)
      ]
    ]
  ]

  unfoldable pub build_breadcrumb : Str → Result (List BreadcrumbEntry)
  unfolding climb
  build_breadcrumb folder_id =
      if is_root folder_id
      then ok (root_crumb ∷ [])
      else bind (climb 25 folder_id []) (λ chain. ok (root_crumb ∷ chain))

  unfoldable pub file_meta : Str → Result Entry
  unfolding entry_of
  file_meta file_id =
      bind (map_error (wrap (bytes "drive: get file: ")) (svc.get remote file_id))
        (λ f. ok (entry_of f))
