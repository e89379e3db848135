-- ===== src/Drive/Tests.antt =====
-- A concrete Drive with one file, whose permissions are a list, and searches on it.
use gdrive_bot.Base.{
  ◌≡◌, ◌≢◌, refl, sym, ◌∙◌, ap, none, some, List, [], ◌∷◌, ◌++◌, Str, bytes, str_eq, str_eq_iff, ok,
  ok_inj, inl, inr, arith, true, false, pos,
}
use gdrive_bot.Database.{In}
use gdrive_bot.Drive.{FilesService, DriveFile, Permission, escape_drive_query_string}
use gdrive_bot.Drive.Sharing.{PermissionLaws}
use gdrive_bot.Drive.Query.{read_literal, escape_drive_query_string_injects}

unfoldable pub without : Str → List Permission → List Permission
without id [] = []
without id (p ∷ ps) = elim (str_eq p.id id) [ true ↦ without id ps | false ↦ p ∷ without id ps ]

without-In :
    (id : Str) (p : Permission) (ps : List Permission)
    → In p (without id ps)
    → In p ps × (p.id ≢ id)
unfolding without
without-In id p [] h = absurd h
without-In id p (q ∷ ps) h =
    elim (str_eq q.id id)
        as (λ b.
          str_eq q.id id ≡ b
          → In p (elim b [ true ↦ without id ps | false ↦ q ∷ without id ps ])
          → In p (q ∷ ps) × (p.id ≢ id)) [
            | true ↦ λ _ i. (let (j, n) = without-In id p ps i in (inr j, n))
            | false ↦ λ g i. elim i [
              | inl same ↦
                  (inl same, λ e. cc (g, (str_eq_iff q.id id).1 (ap (λ x. x.id) (sym same) ∙ e)))
              | inr later ↦ (let (j, n) = without-In id p ps later in (inr j, n))
            ]
          ]
      refl h

abbrev pub photo : DriveFile
photo = record {
  id = bytes "f1";
  name = bytes "photo.png";
  mime_type = bytes "image/png";
  size = pos 10;
  parents = [];
}

abbrev pub anyone : Permission
anyone = record { id = bytes "anyoneWithLink"; type = bytes "anyone" }

abbrev pub owner : Permission
owner = record { id = bytes "p0"; type = bytes "user" }

abbrev pub shared : FilesService
shared = record {
  Remote = List Permission;
  list = λ r q n t. ok (photo ∷ [], []);
  get = λ r f. ok photo;
  update_name = λ r f n. (r, none);
  remove = λ r f. ([], none);
  permissions = λ r f. r;
  list_permissions = λ r f. ok r;
  create_permission =
      λ r f type role. (record { id = bytes "anyoneWithLink"; type = type } ∷ r, none);
  delete_permission = λ r f id. (without id r, none);
  create = λ r n t p. (r, ok (bytes "new"));
}

pub shared_laws : PermissionLaws shared
shared_laws = record {
  listed = λ r f ps h. sym (ok_inj h);
  created =
      λ r f type role h. (record { id = bytes "anyoneWithLink"; type = type }, inl refl, refl);
  deleted = λ r f id p h i. without-In id p r i;
}

escape_drive_query_string_injects_example :
    read_literal false (
      escape_drive_query_string (bytes "a" ++ (b'\\' ∷ b'\'' ∷ bytes " or trashed = true"))
      ++ b'\'' ∷ [])
    ≡ some (
      bytes "a" ++ b'\\' ∷ [],
      escape_drive_query_string (bytes " or trashed = true") ++ b'\'' ∷ [],
    )
escape_drive_query_string_injects_example =
    escape_drive_query_string_injects (bytes "a") (bytes " or trashed = true") [] (omega arith)
