-- ===== src/Rclone/Arguments.antt =====
-- internal/rclone/rclone.go: the command lines of rclone, and the commands on a remote. Running rclone is
-- a parameter.
use gdrive_bot.Base.{
  Option, none, some, List, [], ◌∷◌, ◌++◌, Str, bytes, str_eq, if◌then◌else◌, ℤ, format_int, Error,
  plain, error_text,
}
use gdrive_bot.Models.{GoogleToken}

-- withConfigFlag
unfoldable pub with_config_flag : Str → List Str → List Str
with_config_flag config_path args = bytes "--config" ∷ config_path ∷ args

-- the token of CreateOrUpdateRemote; `quoted` is `%q`, and the expiry comes formatted
unfoldable pub token_json : (Str → Str) → GoogleToken → Str → Str
token_json quoted token expiry =
    bytes "{\"access_token\":"
    ++ (quoted token.access_token
        ++ (bytes ",\"token_type\":"
            ++ (quoted token.token_type
                ++ (bytes ",\"refresh_token\":"
                    ++ (quoted token.refresh_token
                        ++ (bytes ",\"expiry\":" ++ (quoted expiry ++ bytes "}")))))))

abbrev optional : Str → Str → List Str
optional flag v = if str_eq v [] then [] else flag ∷ v ∷ []

-- the arguments of CreateOrUpdateRemote
unfoldable pub create_args : Str → Str → Str → Str → Str → List Str
unfolding str_eq
create_args remote client_id client_secret json root_folder_id =
    (bytes "config"
      ∷ bytes "create"
      ∷ remote
      ∷ bytes "drive"
      ∷ bytes "client_id"
      ∷ client_id
      ∷ bytes "client_secret"
      ∷ client_secret
      ∷ bytes "scope"
      ∷ bytes "drive"
      ∷ bytes "token"
      ∷ json
      ∷ [])
    ++ optional (bytes "root_folder_id") root_folder_id

-- what a command that ended with an error says
abbrev pub command_error : Str → Str → Error → Error
command_error what output e =
    plain (what ++ (error_text e ++ (bytes " (output: " ++ (output ++ bytes ")"))))

abbrev checked_command : Str → Str × Option Error → Option Error
checked_command what (output, none) = none
checked_command what (output, some e) = some (command_error what output e)

-- CreateOrUpdateRemote, with what running rclone on its arguments answers
unfoldable pub create_or_update_remote :
    (List Str → Str × Option Error)
    → Str
    → (Str → Str)
    → Str
    → Str
    → Str
    → GoogleToken
    → Str
    → Str
    → Option Error
unfolding with_config_flag create_args token_json
create_or_update_remote exec config_path quoted remote client_id client_secret token expiry root =
    checked_command (bytes "rclone: create remote: ") (
      exec (
        with_config_flag config_path
          (create_args remote client_id client_secret (token_json quoted token expiry) root)))

-- RemoveRemote
unfoldable pub remove_remote : (List Str → Str × Option Error) → Str → Str → Option Error
unfolding with_config_flag
remove_remote exec config_path remote =
    checked_command (bytes "rclone: remove remote: ")
      (exec (with_config_flag config_path (bytes "config" ∷ bytes "delete" ∷ remote ∷ [])))

-- the arguments of Upload
unfoldable pub upload_args : Str → Str → Str → Str → ℤ → List Str
unfolding str_eq format_int
upload_args config_path local_path remote dest_folder_id max_retries =
    (bytes "copy"
      ∷ local_path
      ∷ (remote ++ bytes ":")
      ∷ bytes "--config"
      ∷ config_path
      ∷ bytes "--progress"
      ∷ bytes "--stats"
      ∷ bytes "1s"
      ∷ bytes "--stats-one-line"
      ∷ bytes "--transfers"
      ∷ bytes "4"
      ∷ bytes "--checkers"
      ∷ bytes "8"
      ∷ bytes "--drive-chunk-size"
      ∷ bytes "64M"
      ∷ bytes "--drive-upload-cutoff"
      ∷ bytes "64M"
      ∷ bytes "--retries"
      ∷ format_int max_retries
      ∷ bytes "--low-level-retries"
      ∷ bytes "10"
      ∷ bytes "--retries-sleep"
      ∷ bytes "5s"
      ∷ [])
    ++ optional (bytes "--drive-root-folder-id") dest_folder_id
