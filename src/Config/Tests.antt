-- ===== src/Config/Tests.antt =====
-- The configuration of small environments.
use gdrive_bot.Base.{
  ◌≡◌, refl, ◌↔◌, List, [], ◌∷◌, Str, bytes, str_eq, if◌then◌else◌, pos, negsuc, ok, err, plain,
  parse_int, uint_from, parse_uint, with_sign,
}
use gdrive_bot.Config.{
  Config, missing, listed, validate, validated, parsed_or, parse_int_default, parse_int64_default,
  parse_int64_env, parsed_env, config_of, loaded, load,
}
use gdrive_bot.Config.Laws.{Usable, load_iff}

abbrev getenv_of : List (Str × Str) → Str → Str
getenv_of [] key = []
getenv_of ((k, v) ∷ vars) key = if str_eq k key then v else getenv_of vars key

abbrev quote : Str → Str
quote s = b'"' ∷ s

-- the queue size is no number, and the limit no int64
abbrev variables : List (Str × Str)
variables =
    (bytes "BOT_TOKEN", bytes "t")
    ∷ (bytes "API_ID", bytes "-7")
    ∷ (bytes "API_HASH", bytes "h")
    ∷ (bytes "OWNER_ID", bytes "+42")
    ∷ (bytes "GOOGLE_CLIENT_ID", bytes "i")
    ∷ (bytes "GOOGLE_CLIENT_SECRET", bytes "s")
    ∷ (bytes "DEFAULT_QUEUE_SIZE", bytes "many")
    ∷ (bytes "DEFAULT_UPLOAD_LIMIT_MB", bytes "9223372036854775808")
    ∷ []

abbrev getenv : Str → Str
getenv = getenv_of variables

abbrev loaded_config : Config
loaded_config = config_of getenv quote (negsuc 6) (pos 42)

load_runs : load getenv quote ≡ ok loaded_config
unfolding load loaded parse_int64_env parsed_env parse_int parse_uint with_sign uint_from str_eq
    config_of validate validated missing listed
load_runs = refl

defaults_used :
    (loaded_config.default_queue_size ≡ pos 50) × (loaded_config.default_upload_limit_mb ≡ pos 0)
unfolding config_of parse_int_default parse_int64_default parsed_or parse_int parse_uint with_sign
    uint_from str_eq
defaults_used = (refl, refl)

-- what the theorem says of this environment
abbrev LoadIff : Type 0
LoadIff = ((c : Config) × (load getenv quote ≡ ok c)) ↔ Usable getenv quote

load_iff_example : LoadIff
load_iff_example = load_iff getenv quote

-- the missing names in their order
nothing_set :
    load (getenv_of ((bytes "API_ID", bytes "1") ∷ (bytes "OWNER_ID", bytes "0") ∷ [])) quote
    ≡ err (
        plain (
          bytes
            "config: missing required environment variables: [BOT_TOKEN API_HASH OWNER_ID GOOGLE_CLIENT_ID GOOGLE_CLIENT_SECRET]"))
unfolding load loaded parse_int64_env parsed_env parse_int parse_uint with_sign uint_from str_eq
    config_of validate validated missing listed
nothing_set = refl

not_a_number :
    load (getenv_of ((bytes "API_ID", bytes "1x") ∷ [])) quote
    ≡ err (
        plain (
          bytes
            "config: API_ID must be an integer: strconv.ParseInt: parsing \"1x: invalid syntax"))
unfolding load loaded parse_int64_env parsed_env parse_int parse_uint with_sign uint_from str_eq
    config_of validate validated missing listed
not_a_number = refl
