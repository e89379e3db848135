-- ===== src/Config.antt =====
-- internal/config/config.go: the static configuration as a function of the environment, `getenv`, which
-- is os.Getenv after godotenv.Load. `quoted` is `%q`.
pub mod Laws
pub mod Tests
use gdrive_bot.Base.{
  Bool, true, false, Option, none, some, List, [], ◌∷◌, ◌++◌, Str, bytes, str_eq, if◌then◌else◌, ℤ,
  pos, eqb_ℤ, Error, plain, wrap, Result, ok, err, Parsed, parsed, bad_syntax, out_of_range,
  parse_int,
}

pub record Config : Type 0 where
  pub bot_token : Str
  pub api_id : ℤ
  pub api_hash : Str
  pub owner_id : ℤ
  pub google_client_id : Str
  pub google_client_secret : Str
  pub google_redirect_uri : Str
  pub mongo_uri : Str
  pub mongo_db_name : Str
  pub redis_addr : Str
  pub redis_password : Str
  pub redis_db : ℤ
  pub rclone_config_path : Str
  pub rclone_path : Str
  pub default_workers : ℤ
  pub default_queue_size : ℤ
  pub default_download_limit_mb : ℤ
  pub default_upload_limit_mb : ℤ
  pub download_dir : Str
  pub log_dir : Str
  pub log_level : Str

unfoldable pub listed : Bool → Str → List Str → List Str
listed true name names = name ∷ names
listed false name names = names

-- the names that validate finds missing
unfoldable pub missing : Config → List Str
unfolding str_eq listed
missing c = listed (str_eq c.bot_token []) (bytes "BOT_TOKEN") (
    listed (str_eq c.api_hash []) (bytes "API_HASH") (
      listed (eqb_ℤ c.owner_id (pos 0)) (bytes "OWNER_ID") (
        listed (str_eq c.google_client_id []) (bytes "GOOGLE_CLIENT_ID")
          (listed (str_eq c.google_client_secret []) (bytes "GOOGLE_CLIENT_SECRET") []))))

-- `%v` of a slice of strings
abbrev spaced : List Str → Str
spaced [] = bytes "]"
spaced (s ∷ ss) = b' ' ∷ (s ++ spaced ss)

abbrev format_names : Str → List Str → Str
format_names s ss = b'[' ∷ (s ++ spaced ss)

unfoldable pub validated : List Str → Option Error
validated [] = none
validated (s ∷ ss) =
    some (plain (bytes "config: missing required environment variables: " ++ format_names s ss))

unfoldable pub validate : Config → Option Error
unfolding missing validated
validate c = validated (missing c)

unfoldable pub parsed_or : ℤ → Parsed → ℤ
parsed_or fallback (parsed n) = n
parsed_or fallback bad_syntax = fallback
parsed_or fallback (out_of_range n) = fallback

module _ (getenv quoted : Str → Str) where
  unfoldable pub get_env_default : Str → Str → Str
  unfolding str_eq
  get_env_default key fallback = if str_eq (getenv key) [] then fallback else getenv key

  unfoldable pub parse_int_default : Str → ℤ → ℤ
  unfolding str_eq parse_int parsed_or
  parse_int_default key fallback =
      if str_eq (getenv key) [] then fallback else parsed_or fallback (parse_int (getenv key))

  unfoldable pub parse_int64_default : Str → ℤ → ℤ
  unfolding str_eq parse_int parsed_or
  parse_int64_default key fallback =
      if str_eq (getenv key) [] then fallback else parsed_or fallback (parse_int (getenv key))

  -- what ParseInt's error says
  abbrev pub num_error : Str → Str → Error
  num_error v reason =
      plain (bytes "strconv.ParseInt: parsing " ++ (quoted v ++ (bytes ": " ++ reason)))

  unfoldable pub parsed_env : Str → Str → Parsed → Result ℤ
  unfolding wrap
  parsed_env key v (parsed n) = ok n
  parsed_env key v bad_syntax = err (
      wrap (bytes "config: " ++ (key ++ bytes " must be an integer: "))
        (num_error v (bytes "invalid syntax")))
  parsed_env key v (out_of_range n) = err (
      wrap (bytes "config: " ++ (key ++ bytes " must be an integer: "))
        (num_error v (bytes "value out of range")))

  unfoldable pub parse_int64_env : Str → Result ℤ
  unfolding str_eq parse_int parsed_env
  parse_int64_env key =
      if str_eq (getenv key) []
      then err (plain (bytes "config: " ++ (key ++ bytes " is required")))
      else parsed_env key (getenv key) (parse_int (getenv key))

  -- the configuration with the two required numbers
  unfoldable pub config_of : ℤ → ℤ → Config
  unfolding get_env_default parse_int_default parse_int64_default
  config_of api_id owner_id = record {
    bot_token = getenv (bytes "BOT_TOKEN");
    api_id = api_id;
    api_hash = getenv (bytes "API_HASH");
    owner_id = owner_id;
    google_client_id = getenv (bytes "GOOGLE_CLIENT_ID");
    google_client_secret = getenv (bytes "GOOGLE_CLIENT_SECRET");
    google_redirect_uri =
        get_env_default (bytes "GOOGLE_REDIRECT_URI") (bytes "http://127.0.0.1:1/");
    mongo_uri = get_env_default (bytes "MONGO_URI") (bytes "mongodb://localhost:27017");
    mongo_db_name = get_env_default (bytes "MONGO_DB_NAME") (bytes "gdrive_bot");
    redis_addr = getenv (bytes "REDIS_ADDR");
    redis_password = getenv (bytes "REDIS_PASSWORD");
    redis_db = parse_int_default (bytes "REDIS_DB") (pos 0);
    rclone_config_path =
        get_env_default (bytes "RCLONE_CONFIG_PATH") (bytes "./config/rclone.conf");
    rclone_path = get_env_default (bytes "RCLONE_PATH") (bytes "rclone");
    default_workers = parse_int_default (bytes "DEFAULT_WORKERS") (pos 4);
    default_queue_size = parse_int_default (bytes "DEFAULT_QUEUE_SIZE") (pos 50);
    default_download_limit_mb = parse_int64_default (bytes "DEFAULT_DOWNLOAD_LIMIT_MB") (pos 0);
    default_upload_limit_mb = parse_int64_default (bytes "DEFAULT_UPLOAD_LIMIT_MB") (pos 0);
    download_dir = get_env_default (bytes "DOWNLOAD_DIR") (bytes "./downloads");
    log_dir = get_env_default (bytes "LOG_DIR") (bytes "./logs");
    log_level = get_env_default (bytes "LOG_LEVEL") (bytes "info");
  }

  abbrev pub or_config : Config → Option Error → Result Config
  or_config c none = ok c
  or_config c (some e) = err e

  unfoldable pub loaded : Result ℤ → Result ℤ → Result Config
  unfolding config_of validate
  loaded (err e) owner = err e
  loaded (ok api) (err e) = err e
  loaded (ok api) (ok owner) = or_config (config_of api owner) (validate (config_of api owner))

  -- Load
  unfoldable pub load : Result Config
  unfolding loaded parse_int64_env
  load = loaded (parse_int64_env (bytes "API_ID")) (parse_int64_env (bytes "OWNER_ID"))
