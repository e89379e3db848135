-- ===== src/Config/Laws.antt =====
-- internal/config/config.go: when Load succeeds, and with what.
use gdrive_bot.Base.{
  ◌≡◌, ◌≢◌, ◌↔◌, refl, subst, ap, ◌∙◌, Bool, true, false, Option, none, some, List, [], ◌∷◌, Str,
  bytes, str_eq, str_eq_iff, ℤ, pos, eqb_ℤ, eqb_ℤ_iff, Error, Result, ok, err, Parsed, parsed,
  bad_syntax, out_of_range, parse_int, InInt64, parse_int-InInt64, arith, if◌then◌else◌,
}
use gdrive_bot.Config.{
  Config, missing, listed, validate, validated, parsed_or, parse_int_default, parse_int64_default,
  parse_int64_env, parsed_env, config_of, or_config, loaded, load,
}

-- Every required field is there.
pub record Complete (c : Config) : Type 0 where
  bot_token : c.bot_token ≢ []
  api_hash : c.api_hash ≢ []
  owner_id : c.owner_id ≢ pos 0
  google_client_id : c.google_client_id ≢ []
  google_client_secret : c.google_client_secret ≢ []

str_eq_ne : (s : Str) → (str_eq s [] ≡ false) ↔ (s ≢ [])
str_eq_ne s = ground (arith, str_eq_iff s [])

eqb_ne : (z : ℤ) → (eqb_ℤ z (pos 0) ≡ false) ↔ (z ≢ pos 0)
eqb_ne z = ground (arith, eqb_ℤ_iff z (pos 0))

listed-empty :
    (b : Bool) (name : Str) (names : List Str)
    → (listed b name names ≡ []) ↔ ((b ≡ false) × (names ≡ []))
unfolding listed
listed-empty true name names = ground arith
listed-empty false name names = ground arith

listed_text :
    (s name : Str) (names : List Str)
    → (listed (str_eq s []) name names ≡ []) ↔ ((s ≢ []) × (names ≡ []))
listed_text s name names = ground (arith, listed-empty (str_eq s []) name names, str_eq_ne s)

listed_number :
    (z : ℤ) (name : Str) (names : List Str)
    → (listed (eqb_ℤ z (pos 0)) name names ≡ []) ↔ ((z ≢ pos 0) × (names ≡ []))
listed_number z name names = ground (arith, listed-empty (eqb_ℤ z (pos 0)) name names, eqb_ne z)

missing-empty : (c : Config) → (missing c ≡ []) ↔ Complete c
unfolding missing
missing-empty c = (
  λ e.
      let h1 = (listed_text c.bot_token _ _).0 e in
      let h2 = (listed_text c.api_hash _ _).0 h1.1 in
      let h3 = (listed_number c.owner_id _ _).0 h2.1 in
      let h4 = (listed_text c.google_client_id _ _).0 h3.1 in
      let h5 = (listed_text c.google_client_secret _ _).0 h4.1 in
      record {
        bot_token = h1.0;
        api_hash = h2.0;
        owner_id = h3.0;
        google_client_id = h4.0;
        google_client_secret = h5.0;
      },
  λ k. (listed_text c.bot_token _ _).1 (
    k.bot_token,
    (listed_text c.api_hash _ _).1 (
      k.api_hash,
      (listed_number c.owner_id _ _).1 (
        k.owner_id,
        (listed_text c.google_client_id _ _).1 (
          k.google_client_id,
          (listed_text c.google_client_secret _ _).1 (k.google_client_secret, refl),
        ),
      ),
    ),
  ),
)

validated-none : (names : List Str) → (validated names ≡ none) ↔ (names ≡ [])
unfolding validated
validated-none [] = ground arith
validated-none (s ∷ ss) = ground arith

validate-none : (c : Config) → (validate c ≡ none) ↔ Complete c
unfolding validate
validate-none c = (
  λ e. (missing-empty c).0 ((validated-none (missing c)).0 e),
  λ k. (validated-none (missing c)).1 ((missing-empty c).1 k),
)

parsed_env_ok :
    (getenv quoted : Str → Str) (key v : Str) (p : Parsed) (n : ℤ)
    → (parsed_env getenv quoted key v p ≡ ok n) ↔ (p ≡ parsed n)
unfolding parsed_env
parsed_env_ok getenv quoted key v (parsed m) n = ground arith
parsed_env_ok getenv quoted key v bad_syntax n = ground arith
parsed_env_ok getenv quoted key v (out_of_range m) n = ground arith

parsed_or-InInt64 :
    (n : ℤ) (p : Parsed)
    → InInt64 n
    → ((z : ℤ) → p ≡ parsed z → InInt64 z)
    → InInt64 (parsed_or n p)
unfolding parsed_or
parsed_or-InInt64 n (parsed m) h k = k m refl
parsed_or-InInt64 n bad_syntax h k = h
parsed_or-InInt64 n (out_of_range m) h k = h

if-InInt64 : (b : Bool) (m n : ℤ) → InInt64 m → InInt64 n → InInt64 (if b then m else n)
if-InInt64 true m n hm hn = hm
if-InInt64 false m n hm hn = hn

module _ (getenv quoted : Str → Str) where
  env_ok :
      (key v : Str) (e : Error) (n : ℤ)
      → ((if str_eq v [] then err e else parsed_env getenv quoted key v (parse_int v)) ≡ ok n)
        ↔ (parse_int v ≡ parsed n)
  unfolding parse_int str_eq
  env_ok key [] e n = ground arith
  env_ok key (c ∷ s) e n = parsed_env_ok getenv quoted key (c ∷ s) (parse_int (c ∷ s)) n

  -- A required number is read exactly where ParseInt takes the variable's text; an empty text it does not take.
  parse_int64_env_ok :
      (key : Str) (n : ℤ)
      → (parse_int64_env getenv quoted key ≡ ok n) ↔ (parse_int (getenv key) ≡ parsed n)
  unfolding parse_int64_env
  parse_int64_env_ok key n = env_ok key (getenv key) _ n

  -- The environment has what Load requires.
  pub record Usable : Type 0 where
    bot_token : getenv (bytes "BOT_TOKEN") ≢ []
    api_id : (n : ℤ) × (parse_int (getenv (bytes "API_ID")) ≡ parsed n)
    api_hash : getenv (bytes "API_HASH") ≢ []
    owner_id : (n : ℤ) × (parse_int (getenv (bytes "OWNER_ID")) ≡ parsed n) × (n ≢ pos 0)
    google_client_id : getenv (bytes "GOOGLE_CLIENT_ID") ≢ []
    google_client_secret : getenv (bytes "GOOGLE_CLIENT_SECRET") ≢ []

  or_config_ok :
      (c : Config) (o : Option Error) (c' : Config)
      → (or_config getenv quoted c o ≡ ok c') ↔ ((o ≡ none) × (c ≡ c'))
  or_config_ok c none c' = ground arith
  or_config_ok c (some e) c' = ground arith

  -- What a Load that succeeds read, and that it is what validate wants.
  loaded_ok :
      (api owner : Result ℤ) (c : Config)
      → loaded getenv quoted api owner ≡ ok c
      → (a o : ℤ) × (api ≡ ok a)
        × (owner ≡ ok o)
        × (config_of getenv quoted a o ≡ c)
        × Complete (config_of getenv quoted a o)
  unfolding loaded
  loaded_ok (err e) owner c h = cc
  loaded_ok (ok a) (err e) c h = cc
  loaded_ok (ok a) (ok o) c h =
      let k = (or_config_ok (config_of getenv quoted a o) _ c).0 h in
      (a, o, refl, refl, k.1, (validate-none (config_of getenv quoted a o)).0 k.0)

  loaded_usable :
      (a o : ℤ)
      → o ≢ pos 0
      → Usable
      → loaded getenv quoted (ok a) (ok o) ≡ ok (config_of getenv quoted a o)
  unfolding loaded
  loaded_usable a o ne u =
      let c = config_of getenv quoted a o in
      (or_config_ok c (validate c) c).1 (
        (validate-none c).1 record {
          bot_token = u.bot_token;
          api_hash = u.api_hash;
          owner_id = ne;
          google_client_id = u.google_client_id;
          google_client_secret = u.google_client_secret;
        },
        refl,
      )

  -- Load succeeds exactly where BOT_TOKEN, API_HASH, GOOGLE_CLIENT_ID and GOOGLE_CLIENT_SECRET are not empty, ParseInt takes the texts of API_ID and OWNER_ID, and the owner's number is not 0.
  pub load_iff : ((c : Config) × (load getenv quoted ≡ ok c)) ↔ Usable
  unfolding load
  load_iff = (
    λ r.
        let (a, o, ha, ho, e, k) = loaded_ok _ _ r.0 r.1 in
        record {
          bot_token = k.bot_token;
          api_id = (a, (parse_int64_env_ok _ a).0 ha);
          api_hash = k.api_hash;
          owner_id = (o, (parse_int64_env_ok _ o).0 ho, k.owner_id);
          google_client_id = k.google_client_id;
          google_client_secret = k.google_client_secret;
        },
    λ u.
        let (a, ha) = u.api_id in
        let (o, ho, ne) = u.owner_id in
        let c = config_of getenv quoted a o in
        (
          c,
          ap (λ p. loaded getenv quoted p (parse_int64_env getenv quoted (bytes "OWNER_ID")))
                ((parse_int64_env_ok _ a).1 ha)
              ∙ ap (loaded getenv quoted (ok a)) ((parse_int64_env_ok _ o).1 ho)
              ∙ loaded_usable a o ne u,
        ),
  )

  -- Every number of a configuration that Load returns is an int64.
  record Bounded (c : Config) : Type 0 where
    api_id : InInt64 c.api_id
    owner_id : InInt64 c.owner_id
    redis_db : InInt64 c.redis_db
    default_workers : InInt64 c.default_workers
    default_queue_size : InInt64 c.default_queue_size
    default_download_limit_mb : InInt64 c.default_download_limit_mb
    default_upload_limit_mb : InInt64 c.default_upload_limit_mb

  default-InInt64 :
      (key : Str) (n : ℤ) → InInt64 n → InInt64 (parse_int_default getenv quoted key n)
  unfolding parse_int_default
  default-InInt64 key n h =
      if-InInt64 (str_eq (getenv key) []) n _ h
        (parsed_or-InInt64 n (parse_int (getenv key)) h (parse_int-InInt64 (getenv key)))

  default64-InInt64 :
      (key : Str) (n : ℤ) → InInt64 n → InInt64 (parse_int64_default getenv quoted key n)
  unfolding parse_int64_default
  default64-InInt64 key n h =
      if-InInt64 (str_eq (getenv key) []) n _ h
        (parsed_or-InInt64 n (parse_int (getenv key)) h (parse_int-InInt64 (getenv key)))

  -- Every number of a configuration that Load returns is an int64, whatever the environment says.
  load-Bounded : (c : Config) → load getenv quoted ≡ ok c → Bounded c
  unfolding load
  load-Bounded c h =
      let (a, o, ha, ho, e, k) = loaded_ok _ _ c h in
      subst Bounded e record {
        api_id = parse_int-InInt64 (getenv (bytes "API_ID")) a ((parse_int64_env_ok _ a).0 ha);
        owner_id = parse_int-InInt64 (getenv (bytes "OWNER_ID")) o ((parse_int64_env_ok _ o).0 ho);
        redis_db = default-InInt64 _ (pos 0) (omega arith);
        default_workers = default-InInt64 _ (pos 4) (omega arith);
        default_queue_size = default-InInt64 _ (pos 50) (omega arith);
        default_download_limit_mb = default64-InInt64 _ (pos 0) (omega arith);
        default_upload_limit_mb = default64-InInt64 _ (pos 0) (omega arith);
      }
