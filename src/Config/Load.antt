-- ===== src/Config/Load.antt =====
-- Load of internal/config/config.go, and the readers of environment variables. What the package strconv,
-- time.ParseDuration, os.Getenv and the package flag give is taken as a parameter.
use Prim.Native.String.{String}
use comments_service.Prelude.{
  ℕ, ◌≡◌, Bool, not, Option, none, some, List, [], ◌∷◌, ◌==◌, if◌then◌else◌, filter, map, arith,
  Option-cases, inl, inr,
}
use comments_service.Prelude.Int.{ℤ, pos}
use comments_service.Go.Text.{Text, ascii, text_eq}
use comments_service.Go.Text.Space.{trim_space}
use comments_service.Config.{Config, ConfigError, Duration, seconds, validate}
use comments_service.Config.Usable.{IsUsable, validate-IsUsable}

-- The three values that the command line sets.
pub record Flags : Type 0 where
  pub environment : Text
  pub backend : Text
  pub addr : Text

pub record Environment : Type 0 where
  -- os.Getenv
  pub get_env : Text → Text
  -- strconv.Atoi, strconv.ParseInt(·, 10, 32), strconv.ParseBool and time.ParseDuration
  pub atoi : Text → Option ℤ
  pub parse_int_32 : Text → Option ℤ
  pub parse_bool : Text → Option Bool
  pub parse_duration : Text → Option Duration
  -- flags.Parse, from the arguments and the defaults
  pub parse_flags : List Text → Flags → Option Flags

abbrev pub or_else : {A : Type 0} → A → Option A → A
or_else fallback none = fallback
or_else fallback (some v) = v

abbrev cons_first : ℕ → List Text → List Text
cons_first b [] = (b ∷ []) ∷ []
cons_first b (part ∷ parts) = (b ∷ part) ∷ parts

-- strings.Split(value, ",")
unfoldable pub split_commas : Text → List Text
split_commas [] = [] ∷ []
split_commas (b ∷ t) =
    let parts = split_commas t in if b == 44 then [] ∷ parts else cons_first b parts

abbrev pub default_origins : Text → List Text
default_origins environment =
    if text_eq environment (ascii "prod")
    then []
    else ascii "http://localhost:3000"
      ∷ ascii "http://127.0.0.1:3000"
      ∷ ascii "http://localhost:8080"
      ∷ ascii "http://127.0.0.1:8080"
      ∷ []

abbrev pub default_log_level : Text → Text
default_log_level environment =
    if text_eq environment (ascii "local") then ascii "debug" else ascii "info"

abbrev pub default_log_format : Text → Text
default_log_format environment =
    if text_eq environment (ascii "prod") then ascii "json" else ascii "text"

pub data Loaded : Type 0 where
  loaded : Config → Loaded
  refused : ConfigError → Loaded
  bad_flags : Loaded

module _ (e : Environment) where
  abbrev pub value_of : String → Text
  value_of key = trim_space (e.get_env (ascii key))

  abbrev pub env_string : String → Text → Text
  env_string key fallback = if text_eq (value_of key) [] then fallback else value_of key

  abbrev pub env_int : String → ℤ → ℤ
  env_int key fallback =
      if text_eq (value_of key) [] then fallback else or_else fallback (e.atoi (value_of key))

  abbrev pub env_int_32 : String → ℤ → ℤ
  env_int_32 key fallback =
      if text_eq (value_of key) []
      then fallback
      else or_else fallback (e.parse_int_32 (value_of key))

  abbrev pub env_bool : String → Bool → Bool
  env_bool key fallback =
      if text_eq (value_of key) [] then fallback else or_else fallback (e.parse_bool (value_of key))

  abbrev pub env_duration : String → Duration → Duration
  env_duration key fallback =
      if text_eq (value_of key) []
      then fallback
      else or_else fallback (e.parse_duration (value_of key))

  unfoldable pub env_csv : String → List Text → List Text
  env_csv key fallback =
      if text_eq (value_of key) []
      then fallback
      else filter (λ part. not (text_eq part [])) (map trim_space (split_commas (value_of key)))

  -- What Load starts the flags from.
  abbrev pub default_flags : Flags
  default_flags = record {
    environment = env_string "COMMENT_SERVICE_ENV" (ascii "local");
    backend = env_string "COMMENT_SERVICE_STORAGE_BACKEND" (ascii "memory");
    addr = env_string "COMMENT_SERVICE_HTTP_ADDR" (ascii ":8080");
  }

  -- The configuration that Load puts together.
  unfoldable pub config_of : Flags → Config
  config_of flags =
      let default_environment = default_flags.environment in
      record {
        environment = flags.environment;
        http = record {
          addr = flags.addr;
          read_timeout = env_duration "COMMENT_SERVICE_HTTP_READ_TIMEOUT" (seconds 10);
          write_timeout = env_duration "COMMENT_SERVICE_HTTP_WRITE_TIMEOUT" (seconds 15);
          idle_timeout = env_duration "COMMENT_SERVICE_HTTP_IDLE_TIMEOUT" (seconds 60);
          shutdown_timeout = env_duration "COMMENT_SERVICE_HTTP_SHUTDOWN_TIMEOUT" (seconds 15);
        };
        storage = record {
          backend = flags.backend;
          postgres = record {
            dsn = env_string "COMMENT_SERVICE_POSTGRES_DSN" [];
            max_conns = env_int_32 "COMMENT_SERVICE_POSTGRES_MAX_CONNS" (pos 10);
            min_conns = env_int_32 "COMMENT_SERVICE_POSTGRES_MIN_CONNS" (pos 1);
          };
        };
        graphql = record {
          path = env_string "COMMENT_SERVICE_GRAPHQL_PATH" (ascii "/query");
          playground_path =
              env_string "COMMENT_SERVICE_GRAPHQL_PLAYGROUND_PATH" (ascii "/playground");
          enable_playground =
              env_bool "COMMENT_SERVICE_GRAPHQL_ENABLE_PLAYGROUND"
                (not (text_eq default_environment (ascii "prod")));
          enable_introspection =
              env_bool "COMMENT_SERVICE_GRAPHQL_ENABLE_INTROSPECTION"
                (not (text_eq default_environment (ascii "prod")));
          max_page_size = env_int "COMMENT_SERVICE_GRAPHQL_MAX_PAGE_SIZE" (pos 100);
          max_depth = env_int "COMMENT_SERVICE_GRAPHQL_MAX_DEPTH" (pos 12);
          complexity_limit = env_int "COMMENT_SERVICE_GRAPHQL_COMPLEXITY_LIMIT" (pos 500);
          query_cache_size = env_int "COMMENT_SERVICE_GRAPHQL_QUERY_CACHE_SIZE" (pos 1000);
          apq_cache_size = env_int "COMMENT_SERVICE_GRAPHQL_APQ_CACHE_SIZE" (pos 100);
          parser_token_limit = env_int "COMMENT_SERVICE_GRAPHQL_PARSER_TOKEN_LIMIT" (pos 10000);
          allowed_origins =
              env_csv "COMMENT_SERVICE_GRAPHQL_ALLOWED_ORIGINS"
                (default_origins default_environment);
          websocket_keep_alive =
              env_duration "COMMENT_SERVICE_GRAPHQL_WEBSOCKET_KEEPALIVE" (seconds 15);
        };
        logging = record {
          level = env_string "COMMENT_SERVICE_LOG_LEVEL" (default_log_level default_environment);
          format = env_string "COMMENT_SERVICE_LOG_FORMAT" (default_log_format default_environment);
        };
        subscriptions = record {
          buffer_size = env_int "COMMENT_SERVICE_SUBSCRIPTIONS_BUFFER_SIZE" (pos 16);
          channel_name =
              env_string "COMMENT_SERVICE_SUBSCRIPTIONS_CHANNEL_NAME" (ascii "comment_events");
        };
      }

  abbrev pub checked : Config → Option ConfigError → Loaded
  checked config none = loaded config
  checked config (some error) = refused error

  abbrev pub load_flags : Option Flags → Loaded
  load_flags none = bad_flags
  load_flags (some flags) = checked (config_of flags) (validate (config_of flags))

  unfoldable pub load : List Text → Loaded
  load args = load_flags (e.parse_flags args default_flags)

  checked-loaded :
      (d c : Config) (r : Option ConfigError) → checked d r ≡ loaded c → (r ≡ none) × (d ≡ c)
  checked-loaded d c r h = (ground arith, ground arith)

  -- Whatever the environment and the arguments are, a configuration that Load returns has a known
  -- environment and backend, an address, paths and a channel that are not empty, timeouts, limits on pages,
  -- depth and complexity, a keep-alive interval and a buffer of at least one, an ascending range of
  -- connections, a data source if the backend is postgres, and allowed origins if the environment is prod.
  pub load-IsUsable : (args : List Text) (c : Config) → load args ≡ loaded c → IsUsable c
  unfolding load
  load-IsUsable args c h = elim (Option-cases (e.parse_flags args default_flags)) [
    | inl bad ↦ absurd (ground arith)
    | inr (flags, found) ↦
        let (valid, same) =
          checked-loaded (config_of flags) c (validate (config_of flags)) (rw (load, found) at h) in
        rw same at (validate-IsUsable (config_of flags) valid)
  ]
