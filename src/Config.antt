-- ===== src/Config.antt =====
-- internal/config/config.go.
pub mod Usable
pub mod Load
use comments_service.Prelude.{
  ℕ, ◌*◌, Bool, true, false, not, ◌&&◌, ◌||◌, Option, none, some, List, [], ◌∷◌, ◌++◌, ◌==◌,
  if◌then◌else◌, length,
}
use Prim.Native.String.{String}
use comments_service.Prelude.Int.{ℤ, pos, leb_ℤ}
use comments_service.Go.Text.{Text, ascii, text_eq}
use comments_service.Go.Text.Space.{trim_space}

-- A time.Duration is its number of nanoseconds.
abbrev pub Duration : Type 0
Duration = ℤ

abbrev pub seconds : ℕ → Duration
seconds n = pos (n * 1_000_000_000)

pub record HttpConfig : Type 0 where
  pub addr : Text
  pub read_timeout : Duration
  pub write_timeout : Duration
  pub idle_timeout : Duration
  pub shutdown_timeout : Duration

pub record PostgresConfig : Type 0 where
  pub dsn : Text
  pub max_conns : ℤ
  pub min_conns : ℤ

pub record StorageConfig : Type 0 where
  pub backend : Text
  pub postgres : PostgresConfig

pub record GraphqlConfig : Type 0 where
  pub path : Text
  pub playground_path : Text
  pub enable_playground : Bool
  pub enable_introspection : Bool
  pub max_page_size : ℤ
  pub max_depth : ℤ
  pub complexity_limit : ℤ
  pub query_cache_size : ℤ
  pub apq_cache_size : ℤ
  pub parser_token_limit : ℤ
  pub allowed_origins : List Text
  pub websocket_keep_alive : Duration

pub record LoggingConfig : Type 0 where
  pub level : Text
  pub format : Text

pub record SubscriptionConfig : Type 0 where
  pub buffer_size : ℤ
  pub channel_name : Text

pub record Config : Type 0 where
  pub environment : Text
  pub http : HttpConfig
  pub storage : StorageConfig
  pub graphql : GraphqlConfig
  pub logging : LoggingConfig
  pub subscriptions : SubscriptionConfig

pub record ConfigError : Type 0 where
  pub field : Text
  pub message : Text

-- x <= 0
abbrev pub below_one : ℤ → Bool
below_one x = leb_ℤ x (pos 0)

-- if test { return &Error{…} }
abbrev pub refuse_if : Bool → String → String → Option ConfigError → Option ConfigError
refuse_if true field message rest = some (record { field = ascii field; message = ascii message })
refuse_if false field message rest = rest

abbrev pub is_environment : Text → Bool
is_environment t = text_eq t (ascii "local") || text_eq t (ascii "dev") || text_eq t (ascii "prod")

abbrev pub is_backend : Text → Bool
is_backend t = text_eq t (ascii "memory") || text_eq t (ascii "postgres")

abbrev pub bad_timeouts : HttpConfig → Bool
bad_timeouts h =
    below_one h.read_timeout
    || below_one h.write_timeout
    || below_one h.idle_timeout
    || below_one h.shutdown_timeout

abbrev pub bad_pool : PostgresConfig → Bool
bad_pool p =
    below_one p.max_conns || not (leb_ℤ (pos 0) p.min_conns) || not (leb_ℤ p.min_conns p.max_conns)

abbrev pub bad_limits : GraphqlConfig → Bool
bad_limits g = below_one g.max_page_size || below_one g.max_depth || below_one g.complexity_limit

-- Validate; `none` is nil.
unfoldable pub validate : Config → Option ConfigError
validate c =
    refuse_if (not (is_environment c.environment)) "env" "must be one of local, dev, prod" (
      refuse_if (not (is_backend c.storage.backend)) "storage-backend" "must be memory or postgres"
        (refuse_if (text_eq c.http.addr []) "http.addr" "must not be empty" (
          refuse_if (bad_timeouts c.http) "http" "timeouts must be greater than zero" (
            refuse_if
              (text_eq c.storage.backend (ascii "postgres") && text_eq c.storage.postgres.dsn [])
              "postgres.dsn" "must not be empty when postgres backend is selected"
              (refuse_if (bad_pool c.storage.postgres) "postgres.pool"
                "invalid connection pool settings"
                (refuse_if (text_eq c.graphql.path [] || text_eq c.graphql.playground_path [])
                  "graphql.path" "paths must not be empty"
                  (refuse_if (bad_limits c.graphql) "graphql.limits"
                    "limits must be greater than zero"
                    (refuse_if (below_one c.graphql.websocket_keep_alive)
                      "graphql.websocketKeepAlive" "must be greater than zero"
                      (refuse_if
                        (text_eq c.environment (ascii "prod")
                          && (length c.graphql.allowed_origins == 0))
                        "graphql.allowedOrigins" "must not be empty in prod"
                        (refuse_if (below_one c.subscriptions.buffer_size)
                          "subscriptions.bufferSize" "must be greater than zero"
                          (refuse_if (text_eq c.subscriptions.channel_name [])
                            "subscriptions.channelName" "must not be empty" none)))))))))))
