-- ===== src/Di.antt =====
-- internal/di: the container that puts the service together, and its errors.
pub mod Init
pub mod Build
pub mod Lifecycle
use comments_service.Prelude.{ℕ, Bool, Option, none, some, List, [], ◌++◌, if◌then◌else◌}
use comments_service.Prelude.Int.{ℤ}
use comments_service.Go.Text.{Text, ascii, text_eq}
use comments_service.Config.{Config, ConfigError, HttpConfig, Duration}

-- The errors of this package, with those of the configuration and of other packages, these by their
-- text. A LifecycleError holds a list of errors.
mutual
  pub data DiError : Type 0 where
    config_error : ConfigError → DiError
    di_error : Text → Text → DiError
    missing_dependency : Text → DiError
    init_error build_error : Text → DiError → DiError
    lifecycle_error : Text → DiErrors → DiError
    foreign : Text → DiError

  pub data DiErrors : Type 0 where
    nothing : DiErrors
    first_of : DiError → DiErrors → DiErrors

-- append(errs, err)
unfoldable pub append_error : DiErrors → DiError → DiErrors
append_error nothing e = first_of e nothing
append_error (first_of f errors) e = first_of f (append_error errors e)

-- field + ": " + message, or the message alone where the field is empty
abbrev labelled : Text → Text → Text
labelled field message = if text_eq field [] then message else field ++ ascii ": " ++ message

-- err.Error()
unfoldable pub di_error_text : DiError → Text
di_error_text (config_error e) = labelled e.field e.message
di_error_text (di_error field message) = labelled field message
di_error_text (missing_dependency dependency) = ascii "missing dependency: " ++ dependency
di_error_text (init_error component e) = ascii "init " ++ component ++ ascii ": " ++ di_error_text e
di_error_text (build_error component e) =
    ascii "build " ++ component ++ ascii ": " ++ di_error_text e
di_error_text (lifecycle_error operation nothing) = operation ++ ascii " failed"
di_error_text (lifecycle_error operation (first_of e rest)) =
    operation ++ ascii " failed: " ++ di_error_text e
di_error_text (foreign message) = message

-- Stores, buses, pools and loggers are known by their addresses.
abbrev pub Address : Type 0
Address = ℕ

-- What stands behind an interface of the application: an adapter, or one that was set from outside.
pub data PostRepository : Type 0 where
  memory_posts postgres_posts given_posts : Address → PostRepository

pub data CommentRepository : Type 0 where
  memory_comments postgres_comments given_comments : Address → CommentRepository

pub data TxManager : Type 0 where
  memory_tx : TxManager
  postgres_tx given_tx : Address → TxManager

pub data CommentEvents : Type 0 where
  memory_bus postgres_bus given_events : Address → CommentEvents

-- The services, with what NewPostsService and NewCommentsService are given.
pub record PostsService : Type 0 where
  pub posts : PostRepository
  pub tx : TxManager

pub record CommentsService : Type 0 where
  pub posts : PostRepository
  pub comments : CommentRepository
  pub tx : TxManager
  pub events : CommentEvents

-- graphql.ServerConfig
pub record ServerConfig : Type 0 where
  pub max_page_size : ℤ
  pub max_depth : ℤ
  pub complexity_limit : ℤ
  pub query_cache_size : ℤ
  pub apq_cache_size : ℤ
  pub parser_token_limit : ℤ
  pub enable_introspection : Bool
  pub allowed_origins : List Text
  pub websocket_keep_alive : Duration

-- The handlers: NewHandler's, over a NewResolver of these parts, NewPlaygroundHandler's, or one that was
-- set from outside.
pub data Handler : Type 0 where
  graphql_of :
      ServerConfig → PostsService → CommentsService → CommentEvents → Option Address → Handler
  playground_at : Text → Handler
  given_handler : Address → Handler

-- httpserver.New, with what it is given.
pub record HttpServer : Type 0 where
  pub config : HttpConfig
  pub graphql_path : Text
  pub graphql : Handler
  pub playground_path : Text
  pub playground : Option Handler
  pub health_pool : Option Address
  pub logger : Option Address

-- A closer, as the function that it is.
abbrev pub Closer : Type 0 → Type 0
Closer W = W → Option DiError × W

-- Container; nil is `none`. The health check is the pool that it pings.
pub record Container (W : Type 0) : Type 0 where
  pub config : Config
  pub logger : Option Address
  pub pool : Option Address
  pub memory_store : Option Address
  pub health_check : Option Address
  pub closers : List (Option (Closer W))
  pub post_repository : Option PostRepository
  pub comment_repository : Option CommentRepository
  pub tx_manager : Option TxManager
  pub events : Option CommentEvents
  pub posts_service : Option PostsService
  -- CommentsService
  pub service_of_comments : Option CommentsService
  pub graphql_handler : Option Handler
  pub playground_handler : Option Handler
  pub http_server : Option HttpServer
  pub closed : Bool

-- What the container asks of the rest of the process: memory to allocate, the package pgxpool, the
-- buses, and of the package net/http the server's Shutdown and the multiplexer.
pub record Platform (W : Type 0) : Type 0 where
  pub default_logger : Address
  pub new_store : W → Address × W
  pub new_bus : ℤ → W → Address × W
  pub close_bus : Address → Closer W
  pub parse_config : Text → Option DiError
  pub open_pool : Text → ℤ → ℤ → W → (Option DiError × Address) × W
  pub close_pool : Address → W → W
  pub start_events : Text → Address → Text → ℤ → Option Address → W → (Option DiError × Address) × W
  pub close_events : Address → Closer W
  pub shutdown_server : HttpServer → Closer W
  -- Whether a new http.ServeMux takes these patterns, one after another; where it does not, Handle panics.
  pub takes_routes : List Text → Bool

-- withDefaultLogger
unfoldable pub with_default_logger : {W : Type 0} → Platform W → Option Address → Option Address
with_default_logger platform (some logger) = some logger
with_default_logger platform none = some platform.default_logger
