-- ===== src/Di/Build.antt =====
-- internal/di/container.go: Build and its steps.
pub mod Steps
pub mod Wired
pub mod Backends
pub mod Started
use comments_service.Prelude.{
  Bool, true, false, not, ◌&&◌, Option, none, some, List, [], ◌∷◌, if◌then◌else◌,
}
use comments_service.Go.Text.{Text, ascii, text_eq}
use comments_service.Di.{
  DiError, missing_dependency, build_error, Address, PostRepository, memory_posts, postgres_posts,
  CommentRepository, memory_comments, postgres_comments, TxManager, CommentEvents, PostsService,
  CommentsService, ServerConfig, Handler, graphql_of, playground_at, HttpServer, Container,
  Platform, with_default_logger,
}
use comments_service.Di.Init.{or_set, validate_base_dependencies}

-- How a step ends: it returns nil or an error, or it panics.
pub data Ending : Type 0 where
  completed : Ending
  stopped : DiError → Ending
  panicked : Ending

-- The ending of a step, and the container that it leaves.
abbrev pub Step : Type 0 → Type 0
Step W = Container W → Ending × Container W

abbrev pub missing : {W : Type 0} → Text → Container W → Ending × Container W
missing dependency c = (stopped (missing_dependency dependency), c)

-- field != nil
abbrev pub is_set : {A : Type 0} → Option A → Bool
is_set none = false
is_set (some a) = true

-- if field == nil { return &MissingDependencyError{…} }
abbrev pub need :
    {W A : Type 0}
    → Option A
    → Text
    → Container W
    → (A → Ending × Container W)
    → Ending × Container W
need none dependency c rest = missing dependency c
need (some a) dependency c rest = rest a

-- The rest of a step, on the container that its first part leaves.
abbrev pub continue : {W : Type 0} → Ending × Container W → Step W → Ending × Container W
continue (stopped e, c) step = (stopped e, c)
continue (panicked, c) step = (panicked, c)
continue (completed, c) step = step c

-- if err := step.fn(); err != nil { return &BuildError{…} }
abbrev pub after_step : {W : Type 0} → Text → Ending × Container W → Step W → Ending × Container W
after_step name (stopped cause, c) rest = (stopped (build_error name cause), c)
after_step name (panicked, c) rest = (panicked, c)
after_step name (completed, c) rest = rest c

module _ {W : Type 0} where
  abbrev set_repositories : Container W → PostRepository → CommentRepository → Ending × Container W
  set_repositories c posts comments = (
    completed,
    record c {
      post_repository = or_set c.post_repository posts;
      comment_repository = or_set c.comment_repository comments;
    },
  )

  -- The switch on the backend.
  unfoldable pub choose_repositories : Step W
  choose_repositories c =
      if text_eq c.config.storage.backend (ascii "memory")
      then need c.memory_store (ascii "memory store") c
          (λ store. set_repositories c (memory_posts store) (memory_comments store))
      else if text_eq c.config.storage.backend (ascii "postgres")
      then need c.pool (ascii "postgres pool") c
          (λ pool. set_repositories c (postgres_posts pool) (postgres_comments pool))
      else need c.post_repository (ascii "post repository") c (λ posts.
        need c.comment_repository (ascii "comment repository") c (λ comments. (completed, c)))

  unfoldable pub build_repositories : Step W
  unfolding choose_repositories
  build_repositories c =
      if is_set c.post_repository && is_set c.comment_repository
      then (completed, c)
      else choose_repositories c

  -- The first half of buildServices.
  unfoldable pub build_posts_service : Step W
  build_posts_service c = elim c.posts_service [
    | some service ↦ (completed, c)
    | none ↦ need c.post_repository (ascii "post repository") c (λ posts.
        need c.tx_manager (ascii "tx manager") c (λ tx.
          (completed, record c { posts_service = some (record { posts = posts; tx = tx }) })))
  ]

  -- The second half.
  unfoldable pub build_comments_service : Step W
  build_comments_service c = elim c.service_of_comments [
    | some service ↦ (completed, c)
    | none ↦ need c.post_repository (ascii "post repository") c (λ posts.
        need c.comment_repository (ascii "comment repository") c (λ comments.
          need c.tx_manager (ascii "tx manager") c (λ tx.
            need c.events (ascii "comment events") c (λ events. (
              completed,
              record c {
                service_of_comments =
                    some (record { posts = posts; comments = comments; tx = tx; events = events });
              },
            )))))
  ]

  unfoldable pub build_services : Step W
  unfolding build_posts_service build_comments_service
  build_services c = continue (build_posts_service c) build_comments_service

  abbrev pub server_config : Container W → ServerConfig
  server_config c = record {
    max_page_size = c.config.graphql.max_page_size;
    max_depth = c.config.graphql.max_depth;
    complexity_limit = c.config.graphql.complexity_limit;
    query_cache_size = c.config.graphql.query_cache_size;
    apq_cache_size = c.config.graphql.apq_cache_size;
    parser_token_limit = c.config.graphql.parser_token_limit;
    enable_introspection = c.config.graphql.enable_introspection;
    allowed_origins = c.config.graphql.allowed_origins;
    websocket_keep_alive = c.config.graphql.websocket_keep_alive;
  }

  unfoldable pub build_graphql : Step W
  build_graphql c = elim c.graphql_handler [
    | some handler ↦ (completed, c)
    | none ↦ need c.posts_service (ascii "posts service") c (λ posts.
        need c.service_of_comments (ascii "comments service") c (λ comments.
          need c.events (ascii "comment events") c (λ events. (
            completed,
            record c {
              graphql_handler = some (graphql_of (server_config c) posts comments events c.logger);
            },
          ))))
  ]

  -- if c.PlaygroundHandler == nil && c.Config.GraphQL.EnablePlayground { … }
  abbrev pub with_playground : Container W → Container W
  with_playground c =
      if not (is_set c.playground_handler) && c.config.graphql.enable_playground
      then record c { playground_handler = some (playground_at c.config.graphql.path) }
      else c

  abbrev pub with_server : Handler → Container W → Container W
  with_server graphql c = record c {
    http_server = some (record {
      config = c.config.http;
      graphql_path = c.config.graphql.path;
      graphql = graphql;
      playground_path = c.config.graphql.playground_path;
      playground = c.playground_handler;
      health_pool = c.health_check;
      logger = c.logger;
    });
  }

  -- The patterns that httpserver.New registers, in its order.
  abbrev pub routes : Container W → List Text
  routes c =
      c.config.graphql.path
      ∷ (if is_set c.playground_handler
          then c.config.graphql.playground_path ∷ ascii "/healthz" ∷ []
          else ascii "/healthz" ∷ [])

  -- c.HTTPServer = httpserver.New(…), which panics where its multiplexer does.
  abbrev pub serve : Platform W → Handler → Container W → Ending × Container W
  serve platform graphql c =
      if platform.takes_routes (routes c) then (completed, with_server graphql c) else (panicked, c)

  unfoldable pub build_http : Platform W → Step W
  build_http platform c = elim c.http_server [
    | some server ↦ (completed, c)
    | none ↦
        need c.graphql_handler (ascii "graphql handler") c
          (λ graphql. serve platform graphql (with_playground c))
  ]

  -- The steps of Build, by name.
  abbrev pub steps : Platform W → List (Text × Step W)
  steps platform =
      (ascii "repositories", build_repositories)
      ∷ (ascii "services", build_services)
      ∷ (ascii "graphql", build_graphql)
      ∷ (ascii "http", build_http platform)
      ∷ []

  unfoldable pub run_steps : List (Text × Step W) → Step W
  run_steps [] c = (completed, c)
  run_steps ((name, step) ∷ rest) c = after_step name (step c) (run_steps rest)

  unfoldable pub build : Platform W → Step W
  unfolding validate_base_dependencies with_default_logger run_steps
  build platform c =
      let c' : Container W = record c { logger = with_default_logger platform c.logger } in
      elim (validate_base_dependencies platform c') [
        | some e ↦ (stopped e, c')
        | none ↦ run_steps (steps platform) c'
      ]
