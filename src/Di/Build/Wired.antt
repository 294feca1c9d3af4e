-- ===== src/Di/Build/Wired.antt =====
-- What a container that Build has completed is to be.
use comments_service.Prelude.{◌≡◌, List, none, some, [], ◌∷◌, if◌then◌else◌}
use comments_service.Go.Text.{ascii}
use comments_service.Go.Text.{Text}
use comments_service.Config.{Config, GraphqlConfig}
use comments_service.Di.{
  Address, PostRepository, memory_posts, postgres_posts, CommentRepository, memory_comments,
  postgres_comments, TxManager, memory_tx, postgres_tx, CommentEvents, memory_bus, postgres_bus,
  ServerConfig, graphql_of, playground_at, Container,
}

-- All the parts stand on one store, or on one pool.
pub data IsOneBackend
    : PostRepository → CommentRepository → TxManager → CommentEvents → Type 0 where
  in_memory :
      (store bus : Address)
      → IsOneBackend (memory_posts store) (memory_comments store) memory_tx (memory_bus bus)
  in_postgres :
      (pool bus : Address)
      → IsOneBackend
          (postgres_posts pool)
          (postgres_comments pool)
          (postgres_tx pool)
          (postgres_bus bus)

-- The GraphQL settings of the server, each from its place in the configuration.
abbrev pub limits_of : GraphqlConfig → ServerConfig
limits_of g = record {
  max_page_size = g.max_page_size;
  max_depth = g.max_depth;
  complexity_limit = g.complexity_limit;
  query_cache_size = g.query_cache_size;
  apq_cache_size = g.apq_cache_size;
  parser_token_limit = g.parser_token_limit;
  enable_introspection = g.enable_introspection;
  allowed_origins = g.allowed_origins;
  websocket_keep_alive = g.websocket_keep_alive;
}

-- The patterns that a server with this configuration needs.
abbrev pub server_routes : GraphqlConfig → List Text
server_routes g =
    if g.enable_playground
    then g.path ∷ g.playground_path ∷ ascii "/healthz" ∷ []
    else g.path ∷ ascii "/healthz" ∷ []

module _ {W : Type 0} where
  -- Both services stand on the same repositories and TxManager, the comments service and the resolvers on the
  -- same events, and the server has the GraphQL handler over both services.
  pub record IsWired (config : Config) (c : Container W) : Type 0 where
    pub posts : PostRepository
    pub comments : CommentRepository
    pub tx : TxManager
    pub bus : CommentEvents
    pub one_backend : IsOneBackend posts comments tx bus
    pub has_posts : c.post_repository ≡ some posts
    pub has_comments : c.comment_repository ≡ some comments
    pub has_tx : c.tx_manager ≡ some tx
    pub has_events : c.events ≡ some bus
    pub posts_service : c.posts_service ≡ some (record { posts = posts; tx = tx })
    pub service_of_comments :
        c.service_of_comments
        ≡ some (record { posts = posts; comments = comments; tx = tx; events = bus })
    pub graphql :
        c.graphql_handler
        ≡ some (
            graphql_of
              (limits_of config.graphql)
              (record { posts = posts; tx = tx })
              (record { posts = posts; comments = comments; tx = tx; events = bus })
              bus
              c.logger)
    pub playground : c.playground_handler ≡ (
        if config.graphql.enable_playground then some (playground_at config.graphql.path) else none)
    pub server :
        c.http_server
        ≡ some (record {
          config = config.http;
          graphql_path = config.graphql.path;
          graphql =
              graphql_of
                (limits_of config.graphql)
                (record { posts = posts; tx = tx })
                (record { posts = posts; comments = comments; tx = tx; events = bus })
                bus
                c.logger;
          playground_path = config.graphql.playground_path;
          playground =
              if config.graphql.enable_playground
              then some (playground_at config.graphql.path)
              else none;
          health_pool = c.health_check;
          logger = c.logger;
        })
