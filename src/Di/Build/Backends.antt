-- ===== src/Di/Build/Backends.antt =====
-- What NewContainer opens, by the backend, and what Build makes of it.
use comments_service.Prelude.{
  ◌≡◌, refl, Bool, true, false, none, some, [], ◌∷◌, Bool-cases, inl, inr,
}
use comments_service.Go.Text.{ascii, text_eq}
use comments_service.Config.{Config}
use comments_service.Di.{
  Address, PostRepository, memory_posts, postgres_posts, CommentRepository, memory_comments,
  postgres_comments, TxManager, memory_tx, postgres_tx, CommentEvents, memory_bus, postgres_bus,
  PostsService, CommentsService, Handler, graphql_of, Container, Platform,
}
use comments_service.Di.Init.{pool_closer, empty_container}
use comments_service.Di.Build.{
  choose_repositories, build_repositories, build_posts_service, build_comments_service,
  build_services, server_config, build_graphql, with_playground, with_server, build_http, steps,
  completed, routes, serve, run_steps,
}
use comments_service.Di.Build.Steps.{ending_of, run_steps-all}
use comments_service.Di.Build.Wired.{IsOneBackend, server_routes, IsWired}

module _ {W : Type 0} where
  -- What NewContainer gives, by the backend.
  abbrev pub memory_container : Platform W → Config → Address → Address → Address → Container W
  memory_container platform config logger store bus =
      record (empty_container config (some logger)) {
        memory_store = some store;
        tx_manager = some memory_tx;
        events = some (memory_bus bus);
        closers = some (platform.close_bus bus) ∷ [];
      }

  abbrev pub postgres_container : Platform W → Config → Address → Address → Address → Container W
  postgres_container platform config logger pool bus =
      record (empty_container config (some logger)) {
        pool = some pool;
        health_check = some pool;
        tx_manager = some (postgres_tx pool);
        events = some (postgres_bus bus);
        closers = some (pool_closer platform pool) ∷ some (platform.close_events bus) ∷ [];
      }

  -- What Build makes of `c`, which has nothing built yet, before it registers the handlers.
  abbrev pub unserved :
      Container W → PostRepository → CommentRepository → TxManager → CommentEvents → Container W
  unserved c posts comments tx bus =
      let for_posts : PostsService = record { posts = posts; tx = tx } in
      let for_comments : CommentsService = record {
        posts = posts;
        comments = comments;
        tx = tx;
        events = bus;
      } in
      record c {
        post_repository = some posts;
        comment_repository = some comments;
        posts_service = some for_posts;
        service_of_comments = some for_comments;
        graphql_handler = some (graphql_of (server_config c) for_posts for_comments bus c.logger);
      }

  abbrev graphql_over :
      Container W → PostRepository → CommentRepository → TxManager → CommentEvents → Handler
  graphql_over c posts comments tx bus =
      graphql_of (server_config c) (record { posts = posts; tx = tx })
        (record { posts = posts; comments = comments; tx = tx; events = bus }) bus c.logger

  -- The container that Build leaves.
  abbrev pub built :
      Container W → PostRepository → CommentRepository → TxManager → CommentEvents → Container W
  built c posts comments tx bus =
      with_server (graphql_over c posts comments tx bus)
        (with_playground (unserved c posts comments tx bus))

  -- The same, by whether the multiplexer takes the patterns.
  abbrev pub left_by :
      Bool
      → Container W
      → PostRepository
      → CommentRepository
      → TxManager
      → CommentEvents
      → Container W
  left_by true c posts comments tx bus = built c posts comments tx bus
  left_by false c posts comments tx bus = with_playground (unserved c posts comments tx bus)

  pub built-IsWired :
      (c : Container W) (posts : PostRepository) (comments : CommentRepository) (tx : TxManager)
      (bus : CommentEvents)
      → IsOneBackend posts comments tx bus
      → c.playground_handler ≡ none
      → c.tx_manager ≡ some tx
      → c.events ≡ some bus
      → IsWired c.config (built c posts comments tx bus)
  built-IsWired c posts comments tx bus one absent has_tx has_events =
      elim (Bool-cases c.config.graphql.enable_playground) [
        | inl shown ↦
            rw (absent, shown)
              (record {
                posts = posts;
                comments = comments;
                tx = tx;
                bus = bus;
                one_backend = one;
                has_posts = refl;
                has_comments = refl;
                has_tx = has_tx;
                has_events = has_events;
                posts_service = refl;
                service_of_comments = refl;
                graphql = refl;
                playground = refl;
                server = refl;
              })
        | inr hidden ↦
            rw (absent, hidden)
              (record {
                posts = posts;
                comments = comments;
                tx = tx;
                bus = bus;
                one_backend = one;
                has_posts = refl;
                has_comments = refl;
                has_tx = has_tx;
                has_events = has_events;
                posts_service = refl;
                service_of_comments = refl;
                graphql = refl;
                playground = refl;
                server = refl;
              })
      ]

  routes-server_routes :
      (c : Container W)
      → c.playground_handler ≡ none
      → routes (with_playground c) ≡ server_routes c.config.graphql
  routes-server_routes c absent = elim (Bool-cases c.config.graphql.enable_playground) [
    | inl shown ↦ rw (absent, shown) refl
    | inr hidden ↦ rw (absent, hidden) refl
  ]

  abbrev with_repositories : Container W → PostRepository → CommentRepository → Container W
  with_repositories c posts comments = record c {
    post_repository = some posts;
    comment_repository = some comments;
  }

  module _ (platform : Platform W) (config : Config) (logger : Address) where
    serve-left_by :
        (c : Container W) (posts : PostRepository) (comments : CommentRepository) (tx : TxManager)
        (bus : CommentEvents) (passes : Bool)
        → c.playground_handler ≡ none
        → platform.takes_routes (server_routes c.config.graphql) ≡ passes
        → serve platform
            (graphql_over c posts comments tx bus)
            (with_playground (unserved c posts comments tx bus))
          ≡ (ending_of passes, left_by passes c posts comments tx bus)
    serve-left_by c posts comments tx bus true absent takes =
        rw (routes-server_routes (unserved c posts comments tx bus) absent, takes) refl
    serve-left_by c posts comments tx bus false absent takes =
        rw (routes-server_routes (unserved c posts comments tx bus) absent, takes) refl

    -- Build, on the containers that NewContainer gives.
    pub memory_steps :
        (store bus : Address) (passes : Bool)
        → text_eq config.storage.backend (ascii "memory") ≡ true
        → platform.takes_routes (server_routes config.graphql) ≡ passes
        → run_steps (steps platform) (memory_container platform config logger store bus) ≡ (
          ending_of passes,
          left_by passes
              (memory_container platform config logger store bus)
              (memory_posts store)
              (memory_comments store)
              memory_tx
              (memory_bus bus),
        )
    unfolding build_repositories choose_repositories build_services build_posts_service
        build_comments_service build_graphql build_http
    memory_steps store bus passes memory takes =
        let c = memory_container platform config logger store bus in
        let first : build_repositories c
            ≡ (completed, with_repositories c (memory_posts store) (memory_comments store)) =
          rw (build_repositories, choose_repositories, memory) refl in
        run_steps-all platform c _ _ _ _ passes first refl refl (
          serve-left_by c (memory_posts store) (memory_comments store) memory_tx (memory_bus bus)
            passes refl takes)

    pub postgres_steps :
        (pool bus : Address) (passes : Bool)
        → text_eq config.storage.backend (ascii "memory") ≡ false
        → text_eq config.storage.backend (ascii "postgres") ≡ true
        → platform.takes_routes (server_routes config.graphql) ≡ passes
        → run_steps (steps platform) (postgres_container platform config logger pool bus) ≡ (
          ending_of passes,
          left_by passes
              (postgres_container platform config logger pool bus)
              (postgres_posts pool)
              (postgres_comments pool)
              (postgres_tx pool)
              (postgres_bus bus),
        )
    unfolding build_repositories choose_repositories build_services build_posts_service
        build_comments_service build_graphql build_http
    postgres_steps pool bus passes other postgres takes =
        let c = postgres_container platform config logger pool bus in
        let first : build_repositories c
            ≡ (completed, with_repositories c (postgres_posts pool) (postgres_comments pool)) =
          rw (build_repositories, choose_repositories, other, postgres) refl in
        run_steps-all platform c _ _ _ _ passes first refl refl (
          serve-left_by c (postgres_posts pool) (postgres_comments pool) (postgres_tx pool)
            (postgres_bus bus) passes refl takes)
