-- ===== src/Di/Init.antt =====
-- internal/di/container.go: NewContainer and what it opens.
use comments_service.Prelude.{
  false, Option, none, some, List, [], ◌∷◌, ◌++◌, ◌-◌, length, take, if◌then◌else◌,
}
use comments_service.Go.Text.{ascii, text_eq}
use comments_service.Config.{Config, validate}
use comments_service.Di.{
  DiError, config_error, di_error, init_error, di_error_text, Address, memory_tx, postgres_tx,
  memory_bus, postgres_bus, Closer, Container, Platform, with_default_logger,
}

-- if field == nil { field = value }
abbrev pub or_set : {A : Type 0} → Option A → A → Option A
or_set none value = some value
or_set (some old) value = some old

-- &Container{Config: cfg, Logger: …}
abbrev pub empty_container : {W : Type 0} → Config → Option Address → Container W
empty_container config logger = record {
  config = config;
  logger = logger;
  pool = none;
  memory_store = none;
  health_check = none;
  closers = [];
  post_repository = none;
  comment_repository = none;
  tx_manager = none;
  events = none;
  posts_service = none;
  service_of_comments = none;
  graphql_handler = none;
  playground_handler = none;
  http_server = none;
  closed = false;
}

-- What NewContainer returns.
pub data Made (W : Type 0) : Type 0 where
  container : Container W → Made W
  failed : DiError → Made W

abbrev pub made : {W : Type 0} → Option DiError × Container W → Made W
made (none, c) = container c
made (some e, c) = failed e

module _ {W : Type 0} (platform : Platform W) where
  -- validateBaseDependencies
  unfoldable pub validate_base_dependencies : Container W → Option DiError
  unfolding di_error_text
  validate_base_dependencies c = elim (validate c.config) [
    | none ↦ none
    | some e ↦ some (di_error (ascii "config") (di_error_text (config_error e)))
  ]

  abbrev pub append_closer : Container W → Closer W → List (Option (Closer W))
  append_closer c closer = c.closers ++ some closer ∷ []

  unfoldable pub init_memory : Container W → W → (Option DiError × Container W) × W
  init_memory c w =
      let (store, w₁) = platform.new_store w in
      let (bus, w₂) = platform.new_bus c.config.subscriptions.buffer_size w₁ in
      (
        (
          none,
          record c {
            memory_store = some store;
            tx_manager = or_set c.tx_manager memory_tx;
            events = or_set c.events (memory_bus bus);
            closers = append_closer c (platform.close_bus bus);
          },
        ),
        w₂,
      )

  -- The closer of the pool.
  abbrev pub pool_closer : Address → Closer W
  pool_closer pool w = (none, platform.close_pool pool w)

  -- What initPostgres sets once the pool is open.
  abbrev pub with_pool : Address → Container W → Container W
  with_pool pool c = record c {
    pool = some pool;
    health_check = some pool;
    closers = append_closer c (pool_closer pool);
    tx_manager = or_set c.tx_manager (postgres_tx pool);
  }

  -- The end of initPostgres, with the answer of postgresevents.New.
  unfoldable pub finish_postgres :
      Address → Container W → (Option DiError × Address) × W → (Option DiError × Container W) × W
  finish_postgres pool c ((some e, bus), w) = (
    (
      some (init_error (ascii "postgres events") e),
      record c { pool = none; closers = take (length c.closers - 1) c.closers },
    ),
    platform.close_pool pool w,
  )
  finish_postgres pool c ((none, bus), w) = (
    (
      none,
      record c {
        events = or_set c.events (postgres_bus bus);
        closers = append_closer c (platform.close_events bus);
      },
    ),
    w,
  )

  -- From the answer of pgxpool.NewWithConfig on.
  unfoldable pub open_postgres :
      Container W → (Option DiError × Address) × W → (Option DiError × Container W) × W
  unfolding finish_postgres
  open_postgres c ((some e, pool), w) = ((some (init_error (ascii "postgres pool") e), c), w)
  open_postgres c ((none, pool), w) = finish_postgres pool (with_pool pool c) (
      platform.start_events c.config.storage.postgres.dsn pool c.config.subscriptions.channel_name
        c.config.subscriptions.buffer_size c.logger w)

  unfoldable pub init_postgres : Container W → W → (Option DiError × Container W) × W
  unfolding open_postgres
  init_postgres c w = elim (platform.parse_config c.config.storage.postgres.dsn) [
    | some e ↦ ((some (init_error (ascii "postgres pool config") e), c), w)
    | none ↦ open_postgres c (
        platform.open_pool c.config.storage.postgres.dsn c.config.storage.postgres.max_conns
          c.config.storage.postgres.min_conns w)
  ]

  abbrev pub unsupported_backend : DiError
  unsupported_backend = init_error (ascii "storage backend") (
      config_error
        (record { field = ascii "storage-backend"; message = ascii "unsupported backend" }))

  unfoldable pub init : Container W → W → (Option DiError × Container W) × W
  unfolding validate_base_dependencies init_memory init_postgres
  init c w = elim (validate_base_dependencies c) [
    | some e ↦ ((some e, c), w)
    | none ↦
        if text_eq c.config.storage.backend (ascii "memory")
        then init_memory c w
        else if text_eq c.config.storage.backend (ascii "postgres")
        then init_postgres c w
        else ((some unsupported_backend, c), w)
  ]

  unfoldable pub new_container : Config → Option Address → W → Made W × W
  unfolding with_default_logger init
  new_container config logger w = elim (validate config) [
    | some e ↦ (failed (config_error e), w)
    | none ↦
        let (r, w') = init (empty_container config (with_default_logger platform logger)) w in
        (made r, w')
  ]
