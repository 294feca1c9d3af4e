-- ===== src/Di/Build/Started.antt =====
-- From NewContainer to a built container, and what is left behind where NewContainer fails.
use comments_service.Prelude.{
  List, [], ◌∷◌, arith, ◌≡◌, refl, ◌∙◌, subst, true, false, Option, none, some, ◌⊎◌, Option-cases,
  Bool-cases, inl, inr,
}
use comments_service.Go.Text.{Text, ascii, text_eq}
use comments_service.Config.{Config, validate}
use comments_service.Di.{
  PostRepository, CommentRepository, TxManager, CommentEvents, DiError, Address, Container,
  Platform, with_default_logger,
}
use comments_service.Di.Init.{
  validate_base_dependencies, init_memory, with_pool, finish_postgres, open_postgres, init_postgres,
  init, empty_container, Made, container, failed, made, new_container,
}
use comments_service.Di.Build.{Ending, steps, run_steps, completed, panicked, build}
use comments_service.Di.Build.Steps.{build-run_steps}
use comments_service.Di.Build.Wired.{server_routes, IsWired, in_memory, in_postgres}
use comments_service.Di.Build.Backends.{
  left_by, built-IsWired, memory_container, postgres_container, memory_steps, postgres_steps,
}

module _ {W : Type 0} (platform : Platform W) (config : Config) where
  -- Build turns it into a wired container if the multiplexer takes the patterns of the configuration, and
  -- panics otherwise.
  abbrev Starts : Made W → Type 0
  Starts (container c) =
      ((platform.takes_routes (server_routes config.graphql) ≡ true)
        × (c' : Container W) × (build platform c ≡ (completed, c'))
        × IsWired config c')
      ⊎ ((platform.takes_routes (server_routes config.graphql) ≡ false)
          × (c' : Container W) × (build platform c ≡ (panicked, c'))
          × (c'.http_server ≡ none))
  Starts (failed e) = Unit

  unserved_still :
      (c : Container W) (posts : PostRepository) (comments : CommentRepository) (tx : TxManager)
      (bus : CommentEvents)
      → c.http_server ≡ none
      → (left_by false c posts comments tx bus).http_server ≡ none
  unserved_still c posts comments tx bus none_yet = ground arith

  -- Build is its steps, on a container that has a logger.
  starts :
      (c : Container W) (logger : Address) (ending : Ending) (c' : Container W)
      → validate c.config ≡ none
      → c.logger ≡ some logger
      → run_steps (steps platform) c ≡ (ending, c')
      → build platform c ≡ (ending, c')
  starts c logger ending c' valid has_logger run =
      build-run_steps platform c logger valid has_logger ∙ run

  memory-Starts :
      (logger store bus : Address)
      → validate config ≡ none
      → text_eq config.storage.backend (ascii "memory") ≡ true
      → Starts (container (memory_container platform config logger store bus))
  memory-Starts logger store bus valid memory =
      let c = memory_container platform config logger store bus in
      elim (Bool-cases (platform.takes_routes (server_routes config.graphql))) [
        | inl takes ↦ inl (
          takes,
          _,
          starts c logger _ _ valid refl
              (memory_steps platform config logger store bus true memory takes),
          built-IsWired c _ _ _ _ (in_memory store bus) refl refl refl,
        )
        | inr refuses ↦ inr (
          refuses,
          _,
          starts c logger _ _ valid refl
              (memory_steps platform config logger store bus false memory refuses),
          unserved_still c _ _ _ _ refl,
        )
      ]

  postgres-Starts :
      (logger pool bus : Address)
      → validate config ≡ none
      → text_eq config.storage.backend (ascii "memory") ≡ false
      → text_eq config.storage.backend (ascii "postgres") ≡ true
      → Starts (container (postgres_container platform config logger pool bus))
  postgres-Starts logger pool bus valid other postgres =
      let c = postgres_container platform config logger pool bus in
      elim (Bool-cases (platform.takes_routes (server_routes config.graphql))) [
        | inl takes ↦ inl (
          takes,
          _,
          starts c logger _ _ valid refl
              (postgres_steps platform config logger pool bus true other postgres takes),
          built-IsWired c _ _ _ _ (in_postgres pool bus) refl refl refl,
        )
        | inr refuses ↦ inr (
          refuses,
          _,
          starts c logger _ _ valid refl
              (postgres_steps platform config logger pool bus false other postgres refuses),
          unserved_still c _ _ _ _ refl,
        )
      ]

  -- What is left behind: nothing, what a failed NewWithConfig left, or a pool that is closed again.
  abbrev pub IsClean : W → W → Type 0
  IsClean w w' =
      (w' ≡ w)
      ⊎ (((cause : DiError) × (pool : Address) × (platform.open_pool config.storage.postgres.dsn
                config.storage.postgres.max_conns config.storage.postgres.min_conns w
              ≡ ((some cause, pool), w')))
          ⊎ ((pool bus : Address) × (cause : DiError) × (l : Option Address) × (w₁ w₂ : W)
              × (platform.open_pool config.storage.postgres.dsn config.storage.postgres.max_conns
                    config.storage.postgres.min_conns w
                  ≡ ((none, pool), w₁))
              × (platform.start_events config.storage.postgres.dsn pool
                    config.subscriptions.channel_name config.subscriptions.buffer_size l w₁
                  ≡ ((some cause, bus), w₂))
              × (w' ≡ platform.close_pool pool w₂)))

  -- Both, of the answer of NewContainer.
  abbrev Fine : W → Made W × W → Type 0
  Fine w (container c, w') = Starts (container c)
  Fine w (failed e, w') = IsClean w w'

  finished :
      (logger pool : Address) (w w₁ : W) (r : (Option DiError × Address) × W)
      → validate config ≡ none
      → text_eq config.storage.backend (ascii "memory") ≡ false
      → text_eq config.storage.backend (ascii "postgres") ≡ true
      → platform.open_pool config.storage.postgres.dsn config.storage.postgres.max_conns
          config.storage.postgres.min_conns w
        ≡ ((none, pool), w₁)
      → platform.start_events config.storage.postgres.dsn pool config.subscriptions.channel_name
          config.subscriptions.buffer_size
          (some logger)
          w₁
        ≡ r
      → Fine w (
          let (s, w') =
            finish_postgres platform pool
              (with_pool platform pool (empty_container config (some logger)))
              r in
          (made s, w'))
  unfolding finish_postgres
  finished logger pool w w₁ ((some cause, bus), w₂) valid other postgres opened run =
      inr (inr (pool, bus, cause, some logger, w₁, w₂, opened, run, refl))
  finished logger pool w w₁ ((none, bus), w₂) valid other postgres opened run =
      postgres-Starts logger pool bus valid other postgres

  abbrev answer : (Option DiError × Container W) × W → Made W × W
  answer (s, w) = (made s, w)

  opened :
      (logger : Address) (w : W) (r : (Option DiError × Address) × W)
      → validate config ≡ none
      → text_eq config.storage.backend (ascii "memory") ≡ false
      → text_eq config.storage.backend (ascii "postgres") ≡ true
      → platform.open_pool config.storage.postgres.dsn config.storage.postgres.max_conns
          config.storage.postgres.min_conns w
        ≡ r
      → Fine w (answer (open_postgres platform (empty_container config (some logger)) r))
  unfolding open_postgres
  opened logger w ((some cause, pool), w₁) valid other postgres run = inr (inl (cause, pool, run))
  opened logger w ((none, pool), w₁) valid other postgres run =
      finished logger pool w w₁ _ valid other postgres run refl

  postgres-Fine :
      (logger : Address) (w : W)
      → validate config ≡ none
      → text_eq config.storage.backend (ascii "memory") ≡ false
      → text_eq config.storage.backend (ascii "postgres") ≡ true
      → Fine w (answer (init_postgres platform (empty_container config (some logger)) w))
  unfolding init_postgres
  postgres-Fine logger w valid other postgres =
      elim (Option-cases (platform.parse_config config.storage.postgres.dsn)) [
        | inr (cause, bad) ↦ rw (init_postgres, bad) (inl refl)
        | inl parsed ↦ rw (init_postgres, parsed) (opened logger w _ valid other postgres refl)
      ]

  init-Fine :
      (logger : Address) (w : W)
      → validate config ≡ none
      → Fine w (answer (init platform (empty_container config (some logger)) w))
  unfolding init validate_base_dependencies init_memory
  init-Fine logger w valid = elim (Bool-cases (text_eq config.storage.backend (ascii "memory"))) [
    | inl memory ↦
        rw (init, validate_base_dependencies, valid, memory) (memory-Starts logger _ _ valid memory)
    | inr other ↦ elim (Bool-cases (text_eq config.storage.backend (ascii "postgres"))) [
      | inl postgres ↦
          rw (init, validate_base_dependencies, valid, other, postgres)
            (postgres-Fine logger w valid other postgres)
      | inr unknown ↦ rw (init, validate_base_dependencies, valid, other, unknown) (inl refl)
    ]
  ]

  default_logger_some :
      (logger : Option Address) → (l : Address) × (with_default_logger platform logger ≡ some l)
  unfolding with_default_logger
  default_logger_some none = (platform.default_logger, refl)
  default_logger_some (some l) = (l, refl)

  new_container-Fine :
      (logger : Option Address) (w : W) → Fine w (new_container platform config logger w)
  unfolding new_container
  new_container-Fine logger w = elim (Option-cases (validate config)) [
    | inr (e, bad) ↦ rw (new_container, bad) (inl refl)
    | inl valid ↦
        let (l, has_logger) = default_logger_some logger in
        rw (new_container, valid, has_logger) (init-Fine l w valid)
  ]

  -- If NewContainer returns a container, with either backend, then Build on it succeeds if the HTTP
  -- multiplexer takes the path of GraphQL, that of the playground where it is enabled, and /healthz, and
  -- otherwise panics and sets no HTTP server. Where it succeeds, all parts stand on the same store or pool:
  -- both services on the same repositories and TxManager, the comments service and the resolvers on the
  -- same events, and the HTTP server on the handler over both services, with each limit and path from its
  -- place in the configuration that NewContainer was given.
  pub new_container-IsWired :
      (logger : Option Address) (w w' : W) (c : Container W)
      → new_container platform config logger w ≡ (container c, w')
      → ((platform.takes_routes (server_routes config.graphql) ≡ true)
          × (c' : Container W) × (build platform c ≡ (completed, c'))
          × IsWired config c')
        ⊎ ((platform.takes_routes (server_routes config.graphql) ≡ false)
            × (c' : Container W) × (build platform c ≡ (panicked, c'))
            × (c'.http_server ≡ none))
  new_container-IsWired logger w w' c h = subst (Fine w) h (new_container-Fine logger w)

  -- If the multiplexer refuses patterns that repeat their first, as net/http documents, then a container
  -- that NewContainer returns for a configuration whose playground is enabled at the path of GraphQL itself
  -- makes Build panic, although Validate has accepted the configuration.
  pub build-one_path :
      (logger : Option Address) (w w' : W) (c : Container W)
      → ((p : Text) (more : List Text) → platform.takes_routes (p ∷ p ∷ more) ≡ false)
      → config.graphql.enable_playground ≡ true
      → config.graphql.playground_path ≡ config.graphql.path
      → new_container platform config logger w ≡ (container c, w')
      → (validate config ≡ none) × (c' : Container W) × (build platform c ≡ (panicked, c'))
  unfolding new_container
  build-one_path logger w w' c refuses shown same h =
      let refused : platform.takes_routes (server_routes config.graphql) ≡ false =
        rw (shown, same) (refuses config.graphql.path (ascii "/healthz" ∷ [])) in
      let valid : validate config ≡ none = elim (Option-cases (validate config)) [
        | inl accepted ↦ accepted
        | inr (e, bad) ↦ absurd (ground (arith, rw (new_container, bad) at h))
      ] in
      elim (new_container-IsWired logger w w' c h) [
        | inl (takes, _, _, _) ↦ absurd (ground arith)
        | inr (_, c', run, _) ↦ (valid, c', run)
      ]

  -- If NewContainer fails, it leaves no pool open that it has opened: it has touched nothing, or
  -- pgxpool.NewWithConfig itself has failed and nothing happened after it, or the pool was opened, the events
  -- failed to start on it, and the next and last thing done is to close that pool.
  pub new_container-failed :
      (logger : Option Address) (w w' : W) (e : DiError)
      → new_container platform config logger w ≡ (failed e, w')
      → IsClean w w'
  new_container-failed logger w w' e h = subst (Fine w) h (new_container-Fine logger w)
