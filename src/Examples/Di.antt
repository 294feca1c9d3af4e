-- ===== src/Examples/Di.antt =====
-- A container in memory, on a platform that counts what it hands out and records what is closed.
use comments_service.Prelude.{
  ◌≡◌, refl, some, none, [], ◌∷◌, List, Bool, true, false, not, ◌&&◌, ◌||◌, ◌==◌, ◌⊎◌, arith,
}
use comments_service.Go.Text.{Text, ascii, text_eq}
use comments_service.Go.Text.Order.{text_eq_refl}
use comments_service.Go.Text.Space.{trim_space, strip, front_width, back_width}
use comments_service.Config.{Config, validate}
use comments_service.Config.Load.{config_of, env_csv}
use comments_service.Di.{
  DiError, init_error, foreign, Address, Container, Platform, with_default_logger, nothing,
}
use comments_service.Di.Init.{
  container, failed, new_container, init, init_memory, init_postgres, open_postgres,
  finish_postgres, validate_base_dependencies,
}
use comments_service.Di.Build.{completed, panicked, build}
use comments_service.Di.Build.Wired.{IsWired, server_routes}
use comments_service.Di.Build.Backends.{memory_container}
use comments_service.Di.Build.Started.{
  IsClean, new_container-IsWired, build-one_path, new_container-failed,
}
use comments_service.Di.Lifecycle.{lifecycle, close}
use comments_service.Di.Lifecycle.Closing.{run_all, close-reverse}
use comments_service.Examples.Config.{default_config}

-- Whether a multiplexer takes the patterns: no two are equal, and each starts with a slash.
abbrev is_among : Text → List Text → Bool
is_among p [] = false
is_among p (q ∷ qs) = text_eq p q || is_among p qs

abbrev is_rooted : Text → Bool
is_rooted [] = false
is_rooted (b ∷ t) = b == 47

abbrev takes : List Text → Bool
takes [] = true
takes (p ∷ ps) = is_rooted p && not (is_among p ps) && takes ps

takes-twice : (p : Text) (more : List Text) → takes (p ∷ p ∷ more) ≡ false
takes-twice p more = let same = text_eq_refl p in ground arith

-- The state: the addresses that have been closed, the last one first.
abbrev counting : Platform (List Address)
counting = record {
  default_logger = 1;
  new_store = λ w. (2, w);
  new_bus = λ size w. (3, w);
  close_bus = λ bus w. (some (foreign (ascii "bus")), bus ∷ w);
  parse_config = λ dsn. none;
  open_pool = λ dsn max min w. ((none, 4), w);
  close_pool = λ pool w. pool ∷ w;
  start_events = λ dsn pool channel size logger w. ((some (foreign (ascii "listen")), 5), w);
  close_events = λ bus w. (none, bus ∷ w);
  shutdown_server = λ server w. (none, w);
  takes_routes = takes;
}

abbrev in_memory : Container (List Address)
in_memory = memory_container counting default_config 1 2 3

started : new_container counting default_config none [] ≡ (container in_memory, [])
unfolding new_container init init_memory validate_base_dependencies with_default_logger validate
    config_of env_csv ascii text_eq trim_space strip front_width back_width
started = refl

new_container-IsWired_example :
    ((takes (server_routes default_config.graphql) ≡ true)
      × (c' : Container (List Address)) × (build counting in_memory ≡ (completed, c'))
      × IsWired default_config c')
    ⊎ ((takes (server_routes default_config.graphql) ≡ false)
        × (c' : Container (List Address)) × (build counting in_memory ≡ (panicked, c'))
        × (c'.http_server ≡ none))
new_container-IsWired_example =
    new_container-IsWired counting default_config none [] [] in_memory started

-- The playground at the path of GraphQL.
abbrev one_path : Config
one_path = record default_config {
  graphql = record default_config.graphql { playground_path = default_config.graphql.path };
}

started_on_one_path :
    new_container counting one_path none []
    ≡ (container (memory_container counting one_path 1 2 3), [])
unfolding new_container init init_memory validate_base_dependencies with_default_logger validate
    config_of env_csv ascii text_eq trim_space strip front_width back_width
started_on_one_path = refl

with_a_playground : one_path.graphql.enable_playground ≡ true
unfolding config_of ascii text_eq trim_space strip front_width back_width
with_a_playground = refl

build-one_path_example :
    (validate one_path ≡ none)
    × (c' : Container (List Address)) × (build counting (memory_container counting one_path 1 2 3)
        ≡ (panicked, c'))
build-one_path_example =
    build-one_path counting one_path none [] [] (memory_container counting one_path 1 2 3)
      takes-twice with_a_playground refl started_on_one_path

abbrev with_postgres : Config
with_postgres = record default_config {
  storage = record default_config.storage {
    backend = ascii "postgres";
    postgres = record default_config.storage.postgres { dsn = ascii "postgres://" };
  };
}

abbrev no_events : DiError
no_events = init_error (ascii "postgres events") (foreign (ascii "listen"))

not_started : new_container counting with_postgres none [] ≡ (failed no_events, 4 ∷ [])
unfolding new_container init init_postgres open_postgres finish_postgres validate_base_dependencies
    with_default_logger validate config_of env_csv ascii text_eq trim_space strip front_width
    back_width
not_started = refl

new_container-failed_example : IsClean counting with_postgres [] (4 ∷ [])
new_container-failed_example =
    new_container-failed counting with_postgres none [] (4 ∷ []) no_events not_started

abbrev two_closers : Container (List Address)
two_closers = record in_memory {
  closers = some (counting.close_bus 3) ∷ none ∷ some (counting.close_events 5) ∷ [];
}

close-reverse_example : close two_closers [] ≡ (
    let (errors, w') = run_all (counting.close_events 5 ∷ counting.close_bus 3 ∷ []) nothing [] in
    (
      (
        lifecycle (ascii "close container") errors,
        record two_closers { closed = true; closers = [] },
      ),
      w',
    ))
close-reverse_example = close-reverse two_closers [] refl
