-- ===== src/Examples/Config.antt =====
-- The configuration that an empty environment gives.
use comments_service.Prelude.{◌≡◌, ◌↔◌, refl, none, some, []}
use comments_service.Go.Text.{ascii, text_eq}
use comments_service.Go.Text.Space.{trim_space, strip, front_width, back_width}
use comments_service.Config.{Config, validate}
use comments_service.Config.Usable.{IsUsable, validate_iff}
use comments_service.Config.Load.{
  Environment, loaded, load, config_of, env_csv, default_flags, load-IsUsable,
}

abbrev empty_environment : Environment
empty_environment = record {
  get_env = λ key. [];
  atoi = λ t. none;
  parse_int_32 = λ t. none;
  parse_bool = λ t. none;
  parse_duration = λ t. none;
  parse_flags = λ args flags. some flags;
}

abbrev pub default_config : Config
default_config = config_of empty_environment (default_flags empty_environment)

default_run : load empty_environment [] ≡ loaded default_config
unfolding load config_of env_csv validate ascii text_eq trim_space strip front_width back_width
default_run = refl

load-IsUsable_example : IsUsable default_config
load-IsUsable_example = load-IsUsable empty_environment [] default_config default_run

validate_iff_example : (validate default_config ≡ none) ↔ IsUsable default_config
validate_iff_example = validate_iff default_config
