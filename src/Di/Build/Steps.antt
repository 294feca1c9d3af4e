-- ===== src/Di/Build/Steps.antt =====
-- The steps of Build, one after the other.
use comments_service.Prelude.{◌≡◌, sym, ap, ◌∙◌, Bool, true, false, none, some, List, [], ◌∷◌}
use comments_service.Go.Text.{Text}
use comments_service.Config.{validate}
use comments_service.Di.{Address, Container, Platform, with_default_logger}
use comments_service.Di.Init.{validate_base_dependencies}
use comments_service.Di.Build.{
  Step, Ending, completed, panicked, build_repositories, build_services, build_graphql, build_http,
  after_step, steps, run_steps, build,
}

-- How Build ends, by whether the multiplexer takes the patterns.
abbrev pub ending_of : Bool → Ending
ending_of true = completed
ending_of false = panicked

module _ {W : Type 0} where
  run_steps-cons :
      (name : Text) (step : Step W) (rest : List (Text × Step W)) (c c₁ : Container W)
      → step c ≡ (completed, c₁)
      → run_steps ((name, step) ∷ rest) c ≡ run_steps rest c₁
  unfolding run_steps
  run_steps-cons name step rest c c₁ h = ap (λ r. after_step name r (run_steps rest)) h

  -- The last step ends Build as it ends itself, if it returns no error.
  run_steps-last :
      (name : Text) (step : Step W) (c c₁ : Container W) (passes : Bool)
      → step c ≡ (ending_of passes, c₁)
      → run_steps ((name, step) ∷ []) c ≡ (ending_of passes, c₁)
  unfolding run_steps
  run_steps-last name step c c₁ true h = ap (λ r. after_step name r (run_steps [])) h
  run_steps-last name step c c₁ false h = ap (λ r. after_step name r (run_steps [])) h

  pub run_steps-all :
      (platform : Platform W) (c c₁ c₂ c₃ c₄ : Container W) (passes : Bool)
      → build_repositories c ≡ (completed, c₁)
      → build_services c₁ ≡ (completed, c₂)
      → build_graphql c₂ ≡ (completed, c₃)
      → build_http platform c₃ ≡ (ending_of passes, c₄)
      → run_steps (steps platform) c ≡ (ending_of passes, c₄)
  run_steps-all platform c c₁ c₂ c₃ c₄ passes repositories services graphql http =
      run_steps-cons _ build_repositories _ c c₁ repositories
      ∙ run_steps-cons _ build_services _ c₁ c₂ services
      ∙ run_steps-cons _ build_graphql _ c₂ c₃ graphql
      ∙ run_steps-last _ (build_http platform) c₃ c₄ passes http

  pub build-run_steps :
      (platform : Platform W) (c : Container W) (logger : Address)
      → validate c.config ≡ none
      → c.logger ≡ some logger
      → build platform c ≡ run_steps (steps platform) c
  unfolding build validate_base_dependencies with_default_logger
  build-run_steps platform c logger valid has_logger =
      let same : record c { logger = with_default_logger platform c.logger } ≡ c =
        (λ i. record c { logger = with_default_logger platform (has_logger i) })
        ∙ (λ i. record c { logger = sym has_logger i }) in
      rw (build, validate_base_dependencies, valid) (ap (run_steps (steps platform)) same)
