-- ===== src/Di/Lifecycle.antt =====
-- internal/di/container.go: Close and Shutdown.
pub mod Closing
use comments_service.Prelude.{
  ℕ, zero, suc, Bool, true, false, Option, none, some, List, [], ◌∷◌, length, if◌then◌else◌,
  get_elem?,
}
use comments_service.Go.Text.{Text, ascii}
use comments_service.Di.{
  DiError, lifecycle_error, DiErrors, nothing, first_of, append_error, Closer, HttpServer,
  Container, Platform,
}

-- if err != nil { errs = append(errs, err) }
abbrev pub collect : DiErrors → Option DiError → DiErrors
collect errors none = errors
collect errors (some e) = append_error errors e

-- nil for no errors, else a LifecycleError of them
abbrev pub lifecycle : Text → DiErrors → Option DiError
lifecycle operation nothing = none
lifecycle operation (first_of e errors) = some (lifecycle_error operation (first_of e errors))

module _ {W : Type 0} where
  -- The closer at an index; the loop's index is always in range.
  abbrev pub closer_at : List (Option (Closer W)) → ℕ → Option (Closer W)
  closer_at [] idx = none
  closer_at (closer ∷ closers) zero = closer
  closer_at (closer ∷ closers) (suc idx) = closer_at closers idx

  -- One round of the loop.
  abbrev pub run_closer : Option (Closer W) → DiErrors → W → DiErrors × W
  run_closer none errors w = (errors, w)
  run_closer (some closer) errors w = let (e, w') = closer w in (collect errors e, w')

  -- for idx := n - 1; idx >= 0; idx-- { … }
  unfoldable pub close_loop : List (Option (Closer W)) → ℕ → DiErrors → W → DiErrors × W
  close_loop closers zero errors w = (errors, w)
  close_loop closers (suc idx) errors w =
      let (errors', w') = run_closer (closer_at closers idx) errors w in
      close_loop closers idx errors' w'

  unfoldable pub close : Container W → W → (Option DiError × Container W) × W
  unfolding close_loop
  close c w =
      if c.closed
      then ((none, c), w)
      else let (errors, w') = close_loop c.closers (length c.closers) nothing w in
        ((lifecycle (ascii "close container") errors, record c { closed = true; closers = [] }), w')

  -- if c.HTTPServer != nil { … }
  abbrev pub stop_server : Platform W → Option HttpServer → W → DiErrors × W
  stop_server platform none w = (nothing, w)
  stop_server platform (some server) w =
      let (e, w') = platform.shutdown_server server w in (collect nothing e, w')

  unfoldable pub shutdown : Platform W → Container W → W → (Option DiError × Container W) × W
  unfolding close
  shutdown platform c w =
      let (errors, w₁) = stop_server platform c.http_server w in
      let ((e, c'), w₂) = close (record c { http_server = none }) w₁ in
      ((lifecycle (ascii "shutdown container") (collect errors e), c'), w₂)
