-- ===== src/Application/Tx.antt =====
-- internal/application/txctx/after_commit.go and internal/adapters/storage/memory/tx_manager.go.
-- The context of a transaction is the world `W` that its calls change, with the registry that
-- context.WithValue puts in the context, if it does.
use comments_service.Prelude.{Bool, true, false, Option, none, some, List, [], ◌∷◌, ◌++◌}
use comments_service.Domain.Errors.{Error, missing_registry, Result, ok, err}

-- What the after-commit action does to the world.
abbrev pub AfterCommitAction : Type 0 → Type 0
AfterCommitAction W = W → W

pub record Registry (W : Type 0) : Type 0 where
  pub actions : List (AfterCommitAction W)

pub record Context (W : Type 0) : Type 0 where
  pub world : W
  pub registry : Option (Registry W)

module _ {W : Type 0} where
  unfoldable pub with_registry : W → Context W
  with_registry w = record { world = w; registry = some (record { actions = [] }) }

  unfoldable pub from_context : Context W → Option (Registry W)
  from_context ctx = ctx.registry

  unfoldable pub after_commit : AfterCommitAction W → Context W → Result (Unit {0}) × Context W
  unfolding from_context
  after_commit action ctx = elim (from_context ctx) [
    | none ↦ (err missing_registry, ctx)
    | some registry ↦ (
      ok tt,
      record ctx { registry = some (record { actions = registry.actions ++ action ∷ [] }) },
    )
  ]

  unfoldable pub run_actions : List (AfterCommitAction W) → W → W
  run_actions [] w = w
  run_actions (action ∷ actions) w = run_actions actions (action w)

  -- registry.Run(ctx), on the registry that the context holds
  unfoldable pub run : Option (Registry W) → W → W
  unfolding run_actions
  run none w = w
  run (some registry) w = run_actions registry.actions w

-- What runs inside a transaction: it gives a result and leaves a context.
abbrev pub InTx : Type 0 → Type 0 → Type 0
InTx W A = Context W → Result A × Context W

module _ {W A B : Type 0} where
  abbrev continue : Result A → (A → InTx W B) → InTx W B
  continue (ok a) f ctx = f a ctx
  continue (err e) f ctx = (err e, ctx)

  infixl 10 ◌>>=◌ ◌>>◌
  -- if err != nil { return err }
  abbrev pub ◌>>=◌ : InTx W A → (A → InTx W B) → InTx W B
  ◌>>=◌ m f ctx = let (r, ctx') = m ctx in continue r f ctx'

  abbrev pub ◌>>◌ : InTx W A → InTx W B → InTx W B
  m >> n = m >>= λ _. n

module _ {W A : Type 0} where
  abbrev pub pure : A → InTx W A
  pure a ctx = (ok a, ctx)

  abbrev pub lift : Result A → InTx W A
  lift r ctx = (r, ctx)

  -- A call that changes the world and may fail.
  abbrev pub call : (W → Result A × W) → InTx W A
  call f ctx = let (r, w) = f ctx.world in (r, record ctx { world = w })

  -- A call that cannot fail.
  abbrev pub draw : (W → A × W) → InTx W A
  draw f ctx = let (a, w) = f ctx.world in (ok a, record ctx { world = w })

abbrev pub check : {W : Type 0} → Bool → Error → InTx W (Unit {0})
check true e ctx = (ok tt, ctx)
check false e ctx = (err e, ctx)

module _ {W A : Type 0} where
  -- The end of the memory TxManager's WithinTx: an error is returned as it is and nothing is undone;
  -- else the actions run.
  unfoldable pub finish : Result A → Context W → Result A × W
  unfolding run
  finish (err e) ctx = (err e, ctx.world)
  finish (ok a) ctx = (ok a, run ctx.registry ctx.world)

  unfoldable pub within_tx : InTx W A → W → Result A × W
  unfolding with_registry finish
  within_tx fn w = let (r, ctx) = fn (with_registry w) in finish r ctx
