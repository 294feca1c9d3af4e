-- ===== src/Postgres/Tx/Ended.antt =====
-- WithinTx of a function that fails: what becomes of the transaction, and what error is returned.
use comments_service.Prelude.{◌≡◌, false, List, ◌∷◌}
use comments_service.Go.Text.{ascii}
use comments_service.Domain.Errors.{Error, operation, Result, ok, err}
use comments_service.Application.Tx.{InTx, Context, with_registry}
use comments_service.Postgres.Database.{Database}
use comments_service.Postgres.Tx.{Session, with_tx}
use comments_service.Postgres.Tx.Rollback.{Stays}

-- `running` are the transactions that have begun and not ended. As pgx documents it, BeginTx opens one unless
-- it fails, and Commit and Rollback end the transaction whatever they return.
pub record IsTracked {Tx W : Type 0} (db : Database Tx W) (running : W → List Tx) : Type 0 where
  pub begin_ok : (w w' : W) (tx : Tx) → db.begin_tx w ≡ (ok tx, w') → running w' ≡ tx ∷ running w
  pub begin_err : (w w' : W) (e : Error) → db.begin_tx w ≡ (err e, w') → running w' ≡ running w
  pub by_commit :
      (tx : Tx) (w : W) (others : List Tx)
      → running w ≡ tx ∷ others
      → running (db.commit tx w).1 ≡ others
  pub by_rollback :
      (tx : Tx) (w : W) (others : List Tx)
      → running w ≡ tx ∷ others
      → running (db.rollback tx w).1 ≡ others

module _ {Tx W A : Type 0} (db : Database Tx W) (fn : InTx (Session Tx W) A)
    (s : Session Tx W) where
  -- What the function is called with.
  abbrev inside : Tx → W → Context (Session Tx W)
  inside tx left = with_registry (with_tx tx (record s { world = left }))

  -- Where an error of WithinTx comes from: from BeginTx, from the function, from the rollback after an error
  -- of the function, unless that says that the transaction is closed, or from the commit after its success.
  pub data Reason : Error → Type 0 where
    not_begun :
        (left : W) (cause : Error)
        → db.begin_tx s.world ≡ (err cause, left)
        → Reason (operation (ascii "begin postgres transaction") cause)
    own :
        (tx : Tx) (left : W) (e : Error)
        → db.begin_tx s.world ≡ (ok tx, left)
        → (fn (inside tx left)).0 ≡ err e
        → Reason e
    not_rolled_back :
        (tx : Tx) (left : W) (e cause : Error)
        → db.begin_tx s.world ≡ (ok tx, left)
        → (fn (inside tx left)).0 ≡ err e
        → (db.rollback tx (fn (inside tx left)).1.world.world).0 ≡ err cause
        → db.is_tx_closed cause ≡ false
        → Reason (operation (ascii "rollback postgres transaction") cause)
    not_committed :
        (tx : Tx) (left : W) (a : A) (cause : Error)
        → db.begin_tx s.world ≡ (ok tx, left)
        → (fn (inside tx left)).0 ≡ ok a
        → (db.commit tx (fn (inside tx left)).1.world.world).0 ≡ err cause
        → Reason (operation (ascii "commit postgres transaction") cause)

  module _ (running : W → List Tx) (tracked : IsTracked db running) where
    abbrev Ended : Result A × Session Tx W → Type 0
    Ended (ok a, left) = Unit
    Ended (err e, left) = Stays running s left × Reason e

    module _ (tx : Tx) (left : W) (begun : db.begin_tx s.world ≡ (ok tx, left)) where
      abbrev ran : Context (Session Tx W)
      ran = (fn (inside tx left)).1
