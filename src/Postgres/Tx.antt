-- ===== src/Postgres/Tx.antt =====
-- internal/adapters/storage/postgres/tx_manager.go and context.go, and the services over PostgreSQL as
-- internal/di/container.go wires them for the backend "postgres".
pub mod Rollback
pub mod Atomic
pub mod Ended
use comments_service.Prelude.{Option, none, some, if◌then◌else◌}
use comments_service.Go.Text.{ascii}
use comments_service.Go.Time.{Time}
use comments_service.Domain.Errors.{Error, operation, Result, ok, err}
use comments_service.Domain.Ids.{Uuid, UuidText}
use comments_service.Application.Tx.{InTx, Context, with_registry, run}
use comments_service.Application.Services.{
  TxManager, PostRepository, CommentRepository, CommentAddedEvent, CommentEventPublisher,
  PostsService, CommentsService,
}
use comments_service.Postgres.Database.{Database}
use comments_service.Postgres.Posts
use comments_service.Postgres.Comments

-- The world, and the transaction that the context carries under txContextKey.
pub record Session (Tx W : Type 0) : Type 0 where
  pub world : W
  pub tx : Option Tx

module _ {Tx W : Type 0} where
  unfoldable pub with_tx : Tx → Session Tx W → Session Tx W
  with_tx tx s = record s { tx = some tx }

  unfoldable pub tx_from_context : Session Tx W → Option Tx
  tx_from_context s = s.tx

module _ {Tx W : Type 0} (db : Database Tx W) where
  -- What is returned after the rollback for the error `e`.
  abbrev pub after_rollback : Result (Unit {0}) → Error → Error
  after_rollback (ok done) e = e
  after_rollback (err failed) e =
      if db.is_tx_closed failed then e else operation (ascii "rollback postgres transaction") failed

  module _ {A : Type 0} where
    -- registry.Run, after a commit
    unfoldable pub committed :
        Result (Unit {0}) → A → Context (Session Tx W) → Result A × Session Tx W
    unfolding run
    committed (err e) a ctx = (err (operation (ascii "commit postgres transaction") e), ctx.world)
    committed (ok done) a ctx = (ok a, run ctx.registry ctx.world)

    -- WithinTx behind the call of fn; `outer` is the transaction of its own context.
    unfoldable pub finish :
        Option Tx → Tx → Result A → Context (Session Tx W) → Result A × Session Tx W
    unfolding committed
    finish outer tx (err e) ctx =
        let (rolled, left) = db.rollback tx ctx.world.world in
        (err (after_rollback rolled e), record { world = left; tx = outer })
    finish outer tx (ok a) ctx =
        let (done, left) = db.commit tx ctx.world.world in
        committed done a (record ctx { world = record { world = left; tx = outer } })

    unfoldable pub run_in :
        Result Tx → InTx (Session Tx W) A → Session Tx W → Result A × Session Tx W
    unfolding with_tx with_registry finish
    run_in (err e) fn s = (err (operation (ascii "begin postgres transaction") e), s)
    run_in (ok tx) fn s = let (r, ctx) = fn (with_registry (with_tx tx s)) in finish s.tx tx r ctx

    unfoldable pub within_tx : InTx (Session Tx W) A → Session Tx W → Result A × Session Tx W
    unfolding run_in
    within_tx fn s =
        let (begun, left) = db.begin_tx s.world in run_in begun fn (record s { world = left })

-- A method of a repository, with the transaction of the context that it is called with.
abbrev pub on_db :
    {Tx W A : Type 0} → (Option Tx → W → Result A × W) → Session Tx W → Result A × Session Tx W
on_db f s = let (r, left) = f (tx_from_context s) s.world in (r, record s { world = left })

abbrev pub drawn : {Tx W A : Type 0} → (W → A × W) → Session Tx W → A × Session Tx W
drawn f s = let (a, left) = f s.world in (a, record s { world = left })

module _ {Tx W : Type 0} (db : Database Tx W) where
  abbrev pub postgres_tx : TxManager (Session Tx W)
  postgres_tx = record { within_tx = λ A fn s. within_tx db fn s }

  module _ ⦃uuid : UuidText⦄ where
    abbrev pub postgres_posts : PostRepository (Session Tx W)
    postgres_posts = record {
      create = λ post. on_db (λ ctx. Posts.create db ctx post);
      get_by_id = λ id. on_db (λ ctx. Posts.get_by_id db ctx id);
      list = λ page. on_db (λ ctx. Posts.list db ctx page);
      count = on_db (λ ctx. Posts.count db ctx);
      update = λ post. on_db (λ ctx. Posts.update db ctx post);
    }

    abbrev pub postgres_comments : CommentRepository (Session Tx W)
    postgres_comments = record {
      create = λ comment. on_db (λ ctx. Comments.create db ctx comment);
      get_by_id = λ id. on_db (λ ctx. Comments.get_by_id db ctx id);
      list_top_level = λ id page. on_db (λ ctx. Comments.list_top_level db ctx id page);
      list_replies = λ id page. on_db (λ ctx. Comments.list_replies db ctx id page);
      count_top_level = λ id. on_db (λ ctx. Comments.count_top_level db ctx id);
      count_replies = λ id. on_db (λ ctx. Comments.count_replies db ctx id);
      batch_list_top_level =
          λ ids page. on_db (λ ctx. Comments.batch_list_top_level db ctx ids page);
      batch_list_replies = λ ids page. on_db (λ ctx. Comments.batch_list_replies db ctx ids page);
      batch_count_top_level = λ ids. on_db (λ ctx. Comments.batch_count_top_level db ctx ids);
      batch_count_replies = λ ids. on_db (λ ctx. Comments.batch_count_replies db ctx ids);
    }

    module _ (new_id : W → Uuid × W) (now : W → Time × W) where
      abbrev pub postgres_posts_service : PostsService (Session Tx W)
      postgres_posts_service = record {
        post_repo = postgres_posts;
        tx_manager = postgres_tx;
        new_id = drawn new_id;
        now = drawn now;
      }

      abbrev pub postgres_comments_service :
          (CommentAddedEvent → W → W) → CommentsService (Session Tx W)
      postgres_comments_service publish = record {
        post_repo = postgres_posts;
        comment_repo = postgres_comments;
        tx_manager = postgres_tx;
        new_id = drawn new_id;
        now = drawn now;
        events = some (record {
          publish_comment_added = λ event s. record s { world = publish event s.world };
        });
      }
