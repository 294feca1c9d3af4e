-- ===== src/Examples/Sessions.antt =====
-- The theorems on transactions of the PostgreSQL adapter: one that reads and fails, and a comment that a
-- read-only database refuses.
use comments_service.Prelude.{false, ℕ, false, List, length, ◌≡◌, ◌⊎◌, refl, none, some, [], ◌∷◌}
use comments_service.Go.Text.{ascii}
use comments_service.Go.Time
use comments_service.Go.Text.{text_eq}
use comments_service.Go.Text.Space.{trim_space, strip, front_width, back_width}
use comments_service.Go.Text.Runes.{rune_count, runes_from, rune_tail}
use comments_service.Domain.Ids
use comments_service.Domain.Errors.{Error, operation, foreign, ok, err}
use comments_service.Domain.Post.{Post, new_post}
use comments_service.Domain.Comment.{new_comment}
use comments_service.Application.Tx.{InTx, call, with_registry}
use comments_service.Application.Comments.{
  CreateCommentInput, check_parent, create_comment_tx, create_comment,
}
use comments_service.Postgres.Tx.{
  Session, with_tx, tx_from_context, within_tx, run_in, finish, on_db, postgres_comments_service,
}
use comments_service.Postgres.Tx.Rollback.{IsKept, tables-IsKept, Stays, IsCommitError}
use comments_service.Postgres.Tx.Atomic.{create_comment-rolled_back}
use comments_service.Postgres.Sql.{Tables, answer}
use comments_service.Postgres.Database.{Database, db_from_context}
use comments_service.Postgres.Posts.{post_columns, build_post, scan_post}
use comments_service.Postgres.Posts as Posts
use comments_service.Postgres.Comments.{comment_columns, build_comment, scan_comment}
use comments_service.Postgres.Comments as Comments
use comments_service.Examples.Codec.{unary_uuid}
use comments_service.Examples.Database.{Snapshot, snapshots, snapshots-IsSql}
use comments_service.Examples.Memory.{at_time}
use comments_service.Examples.Postgres.{sample}

abbrev at_rest : Session (Unit {0}) Snapshot
at_rest = record { world = sample; tx = none }

abbrev visible_rows : Snapshot → Tables
visible_rows w = w.rows

rows-IsKept : IsKept snapshots visible_rows
unfolding snapshots-IsSql
rows-IsKept = tables-IsKept snapshots snapshots-IsSql

abbrev read_only : Error
read_only = operation (ascii "insert comment") (foreign (ascii "read-only transaction"))

abbrev an_input : CreateCommentInput
an_input = record { post_id = 1; parent_id = some 10; author_id = 8; body = 104 ∷ [] }

refused :
    create_comment
      (postgres_comments_service snapshots (λ w. (77, w)) (λ w. (at_time 5, w)) (λ event w. w))
      an_input
      at_rest
    ≡ (err read_only, at_rest)
unfolding create_comment create_comment_tx check_parent within_tx run_in finish with_tx
    with_registry tx_from_context Posts.get_by_id scan_post build_post new_post Comments.get_by_id
    scan_comment build_comment new_comment Comments.create db_from_context answer Time.is_zero
    trim_space strip front_width back_width rune_count runes_from rune_tail Ids.is_zero text_eq
    Time.zero_instant
refused = refl

create_comment-rolled_back_example : Stays visible_rows at_rest at_rest ⊎ IsCommitError read_only
create_comment-rolled_back_example =
    create_comment-rolled_back snapshots visible_rows rows-IsKept (λ w. (77, w))
      (λ w. (at_time 5, w)) (λ w. refl) (λ w. refl) (λ event w. w) an_input at_rest at_rest
      read_only refused

-- A database that only counts: its world is the transactions that are open, and every statement fails.
abbrev refusing : Error
refusing = foreign (ascii "no such table")

abbrev end_first : List ℕ → List ℕ
end_first [] = []
end_first (tx ∷ others) = others

abbrev numbered : Database ℕ (List ℕ)
numbered = record {
  exec = λ d c w. (err refusing, w);
  query = λ d q w. (err refusing, w);
  query_row = λ d q w. (err refusing, w);
  begin_tx = λ w. (ok (length w), length w ∷ w);
  commit = λ tx w. (ok tt, end_first w);
  rollback = λ tx w. (ok tt, end_first w);
  is_no_rows = λ e. false;
  is_tx_closed = λ e. false;
  stored = λ t. t;
  read_uuid = λ t. none;
}

-- A function that reads a post, which fails.
abbrev doomed : InTx (Session ℕ (List ℕ)) Post
doomed = call (on_db (λ ctx. Posts.get_by_id numbered ctx 1))

abbrev one_open : Session ℕ (List ℕ)
one_open = record { world = 0 ∷ []; tx = none }

abbrev not_read : Error
not_read = operation (ascii "scan post") refusing
