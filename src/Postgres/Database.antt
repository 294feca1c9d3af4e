-- ===== src/Postgres/Database.antt =====
-- The packages pgx and pgxpool as internal/adapters/storage/postgres uses them (dbtx.go, context.go):
-- the pool and its transactions over a world `W`, and what SQL promises of them.
use mathlib.Core.List.{Perm}
use comments_service.Prelude.{
  ℕ, ◌≡◌, Bool, false, Option, none, some, List, [], ◌∷◌, ◌++◌, ◌==◌, map, filter, length,
  if◌then◌else◌,
}
use comments_service.Go.Text.{Text}
use comments_service.Go.Time.{Time}
use comments_service.Go.Map.{Map}
use comments_service.Go.Map.Laws.{IsDistinct}
use comments_service.Domain.Errors.{Error, Result, ok, err}
use comments_service.Domain.Ids.{Uuid, UuidText, id_text}
use comments_service.Postgres.Sql.{
  PostRow, CommentRow, Tables, Query, post_by_id, posts_page, count_posts, comment_by_id,
  comments_page, ranked_comments, count_comments, count_by, RowOf, answer, Command, insert_post,
  update_post, insert_comment,
}

-- DBTX: the pool or a transaction.
pub data Dbtx (Tx : Type 0) : Type 0 where
  in_pool : Dbtx Tx
  in_tx : Tx → Dbtx Tx

-- dbFromContext; the transaction of the context, if txFromContext finds one, is `tx`.
unfoldable pub db_from_context : {Tx : Type 0} → Option Tx → Dbtx Tx
db_from_context none = in_pool
db_from_context (some tx) = in_tx tx

-- pgx.Rows that are read to their end: what each Scan gives, and Err after the last.
pub record Rows (R : Type 0) : Type 0 where
  pub rows : List (Result R)
  pub ended : Option Error

-- Exec gives the rows affected. QueryRow, with the Scan of its row, fails with an error that
-- `is_no_rows` knows where there is none. `stored` is what a timestamptz keeps of a time.
pub record Database (Tx W : Type 0) : Type 0 where
  pub exec : Dbtx Tx → Command → W → Result ℕ × W
  pub query : Dbtx Tx → (q : Query) → W → Result (Rows (RowOf q)) × W
  pub query_row : Dbtx Tx → (q : Query) → W → Result (RowOf q) × W
  pub begin_tx : W → Result Tx × W
  pub commit : Tx → W → Result (Unit {0}) × W
  pub rollback : Tx → W → Result (Unit {0}) × W
  pub is_no_rows : Error → Bool
  pub is_tx_closed : Error → Bool
  pub stored : Time → Time
  pub read_uuid : Text → Option Uuid

module _ {R : Type 0} (is_no_rows : Error → Bool) where
  -- The rows of a reply are the first ones of the answer, and all of them if the reply ends well.
  abbrev pub Delivers : List (Result R) → Option Error → List R → Type 0
  Delivers [] (some e) rows = Unit
  Delivers [] none [] = Unit
  Delivers [] none (r ∷ rows) = ⊥
  Delivers (err e ∷ replies) ended rows = is_no_rows e ≡ false
  Delivers (ok r ∷ replies) ended [] = ⊥
  Delivers (ok r ∷ replies) ended (a ∷ rows) = (r ≡ a) × Delivers replies ended rows

  abbrev pub IsReply : Result (Rows R) → List R → Type 0
  IsReply (err e) rows = Unit
  IsReply (ok reply) rows = Delivers reply.rows reply.ended rows

  -- What QueryRow gives of the rows of the answer.
  abbrev pub IsFirst : Result R → List R → Type 0
  IsFirst (ok r) [] = ⊥
  IsFirst (ok r) (a ∷ rows) = r ≡ a
  IsFirst (err e) [] = Unit
  IsFirst (err e) (a ∷ rows) = is_no_rows e ≡ false

-- The rows are an answer; groups come in any order.
abbrev pub IsAnswer : (q : Query) → List (RowOf q) → List (RowOf q) → Type 0
IsAnswer (post_by_id id) rows wanted = rows ≡ wanted
IsAnswer (posts_page conditions limit) rows wanted = rows ≡ wanted
IsAnswer count_posts rows wanted = rows ≡ wanted
IsAnswer (comment_by_id id) rows wanted = rows ≡ wanted
IsAnswer (comments_page conditions limit) rows wanted = rows ≡ wanted
IsAnswer (ranked_comments column conditions limit) rows wanted = rows ≡ wanted
IsAnswer (count_comments conditions) rows wanted = rows ≡ wanted
IsAnswer (count_by column conditions) rows wanted = Perm rows wanted

-- What a command that does not fail makes of the tables, and how many rows it affects.
abbrev pub replace_post : PostRow → List PostRow → List PostRow
replace_post post [] = []
replace_post post (row ∷ rows) = (if row.id == post.id then post else row) ∷ replace_post post rows

abbrev pub carried_out : (Time → Time) → Command → Tables → Tables
carried_out stored (insert_post row) t = record t {
  posts = t.posts ++ record row { created_at = stored row.created_at } ∷ [];
}
carried_out stored (update_post row) t = record t {
  posts = replace_post (record row { created_at = stored row.created_at }) t.posts;
}
carried_out stored (insert_comment row) t = record t {
  comments = t.comments ++ record row { created_at = stored row.created_at } ∷ [];
}

abbrev pub affected : Command → Tables → ℕ
affected (insert_post row) t = 1
affected (update_post row) t = length (filter (λ r. r.id == row.id) t.posts)
affected (insert_comment row) t = 1

abbrev pub keyed_posts : List PostRow → Map PostRow
keyed_posts rows = map (λ row. (row.id, row)) rows

abbrev pub keyed_comments : List CommentRow → Map CommentRow
keyed_comments rows = map (λ row. (row.id, row)) rows

-- What the repositories rely on, with no other client of the database at work: `tables` is what a
-- statement that is sent to the pool or to the transaction sees. A query changes no table and is
-- answered as SQL says; a command that does not fail is carried out, one that fails changes nothing;
-- what a transaction does is not seen outside before it commits, nor if it is rolled back.
pub record IsSql {Tx W : Type 0} (db : Database Tx W) ⦃uuid : UuidText⦄ : Type 0 where
  pub tables : Dbtx Tx → W → Tables
  pub query-answers :
      (d : Dbtx Tx) (q : Query) (w : W)
      → (rows : List (RowOf q)) × IsAnswer q rows (answer db.stored db.read_uuid q (tables d w))
        × IsReply db.is_no_rows (db.query d q w).0 rows
  pub query_row-answers :
      (d : Dbtx Tx) (q : Query) (w : W)
      → IsFirst db.is_no_rows (db.query_row d q w).0 (answer db.stored db.read_uuid q (tables d w))
  pub query-reads : (d e : Dbtx Tx) (q : Query) (w : W) → tables e (db.query d q w).1 ≡ tables e w
  pub query_row-reads :
      (d e : Dbtx Tx) (q : Query) (w : W) → tables e (db.query_row d q w).1 ≡ tables e w
  pub exec_ok :
      (d : Dbtx Tx) (c : Command) (w w' : W) (n : ℕ)
      → db.exec d c w ≡ (ok n, w')
      → (n ≡ affected c (tables d w)) × (tables d w' ≡ carried_out db.stored c (tables d w))
  pub exec_err :
      (d : Dbtx Tx) (c : Command) (w w' : W) (e : Error)
      → db.exec d c w ≡ (err e, w')
      → tables d w' ≡ tables d w
  pub exec_isolated :
      (tx : Tx) (c : Command) (w : W) → tables in_pool (db.exec (in_tx tx) c w).1 ≡ tables in_pool w
  pub begin_tx_isolated : (w : W) → tables in_pool (db.begin_tx w).1 ≡ tables in_pool w
  pub rollback_isolated : (tx : Tx) (w : W) → tables in_pool (db.rollback tx w).1 ≡ tables in_pool w
  pub commit_publishes :
      (tx : Tx) (w w' : W) → db.commit tx w ≡ (ok tt, w') → tables in_pool w' ≡ tables (in_tx tx) w
  -- The primary keys.
  pub posts_distinct : (d : Dbtx Tx) (w : W) → IsDistinct (keyed_posts (tables d w).posts)
  pub comments_distinct : (d : Dbtx Tx) (w : W) → IsDistinct (keyed_comments (tables d w).comments)
  pub read_uuid-id_text : (u : Uuid) → db.read_uuid (id_text u) ≡ some u
