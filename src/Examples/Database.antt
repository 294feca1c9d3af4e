-- ===== src/Examples/Database.antt =====
-- A small database that answers every statement as SQL says: its world is the tables, with the proof
-- that identifiers are distinct. A statement in a transaction reads only.
use mathlib.Core.List.Perm
use comments_service.Prelude.{
  ℕ, zero, suc, ◌≡◌, refl, subst, sym, ap, Bool, true, false, Option, none, some, List, [], ◌∷◌,
  ◌++◌, ◌==◌, ==_iff, ltb, map, replicate, arith, Bool-cases, inl, inr,
}
use comments_service.Go.Text.{ascii, text_ltb}
use comments_service.Go.Map.{Map, get}
use comments_service.Go.Map.Laws.{IsDistinct}
use comments_service.Domain.Errors.{Error, foreign, Result, ok, err}
use comments_service.Domain.Ids.{Uuid, id_text}
use comments_service.Postgres.Sql.{
  PostRow, CommentRow, Tables, Query, post_by_id, posts_page, count_posts, comment_by_id,
  comments_page, ranked_comments, count_comments, count_by, RowOf, answer, Command, insert_post,
  update_post, insert_comment,
}
use comments_service.Postgres.Database.{
  Dbtx, in_pool, in_tx, Database, Delivers, IsFirst, IsAnswer, IsSql, replace_post, carried_out,
  affected, keyed_posts, keyed_comments,
}
use comments_service.Postgres.View.{OrdersTexts}
use comments_service.Examples.Codec.{unary_uuid}

pub record Snapshot : Type 0 where
  pub rows : Tables
  pub posts_distinct : IsDistinct (keyed_posts rows.posts)
  pub comments_distinct : IsDistinct (keyed_comments rows.comments)

module _ {R : Type 0} (key : R → ℕ) where
  abbrev keyed : List R → Map R
  keyed rows = map (λ r. (key r, r)) rows

  get_last_other :
      (rows : List R) (row : R) (k : ℕ)
      → get (keyed rows) k ≡ none
      → (key row == k) ≡ false
      → get (keyed (rows ++ row ∷ [])) k ≡ none
  unfolding get
  get_last_other [] row k h other = ground arith
  get_last_other (r ∷ rows) row k h other = ground (arith, get_last_other rows row k)

  pub last-IsDistinct :
      (rows : List R) (row : R)
      → get (keyed rows) (key row) ≡ none
      → IsDistinct (keyed rows)
      → IsDistinct (keyed (rows ++ row ∷ []))
  unfolding get
  last-IsDistinct [] row h d = (refl, tt)
  last-IsDistinct (r ∷ rows) row h d = (
    get_last_other rows row (key r) d.0 (ground arith),
    last-IsDistinct rows row (ground arith) d.1,
  )

get-replace_post :
    (post : PostRow) (rows : List PostRow) (k : ℕ)
    → get (keyed_posts rows) k ≡ none
    → get (keyed_posts (replace_post post rows)) k ≡ none
unfolding get
get-replace_post post [] k h = refl
get-replace_post post (row ∷ rows) k h = ground (arith, get-replace_post post rows k)

pub replace_post-IsDistinct :
    (post : PostRow) (rows : List PostRow)
    → IsDistinct (keyed_posts rows)
    → IsDistinct (keyed_posts (replace_post post rows))
replace_post-IsDistinct post [] d = tt
replace_post-IsDistinct post (row ∷ rows) d = elim (Bool-cases (row.id == post.id)) [
  | inl e ↦ rw e (
    get-replace_post post rows post.id (rw (← (==_iff row.id post.id).0 e) d.0),
    replace_post-IsDistinct post rows d.1,
  )
  | inr e ↦ rw e (get-replace_post post rows row.id d.0, replace_post-IsDistinct post rows d.1)
]

abbrev no_rows : Error
no_rows = foreign (ascii "no rows in result set")

abbrev add_post :
    (w : Snapshot) (row : PostRow) (old : Option PostRow)
    → get (keyed_posts w.rows.posts) row.id ≡ old
    → Result ℕ × Snapshot
add_post w row (some old) e = (err (foreign (ascii "duplicate key")), w)
add_post w row none e = (
  ok 1,
  record {
    rows = record { posts = w.rows.posts ++ row ∷ []; comments = w.rows.comments };
    posts_distinct = last-IsDistinct (λ r. r.id) w.rows.posts row e w.posts_distinct;
    comments_distinct = w.comments_distinct;
  },
)

abbrev add_comment :
    (w : Snapshot) (row : CommentRow) (old : Option CommentRow)
    → get (keyed_comments w.rows.comments) row.id ≡ old
    → Result ℕ × Snapshot
add_comment w row (some old) e = (err (foreign (ascii "duplicate key")), w)
add_comment w row none e = (
  ok 1,
  record {
    rows = record { posts = w.rows.posts; comments = w.rows.comments ++ row ∷ [] };
    posts_distinct = w.posts_distinct;
    comments_distinct = last-IsDistinct (λ r. r.id) w.rows.comments row e w.comments_distinct;
  },
)

abbrev pub exec_snapshot : Dbtx (Unit {0}) → Command → Snapshot → Result ℕ × Snapshot
exec_snapshot (in_tx tx) c w = (err (foreign (ascii "read-only transaction")), w)
exec_snapshot in_pool (insert_post row) w = add_post w row _ refl
exec_snapshot in_pool (insert_comment row) w = add_comment w row _ refl
exec_snapshot in_pool (update_post row) w = (
  ok (affected (update_post row) w.rows),
  record {
    rows = record { posts = replace_post row w.rows.posts; comments = w.rows.comments };
    posts_distinct = replace_post-IsDistinct row w.rows.posts w.posts_distinct;
    comments_distinct = w.comments_distinct;
  },
)

abbrev pub first_row : {R : Type 0} → List R → Result R
first_row [] = err no_rows
first_row (row ∷ rows) = ok row

abbrev pub is_foreign : Error → Bool
is_foreign (foreign t) = true
is_foreign _ = false

abbrev pub snapshots : Database (Unit {0}) Snapshot
snapshots = record {
  exec = exec_snapshot;
  query = λ d q w.
      (ok (record { rows = map ok (answer (λ t. t) unary_uuid.parse q w.rows); ended = none }), w);
  query_row = λ d q w. (first_row (answer (λ t. t) unary_uuid.parse q w.rows), w);
  begin_tx = λ w. (ok tt, w);
  commit = λ tx w. (ok tt, w);
  rollback = λ tx w. (ok tt, w);
  is_no_rows = is_foreign;
  is_tx_closed = λ e. false;
  stored = λ t. t;
  read_uuid = unary_uuid.parse;
}

pub delivers : {R : Type 0} (rows : List R) → Delivers is_foreign (map (λ r. ok r) rows) none rows
delivers [] = tt
delivers (row ∷ rows) = (refl, delivers rows)

pub first_row-IsFirst : {R : Type 0} (rows : List R) → IsFirst is_foreign (first_row rows) rows
first_row-IsFirst [] = tt
first_row-IsFirst (row ∷ rows) = refl

pub any_query : (q : Query) (rows : List (RowOf q)) → IsAnswer q rows rows
any_query (post_by_id id) rows = refl
any_query (posts_page conditions limit) rows = refl
any_query count_posts rows = refl
any_query (comment_by_id id) rows = refl
any_query (comments_page conditions limit) rows = refl
any_query (ranked_comments column conditions limit) rows = refl
any_query (count_comments conditions) rows = refl
any_query (count_by column conditions) rows = Perm.rfl

-- What a command that is sent must have done.
abbrev pub Done : Command → Snapshot → Result ℕ × Snapshot → Type 0
Done c w (err e, left) = left.rows ≡ w.rows
Done c w (ok n, left) = (n ≡ affected c w.rows) × (left.rows ≡ carried_out (λ t. t) c w.rows)

add_post-Done :
    (w : Snapshot) (row : PostRow) (old : Option PostRow)
    (e : get (keyed_posts w.rows.posts) row.id ≡ old)
    → Done (insert_post row) w (add_post w row old e)
add_post-Done w row none e = (refl, refl)
add_post-Done w row (some old) e = refl

add_comment-Done :
    (w : Snapshot) (row : CommentRow) (old : Option CommentRow)
    (e : get (keyed_comments w.rows.comments) row.id ≡ old)
    → Done (insert_comment row) w (add_comment w row old e)
add_comment-Done w row none e = (refl, refl)
add_comment-Done w row (some old) e = refl

pub exec-Done : (d : Dbtx (Unit {0})) (c : Command) (w : Snapshot) → Done c w (exec_snapshot d c w)
exec-Done (in_tx tx) c w = refl
exec-Done in_pool (insert_post row) w = add_post-Done w row _ refl
exec-Done in_pool (insert_comment row) w = add_comment-Done w row _ refl
exec-Done in_pool (update_post row) w = (refl, refl)

pub reads_texts : (u : Uuid) → unary_uuid.parse (id_text u) ≡ some u
unfolding id_text
reads_texts u = unary_uuid.parse-format u

-- The database is one that answers as SQL says.
unfoldable pub snapshots-IsSql : IsSql snapshots
snapshots-IsSql = record {
  tables = λ d w. w.rows;
  query-answers = λ d q w.
      let rows = answer (λ t. t) unary_uuid.parse q w.rows in
      (rows, any_query q rows, delivers rows);
  query_row-answers = λ d q w. first_row-IsFirst (answer (λ t. t) unary_uuid.parse q w.rows);
  query-reads = λ d e q w. refl;
  query_row-reads = λ d e q w. refl;
  exec_ok = λ d c w w' n h. subst (Done c w) h (exec-Done d c w);
  exec_err = λ d c w w' e h. subst (Done c w) h (exec-Done d c w);
  exec_isolated = λ tx c w. refl;
  begin_tx_isolated = λ w. refl;
  rollback_isolated = λ tx w. refl;
  commit_publishes = λ tx w w' h. sym (ap (λ p. p.1.rows) h);
  posts_distinct = λ d w. w.posts_distinct;
  comments_distinct = λ d w. w.comments_distinct;
  read_uuid-id_text = λ u. reads_texts u;
}

letters-ltb : (u v : Uuid) → text_ltb (replicate (suc u) 97) (replicate (suc v) 97) ≡ ltb u v
unfolding text_ltb
letters-ltb zero zero = refl
letters-ltb zero (suc v) = ground arith
letters-ltb (suc u) zero = ground arith
letters-ltb (suc u) (suc v) = ground (arith, letters-ltb u v)

pub unary-OrdersTexts : OrdersTexts
unfolding id_text unary_uuid
unary-OrdersTexts u v = letters-ltb u v
