-- ===== src/Postgres/Comments.antt =====
-- internal/adapters/storage/postgres/comment_repository.go and helpers.go. A method takes the
-- transaction of its context, if there is one, and gives its result with the world that it leaves.
pub mod Reads
pub mod Single
pub mod Batch
pub mod Ranked
pub mod Batched
pub mod Counts
use comments_service.Prelude.{
  ℕ, Bool, true, false, Option, none, some, List, [], ◌∷◌, ◌++◌, if◌then◌else◌,
}
use comments_service.Go.Text.{Text, ascii}
use comments_service.Go.Map.{Map, get, put, map_values, or_zero}
use comments_service.Domain.Errors.{Error, not_found, operation, Result, ok, err, ◌>>=◌, map_ok}
use comments_service.Domain.Ids.{Uuid, PostId, CommentId, nil_uuid, UuidText, id_text}
use comments_service.Domain.Pagination.{PageInput, Page, limit_plus_one}
use comments_service.Domain.Comment.{Comment, new_comment}
use comments_service.Postgres.Sql.{
  CommentRow, Condition, Query, RowOf, post_id_column, parent_id_column, equals, equals_any,
  parent_is_null, comment_by_id, comments_page, ranked_comments, count_comments, count_by,
  insert_comment,
}
use comments_service.Postgres.Database.{Rows, Database, db_from_context}
use comments_service.Postgres.Posts.{
  wrapped, done, zero_time, scan_all, check_ended, first_page, page_of_rows, keyset,
}

unfoldable pub to_uuids : List PostId → List Uuid
to_uuids [] = []
to_uuids (id ∷ ids) = id ∷ to_uuids ids

unfoldable pub to_uuids_from_comments : List CommentId → List Uuid
to_uuids_from_comments [] = []
to_uuids_from_comments (id ∷ ids) = id ∷ to_uuids_from_comments ids

-- domain.Comment{}
abbrev pub zero_comment : Comment
zero_comment = record {
  id = nil_uuid;
  post_id = nil_uuid;
  parent_id = none;
  author_id = nil_uuid;
  body = [];
  created_at = zero_time;
}

abbrev pub comment_columns : Comment → CommentRow
comment_columns comment = record {
  id = comment.id;
  post_id = comment.post_id;
  parent_id = comment.parent_id;
  author_id = comment.author_id;
  body = comment.body;
  created_at = comment.created_at;
}

unfoldable pub build_comment : CommentRow → Result Comment
build_comment row =
    new_comment row.id row.post_id row.parent_id row.author_id row.body row.created_at

-- The row and its rank, which is not used.
unfoldable pub scan_comment_with_rank : Result (CommentRow × ℕ) → Result Comment
unfolding build_comment
scan_comment_with_rank row =
    wrapped (ascii "scan ranked comment") row >>= λ columns. build_comment columns.0

-- for _, id := range ids { m[id] = v }
unfoldable pub start_all {ℓ} : {V : Type ℓ} → V → List Uuid → Map V → Map V
start_all v [] m = m
start_all v (id ∷ ids) m = start_all v ids (put m id v)

-- The loops of the Batch methods over their rows.
unfoldable pub group_by_post : List Comment → Map (List Comment) → Map (List Comment)
group_by_post [] grouped = grouped
group_by_post (comment ∷ comments) grouped =
    group_by_post comments
      (put grouped comment.post_id (or_zero [] (get grouped comment.post_id) ++ comment ∷ []))

-- A comment without a parent is passed over.
unfoldable pub group_by_parent : List Comment → Map (List Comment) → Map (List Comment)
group_by_parent [] grouped = grouped
group_by_parent (comment ∷ comments) grouped = group_by_parent comments (elim comment.parent_id [
  | none ↦ grouped
  | some id ↦ put grouped id (or_zero [] (get grouped id) ++ comment ∷ [])
])

unfoldable pub put_counts : List (Uuid × ℕ) → Map ℕ → Map ℕ
put_counts [] counts = counts
put_counts ((id, n) ∷ rows) counts = put_counts rows (put counts id n)

-- result[id] = domain.Page[domain.Comment]{…}, for each group
unfoldable pub first_pages : PageInput → Map (List Comment) → Map (Page Comment)
unfolding map_values first_page
first_pages page grouped = map_values (λ comments. first_page page comments) grouped

unfoldable pub batch_list_by_post_id :
    List PostId → PageInput → Result (Rows (CommentRow × ℕ)) → Result (Map (Page Comment))
unfolding start_all group_by_post first_pages scan_all scan_comment_with_rank
batch_list_by_post_id post_ids page reply =
    wrapped (ascii "batch list top-level comments") reply >>= λ rows.
    scan_all scan_comment_with_rank rows.rows >>= λ comments.
    check_ended (ascii "iterate batched top-level comments") rows.ended >>= λ end.
    ok (first_pages page (group_by_post comments (start_all [] post_ids [])))

unfoldable pub batch_list_by_parent_id :
    List CommentId → PageInput → Result (Rows (CommentRow × ℕ)) → Result (Map (Page Comment))
unfolding start_all group_by_parent first_pages scan_all scan_comment_with_rank
batch_list_by_parent_id parent_ids page reply =
    wrapped (ascii "batch list replies") reply >>= λ rows.
    scan_all scan_comment_with_rank rows.rows >>= λ comments.
    check_ended (ascii "iterate batched replies") rows.ended >>= λ end.
    ok (first_pages page (group_by_parent comments (start_all [] parent_ids [])))

-- What the two batched counts do with the reply, each with its own texts.
unfoldable pub counts_of_rows :
    Text → Text → Text → List Uuid → Result (Rows (Uuid × ℕ)) → Result (Map ℕ)
unfolding start_all put_counts scan_all
counts_of_rows queried scanned iterated ids reply = wrapped queried reply >>= λ rows.
    scan_all (wrapped scanned) rows.rows >>= λ counted.
    check_ended iterated rows.ended >>= λ end. ok (put_counts counted (start_all 0 ids []))

abbrev pub comment_not_found : ⦃uuid : UuidText⦄ → CommentId → Error
comment_not_found ⦃uuid⦄ id = not_found (ascii "comment") (id_text id)

module _ {Tx W : Type 0} (db : Database Tx W) where
  -- The comment, and whether there is one.
  unfoldable pub scan_comment : Result CommentRow → Result (Comment × Bool)
  unfolding build_comment
  scan_comment (err e) =
      if db.is_no_rows e then ok (zero_comment, false) else err (operation (ascii "scan comment") e)
  scan_comment (ok row) = map_ok (λ comment. (comment, true)) (build_comment row)

  -- comment, _, scanErr := scanComment(rows)
  abbrev pub scan_next_comment : Result CommentRow → Result Comment
  scan_next_comment row = map_ok (λ found. found.0) (scan_comment row)

  unfoldable pub create : Option Tx → Comment → W → Result (Unit {0}) × W
  unfolding db_from_context
  create ctx comment w =
      let (r, left) = db.exec (db_from_context ctx) (insert_comment (comment_columns comment)) w in
      (done (wrapped (ascii "insert comment") r), left)

  unfoldable pub list_with_query :
      Option Tx → List Condition → PageInput → W → Result (Page Comment) × W
  unfolding db_from_context page_of_rows limit_plus_one
  list_with_query ctx conditions page w =
      let query = comments_page conditions (limit_plus_one page) in
      let (reply, left) = db.query (db_from_context ctx) query w in
      (
        page_of_rows (ascii "query comments") (ascii "iterate comments") scan_next_comment page
            reply,
        left,
      )

  unfoldable pub list_top_level : Option Tx → PostId → PageInput → W → Result (Page Comment) × W
  unfolding list_with_query
  list_top_level ctx post_id page w =
      list_with_query ctx (equals post_id_column post_id ∷ parent_is_null ∷ keyset page.after) page
        w

  unfoldable pub list_replies : Option Tx → CommentId → PageInput → W → Result (Page Comment) × W
  unfolding list_with_query
  list_replies ctx parent_id page w =
      list_with_query ctx (equals parent_id_column parent_id ∷ keyset page.after) page w

  unfoldable pub count_query : Option Tx → List Condition → W → Result ℕ × W
  unfolding db_from_context
  count_query ctx conditions w =
      let (r, left) = db.query_row (db_from_context ctx) (count_comments conditions) w in
      (wrapped (ascii "count comments") r, left)

  unfoldable pub count_top_level : Option Tx → PostId → W → Result ℕ × W
  unfolding count_query
  count_top_level ctx post_id w =
      count_query ctx (equals post_id_column post_id ∷ parent_is_null ∷ []) w

  unfoldable pub count_replies : Option Tx → CommentId → W → Result ℕ × W
  unfolding count_query
  count_replies ctx parent_id w = count_query ctx (equals parent_id_column parent_id ∷ []) w

  unfoldable pub batch_list_top_level :
      Option Tx → List PostId → PageInput → W → Result (Map (Page Comment)) × W
  unfolding db_from_context batch_list_by_post_id to_uuids limit_plus_one
  batch_list_top_level ctx post_ids page w =
      let conditions =
        equals_any post_id_column (to_uuids post_ids) ∷ parent_is_null ∷ keyset page.after in
      let query = ranked_comments post_id_column conditions (limit_plus_one page) in
      let (reply, left) = db.query (db_from_context ctx) query w in
      (batch_list_by_post_id post_ids page reply, left)

  unfoldable pub batch_list_replies :
      Option Tx → List CommentId → PageInput → W → Result (Map (Page Comment)) × W
  unfolding db_from_context batch_list_by_parent_id to_uuids_from_comments limit_plus_one
  batch_list_replies ctx parent_ids page w =
      let conditions =
        equals_any parent_id_column (to_uuids_from_comments parent_ids) ∷ keyset page.after in
      let query = ranked_comments parent_id_column conditions (limit_plus_one page) in
      let (reply, left) = db.query (db_from_context ctx) query w in
      (batch_list_by_parent_id parent_ids page reply, left)

  unfoldable pub batch_count_top_level : Option Tx → List PostId → W → Result (Map ℕ) × W
  unfolding db_from_context counts_of_rows to_uuids
  batch_count_top_level ctx post_ids w =
      let conditions = equals_any post_id_column (to_uuids post_ids) ∷ parent_is_null ∷ [] in
      let (reply, left) = db.query (db_from_context ctx) (count_by post_id_column conditions) w in
      (
        counts_of_rows (ascii "batch count top-level comments")
            (ascii "scan top-level comment counts") (ascii "iterate top-level comment counts")
            post_ids reply,
        left,
      )

  unfoldable pub batch_count_replies : Option Tx → List CommentId → W → Result (Map ℕ) × W
  unfolding db_from_context counts_of_rows to_uuids_from_comments
  batch_count_replies ctx parent_ids w =
      let conditions = equals_any parent_id_column (to_uuids_from_comments parent_ids) ∷ [] in
      let (reply, left) = db.query (db_from_context ctx) (count_by parent_id_column conditions) w in
      (
        counts_of_rows (ascii "batch count replies") (ascii "scan reply counts")
            (ascii "iterate reply counts") parent_ids reply,
        left,
      )

  module _ ⦃uuid : UuidText⦄ where
    unfoldable pub get_by_id : Option Tx → CommentId → W → Result Comment × W
    unfolding db_from_context scan_comment
    get_by_id ctx id w =
        let (row, left) = db.query_row (db_from_context ctx) (comment_by_id id) w in
        (
          scan_comment row >>= λ found. if found.1 then ok found.0 else err (comment_not_found id),
          left,
        )
