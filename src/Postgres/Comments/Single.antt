-- ===== src/Postgres/Comments/Single.antt =====
-- ListTopLevel, ListReplies, CountTopLevel, CountReplies, GetByID and Create of CommentRepository
-- against those of the memory repository.
use comments_service.Prelude.{
  ℕ, ◌≡◌, refl, subst, sym, ap, ◌∙◌, Bool, true, false, ◌&&◌, Option, none, some, List, [], ◌∷◌,
  ◌++◌, ◌==◌, filter, All, All-filter, arith, if◌then◌else◌, inl, inr,
}
use comments_service.Go.Text.{ascii}
use comments_service.Go.Map.{put}
use comments_service.Go.Map.Laws.{IsDistinct}
use comments_service.Domain.Errors.{Result, ok, err, ◌>>=◌, Result-cases}
use comments_service.Domain.Ids.{Uuid, PostId, CommentId, UuidText}
use comments_service.Domain.Pagination.{PageInput}
use comments_service.Domain.Comment.{Comment}
use comments_service.Domain.Comment.Valid as ValidComment
use comments_service.Memory.Paginate.Spec.{IsSmall}
use comments_service.Memory.Paginate.{matches}
use comments_service.Memory.Comments as MemoryComments
use comments_service.Memory.Comments.{is_top_level_of, is_reply_to, text_of}
use comments_service.Postgres.Sql.{
  CommentRow, Condition, post_id_column, parent_id_column, equals, parent_is_null, is_null, is_cell,
  comment_by_id, insert_comment, answer, meets_all, comment_meets,
}
use comments_service.Postgres.Database.{
  Dbtx, db_from_context, Database, IsSql, IsFirst, keyed_comments,
}
use comments_service.Postgres.Posts.{keyset}
use comments_service.Postgres.Comments.{
  comment_columns, scan_comment, create, list_with_query, list_top_level, list_replies, count_query,
  count_top_level, count_replies, get_by_id, comment_not_found,
}
use comments_service.Postgres.Replies.{
  unless, unless_congr, row_fault, statement_fault, outcome, first_or,
}
use comments_service.Postgres.Rows.{map-append}
use comments_service.Postgres.View.{
  comment_of, comments_of, store_of, HoldsValid, OrdersTexts, FitsColumns, built_comment,
  comments_behind,
}
use comments_service.Postgres.Pages.{get_first, put_last, map-IsDistinct}
use comments_service.Postgres.Comments.Reads.{
  seen, held, comments_fault, count_fault, listed, counted_rows,
}

abbrev pub top_level_conditions : PostId → List Condition → List Condition
top_level_conditions post_id more = equals post_id_column post_id ∷ parent_is_null ∷ more

abbrev pub reply_conditions : CommentId → List Condition → List Condition
reply_conditions parent_id more = equals parent_id_column parent_id ∷ more

-- The conditions of a statement and the tests of the memory repository, on the parent of a comment.
top_level_agrees :
    (p : Bool) (parent : Option Uuid) (m n : Bool)
    → m ≡ n
    → ((p && elim parent [ none ↦ true | some id ↦ false ]) && m) ≡ (p && (is_null parent && n))
top_level_agrees p none m n h = ground arith
top_level_agrees p (some id) m n h = ground arith

reply_agrees :
    (parent : Option Uuid) (id : Uuid) (m n : Bool)
    → m ≡ n
    → (elim parent [ none ↦ false | some u ↦ u == id ] && m) ≡ (is_cell parent id && n)
reply_agrees none id m n h = refl
reply_agrees (some u) id m n h = ground arith

pub and-true : (b : Bool) → (b && true) ≡ b
and-true b = ground arith

module _ {Tx W : Type 0} (db : Database Tx W) ⦃uuid : UuidText⦄ (sql : IsSql db) (ctx : Option Tx)
    (w : W) where
  -- Where the identifiers' texts are ordered as their bytes and every row was written from a valid comment,
  -- ListTopLevel and ListReplies for a page that fits an int, after a cursor that fits the columns, give the
  -- first error that the database reports as an OperationError, and if it reports none the page that the
  -- memory repository gives on the same comments; they change no table.
  pub lists-memory :
      (id : PostId) (page : PageInput)
      → HoldsValid (seen db sql ctx w)
      → OrdersTexts
      → IsSmall page
      → FitsColumns db page.after
      → ((list_top_level db ctx id page w).0
          ≡ unless
              (comments_fault db sql ctx w (top_level_conditions id (keyset page.after)) page)
              (MemoryComments.list_top_level id page (held db sql ctx w)))
        × ((list_replies db ctx id page w).0
            ≡ unless
                (comments_fault db sql ctx w (reply_conditions id (keyset page.after)) page)
                (MemoryComments.list_replies id page (held db sql ctx w)))
        × ((d : Dbtx Tx) → sql.tables d (list_top_level db ctx id page w).1 ≡ sql.tables d w)
        × ((d : Dbtx Tx) → sql.tables d (list_replies db ctx id page w).1 ≡ sql.tables d w)
  unfolding list_top_level list_replies list_with_query MemoryComments.list_top_level
      MemoryComments.list_replies
  lists-memory id page valid orders small fits =
      let behind : (row : CommentRow)
          → matches (λ c. c.created_at) text_of page.after (comment_of row)
            ≡ meets_all (comment_meets db.stored db.read_uuid) (keyset page.after) row =
        λ row. comments_behind orders db sql.read_uuid-id_text page.after row fits in
      (
        listed db sql ctx w (is_top_level_of id) (top_level_conditions id (keyset page.after)) page
            valid orders small
            (λ row. top_level_agrees (row.post_id == id) row.parent_id _ _ (behind row)),
        listed db sql ctx w (is_reply_to id) (reply_conditions id (keyset page.after)) page valid
            orders small (λ row. reply_agrees row.parent_id id _ _ (behind row)),
        λ d. sql.query-reads (db_from_context ctx) d _ w,
        λ d. sql.query-reads (db_from_context ctx) d _ w,
      )

  -- CountTopLevel and CountReplies give an error of the database as an OperationError, and without one
  -- what the memory repository counts on the same comments; they change no table.
  pub counts-memory :
      (id : PostId)
      → ((count_top_level db ctx id w).0
          ≡ unless
              (count_fault db sql ctx w (top_level_conditions id []))
              (MemoryComments.count_top_level id (held db sql ctx w)))
        × ((count_replies db ctx id w).0
            ≡ unless
                (count_fault db sql ctx w (reply_conditions id []))
                (MemoryComments.count_replies id (held db sql ctx w)))
        × ((d : Dbtx Tx) → sql.tables d (count_top_level db ctx id w).1 ≡ sql.tables d w)
        × ((d : Dbtx Tx) → sql.tables d (count_replies db ctx id w).1 ≡ sql.tables d w)
  unfolding count_top_level count_replies count_query MemoryComments.count_top_level
      MemoryComments.count_replies
  counts-memory id = (
    counted_rows db sql ctx w (is_top_level_of id) (top_level_conditions id []) (λ row.
        sym (and-true _) ∙ top_level_agrees (row.post_id == id) row.parent_id true true refl),
    counted_rows db sql ctx w (is_reply_to id) (reply_conditions id [])
        (λ row. sym (and-true _) ∙ reply_agrees row.parent_id id true true refl),
    λ d. sql.query_row-reads (db_from_context ctx) d _ w,
    λ d. sql.query_row-reads (db_from_context ctx) d _ w,
  )

  got :
      (reply : Result CommentRow) (rows : List CommentRow) (id : CommentId)
      → All (λ row. ValidComment.IsValid (comment_of row)) rows
      → IsFirst db.is_no_rows reply rows
      → (scan_comment db reply >>= λ found.
          if found.1 then ok found.0 else err (comment_not_found id))
        ≡ unless
            (row_fault db.is_no_rows (ascii "scan comment") reply)
            (first_or (comment_not_found id) comment_of rows)
  unfolding scan_comment
  got (ok row) [] id v h = absurd h
  got (ok row) (a ∷ rows) id v same = rw (same, built_comment a v.0) refl
  got (err e) [] id v h = ground arith
  got (err e) (a ∷ rows) id v h = rw h refl

  -- Where every row was written from a valid comment, GetByID gives an error of the database, if it reports
  -- one, as an OperationError, and else what the memory repository gives on the same comments, the missing
  -- comment included; it changes no table.
  pub get_by_id-memory :
      (id : CommentId)
      → HoldsValid (seen db sql ctx w)
      → ((get_by_id db ctx id w).0
          ≡ unless
              (row_fault db.is_no_rows
                (ascii "scan comment")
                (db.query_row (db_from_context ctx) (comment_by_id id) w).0)
              (MemoryComments.get_by_id id (held db sql ctx w)))
        × ((d : Dbtx Tx) → sql.tables d (get_by_id db ctx id w).1 ≡ sql.tables d w)
  unfolding get_by_id MemoryComments.get_by_id store_of answer
  get_by_id-memory id valid =
      let d = db_from_context ctx in
      let rows = (seen db sql ctx w).comments in
      (
        got (db.query_row d (comment_by_id id) w).0 (filter (λ row. row.id == id) rows) id
              (All-filter _ _ rows valid.valid_comments)
              (sql.query_row-answers d (comment_by_id id) w)
            ∙ unless_congr _
                (sym (get_first (λ row. row.id) comment_of rows id (comment_not_found id))),
        λ e. sql.query_row-reads d e _ w,
      )

-- The comment, with the time that a column keeps of its own.
abbrev pub kept : {Tx W : Type 0} → Database Tx W → Comment → Comment
kept db comment = record comment {
  created_at = record { instant = (db.stored comment.created_at).instant; zone = 0 };
}

-- A row at the end, where the identifiers are still distinct.
inserted_last :
    (rows : List CommentRow) (row : CommentRow)
    → IsDistinct (keyed_comments (rows ++ row ∷ []))
    → comments_of (rows ++ row ∷ []) ≡ put (comments_of rows) row.id (comment_of row)
inserted_last rows row d =
    let split = map-append (λ r. (r.id, comment_of r)) rows (row ∷ []) in
    let distinct = map-IsDistinct (λ r. r.id) (λ r. r) comment_of (rows ++ row ∷ []) d in
    split
    ∙ sym (put_last (comments_of rows) row.id (comment_of row) (subst IsDistinct split distinct))

module _ {Tx W : Type 0} (db : Database Tx W) ⦃uuid : UuidText⦄ (sql : IsSql db) (ctx : Option Tx)
    (w : W) (comment : Comment) where
  abbrev pub inserted : Result ℕ × W
  inserted = db.exec (db_from_context ctx) (insert_comment (comment_columns comment)) w

  -- Create gives the database's error as an OperationError and then leaves the tables as they are; without
  -- an error the tables hold what the memory repository's Create leaves for the comment with its time as
  -- the column keeps it.
  pub create_comment-memory :
      ((create db ctx comment w).0
        ≡ unless
            (statement_fault (ascii "insert comment") inserted.0)
            (MemoryComments.create (kept db comment) (held db sql ctx w)).0)
      × (held db sql ctx (create db ctx comment w).1
          ≡ outcome inserted.0
              (held db sql ctx w)
              (MemoryComments.create (kept db comment) (held db sql ctx w)).1)
  unfolding create MemoryComments.create store_of
  create_comment-memory = elim (Result-cases inserted.0) [
    | inr (e, failed) ↦ rw failed (
      refl,
      ap store_of (
          sql.exec_err (db_from_context ctx) (insert_comment (comment_columns comment)) w inserted.1
            e (ap (λ r. (r, inserted.1)) failed)),
    )
    | inl (n, fine) ↦ rw fine (
      refl,
      let (one, left) =
            sql.exec_ok (db_from_context ctx) (insert_comment (comment_columns comment)) w
              inserted.1 n (ap (λ r. (r, inserted.1)) fine) in
          let distinct =
            subst (λ t. IsDistinct (keyed_comments t.comments)) left
              (sql.comments_distinct (db_from_context ctx) inserted.1) in
          ap store_of left
          ∙ ap (λ comments. record { posts = (held db sql ctx w).posts; comments = comments })
              (inserted_last (seen db sql ctx w).comments _ distinct),
    )
  ]
