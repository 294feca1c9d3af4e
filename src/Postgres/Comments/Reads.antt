-- ===== src/Postgres/Comments/Reads.antt =====
-- The reads of CommentRepository for one post or parent answer as the memory repository does on the
-- store that the tables hold.
use comments_service.Prelude.{
  ◌≡◌, refl, subst, sym, ap, ◌∙◌, Bool, false, ◌&&◌, Option, List, map, filter, length, take, All,
  All-map, All-filter,
}
use comments_service.Go.Text.{ascii}
use comments_service.Go.Sort.{sort_slice}
use comments_service.Domain.Errors.{Error, operation, ok, err}
use comments_service.Domain.Ids.{UuidText}
use comments_service.Domain.Pagination.{PageInput, limit_plus_one}
use comments_service.Domain.Comment.{Comment}
use comments_service.Domain.Comment.Valid as ValidComment
use comments_service.Memory.Store.{Store}
use comments_service.Memory.Paginate.{matches}
use comments_service.Memory.Paginate.Order.{HasDistinctIds}
use comments_service.Memory.Paginate.Spec.{IsSmall}
use comments_service.Memory.WellFormed.{comments-HasDistinctIds}
use comments_service.Memory.Comments.{
  text_of, comments_by_predicate, filter_comments, paginate_comments,
}
use comments_service.Memory.Comments.Pages.{Comment-set}
use comments_service.Postgres.Sql.{
  CommentRow, Tables, Condition, comments_page, count_comments, newer_comment, meets_all,
  comment_meets, answer,
}
use comments_service.Postgres.Database.{db_from_context, Database, IsSql, IsReply}
use comments_service.Postgres.Posts.{first_page, page_of_rows}
use comments_service.Postgres.Comments.{
  scan_comment, scan_next_comment, list_with_query, count_query,
}
use comments_service.Postgres.Replies.{
  unless, unless_congr, reply_fault, statement_fault, counted, replied,
}
use comments_service.Postgres.Rows.{All-take, All-of_total, All-sort_slice, map-filter, length-map}
use comments_service.Postgres.View.{
  comment_of, store_of, HoldsValid, OrdersTexts, values-comments, built_comment, newer-comments,
  store_of-IsWellFormed,
}
use comments_service.Postgres.Pages.{first_page-paginate}

-- scanComment on a valid row, and on an error that is not the one for no row.
scan_next-row :
    {Tx W : Type 0} (db : Database Tx W) (row : CommentRow)
    → ValidComment.IsValid (comment_of row)
    → scan_next_comment db (ok row) ≡ ok (comment_of row)
unfolding scan_comment
scan_next-row db row v = rw (built_comment row v) refl

scan_next-error :
    {Tx W : Type 0} (db : Database Tx W) (e : Error)
    → db.is_no_rows e ≡ false
    → scan_next_comment db (err e) ≡ err (operation (ascii "scan comment") e)
unfolding scan_comment
scan_next-error db e h = rw h refl

module _ {Tx W : Type 0} (db : Database Tx W) ⦃uuid : UuidText⦄ (sql : IsSql db) (ctx : Option Tx)
    (w : W) where
  abbrev pub seen : Tables
  seen = sql.tables (db_from_context ctx) w

  abbrev pub held : Store
  held = store_of seen

  -- The comments of the store that pass a test are those of the rows that pass the conditions.
  pub selected-memory :
      (q : Comment → Bool) → comments_by_predicate q held ≡ filter q (map comment_of seen.comments)
  unfolding comments_by_predicate filter_comments store_of
  selected-memory q = ap (filter q) (values-comments seen.comments)

  pub comments_apart :
      (q : Comment → Bool)
      → HasDistinctIds (λ c. c.created_at) text_of (filter q (map comment_of seen.comments))
  comments_apart q =
      subst (λ cs. HasDistinctIds (λ c. c.created_at) text_of (filter q cs))
        (values-comments seen.comments)
        (unfold store_of in
          comments-HasDistinctIds q held (
            store_of-IsWellFormed seen (sql.posts_distinct (db_from_context ctx) w)
              (sql.comments_distinct (db_from_context ctx) w)))

  -- What listWithQuery's reply reports.
  abbrev pub comments_fault : List Condition → PageInput → Option Error
  comments_fault conditions page =
      reply_fault (ascii "scan comment") (ascii "iterate comments") (ascii "query comments")
        (db.query (db_from_context ctx) (comments_page conditions (limit_plus_one page)) w).0

  abbrev pub count_fault : List Condition → Option Error
  count_fault conditions =
      statement_fault (ascii "count comments")
        (db.query_row (db_from_context ctx) (count_comments conditions) w).0

  -- Conditions that say what `q` says of comments.
  module _ (q : Comment → Bool) (conditions : List Condition) where
    pub listed :
        (page : PageInput)
        → HoldsValid seen
        → OrdersTexts
        → IsSmall page
        → ((row : CommentRow)
            → (q (comment_of row)
                && matches (λ c. c.created_at) text_of page.after (comment_of row))
              ≡ meets_all (comment_meets db.stored db.read_uuid) conditions row)
        → (list_with_query db ctx conditions page w).0
          ≡ unless
              (comments_fault conditions page)
              (ok (paginate_comments (comments_by_predicate q held) page))
    unfolding list_with_query page_of_rows paginate_comments answer
    listed page valid orders small agrees =
        let d = db_from_context ctx in
        let limit = limit_plus_one page in
        let meets = meets_all (comment_meets db.stored db.read_uuid) conditions in
        let valid_answer : All (λ row. scan_next_comment db (ok row) ≡ ok (comment_of row))
            (take limit (sort_slice newer_comment (filter meets seen.comments))) =
          All-take _ limit _ (
            All-sort_slice _ newer_comment _ (
              All-filter _ meets seen.comments
                (All-map _ _ seen.comments (scan_next-row db) valid.valid_comments))) in
        let (rows, same, reply) = sql.query-answers d (comments_page conditions limit) w in
        replied db.is_no_rows (ascii "scan comment") (ascii "iterate comments")
          (scan_next_comment db) comment_of (scan_next-error db) (ascii "query comments")
          (first_page page) _ _ valid_answer (subst (IsReply db.is_no_rows _) same reply)
        ∙ unless_congr _ (
            ap ok (
              first_page-paginate comment_of Comment-set (λ c. c.created_at) text_of newer_comment
                (newer-comments orders) page q meets seen.comments small (comments_apart q)
                (All-of_total _ agrees seen.comments)
              ∙ ap (λ cs. paginate_comments cs page) (sym (selected-memory q))))

    pub counted_rows :
        ((row : CommentRow)
          → q (comment_of row) ≡ meets_all (comment_meets db.stored db.read_uuid) conditions row)
        → (count_query db ctx conditions w).0
          ≡ unless (count_fault conditions) (ok (length (comments_by_predicate q held)))
    unfolding count_query answer
    counted_rows agrees =
        let meets = meets_all (comment_meets db.stored db.read_uuid) conditions in
        counted db.is_no_rows (ascii "count comments") (length (filter meets seen.comments)) _
          (sql.query_row-answers (db_from_context ctx) (count_comments conditions) w)
        ∙ unless_congr _ (
            ap ok (
              sym (length-map comment_of (filter meets seen.comments))
              ∙ ap length (
                  map-filter comment_of meets q seen.comments (All-of_total _ agrees seen.comments)
                  ∙ sym (selected-memory q))))
