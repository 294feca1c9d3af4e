-- ===== src/Postgres/Posts/Reads.antt =====
-- The reads of PostRepository answer as the memory repository does on the store that the tables hold.
use comments_service.Prelude.{
  ◌≡◌, refl, subst, sym, ap, ◌∙◌, true, false, Option, List, [], ◌∷◌, ◌==◌, map, filter, length,
  take, All, All-map, All-filter, filter-All, arith, if◌then◌else◌,
}
use comments_service.Go.Text.{ascii}
use comments_service.Go.Sort.{sort_slice}
use comments_service.Domain.Errors.{Error, operation, Result, ok, err, ◌>>=◌}
use comments_service.Domain.Ids.{PostId, UuidText, id_text}
use comments_service.Domain.Pagination.{PageInput, limit_plus_one}
use comments_service.Domain.Post.Valid as ValidPost
use comments_service.Memory.Store.{Store}
use comments_service.Memory.Paginate.{paginate}
use comments_service.Memory.Paginate.Order.{HasDistinctIds}
use comments_service.Memory.WellFormed.{posts-HasDistinctIds}
use comments_service.Memory.Posts as MemoryPosts
use comments_service.Memory.Posts.{list_posts, snapshot_posts}
use comments_service.Memory.Posts.Pages.{Post-set}
use comments_service.Memory.Paginate.Spec.{IsSmall}
use comments_service.Postgres.Sql.{
  PostRow, Tables, posts_page, post_by_id, count_posts, newer_post, meets_all, post_meets, answer,
}
use comments_service.Postgres.Database.{Dbtx, db_from_context, Database, IsSql, IsReply, IsFirst}
use comments_service.Postgres.Posts.{
  first_page, keyset, scan_post, scan_next_post, page_of_rows, list, get_by_id, count,
  post_not_found,
}
use comments_service.Postgres.Replies.{
  unless, unless_congr, reply_fault, row_fault, statement_fault, first_or, counted, replied,
}
use comments_service.Postgres.Rows.{All-take, All-of_total, All-sort_slice, length-map}
use comments_service.Postgres.View.{
  post_of, store_of, HoldsValid, OrdersTexts, FitsColumns, values-posts, built_post, newer-posts,
  posts_behind, store_of-IsWellFormed,
}
use comments_service.Postgres.Pages.{first_page-paginate, get_first}

-- scanPost on a valid row, and on an error that is not the one for no row.
scan_next-row :
    {Tx W : Type 0} (db : Database Tx W) (row : PostRow)
    → ValidPost.IsValid (post_of row)
    → scan_next_post db (ok row) ≡ ok (post_of row)
unfolding scan_post
scan_next-row db row v = rw (built_post row v) refl

scan_next-error :
    {Tx W : Type 0} (db : Database Tx W) (e : Error)
    → db.is_no_rows e ≡ false
    → scan_next_post db (err e) ≡ err (operation (ascii "scan post") e)
unfolding scan_post
scan_next-error db e h = rw h refl

module _ {Tx W : Type 0} (db : Database Tx W) ⦃uuid : UuidText⦄ (sql : IsSql db) (ctx : Option Tx)
    (w : W) (valid : HoldsValid (sql.tables (db_from_context ctx) w)) where
  abbrev held : Store
  held = store_of (sql.tables (db_from_context ctx) w)

  abbrev seen : Tables
  seen = sql.tables (db_from_context ctx) w

  posts_apart : HasDistinctIds (λ p. p.created_at) (λ p. id_text p.id) (map post_of seen.posts)
  posts_apart =
      subst (HasDistinctIds (λ p. p.created_at) (λ p. id_text p.id)) (values-posts seen.posts) (
        unfold store_of in
        posts-HasDistinctIds held (
          store_of-IsWellFormed seen (sql.posts_distinct (db_from_context ctx) w)
            (sql.comments_distinct (db_from_context ctx) w)))

  page_of_posts :
      (orders : OrdersTexts) (page : PageInput)
      → IsSmall page
      → FitsColumns db page.after
      → first_page page (
          map post_of (
            take (limit_plus_one page) (
              sort_slice newer_post (
                filter
                  (meets_all (post_meets db.stored db.read_uuid) (keyset page.after))
                  seen.posts))))
        ≡ paginate (λ p. p.created_at) (λ p. id_text p.id) (list_posts held) page
  unfolding list_posts snapshot_posts store_of
  page_of_posts orders page small fits =
      let every : filter (λ p. true) (map post_of seen.posts) ≡ map post_of seen.posts =
        filter-All (λ p. true) _ (All-of_total _ (λ p. refl) (map post_of seen.posts)) in
      first_page-paginate post_of Post-set (λ p. p.created_at) (λ p. id_text p.id) newer_post
        (newer-posts orders) page (λ p. true) _ seen.posts small (rw every posts_apart)
        (All-of_total _ (λ row. posts_behind orders db sql.read_uuid-id_text page.after row fits)
          seen.posts)
      ∙ ap (λ ps. paginate (λ p. p.created_at) (λ p. id_text p.id) ps page)
          (every ∙ sym (values-posts seen.posts))

  -- Where the identifiers' texts are ordered as their bytes and every row was written from a valid post,
  -- List for a page that fits an int, after a cursor that fits the columns, gives the first error that the
  -- database reports as an OperationError, and if it reports none the page that the memory repository gives
  -- on the same posts; it changes no table.
  pub list-memory :
      (orders : OrdersTexts) (page : PageInput)
      → IsSmall page
      → FitsColumns db page.after
      → ((list db ctx page w).0
          ≡ unless
              (reply_fault
                (ascii "scan post")
                (ascii "iterate posts")
                (ascii "list posts")
                (db.query
                  (db_from_context ctx)
                  (posts_page (keyset page.after) (limit_plus_one page))
                  w).0)
              (MemoryPosts.list page held))
        × ((d : Dbtx Tx) → sql.tables d (list db ctx page w).1 ≡ sql.tables d w)
  unfolding list page_of_rows MemoryPosts.list answer
  list-memory orders page small fits =
      let d = db_from_context ctx in
      let conditions = keyset page.after in
      let limit = limit_plus_one page in
      let meets = meets_all (post_meets db.stored db.read_uuid) conditions in
      let valid_answer : All (λ row. scan_next_post db (ok row) ≡ ok (post_of row))
          (take limit (sort_slice newer_post (filter meets seen.posts))) =
        All-take _ limit _ (
          All-sort_slice _ newer_post _ (
            All-filter _ meets seen.posts
              (All-map _ _ seen.posts (scan_next-row db) valid.valid_posts))) in
      let (rows, same, reply) = sql.query-answers d (posts_page conditions limit) w in
      (
        replied db.is_no_rows (ascii "scan post") (ascii "iterate posts") (scan_next_post db)
              post_of (scan_next-error db) (ascii "list posts") (first_page page) _ _ valid_answer
              (subst (IsReply db.is_no_rows _) same reply)
            ∙ unless_congr _ (ap ok (page_of_posts orders page small fits)),
        λ e. sql.query-reads d e _ w,
      )

  -- On an answer and what QueryRow gives of it: the post, none, or an error.
  got :
      (reply : Result PostRow) (rows : List PostRow) (id : PostId)
      → All (λ row. ValidPost.IsValid (post_of row)) rows
      → IsFirst db.is_no_rows reply rows
      → (scan_post db reply >>= λ found. if found.1 then ok found.0 else err (post_not_found id))
        ≡ unless
            (row_fault db.is_no_rows (ascii "scan post") reply)
            (first_or (post_not_found id) post_of rows)
  unfolding scan_post
  got (ok row) [] id v h = absurd h
  got (ok row) (a ∷ rows) id v same = rw (same, built_post a v.0) refl
  got (err e) [] id v h = ground arith
  got (err e) (a ∷ rows) id v h = rw h refl

  -- Where every row was written from a valid post, GetByID and Count give an error of the database, if it
  -- reports one, as an OperationError, and else what the memory repository gives on the same posts, the
  -- missing post included; they change no table.
  pub gets-memory :
      (id : PostId)
      → ((get_by_id db ctx id w).0
          ≡ unless
              (row_fault db.is_no_rows
                (ascii "scan post")
                (db.query_row (db_from_context ctx) (post_by_id id) w).0)
              (MemoryPosts.get_by_id id held))
        × ((count db ctx w).0
            ≡ unless
                (statement_fault
                  (ascii "count posts")
                  (db.query_row (db_from_context ctx) count_posts w).0)
                (MemoryPosts.count held))
        × ((d : Dbtx Tx) → sql.tables d (get_by_id db ctx id w).1 ≡ sql.tables d w)
        × ((d : Dbtx Tx) → sql.tables d (count db ctx w).1 ≡ sql.tables d w)
  unfolding get_by_id count MemoryPosts.get_by_id MemoryPosts.count answer store_of
  gets-memory id =
      let d = db_from_context ctx in
      let rows = filter (λ row. row.id == id) seen.posts in
      (
        got (db.query_row d (post_by_id id) w).0 rows id
              (All-filter _ _ seen.posts valid.valid_posts)
              (sql.query_row-answers d (post_by_id id) w)
            ∙ unless_congr _
                (sym (get_first (λ row. row.id) post_of seen.posts id (post_not_found id))),
        counted db.is_no_rows (ascii "count posts") (length seen.posts) _
              (sql.query_row-answers d count_posts w)
            ∙ unless_congr _ (sym (ap ok (length-map (λ row. (row.id, post_of row)) seen.posts))),
        λ e. sql.query_row-reads d e _ w,
        λ e. sql.query_row-reads d e _ w,
      )
