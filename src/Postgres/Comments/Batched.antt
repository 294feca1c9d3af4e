-- ===== src/Postgres/Comments/Batched.antt =====
-- BatchListTopLevel and BatchListReplies of CommentRepository against those of the memory repository.
use comments_service.Prelude.{
  ◌≡◌, refl, sym, ap, ◌∙◌, Bool, true, false, ◌&&◌, Option, none, some, List, [], ◌∷◌, map, All,
  All-map, All-filter, All-filter-true, arith,
}
use comments_service.Go.Text.{ascii}
use comments_service.Go.Map.{Map, get, contains}
use comments_service.Domain.Errors.{ok, map_ok}
use comments_service.Domain.Ids.{Uuid, PostId, CommentId, UuidText}
use comments_service.Domain.Pagination.{PageInput, Page}
use comments_service.Domain.Comment.{Comment}
use comments_service.Memory.Paginate.Spec.{IsSmall}
use comments_service.Memory.Groups.{assign_all, append_to_groups}
use comments_service.Memory.Comments as MemoryComments
use comments_service.Memory.Comments.{
  text_of, is_top_level_of, is_reply_to, has_no_parent, parent_of, comments_by_predicate,
  paginate_comments,
}
use comments_service.Memory.Comments.Batch as MemoryBatch
use comments_service.Postgres.Sql.{
  post_id_column, parent_id_column, Condition, equals_any, parent_is_null, is_cell_in, by_key,
}
use comments_service.Postgres.Database.{Database, IsSql}
use comments_service.Postgres.Posts.{keyset}
use comments_service.Postgres.Comments.{
  start_all, group_by_post, group_by_parent, first_pages, batch_list_by_post_id,
  batch_list_by_parent_id, batch_list_top_level, batch_list_replies,
}
use comments_service.Postgres.Replies.{unless, unless_congr, map_ok-unless}
use comments_service.Postgres.Rows.{All-of_map, All-sort_slice}
use comments_service.Postgres.View.{
  comment_of, HoldsValid, OrdersTexts, FitsColumns, comments_behind,
}
use comments_service.Postgres.Comments.Reads.{seen, held}
use comments_service.Postgres.Comments.Batch.{
  start_all-assign_all, group_by_post-append, group_by_parent-append, page_of_key,
}
use comments_service.Postgres.Comments.Ranked.{
  to_uuids-id, to_uuids_from_comments-id, top_level_agrees, reply_agrees, parent_asked_for, of_key,
  top_of, ranked_fault, scanned_batch,
}

with_parent :
    (ids : List Uuid) (parent : Option Uuid) (b : Bool)
    → (is_cell_in parent ids && b) ≡ true
    → ◌≡◌ {A = Bool} (elim parent [ none ↦ true | some id ↦ false ]) false
with_parent ids none b h = absurd (ground arith)
with_parent ids (some u) b h = refl

module _ {Tx W : Type 0} (db : Database Tx W) ⦃uuid : UuidText⦄ (sql : IsSql db) (ctx : Option Tx)
    (w : W) where
  -- Where the identifiers' texts are ordered as their bytes and every row was written from a valid comment,
  -- BatchListTopLevel for a page that fits an int, after a cursor that fits the columns, gives the first
  -- error that the database reports as an OperationError, and if it reports none, for every identifier what
  -- the memory repository's gives for it on the same comments.
  pub batch_list_top_level-memory :
      (ids : List PostId) (page : PageInput) (k : PostId)
      → HoldsValid (seen db sql ctx w)
      → OrdersTexts
      → IsSmall page
      → FitsColumns db page.after
      → map_ok (λ pages. get pages k) (batch_list_top_level db ctx ids page w).0
        ≡ unless
            (ranked_fault db sql ctx w
              (ascii "batch list top-level comments")
              (ascii "iterate batched top-level comments")
              post_id_column
              (equals_any post_id_column ids ∷ parent_is_null ∷ keyset page.after)
              page)
            (map_ok
              (λ pages. get pages k)
              (MemoryComments.batch_list_top_level ids page (held db sql ctx w)))
  unfolding batch_list_top_level batch_list_by_post_id MemoryComments.list_top_level
  batch_list_top_level-memory ids page k valid orders small fits =
      let conditions = equals_any post_id_column ids ∷ parent_is_null ∷ keyset page.after in
      let g : List Comment → Map (Page Comment) =
        λ comments. first_pages page (group_by_post comments (start_all [] ids [])) in
      let comments = map comment_of (top_of db sql ctx w post_id_column conditions page) in
      let looped : g comments
          ≡ first_pages page (append_to_groups (λ c. c.post_id) comments (assign_all [] ids [])) =
        ap (first_pages page) (
          group_by_post-append comments (start_all [] ids [])
          ∙ ap (append_to_groups (λ c. c.post_id) comments) (start_all-assign_all [] ids [])) in
      rw
        (
          to_uuids-id ids,
          scanned_batch db sql ctx w (ascii "batch list top-level comments")
              (ascii "iterate batched top-level comments") post_id_column conditions page g valid,
        )
        (map_ok-unless (λ pages. get pages k) _ (ok (g comments))
          ∙ unless_congr _ (
              ap (λ pages. ok (get pages k)) looped
              ∙ ap ok (
                  page_of_key db sql ctx w post_id_column (λ c. c.post_id) is_top_level_of ids
                    conditions page (λ row. refl) (λ row h. ground arith)
                    (λ j row there.
                      top_level_agrees ids j row.post_id row.parent_id _ _ there
                        (comments_behind orders db sql.read_uuid-id_text page.after row fits))
                    k orders small)
              ∙ of_key (contains ids k) _
              ∙ sym (MemoryBatch.batch_list_top_level-list ids page (held db sql ctx w) k)))

  -- The rows that a condition on the parent selects have one.
  with_parents :
      (ids : List Uuid) (more : List Condition) (page : PageInput)
      → All
          (λ c. has_no_parent c ≡ false)
          (map comment_of
            (top_of db sql ctx w parent_id_column (equals_any parent_id_column ids ∷ more) page))
  with_parents ids more page = All-of_map comment_of _ _ (
      All-sort_slice _ (by_key parent_id_column) _ (
        All-filter _ _ _ (
          All-map _ _ _ (λ row h. with_parent ids row.parent_id _ h)
            (All-filter-true _ (seen db sql ctx w).comments))))

  -- Where the identifiers' texts are ordered as their bytes and every row was written from a valid comment,
  -- BatchListReplies for a page that fits an int, after a cursor that fits the columns, gives the first
  -- error that the database reports as an OperationError, and if it reports none, for every identifier what
  -- the memory repository's gives for it on the same comments.
  pub batch_list_replies-memory :
      (ids : List CommentId) (page : PageInput) (k : CommentId)
      → HoldsValid (seen db sql ctx w)
      → OrdersTexts
      → IsSmall page
      → FitsColumns db page.after
      → map_ok (λ pages. get pages k) (batch_list_replies db ctx ids page w).0
        ≡ unless
            (ranked_fault db sql ctx w
              (ascii "batch list replies")
              (ascii "iterate batched replies")
              parent_id_column
              (equals_any parent_id_column ids ∷ keyset page.after)
              page)
            (map_ok
              (λ pages. get pages k)
              (MemoryComments.batch_list_replies ids page (held db sql ctx w)))
  unfolding batch_list_replies batch_list_by_parent_id MemoryComments.list_replies
  batch_list_replies-memory ids page k valid orders small fits =
      let conditions = equals_any parent_id_column ids ∷ keyset page.after in
      let g : List Comment → Map (Page Comment) =
        λ comments. first_pages page (group_by_parent comments (start_all [] ids [])) in
      let comments = map comment_of (top_of db sql ctx w parent_id_column conditions page) in
      let looped : g comments
          ≡ first_pages page (append_to_groups parent_of comments (assign_all [] ids [])) =
        ap (first_pages page) (
          group_by_parent-append comments (start_all [] ids [])
            (with_parents ids (keyset page.after) page)
          ∙ ap (append_to_groups parent_of comments) (start_all-assign_all [] ids [])) in
      rw
        (
          to_uuids_from_comments-id ids,
          scanned_batch db sql ctx w (ascii "batch list replies") (ascii "iterate batched replies")
              parent_id_column conditions page g valid,
        )
        (map_ok-unless (λ pages. get pages k) _ (ok (g comments))
          ∙ unless_congr _ (
              ap (λ pages. ok (get pages k)) looped
              ∙ ap ok (
                  page_of_key db sql ctx w parent_id_column parent_of is_reply_to ids conditions
                    page (λ row. refl) (λ row h. parent_asked_for ids row.parent_id _ h)
                    (λ j row there.
                      reply_agrees ids j row.parent_id _ _ there
                        (comments_behind orders db sql.read_uuid-id_text page.after row fits))
                    k orders small)
              ∙ of_key (contains ids k) _
              ∙ sym (MemoryBatch.batch_list_replies-list ids page (held db sql ctx w) k)))
