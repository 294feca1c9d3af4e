-- ===== src/Memory/Comments/Pages.antt =====
-- The pages of ListTopLevel and ListReplies on a well-formed store.
use mathlib.Core.List.{Perm}
use comments_service.Prelude.{ℕ, suc, ◌<◌, ◌≡◌, ap, Bool, none, List, length}
use comments_service.Go.Map.{Map}
use comments_service.Go.Map.Order.{filter-perm, values-perm}
use comments_service.Go.Sort.Unique.{IsStrict}
use comments_service.Domain.Errors.{Result, ok}
use comments_service.Domain.Ids.{PostId, CommentId, UuidText}
use comments_service.Domain.Pagination.{PageInput, Page}
use comments_service.Domain.Comment.{Comment}
use comments_service.Memory.Store.{Store}
use comments_service.Memory.WellFormed.{IsWellFormed, comments-HasDistinctIds}
use comments_service.Memory.Paginate.{goes_first}
use comments_service.Memory.Paginate.Spec.{IsSmall}
use comments_service.Memory.Paginate.Order.{paginate_of_perm}
use comments_service.Memory.Paginate.Walk.{page_of_size, page_or_empty, follow, follow_covers}
use comments_service.Memory.Comments.{
  text_of, comments_by_predicate, is_top_level_of, is_reply_to, list_top_level, list_replies,
  paginate_comments,
}

pub Comment-set : IsSet Comment
Comment-set = hlevel

module _ ⦃uuid : UuidText⦄ where
  abbrev pub newest_first : Comment → Comment → Bool
  newest_first = goes_first (λ c. c.created_at) text_of

  -- What a client gets that asks for pages of `size` comments, at most `fuel` times, each after the last
  -- comment that it has.
  abbrev pub visited : (PageInput → Result (Page Comment)) → ℕ → ℕ → List Comment
  visited request fuel size =
      follow (λ c. c.created_at) text_of (λ page. page_or_empty (request page)) fuel size none

  module _ (s : Store) (w : IsWellFormed s) (fuel n : ℕ)
      (small : IsSmall (page_of_size (suc n) none)) where
    -- On a well-formed store, a client that follows the pages of ListTopLevel, of a size of at least one
    -- that fits an int and with more requests than there are such comments, sees each top-level comment
    -- of the post once, newest first.
    pub list_top_level-covers :
        (post_id : PostId)
        → length (comments_by_predicate (is_top_level_of post_id) s) < fuel
        → IsStrict newest_first (visited (λ page. list_top_level post_id page s) fuel (suc n))
          × Perm
              (visited (λ page. list_top_level post_id page s) fuel (suc n))
              (comments_by_predicate (is_top_level_of post_id) s)
    unfolding list_top_level
    list_top_level-covers post_id enough =
        follow_covers (λ c. c.created_at) text_of fuel n _
          (comments-HasDistinctIds (is_top_level_of post_id) s w) small enough

    -- On a well-formed store, a client that follows the pages of ListReplies, of a size of at least one
    -- that fits an int and with more requests than there are such comments, sees each reply to the parent
    -- once, newest first.
    pub list_replies-covers :
        (parent_id : CommentId)
        → length (comments_by_predicate (is_reply_to parent_id) s) < fuel
        → IsStrict newest_first (visited (λ page. list_replies parent_id page s) fuel (suc n))
          × Perm
              (visited (λ page. list_replies parent_id page s) fuel (suc n))
              (comments_by_predicate (is_reply_to parent_id) s)
    unfolding list_replies
    list_replies-covers parent_id enough =
        follow_covers (λ c. c.created_at) text_of fuel n _
          (comments-HasDistinctIds (is_reply_to parent_id) s w) small enough

  module _ (s : Store) (w : IsWellFormed s) (other : Map Comment)
      (same : Perm s.comments other) where
    reordered :
        (p : Comment → Bool) (page : PageInput)
        → paginate_comments (comments_by_predicate p s) page
          ≡ paginate_comments (comments_by_predicate p (record s { comments = other })) page
    unfolding paginate_comments comments_by_predicate
    reordered p page =
        paginate_of_perm (λ c. c.created_at) text_of Comment-set _ _ page
          (comments-HasDistinctIds p s w) (filter-perm p (values-perm same))

    -- On a well-formed store, the order in which the map hands out its entries does not show in a page of
    -- ListTopLevel or ListReplies.
    pub lists_of_perm :
        (id : ℕ) (page : PageInput)
        → (list_top_level id page s ≡ list_top_level id page (record s { comments = other }))
          × (list_replies id page s ≡ list_replies id page (record s { comments = other }))
    unfolding list_top_level list_replies
    lists_of_perm id page =
        (ap ok (reordered (is_top_level_of id) page), ap ok (reordered (is_reply_to id) page))
