-- ===== src/Memory/Comments/Batch.antt =====
-- A Batch method answers, for each of its identifiers, what the method for one identifier answers.
use mathlib.Core.Option
use comments_service.Prelude.{
  ℕ, ◌≡◌, ◌∙◌, refl, ap, Bool, true, ◌&&◌, Option, none, some, List, [], ◌==◌, arith, if◌then◌else◌,
  Bool-cases, inl, inr,
}
use comments_service.Go.Map.{Map, get, values, contains}
use comments_service.Go.Map.Laws.{get-map_values}
use comments_service.Domain.Errors.{Result, ok, map_ok}
use comments_service.Domain.Ids.{PostId, CommentId, UuidText}
use comments_service.Domain.Pagination.{PageInput, Page}
use comments_service.Domain.Comment.{Comment}
use comments_service.Memory.Store.{Store}
use comments_service.Memory.Groups.{assign_all, has-assign_all, groups_lem, counts_lem}
use comments_service.Memory.Comments.{
  is_top_level_in, is_reply_in, is_top_level_of, is_reply_to, parent_of, count_top_level,
  count_replies, batch_count_top_level, batch_count_replies, list_top_level, list_replies,
  paginate_comments, paginate_groups, batch_list_top_level, batch_list_replies,
}

abbrev id_set : List ℕ → Map (Unit {0})
id_set ids = assign_all tt ids []

top_level_covered :
    (ids : List PostId) (c : Comment)
    → is_top_level_in (id_set ids) c ≡ true
    → contains ids c.post_id ≡ true
top_level_covered ids c h = ground (arith, has-assign_all {V = Unit {0}} tt ids c.post_id)

top_level_agrees :
    (ids : List PostId) (k : PostId) (c : Comment)
    → contains ids k ≡ true
    → (is_top_level_in (id_set ids) c && (c.post_id == k)) ≡ is_top_level_of k c
top_level_agrees ids k c h = ground (arith, has-assign_all {V = Unit {0}} tt ids c.post_id)

reply_covered :
    (ids : List CommentId) (c : Comment)
    → is_reply_in (id_set ids) c ≡ true
    → contains ids (parent_of c) ≡ true
reply_covered ids c h = ground (arith, has-assign_all {V = Unit {0}} tt ids (parent_of c))

reply_agrees :
    (ids : List CommentId) (k : CommentId) (c : Comment)
    → contains ids k ≡ true
    → (is_reply_in (id_set ids) c && (parent_of c == k)) ≡ is_reply_to k c
reply_agrees ids k c h = ground (arith, has-assign_all {V = Unit {0}} tt ids (parent_of c))

-- The count of one post, out of the batched counts, is that of CountTopLevel; a post that was not
-- asked for has no count.
pub batch_count_top_level-count :
    (ids : List PostId) (s : Store) (k : PostId)
    → map_ok (λ counts. get counts k) (batch_count_top_level ids s)
      ≡ (if contains ids k then map_ok some (count_top_level k s) else ok none)
unfolding batch_count_top_level count_top_level
batch_count_top_level-count ids s k =
    rw
      (counts_lem (λ c. c.post_id) ids (is_top_level_in (id_set ids)) is_top_level_of
        (top_level_covered ids) (top_level_agrees ids) (values s.comments) k)
      (ground arith)

-- The count of one parent, out of the batched counts, is that of CountReplies; a parent that was not
-- asked for has no count.
pub batch_count_replies-count :
    (ids : List CommentId) (s : Store) (k : CommentId)
    → map_ok (λ counts. get counts k) (batch_count_replies ids s)
      ≡ (if contains ids k then map_ok some (count_replies k s) else ok none)
unfolding batch_count_replies count_replies
batch_count_replies-count ids s k =
    rw
      (counts_lem parent_of ids (is_reply_in (id_set ids)) is_reply_to (reply_covered ids)
        (reply_agrees ids) (values s.comments) k)
      (ground arith)

module _ ⦃uuid : UuidText⦄ where
  -- What `map_values` does to a group that is there or not.
  page_of_group :
      (page : PageInput) (grouped : Map (List Comment)) (asked : Bool) (xs : List Comment) (k : ℕ)
      → get grouped k ≡ (if asked then some xs else none)
      → ◌≡◌ {A = Result (Option (Page Comment))}
          (ok (get (paginate_groups page grouped) k))
          (if asked then ok (some (paginate_comments xs page)) else ok none)
  unfolding paginate_groups
  page_of_group page grouped asked xs k e =
      ap ok (
        get-map_values (λ comments. paginate_comments comments page) grouped k
        ∙ ap (Option.map (λ comments. paginate_comments comments page)) e)
      ∙ elim (Bool-cases asked) [ inl h ↦ rw h refl | inr h ↦ rw h refl ]

  -- The page of one post, out of the batched pages, is that of ListTopLevel; a post that was not asked
  -- for has no page.
  pub batch_list_top_level-list :
      (ids : List PostId) (page : PageInput) (s : Store) (k : PostId)
      → map_ok (λ pages. get pages k) (batch_list_top_level ids page s)
        ≡ (if contains ids k then map_ok some (list_top_level k page s) else ok none)
  unfolding batch_list_top_level list_top_level
  batch_list_top_level-list ids page s k = page_of_group page _ (contains ids k) _ k (
      groups_lem (λ c. c.post_id) ids (is_top_level_in (id_set ids)) is_top_level_of
        (top_level_covered ids) (top_level_agrees ids) (values s.comments) k)

  -- The page of one parent, out of the batched pages, is that of ListReplies; a parent that was not
  -- asked for has no page.
  pub batch_list_replies-list :
      (ids : List CommentId) (page : PageInput) (s : Store) (k : CommentId)
      → map_ok (λ pages. get pages k) (batch_list_replies ids page s)
        ≡ (if contains ids k then map_ok some (list_replies k page s) else ok none)
  unfolding batch_list_replies list_replies
  batch_list_replies-list ids page s k = page_of_group page _ (contains ids k) _ k (
      groups_lem parent_of ids (is_reply_in (id_set ids)) is_reply_to (reply_covered ids)
        (reply_agrees ids) (values s.comments) k)
