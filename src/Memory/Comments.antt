-- ===== src/Memory/Comments.antt =====
-- internal/adapters/storage/memory/comment_repository.go. A method takes the store and gives its
-- result, with the store that it leaves if it writes.
pub mod Batch
pub mod Pages
use comments_service.Prelude.{
  ℕ, Bool, true, false, ◌&&◌, Option, none, some, List, [], ◌==◌, length, filter,
}
use comments_service.Go.Text.{Text, ascii}
use comments_service.Go.Map.{Map, get, put, values, map_values}
use comments_service.Domain.Errors.{Error, not_found, Result, ok, err}
use comments_service.Domain.Ids.{PostId, CommentId, nil_uuid, UuidText, id_text}
use comments_service.Domain.Pagination.{PageInput, Page}
use comments_service.Domain.Comment.{Comment}
use comments_service.Memory.Store.{Store}
use comments_service.Memory.Paginate.{paginate}
use comments_service.Memory.Groups.{assign_all, has, append_to_groups, count_groups}

unfoldable pub create : Comment → Store → Result (Unit {0}) × Store
create comment s = (ok tt, record s { comments = put s.comments comment.id comment })

-- The comments that pass, in the map's order.
unfoldable pub filter_comments : Map Comment → (Comment → Bool) → List Comment
filter_comments comments predicate = filter predicate (values comments)

unfoldable pub comments_by_predicate : (Comment → Bool) → Store → List Comment
unfolding filter_comments
comments_by_predicate predicate s = filter_comments s.comments predicate

-- comment.ParentID == nil
abbrev pub has_no_parent : Comment → Bool
has_no_parent comment = elim comment.parent_id [ none ↦ true | some id ↦ false ]

-- comment.ParentID != nil && *comment.ParentID == parentID
abbrev pub is_reply_to : CommentId → Comment → Bool
is_reply_to parent_id comment = elim comment.parent_id [ none ↦ false | some id ↦ id == parent_id ]

abbrev pub is_top_level_of : PostId → Comment → Bool
is_top_level_of post_id comment = (comment.post_id == post_id) && has_no_parent comment

unfoldable pub count_top_level : PostId → Store → Result ℕ
unfolding comments_by_predicate
count_top_level post_id s = ok (length (comments_by_predicate (is_top_level_of post_id) s))

unfoldable pub count_replies : CommentId → Store → Result ℕ
unfolding comments_by_predicate
count_replies parent_id s = ok (length (comments_by_predicate (is_reply_to parent_id) s))

-- The predicates of the Batch methods, over the set of the identifiers.
abbrev pub is_top_level_in : Map (Unit {0}) → Comment → Bool
is_top_level_in id_set comment = has id_set comment.post_id && has_no_parent comment

abbrev pub is_reply_in : Map (Unit {0}) → Comment → Bool
is_reply_in id_set comment = elim comment.parent_id [ none ↦ false | some id ↦ has id_set id ]

-- *comment.ParentID, which the loops read of replies only
abbrev pub parent_of : Comment → CommentId
parent_of comment = elim comment.parent_id [ none ↦ nil_uuid | some id ↦ id ]

unfoldable pub batch_count_top_level : List PostId → Store → Result (Map ℕ)
unfolding assign_all has count_groups comments_by_predicate
batch_count_top_level post_ids s =
    let counts = assign_all 0 post_ids [] in
    let id_set = assign_all tt post_ids [] in
    ok (count_groups (λ c. c.post_id) (comments_by_predicate (is_top_level_in id_set) s) counts)

unfoldable pub batch_count_replies : List CommentId → Store → Result (Map ℕ)
unfolding assign_all has count_groups comments_by_predicate
batch_count_replies parent_ids s =
    let counts = assign_all 0 parent_ids [] in
    let id_set = assign_all tt parent_ids [] in
    ok (count_groups parent_of (comments_by_predicate (is_reply_in id_set) s) counts)

module _ ⦃uuid : UuidText⦄ where
  abbrev pub comment_not_found : CommentId → Error
  comment_not_found id = not_found (ascii "comment") (id_text id)

  unfoldable pub get_by_id : CommentId → Store → Result Comment
  get_by_id id s = elim (get s.comments id) [
    | none ↦ err (comment_not_found id)
    | some comment ↦ ok comment
  ]

  abbrev pub text_of : Comment → Text
  text_of comment = id_text comment.id

  unfoldable pub paginate_comments : List Comment → PageInput → Page Comment
  unfolding paginate
  paginate_comments comments page = paginate (λ c. c.created_at) text_of comments page

  unfoldable pub list_top_level : PostId → PageInput → Store → Result (Page Comment)
  unfolding comments_by_predicate paginate_comments
  list_top_level post_id page s =
      ok (paginate_comments (comments_by_predicate (is_top_level_of post_id) s) page)

  unfoldable pub list_replies : CommentId → PageInput → Store → Result (Page Comment)
  unfolding comments_by_predicate paginate_comments
  list_replies parent_id page s =
      ok (paginate_comments (comments_by_predicate (is_reply_to parent_id) s) page)

  -- result[id] = paginateComments(comments, page), for each group
  unfoldable pub paginate_groups : PageInput → Map (List Comment) → Map (Page Comment)
  unfolding map_values paginate_comments
  paginate_groups page grouped = map_values (λ comments. paginate_comments comments page) grouped

  unfoldable pub batch_list_top_level :
      List PostId → PageInput → Store → Result (Map (Page Comment))
  unfolding assign_all has append_to_groups comments_by_predicate paginate_groups
  batch_list_top_level post_ids page s =
      let grouped = assign_all [] post_ids [] in
      let id_set = assign_all tt post_ids [] in
      let comments = comments_by_predicate (is_top_level_in id_set) s in
      ok (paginate_groups page (append_to_groups (λ c. c.post_id) comments grouped))

  unfoldable pub batch_list_replies :
      List CommentId → PageInput → Store → Result (Map (Page Comment))
  unfolding assign_all has append_to_groups comments_by_predicate paginate_groups
  batch_list_replies parent_ids page s =
      let grouped = assign_all [] parent_ids [] in
      let id_set = assign_all tt parent_ids [] in
      let comments = comments_by_predicate (is_reply_in id_set) s in
      ok (paginate_groups page (append_to_groups parent_of comments grouped))
