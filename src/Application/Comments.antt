-- ===== src/Application/Comments.antt =====
-- internal/application/comments.go.
use comments_service.Prelude.{ℕ, Option, none, some, List, ◌==◌}
use comments_service.Go.Text.{Text, ascii}
use comments_service.Go.Map.{Map}
use comments_service.Domain.Errors.{Error, conflict, Result}
use comments_service.Domain.Ids.{PostId, CommentId, UserId}
use comments_service.Domain.Pagination.{PageInput, Page}
use comments_service.Domain.Comment.{Comment, new_comment}
use comments_service.Application.Tx.{InTx, ◌>>=◌, ◌>>◌, pure, lift, call, draw, check, after_commit}
use comments_service.Application.Services.{
  CommentsService, CommentAddedEvent, CommentEventPublisher,
}

pub record CreateCommentInput : Type 0 where
  pub post_id : PostId
  pub parent_id : Option CommentId
  pub author_id : UserId
  pub body : Text

abbrev pub comments_disabled : Error
comments_disabled = conflict (ascii "post") (ascii "comments are disabled")

abbrev pub parent_elsewhere : Error
parent_elsewhere = conflict (ascii "comment") (ascii "parent comment belongs to a different post")

abbrev pub added_event : Comment → CommentAddedEvent
added_event comment = record {
  post_id = comment.post_id;
  comment_id = comment.id;
  author_id = comment.author_id;
}

module _ {W : Type 0} (s : CommentsService W) where
  -- if input.ParentID != nil { … }
  unfoldable pub check_parent : PostId → Option CommentId → InTx W (Unit {0})
  check_parent post_id none = pure tt
  check_parent post_id (some parent_id) = do
    parent_comment ← call (s.comment_repo.get_by_id parent_id)
    check (parent_comment.post_id == post_id) parent_elsewhere

  -- if s.events != nil { … }
  unfoldable pub announce : Option (CommentEventPublisher W) → Comment → InTx W (Unit {0})
  unfolding after_commit
  announce none comment = pure tt
  announce (some events) comment = after_commit (events.publish_comment_added (added_event comment))

  -- The function that CreateComment passes to WithinTx; `created` is its result.
  unfoldable pub create_comment_tx : CreateCommentInput → InTx W Comment
  unfolding check_parent announce
  create_comment_tx input = do
    post ← call (s.post_repo.get_by_id input.post_id)
    check post.comments_enabled comments_disabled
    check_parent input.post_id input.parent_id
    id ← draw s.new_id
    created_at ← draw s.now
    comment ←
        lift (new_comment id input.post_id input.parent_id input.author_id input.body created_at)
    call (s.comment_repo.create comment)
    announce s.events comment
    pure comment

  unfoldable pub create_comment : CreateCommentInput → W → Result Comment × W
  unfolding create_comment_tx
  create_comment input w = s.tx_manager.within_tx Comment (create_comment_tx input) w

  unfoldable pub get_comment : CommentId → W → Result Comment × W
  get_comment comment_id w = s.comment_repo.get_by_id comment_id w

  unfoldable pub list_top_level_comments : PostId → PageInput → W → Result (Page Comment) × W
  list_top_level_comments post_id page w = s.comment_repo.list_top_level post_id page w

  unfoldable pub list_replies : CommentId → PageInput → W → Result (Page Comment) × W
  list_replies parent_id page w = s.comment_repo.list_replies parent_id page w

  unfoldable pub count_top_level_comments : PostId → W → Result ℕ × W
  count_top_level_comments post_id w = s.comment_repo.count_top_level post_id w

  unfoldable pub count_replies : CommentId → W → Result ℕ × W
  count_replies parent_id w = s.comment_repo.count_replies parent_id w

  unfoldable pub batch_list_top_level_comments :
      List PostId → PageInput → W → Result (Map (Page Comment)) × W
  batch_list_top_level_comments post_ids page w =
      s.comment_repo.batch_list_top_level post_ids page w

  unfoldable pub batch_list_replies :
      List CommentId → PageInput → W → Result (Map (Page Comment)) × W
  batch_list_replies parent_ids page w = s.comment_repo.batch_list_replies parent_ids page w

  unfoldable pub batch_count_top_level_comments : List PostId → W → Result (Map ℕ) × W
  batch_count_top_level_comments post_ids w = s.comment_repo.batch_count_top_level post_ids w

  unfoldable pub batch_count_replies : List CommentId → W → Result (Map ℕ) × W
  batch_count_replies parent_ids w = s.comment_repo.batch_count_replies parent_ids w
