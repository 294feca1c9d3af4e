-- ===== src/Application/Services.antt =====
-- internal/application/services.go: the interfaces that the services are written against, as records of
-- the operations over a world `W`, and the services.
use comments_service.Prelude.{ℕ, Option, List}
use comments_service.Go.Time.{Time}
use comments_service.Go.Map.{Map}
use comments_service.Domain.Errors.{Result}
use comments_service.Domain.Ids.{Uuid, PostId, CommentId, UserId}
use comments_service.Domain.Pagination.{PageInput, Page}
use comments_service.Domain.Post.{Post}
use comments_service.Domain.Comment.{Comment}
use comments_service.Application.Tx.{InTx}

pub record TxManager (W : Type 0) : Type 1 where
  pub within_tx : (A : Type 0) → InTx W A → W → Result A × W

pub record PostRepository (W : Type 0) : Type 0 where
  pub create : Post → W → Result (Unit {0}) × W
  pub get_by_id : PostId → W → Result Post × W
  pub list : PageInput → W → Result (Page Post) × W
  pub count : W → Result ℕ × W
  pub update : Post → W → Result (Unit {0}) × W

pub record CommentRepository (W : Type 0) : Type 0 where
  pub create : Comment → W → Result (Unit {0}) × W
  pub get_by_id : CommentId → W → Result Comment × W
  pub list_top_level : PostId → PageInput → W → Result (Page Comment) × W
  pub list_replies : CommentId → PageInput → W → Result (Page Comment) × W
  pub count_top_level : PostId → W → Result ℕ × W
  pub count_replies : CommentId → W → Result ℕ × W
  pub batch_list_top_level : List PostId → PageInput → W → Result (Map (Page Comment)) × W
  pub batch_list_replies : List CommentId → PageInput → W → Result (Map (Page Comment)) × W
  pub batch_count_top_level : List PostId → W → Result (Map ℕ) × W
  pub batch_count_replies : List CommentId → W → Result (Map ℕ) × W

pub record CommentAddedEvent : Type 0 where
  pub post_id : PostId
  pub comment_id : CommentId
  pub author_id : UserId

-- PublishCommentAdded
pub record CommentEventPublisher (W : Type 0) : Type 0 where
  pub publish_comment_added : CommentAddedEvent → W → W

pub record PostsService (W : Type 0) : Type 1 where
  pub post_repo : PostRepository W
  pub tx_manager : TxManager W
  pub new_id : W → Uuid × W
  pub now : W → Time × W

pub record CommentsService (W : Type 0) : Type 1 where
  pub post_repo : PostRepository W
  pub comment_repo : CommentRepository W
  pub tx_manager : TxManager W
  pub new_id : W → Uuid × W
  pub now : W → Time × W
  -- nil is `none`
  pub events : Option (CommentEventPublisher W)
