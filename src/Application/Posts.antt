-- ===== src/Application/Posts.antt =====
-- internal/application/posts.go.
use comments_service.Prelude.{ℕ, Bool}
use comments_service.Go.Text.{Text}
use comments_service.Domain.Errors.{Result}
use comments_service.Domain.Ids.{PostId, UserId}
use comments_service.Domain.Pagination.{PageInput, Page}
use comments_service.Domain.Post.{Post, new_post, set_comments_enabled}
use comments_service.Application.Tx.{InTx, ◌>>=◌, ◌>>◌, pure, lift, call, draw}
use comments_service.Application.Services.{PostsService}

pub record CreatePostInput : Type 0 where
  pub author_id : UserId
  pub title : Text
  pub content : Text

pub record SetCommentsEnabledInput : Type 0 where
  pub post_id : PostId
  pub actor_id : UserId
  pub enabled : Bool

module _ {W : Type 0} (s : PostsService W) where
  -- The function that CreatePost passes to WithinTx; `created` is its result.
  unfoldable pub create_post_tx : CreatePostInput → InTx W Post
  create_post_tx input = do
    id ← draw s.new_id
    created_at ← draw s.now
    post ← lift (new_post id input.author_id input.title input.content created_at)
    call (s.post_repo.create post)
    pure post

  unfoldable pub create_post : CreatePostInput → W → Result Post × W
  unfolding create_post_tx
  create_post input w = s.tx_manager.within_tx Post (create_post_tx input) w

  unfoldable pub set_enabled_tx : SetCommentsEnabledInput → InTx W Post
  set_enabled_tx input = do
    post ← call (s.post_repo.get_by_id input.post_id)
    updated ← lift (set_comments_enabled post input.actor_id input.enabled)
    call (s.post_repo.update updated)
    pure updated

  unfoldable pub set_enabled : SetCommentsEnabledInput → W → Result Post × W
  unfolding set_enabled_tx
  set_enabled input w = s.tx_manager.within_tx Post (set_enabled_tx input) w

  unfoldable pub list_posts : PageInput → W → Result (Page Post) × W
  list_posts page w = s.post_repo.list page w

  unfoldable pub count_posts : W → Result ℕ × W
  count_posts w = s.post_repo.count w

  unfoldable pub get_post : PostId → W → Result Post × W
  get_post post_id w = s.post_repo.get_by_id post_id w
