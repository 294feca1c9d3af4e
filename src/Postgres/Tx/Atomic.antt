-- ===== src/Postgres/Tx/Atomic.antt =====
-- The writing operations of the services over PostgreSQL: an error leaves nothing behind.
use comments_service.Prelude.{◌≡◌, ◌⊎◌, inl, inr, Option, none, some, ◌==◌}
use comments_service.Go.Time.{Time}
use comments_service.Domain.Errors.{Error, err}
use comments_service.Domain.Ids.{Uuid, PostId, CommentId, UuidText}
use comments_service.Domain.Post.{Post, new_post, set_comments_enabled}
use comments_service.Domain.Comment.{Comment, new_comment}
use comments_service.Application.Tx.{InTx, ◌>>=◌, ◌>>◌, pure, lift, call, draw}
use comments_service.Application.Services.{CommentAddedEvent, PostsService, CommentsService}
use comments_service.Application.Posts.{
  CreatePostInput, SetCommentsEnabledInput, create_post_tx, create_post, set_enabled_tx,
  set_enabled,
}
use comments_service.Application.Comments.{
  CreateCommentInput, parent_elsewhere, comments_disabled, check_parent, announce,
  create_comment_tx, create_comment,
}
use comments_service.Postgres.Database.{Database, db_from_context}
use comments_service.Postgres.Posts
use comments_service.Postgres.Comments
use comments_service.Postgres.Tx.{Session, drawn, postgres_posts_service, postgres_comments_service}
use comments_service.Postgres.Tx.Rollback.{
  IsKept, Stays, Confined, IsCommitError, pure-Confined, draw-Confined, check-Confined,
  after_commit-Confined, bind-Confined, lift_bind, call_bind, check_bind, within_tx-rolled_back,
}

module _ {Tx W V : Type 0} (db : Database Tx W) ⦃uuid : UuidText⦄ (view : W → V)
    (kept : IsKept db view) where
  get_post-Confined :
      (id : PostId) (tx : Tx) (w : W) → view (Posts.get_by_id db (some tx) id w).1 ≡ view w
  unfolding Posts.get_by_id db_from_context
  get_post-Confined id tx w = kept.by_query_row tx _ w

  create_post-Confined :
      (post : Post) (tx : Tx) (w : W) → view (Posts.create db (some tx) post w).1 ≡ view w
  unfolding Posts.create db_from_context
  create_post-Confined post tx w = kept.by_exec tx _ w

  update_post-Confined :
      (post : Post) (tx : Tx) (w : W) → view (Posts.update db (some tx) post w).1 ≡ view w
  unfolding Posts.update db_from_context
  update_post-Confined post tx w = kept.by_exec tx _ w

  get_comment-Confined :
      (id : CommentId) (tx : Tx) (w : W) → view (Comments.get_by_id db (some tx) id w).1 ≡ view w
  unfolding Comments.get_by_id db_from_context
  get_comment-Confined id tx w = kept.by_query_row tx _ w

  create_comment-Confined :
      (comment : Comment) (tx : Tx) (w : W)
      → view (Comments.create db (some tx) comment w).1 ≡ view w
  unfolding Comments.create db_from_context
  create_comment-Confined comment tx w = kept.by_exec tx _ w

  module _ (new_id : W → Uuid × W) (now : W → Time × W)
      (new_id_kept : (w : W) → view (new_id w).1 ≡ view w)
      (now_kept : (w : W) → view (now w).1 ≡ view w) where
    abbrev over_posts : PostsService (Session Tx W)
    over_posts = postgres_posts_service db new_id now

    -- What CreatePost does with an identifier and a time.
    abbrev store_post : CreatePostInput → Uuid → Time → InTx (Session Tx W) Post
    store_post input id created_at = do
      post ← lift (new_post id input.author_id input.title input.content created_at)
      call (over_posts.post_repo.create post)
      pure post

    store_post-Confined :
        (input : CreatePostInput) (id : Uuid) (created_at : Time)
        → Confined view (store_post input id created_at)
    store_post-Confined input id created_at =
        lift_bind view _
          (λ post.
            call_bind view _ (λ done. pure-Confined view post) (λ ctx. Posts.create db ctx post)
              (create_post-Confined post))
          (new_post id input.author_id input.title input.content created_at)

    create_post_tx-Confined :
        (input : CreatePostInput) → Confined view (create_post_tx over_posts input)
    unfolding create_post_tx
    create_post_tx-Confined input =
        bind-Confined view (draw (drawn new_id))
          (λ id. draw (drawn now) >>= λ created_at. store_post input id created_at)
          (draw-Confined view new_id new_id_kept)
          (λ id.
            bind-Confined view (draw (drawn now)) (λ created_at. store_post input id created_at)
              (draw-Confined view now now_kept) (store_post-Confined input id))

    set_enabled_tx-Confined :
        (input : SetCommentsEnabledInput) → Confined view (set_enabled_tx over_posts input)
    unfolding set_enabled_tx
    set_enabled_tx-Confined input =
        call_bind view _
          (λ post.
            lift_bind view _
              (λ updated.
                call_bind view _ (λ done. pure-Confined view updated)
                  (λ ctx. Posts.update db ctx updated) (update_post-Confined updated))
              (set_comments_enabled post input.actor_id input.enabled))
          (λ ctx. Posts.get_by_id db ctx input.post_id) (get_post-Confined input.post_id)

    module _ (publish : CommentAddedEvent → W → W) where
      abbrev over_comments : CommentsService (Session Tx W)
      over_comments = postgres_comments_service db new_id now publish

      check_parent-Confined :
          (post_id : PostId) (parent : Option CommentId)
          → Confined view (check_parent over_comments post_id parent)
      unfolding check_parent
      check_parent-Confined post_id none = pure-Confined view tt
      check_parent-Confined post_id (some id) =
          call_bind view _
            (λ parent. check-Confined view (parent.post_id == post_id) parent_elsewhere)
            (λ ctx. Comments.get_by_id db ctx id) (get_comment-Confined id)

      -- What CreateComment does with an identifier and a time.
      abbrev store_comment : CreateCommentInput → Uuid → Time → InTx (Session Tx W) Comment
      store_comment input id created_at = do
        comment ←
            lift
              (new_comment id input.post_id input.parent_id input.author_id input.body created_at)
        call (over_comments.comment_repo.create comment)
        announce over_comments over_comments.events comment
        pure comment

      store_comment-Confined :
          (input : CreateCommentInput) (id : Uuid) (created_at : Time)
          → Confined view (store_comment input id created_at)
      unfolding announce
      store_comment-Confined input id created_at =
          lift_bind view _
            (λ comment.
              call_bind view _
                (λ done.
                  bind-Confined view (announce over_comments over_comments.events comment)
                    (λ done. pure comment) (after_commit-Confined view _)
                    (λ done. pure-Confined view comment))
                (λ ctx. Comments.create db ctx comment) (create_comment-Confined comment))
            (new_comment id input.post_id input.parent_id input.author_id input.body created_at)

      drawn_comment-Confined :
          (input : CreateCommentInput)
          → Confined view (
              draw (drawn new_id) >>= λ id.
              draw (drawn now) >>= λ created_at. store_comment input id created_at)
      drawn_comment-Confined input =
          bind-Confined view (draw (drawn new_id))
            (λ id. draw (drawn now) >>= λ created_at. store_comment input id created_at)
            (draw-Confined view new_id new_id_kept)
            (λ id.
              bind-Confined view (draw (drawn now))
                (λ created_at. store_comment input id created_at) (draw-Confined view now now_kept)
                (store_comment-Confined input id))

      create_comment_tx-Confined :
          (input : CreateCommentInput) → Confined view (create_comment_tx over_comments input)
      unfolding create_comment_tx
      create_comment_tx-Confined input =
          call_bind view _
            (λ post. check_bind view _ post.comments_enabled comments_disabled (
              bind-Confined view (check_parent over_comments input.post_id input.parent_id) _
                (check_parent-Confined input.post_id input.parent_id)
                (λ done. drawn_comment-Confined input)))
            (λ ctx. Posts.get_by_id db ctx input.post_id) (get_post-Confined input.post_id)

      -- If CreateComment over PostgreSQL returns an error, then whatever no statement of an open transaction
      -- and no rollback changes, and neither do the sources of identifiers and times, is as it was before,
      -- unless it is the commit that has failed.
      pub create_comment-rolled_back :
          (input : CreateCommentInput) (s s' : Session Tx W) (e : Error)
          → create_comment over_comments input s ≡ (err e, s')
          → Stays view s s' ⊎ IsCommitError e
      unfolding create_comment
      create_comment-rolled_back input s s' e h =
          within_tx-rolled_back db view kept (create_comment_tx over_comments input) s s' e
            (create_comment_tx-Confined input) h

    -- If CreatePost or SetCommentsEnabled over PostgreSQL returns an error, then whatever no statement of an
    -- open transaction and no rollback changes, and neither do the sources of identifiers and times, is as
    -- it was before, unless it is the commit that has failed.
    pub posts-rolled_back :
        (created : CreatePostInput) (enabled : SetCommentsEnabledInput) (s s' : Session Tx W)
        (e : Error)
        → (create_post over_posts created s ≡ (err e, s'))
          ⊎ (set_enabled over_posts enabled s ≡ (err e, s'))
        → Stays view s s' ⊎ IsCommitError e
    unfolding create_post set_enabled
    posts-rolled_back created enabled s s' e (inl h) =
        within_tx-rolled_back db view kept (create_post_tx over_posts created) s s' e
          (create_post_tx-Confined created) h
    posts-rolled_back created enabled s s' e (inr h) =
        within_tx-rolled_back db view kept (set_enabled_tx over_posts enabled) s s' e
          (set_enabled_tx-Confined enabled) h
