-- ===== src/Graphql/Mappers/Paging.antt =====
-- The connections of posts and of comments, and how a client goes on from them.
use comments_service.Prelude.{ℕ, suc, ◌≡◌, ◌≢◌, refl, false, [], All}
use comments_service.Prelude.Int.{pos}
use comments_service.Go.Time
use comments_service.Domain.Errors.{ok}
use comments_service.Domain.Ids.{UuidText, id_text}
use comments_service.Domain.Pagination.{CursorJson, Page, IsPortable, new_cursor, new_page_input}
use comments_service.Domain.Post
use comments_service.Domain.Post.{Post}
use comments_service.Domain.Post.Valid as ValidPost
use comments_service.Domain.Comment
use comments_service.Domain.Comment.{Comment}
use comments_service.Domain.Comment.Valid as ValidComment
use comments_service.Memory.Paginate.Walk.{page_of_size, end_cursor}
use comments_service.Graphql.Mappers.{
  Connection, PostModel, CommentModel, new_post_model, new_comment_model, new_post_connection,
  new_comment_connection,
}
use comments_service.Graphql.Mappers.Edges.{IsOf, new_connection-inv, continues}

module _ ⦃json : CursorJson⦄ ⦃uuid : UuidText⦄ where
  post_cursor-IsPortable :
      (p : Post)
      → ValidPost.IsValid p
      → IsPortable (Post.cursor p)
        × (Time.is_zero (Post.cursor p).created_at ≡ false)
        × ((Post.cursor p).id ≢ [])
  unfolding Post.cursor new_cursor Time.utc Time.is_zero id_text
  post_cursor-IsPortable p v = ((refl, uuid.format_ascii p.id), v.has_time, uuid.format-ne-nil p.id)

  comment_cursor-IsPortable :
      (c : Comment)
      → ValidComment.IsValid c
      → IsPortable (Comment.cursor c)
        × (Time.is_zero (Comment.cursor c).created_at ≡ false)
        × ((Comment.cursor c).id ≢ [])
  unfolding Comment.cursor new_cursor Time.utc Time.is_zero id_text
  comment_cursor-IsPortable c v =
      ((refl, uuid.format_ascii c.id), v.has_time, uuid.format-ne-nil c.id)

  -- The connection of a page of valid comments has one edge for each comment, in order, with the model of
  -- that comment and its encoded cursor; it passes on whether there is a next page; and its endCursor, given
  -- as `after` with a `first` above zero, makes the page request that goes on behind the last comment, or
  -- from the start if the page is empty.
  pub new_comment_connection-continues :
      (page : Page Comment) (connection : Connection CommentModel) (first : ℕ)
      → All ValidComment.IsValid page.items
      → new_comment_connection page ≡ ok connection
      → IsOf Comment.cursor new_comment_model page connection
        × (new_page_input (pos (suc first)) connection.page_info.end_cursor
            ≡ ok (
                page_of_size
                  (suc first)
                  (end_cursor (λ c. c.created_at) (λ c. id_text c.id) page.items)))
  unfolding new_comment_connection Comment.cursor
  new_comment_connection-continues page connection first valid h =
      let (each, more, last) =
        new_connection-inv Comment.cursor new_comment_model page connection h in
      (
        (each, more, last),
        rw last (
            continues Comment.cursor new_comment_model ValidComment.IsValid (λ c. c.created_at)
              (λ c. id_text c.id) (λ c. refl) comment_cursor-IsPortable first page.items
              connection.edges valid each),
      )

  -- The connection of a page of valid posts has one edge for each post, in order, with the model of
  -- that post and its encoded cursor; it passes on whether there is a next page; and its endCursor, given
  -- as `after` with a `first` above zero, makes the page request that goes on behind the last post, or
  -- from the start if the page is empty.
  pub new_post_connection-continues :
      (page : Page Post) (connection : Connection PostModel) (first : ℕ)
      → All ValidPost.IsValid page.items
      → new_post_connection page ≡ ok connection
      → IsOf Post.cursor new_post_model page connection
        × (new_page_input (pos (suc first)) connection.page_info.end_cursor
            ≡ ok (
                page_of_size
                  (suc first)
                  (end_cursor (λ p. p.created_at) (λ p. id_text p.id) page.items)))
  unfolding new_post_connection Post.cursor
  new_post_connection-continues page connection first valid h =
      let (each, more, last) = new_connection-inv Post.cursor new_post_model page connection h in
      (
        (each, more, last),
        rw last (
            continues Post.cursor new_post_model ValidPost.IsValid (λ p. p.created_at)
              (λ p. id_text p.id) (λ p. refl) post_cursor-IsPortable first page.items
              connection.edges valid each),
      )
