-- ===== src/Graphql/Mappers.antt =====
-- internal/adapters/graphql/mappers.go: posts, comments and pages as GraphQL's models.
pub mod Edges
pub mod Paging
use comments_service.Prelude.{Bool, Option, none, some, List, [], ◌∷◌, ◌++◌}
use comments_service.Go.Text.{Text}
use comments_service.Go.Time.{Time}
use comments_service.Domain.Errors.{Result, ok, ◌>>=◌}
use comments_service.Domain.Ids.{Uuid, UuidText}
use comments_service.Domain.Pagination.{Cursor, CursorJson, Page, encode_cursor}
use comments_service.Domain.Post
use comments_service.Domain.Post.{Post}
use comments_service.Domain.Comment
use comments_service.Domain.Comment.{Comment}

-- graph/model's Post, Comment, edges, PageInfo and connections, without the fields that resolvers fill.
pub record PostModel : Type 0 where
  pub id : Uuid
  pub author_id : Uuid
  pub title : Text
  pub content : Text
  pub comments_enabled : Bool
  pub created_at : Time

pub record CommentModel : Type 0 where
  pub id : Uuid
  pub post_id : Uuid
  pub parent_id : Option Uuid
  pub author_id : Uuid
  pub body : Text
  pub created_at : Time

pub record Edge (M : Type 0) : Type 0 where
  pub cursor : Text
  pub node : M

pub record PageInfo : Type 0 where
  pub has_next_page : Bool
  pub end_cursor : Option Text

pub record Connection (M : Type 0) : Type 0 where
  pub edges : List (Edge M)
  pub page_info : PageInfo

unfoldable pub new_post_model : Post → PostModel
new_post_model post = record {
  id = post.id;
  author_id = post.author_id;
  title = post.title;
  content = post.content;
  comments_enabled = post.comments_enabled;
  created_at = post.created_at;
}

unfoldable pub new_comment_model : Comment → CommentModel
new_comment_model comment = record {
  id = comment.id;
  post_id = comment.post_id;
  parent_id = comment.parent_id;
  author_id = comment.author_id;
  body = comment.body;
  created_at = comment.created_at;
}

module _ ⦃json : CursorJson⦄ {A M : Type 0} (cursor : A → Cursor) (model : A → M) where
  -- The loop that newPostConnection and newCommentConnection share, from the edges and the endCursor
  -- that it has so far.
  unfoldable pub edges_loop :
      List (Edge M) → Option Text → List A → Result (List (Edge M) × Option Text)
  edges_loop edges end_cursor [] = ok (edges, end_cursor)
  edges_loop edges end_cursor (item ∷ items) = encode_cursor (cursor item) >>= λ c.
      edges_loop (edges ++ record { cursor = c; node = model item } ∷ []) (some c) items

  unfoldable pub new_connection : Page A → Result (Connection M)
  unfolding edges_loop
  new_connection page = edges_loop [] none page.items >>= λ (edges, end_cursor). ok (record {
    edges = edges;
    page_info = record { has_next_page = page.has_next_page; end_cursor = end_cursor };
  })

module _ ⦃json : CursorJson⦄ ⦃uuid : UuidText⦄ where
  unfoldable pub new_post_connection : Page Post → Result (Connection PostModel)
  unfolding new_connection new_post_model
  new_post_connection page = new_connection Post.cursor new_post_model page

  unfoldable pub new_comment_connection : Page Comment → Result (Connection CommentModel)
  unfolding new_connection new_comment_model
  new_comment_connection page = new_connection Comment.cursor new_comment_model page
