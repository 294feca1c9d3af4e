-- ===== src/Graphql/Resolvers.antt =====
-- internal/adapters/graphql/schema.resolvers.go and helpers.go: the resolvers of queries, mutations and the
-- subscription.
pub mod Totals
pub mod Subscription
use comments_service.Prelude.{ℕ, Bool, Option, none, some, []}
use comments_service.Prelude.Int.{ℤ}
use comments_service.Go.Text.{Text}
use comments_service.Domain.Errors.{Error, Result, ok, err}
use comments_service.Domain.Ids.{Uuid, UserId, UuidText}
use comments_service.Domain.Pagination.{CursorJson, PageInput, Page, new_page_input}
use comments_service.Domain.Post.{Post}
use comments_service.Domain.Comment.{Comment}
use comments_service.Application.Services.{PostsService, CommentsService}
use comments_service.Application.Posts.{
  CreatePostInput, SetCommentsEnabledInput, create_post, set_enabled, list_posts, count_posts,
  get_post,
}
use comments_service.Application.Comments.{CreateCommentInput, create_comment}
use comments_service.Graphql.Mappers.{
  Connection, PostModel, CommentModel, new_post_model, new_comment_model, new_post_connection,
}
use comments_service.Graphql.Loaders.{CommentConnectionKey, scope_post, scope_comment}
use comments_service.Graphql.Request.{
  CountResolver, Request, actor_from_context, request_state_from_context,
  register_post_connection_resolver, register_comment_connection_resolver,
  resolve_post_connection_count, resolve_comment_connection_count,
}

-- stringValue
abbrev pub string_value : Option Text → Text
string_value none = []
string_value (some value) = value

-- A pointer to a connection: its address, and what it points to.
pub record Ref (A : Type 0) : Type 0 where
  pub address : ℕ
  pub value : A

-- The three loaders of a request, as Load with the thunk that it returns; the library dataloader is not
-- part of this repository.
pub record RequestLoaders (W : Type 0) : Type 0 where
  pub load_connection : CommentConnectionKey → W → Result (Ref (Connection CommentModel)) × W
  pub load_top_level_count : Uuid → CountResolver W
  pub load_reply_count : Uuid → CountResolver W

-- What a resolver does with a request.
abbrev pub Resolved : Type 0 → Type 0 → Type 0
Resolved W A = Request W → Result A × Request W

module _ {W : Type 0} where
  -- A call that changes the world, within a request.
  abbrev pub in_world : {A : Type 0} → (W → Result A × W) → Resolved W A
  in_world call r = let (a, w) = call r.world in (a, record r { world = w })

  abbrev pub continue : {A B : Type 0} → Result A → (A → Resolved W B) → Resolved W B
  continue (ok a) f r = f a r
  continue (err e) f r = (err e, r)

  infixl 10 ◌>>=◌
  -- if err != nil { return nil, err }
  abbrev pub ◌>>=◌ : {A B : Type 0} → Resolved W A → (A → Resolved W B) → Resolved W B
  ◌>>=◌ m f r = let (a, r') = m r in continue a f r'

  abbrev pub pure : {A : Type 0} → A → Resolved W A
  pure a r = (ok a, r)

  abbrev pub lift : {A : Type 0} → Result A → Resolved W A
  lift a r = (a, r)

  -- The last part of Replies and of Comments: the resolver of the count, for the connection's address.
  unfoldable pub register_count :
      CountResolver W → Ref (Connection CommentModel) → Resolved W (Ref (Connection CommentModel))
  unfolding register_comment_connection_resolver
  register_count count connection = do
    registered ← register_comment_connection_resolver connection.address count
    pure connection

  module _ (loaders : RequestLoaders W) where
    unfoldable pub replies :
        CommentModel → ℤ → Option Text → Resolved W (Ref (Connection CommentModel))
    unfolding register_count request_state_from_context
    replies obj first after = do
      state ← (λ r. (request_state_from_context r, r))
      connection ← in_world (
          loaders.load_connection (record {
            scope = scope_comment;
            id = obj.id;
            first = first;
            after = string_value after;
          }))
      register_count (loaders.load_reply_count obj.id) connection

    -- The resolver Comments of a post.
    unfoldable pub post_comments :
        PostModel → ℤ → Option Text → Resolved W (Ref (Connection CommentModel))
    unfolding register_count request_state_from_context
    post_comments obj first after = do
      state ← (λ r. (request_state_from_context r, r))
      connection ← in_world (
          loaders.load_connection
            (record { scope = scope_post; id = obj.id; first = first; after = string_value after }))
      register_count (loaders.load_top_level_count obj.id) connection

  -- TotalCount of a connection of comments, and of one of posts.
  unfoldable pub comments_total_count : ℕ → Resolved W ℕ
  unfolding resolve_comment_connection_count
  comments_total_count obj r = resolve_comment_connection_count obj r

  unfoldable pub posts_total_count : ℕ → Resolved W ℕ
  unfolding resolve_post_connection_count
  posts_total_count obj r = resolve_post_connection_count obj r

  module _ (service : PostsService W) where
    unfoldable pub resolve_create_post : CreatePostInput → Resolved W PostModel
    unfolding create_post new_post_model
    resolve_create_post input = do
      post ← in_world (create_post service input)
      pure (new_post_model post)

    unfoldable pub resolve_set_comments_enabled : Uuid → Bool → Resolved W PostModel
    unfolding set_enabled new_post_model actor_from_context
    resolve_set_comments_enabled post_id enabled = do
      actor_id ← (λ r. (actor_from_context r.actor, r))
      post ← in_world (
          set_enabled service
            (record { post_id = post_id; actor_id = actor_id; enabled = enabled }))
      pure (new_post_model post)

    unfoldable pub resolve_post : Uuid → Resolved W PostModel
    unfolding get_post new_post_model
    resolve_post id = do post ← in_world (get_post service id); pure (new_post_model post)

    -- The resolver Posts; `new_address` gives the address of the connection that is built.
    unfoldable pub resolve_posts :
        ⦃json : CursorJson⦄ ⦃uuid : UuidText⦄
        → (W → ℕ × W)
        → ℤ
        → Option Text
        → Resolved W (Ref (Connection PostModel))
    unfolding new_page_input list_posts new_post_connection register_post_connection_resolver
        count_posts
    resolve_posts new_address first after = do
      page ← lift (new_page_input first after)
      posts ← in_world (list_posts service page)
      connection ← lift (new_post_connection posts)
      address ← (λ r. let (a, w) = new_address r.world in (ok a, record r { world = w }))
      registered ← register_post_connection_resolver address (count_posts service)
      pure (record { address = address; value = connection })

  unfoldable pub resolve_create_comment :
      CommentsService W → CreateCommentInput → Resolved W CommentModel
  unfolding create_comment new_comment_model
  resolve_create_comment service input = do
    comment ← in_world (create_comment service input)
    pure (new_comment_model comment)
