-- ===== src/Graphql/Resolvers/Totals.antt =====
-- That totalCount of a connection counts what the connection is a page of.
use comments_service.Prelude.{
  ℕ, ◌≡◌, refl, ◌∙◌, subst, false, Option, some, ◌==◌, ==_refl, Option-cases, inl, inr,
}
use comments_service.Prelude.Int.{ℤ}
use comments_service.Go.Text.{Text}
use comments_service.Go.Map.{get, put}
use comments_service.Go.Map.Laws.{get-put}
use comments_service.Domain.Errors.{Result, ok, err, Result-cases}
use comments_service.Graphql.Mappers.{Connection, PostModel, CommentModel}
use comments_service.Graphql.Loaders.{scope_post, scope_comment}
use comments_service.Graphql.Request.{
  CountResolver, Request, RequestState, request_state_from_context,
  register_comment_connection_resolver, resolve_comment_connection_count,
}
use comments_service.Graphql.Resolvers.{
  string_value, Ref, RequestLoaders, continue, register_count, replies, post_comments,
  comments_total_count,
}

module _ {W : Type 0} where
  -- The request knows how to count the connection at this address.
  abbrev HasCount : ℕ → CountResolver W → Request W → Type 0
  HasCount address count r =
      (state : RequestState W) × (r.state ≡ some state)
      × (get state.comment_count_resolvers address ≡ some count)

  -- So does one that has answered with a connection.
  abbrev Counted : CountResolver W → Result (Ref (Connection CommentModel)) × Request W → Type 0
  Counted count (ok c, r) = HasCount c.address count r
  Counted count (err e, r) = Unit

  register_count-Counted :
      (count : CountResolver W) (connection : Ref (Connection CommentModel)) (r : Request W)
      → Counted count (register_count count connection r)
  unfolding register_count register_comment_connection_resolver request_state_from_context
  register_count-Counted count connection r = elim (Option-cases r.state) [
    | inl absent ↦
        rw
          (register_count, register_comment_connection_resolver, request_state_from_context, absent)
          tt
    | inr (state, present) ↦
        rw
          (
            register_count, register_comment_connection_resolver, request_state_from_context,
            present,
          )
          (
            record state {
              comment_count_resolvers = put state.comment_count_resolvers connection.address count;
            },
            refl,
            get-put state.comment_count_resolvers connection.address connection.address count
                ∙ rw (==_refl connection.address) refl,
          )
  ]

  abbrev answered :
      CountResolver W
      → Request W
      → Result (Ref (Connection CommentModel)) × W
      → Result (Ref (Connection CommentModel)) × Request W
  answered count r (a, w) = continue a (register_count count) (record r { world = w })

  -- From the answer of the loader on.
  loaded :
      (count : CountResolver W) (r : Request W) (a : Result (Ref (Connection CommentModel)) × W)
      → Counted count (answered count r a)
  loaded count r (err e, w) = tt
  loaded count r (ok connection, w) =
      register_count-Counted count connection (record r { world = w })

  module _ (loaders : RequestLoaders W) where
    post_comments-Counted :
        (obj : PostModel) (first : ℤ) (after : Option Text) (r : Request W)
        → Counted (loaders.load_top_level_count obj.id) (post_comments loaders obj first after r)
    unfolding post_comments
    post_comments-Counted obj first after r = elim (Result-cases (request_state_from_context r)) [
      | inr (e, failed) ↦ rw (post_comments, failed) tt
      | inl (state, found) ↦
          rw (post_comments, found)
            (loaded (loaders.load_top_level_count obj.id) r (
              loaders.load_connection
                (record {
                  scope = scope_post;
                  id = obj.id;
                  first = first;
                  after = string_value after;
                })
                r.world))
    ]

    replies-Counted :
        (obj : CommentModel) (first : ℤ) (after : Option Text) (r : Request W)
        → Counted (loaders.load_reply_count obj.id) (replies loaders obj first after r)
    unfolding replies
    replies-Counted obj first after r = elim (Result-cases (request_state_from_context r)) [
      | inr (e, failed) ↦ rw (replies, failed) tt
      | inl (state, found) ↦
          rw (replies, found)
            (loaded (loaders.load_reply_count obj.id) r (
              loaders.load_connection
                (record {
                  scope = scope_comment;
                  id = obj.id;
                  first = first;
                  after = string_value after;
                })
                r.world))
    ]

  -- Answering with a connection at another address keeps what is known of this one.
  module _ (address : ℕ) (kept : CountResolver W) where
    abbrev Kept : Result (Ref (Connection CommentModel)) × Request W → Type 0
    Kept (ok c, r) = (c.address == address) ≡ false → HasCount address kept r
    Kept (err e, r) = Unit

    register_count-Kept :
        (count : CountResolver W) (connection : Ref (Connection CommentModel)) (r : Request W)
        → HasCount address kept r
        → Kept (register_count count connection r)
    unfolding register_count register_comment_connection_resolver request_state_from_context
    register_count-Kept count connection r (state, present, found) =
        rw
          (
            register_count, register_comment_connection_resolver, request_state_from_context,
            present,
          )
          (λ apart. (
            record state {
              comment_count_resolvers = put state.comment_count_resolvers connection.address count;
            },
            refl,
            get-put state.comment_count_resolvers connection.address address count ∙ rw apart found,
          ))

    loaded-Kept :
        (count : CountResolver W) (r : Request W) (a : Result (Ref (Connection CommentModel)) × W)
        → HasCount address kept r
        → Kept (answered count r a)
    loaded-Kept count r (err e, w) has = tt
    loaded-Kept count r (ok connection, w) has =
        register_count-Kept count connection (record r { world = w }) has

    replies-Kept :
        (loaders : RequestLoaders W) (obj : CommentModel) (first : ℤ) (after : Option Text)
        (r : Request W)
        → HasCount address kept r
        → Kept (replies loaders obj first after r)
    unfolding replies
    replies-Kept loaders obj first after r has =
        elim (Result-cases (request_state_from_context r)) [
          | inr (e, failed) ↦ rw (replies, failed) tt
          | inl (state, present) ↦
              rw (replies, present)
                (loaded-Kept (loaders.load_reply_count obj.id) r
                  (loaders.load_connection
                    (record {
                      scope = scope_comment;
                      id = obj.id;
                      first = first;
                      after = string_value after;
                    })
                    r.world)
                  has)
        ]

  HasCount-counts :
      (address : ℕ) (count : CountResolver W) (r : Request W)
      → HasCount address count r
      → comments_total_count address r ≡ ((count r.world).0, record r { world = (count r.world).1 })
  unfolding comments_total_count resolve_comment_connection_count request_state_from_context
  HasCount-counts address count r (state, present, found) =
      rw
        (
          comments_total_count, resolve_comment_connection_count, request_state_from_context,
          present, found,
        )
        (λ i. ((count r.world).0, record r { world = (count r.world).1; state = present i }))

  -- totalCount of this connection, in any later world of the request, is this count.
  abbrev pub Counts : ℕ → CountResolver W → Request W → Type 0
  Counts address count r =
      (w : W)
      → comments_total_count address (record r { world = w })
        ≡ ((count w).0, record r { world = (count w).1 })

  HasCount-Counts :
      (address : ℕ) (count : CountResolver W) (r : Request W)
      → HasCount address count r
      → Counts address count r
  HasCount-Counts address count r (state, present, found) w =
      HasCount-counts address count (record r { world = w }) (state, present, found)

  -- After the resolver Comments of a post has answered with a connection, and then Replies of a comment with
  -- one at another address, totalCount of the first gives the number of top-level comments of that post, and
  -- totalCount of the second the number of replies to that comment, each as its loader counts them at the
  -- time of the call.
  pub total-Counts :
      (loaders : RequestLoaders W) (post : PostModel) (comment : CommentModel) (first first' : ℤ)
      (after after' : Option Text) (r r₁ r₂ : Request W) (c d : Ref (Connection CommentModel))
      → post_comments loaders post first after r ≡ (ok c, r₁)
      → replies loaders comment first' after' r₁ ≡ (ok d, r₂)
      → (d.address == c.address) ≡ false
      → Counts c.address (loaders.load_top_level_count post.id) r₂
        × Counts d.address (loaders.load_reply_count comment.id) r₂
  total-Counts loaders post comment first first' after after' r r₁ r₂ c d comments_run replies_run
        apart =
      let known =
        subst (Counted (loaders.load_top_level_count post.id)) comments_run
          (post_comments-Counted loaders post first after r) in
      let still = subst (Kept c.address (loaders.load_top_level_count post.id)) replies_run (
        replies-Kept c.address (loaders.load_top_level_count post.id) loaders comment first' after'
          r₁ known) in
      (
        HasCount-Counts c.address (loaders.load_top_level_count post.id) r₂ (still apart),
        HasCount-Counts d.address (loaders.load_reply_count comment.id) r₂ (
            subst (Counted (loaders.load_reply_count comment.id)) replies_run
              (replies-Counted loaders comment first' after' r₁)),
      )
