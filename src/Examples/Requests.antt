-- ===== src/Examples/Requests.antt =====
-- A request that lists the comments of a post and the replies to a comment, and an error that is wrapped.
use comments_service.Prelude.{ℕ, ◌+◌, ◌≡◌, refl, none, [], ◌∷◌, true, false}
use comments_service.Prelude.Int.{pos}
use comments_service.Go.Text.{ascii}
use comments_service.Go.Time.{Time}
use comments_service.Domain.Errors.{Error, not_found, operation, ok}
use comments_service.Graphql.Mappers.{Connection, PostModel, CommentModel}
use comments_service.Graphql.Request.{
  Request, with_request_state, request_state_from_context, register_comment_connection_resolver,
}
use comments_service.Graphql.Presenter.{Presented}
use comments_service.Graphql.Resolvers.{Ref, RequestLoaders, register_count, replies, post_comments}
use comments_service.Graphql.Resolvers.Totals.{Counts, total-Counts}

-- The world is the number of connections that have been built.
abbrev nothing_listed : Connection CommentModel
nothing_listed = record {
  edges = [];
  page_info = record { has_next_page = false; end_cursor = none };
}

abbrev numbering : RequestLoaders ℕ
numbering = record {
  load_connection = λ key n. (ok (record { address = n; value = nothing_listed }), n + 1);
  load_top_level_count = λ id n. (ok 3, n);
  load_reply_count = λ id n. (ok 4, n);
}

abbrev early : Time
early = record { instant = 12; zone = 0 }

abbrev a_post : PostModel
a_post = record {
  id = 1;
  author_id = 7;
  title = 104 ∷ [];
  content = 105 ∷ [];
  comments_enabled = true;
  created_at = early;
}

abbrev a_comment : CommentModel
a_comment = record {
  id = 2;
  post_id = 1;
  parent_id = none;
  author_id = 8;
  body = 104 ∷ [];
  created_at = early;
}

abbrev asked : Request ℕ
asked = with_request_state 0 none

abbrev after_comments : Request ℕ
after_comments = (post_comments numbering a_post (pos 2) none asked).1

abbrev after_replies : Request ℕ
after_replies = (replies numbering a_comment (pos 2) none after_comments).1

abbrev connection_at : ℕ → Ref (Connection CommentModel)
connection_at n = record { address = n; value = nothing_listed }

comments_listed :
    post_comments numbering a_post (pos 2) none asked ≡ (ok (connection_at 0), after_comments)
unfolding post_comments register_count register_comment_connection_resolver
    request_state_from_context with_request_state
comments_listed = refl

replies_listed :
    replies numbering a_comment (pos 2) none after_comments ≡ (ok (connection_at 1), after_replies)
unfolding post_comments replies register_count register_comment_connection_resolver
    request_state_from_context with_request_state
replies_listed = refl

total-Counts_example :
    Counts 0 (numbering.load_top_level_count 1) after_replies
    × Counts 1 (numbering.load_reply_count 2) after_replies
total-Counts_example =
    total-Counts numbering a_post a_comment (pos 2) (pos 2) none none asked after_comments
      after_replies (connection_at 0) (connection_at 1) comments_listed replies_listed refl

abbrev wrapped : Error
wrapped = operation (ascii "load") (not_found (ascii "post") (49 ∷ []))

abbrev plain : Presented
plain = record { message = []; code = none; field = none }
