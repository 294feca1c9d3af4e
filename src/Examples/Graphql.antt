-- ===== src/Examples/Graphql.antt =====
-- A page of comments as a connection, and a batch of keys of two groups that is taken in another order.
use mathlib.Core.List.{Perm}
use mathlib.Core.List.Perm
use comments_service.Prelude.{◌++◌, ◌≡◌, refl, some, [], ◌∷◌, List, map, true}
use comments_service.Prelude.Int.{pos}
use comments_service.Go.Text.{Text, ascii, text_eq}
use comments_service.Go.Time.{utc}
use comments_service.Go.Base64.{encode}
use comments_service.Domain.Errors.{ok}
use comments_service.Domain.Ids.{id_text}
use comments_service.Domain.Pagination.{Page, encode_cursor, new_cursor, new_page_input}
use comments_service.Domain.Comment
use comments_service.Domain.Comment.{Comment}
use comments_service.Memory.Paginate.Walk.{page_of_size, end_cursor}
use comments_service.Application.InMemory.{comments_service_of}
use comments_service.Graphql.Mappers.{
  Connection, CommentModel, edges_loop, new_connection, new_comment_model, new_comment_connection,
}
use comments_service.Graphql.Mappers.Edges.{IsOf}
use comments_service.Graphql.Mappers.Paging.{new_comment_connection-continues}
use comments_service.Graphql.Loaders.{
  scope_post, scope_comment, CommentConnectionKey, Grouped, group_eq, append_index, group_from,
  group_comment_connection_keys, batch_comment_connections,
}
use comments_service.Graphql.Loaders.Agrees.{answer_for}
use comments_service.Graphql.Loaders.InMemory.{batch_comment_connections-alone}
use comments_service.Graphql.Resolvers.Subscription.{
  taken, events_closed, comment_added, loads, comment_added-loads,
}
use comments_service.Application.Services.{CommentAddedEvent}
use comments_service.Examples.Codec.{unary_uuid, unary_json, letters}
use comments_service.Examples.Domain.{a_comment, a_comment-IsValid}
use comments_service.Examples.Services.{recorded, commented}

abbrev one_comment : Page Comment
one_comment = record { items = a_comment ∷ []; has_next_page = true }

abbrev its_cursor : Text
its_cursor = encode (1 ∷ 1 ∷ 1 ∷ 1 ∷ 1 ∷ 1 ∷ 1 ∷ 1 ∷ 1 ∷ 1 ∷ 1 ∷ 1 ∷ 0 ∷ letters 2)

abbrev its_connection : Connection CommentModel
its_connection = record {
  edges = record { cursor = its_cursor; node = new_comment_model a_comment } ∷ [];
  page_info = record { has_next_page = true; end_cursor = some its_cursor };
}

connected : new_comment_connection one_comment ≡ ok its_connection
unfolding new_comment_connection new_connection edges_loop encode_cursor Comment.cursor new_cursor
    utc id_text unary_json unary_uuid
connected = refl

new_comment_connection-continues_example :
    IsOf Comment.cursor new_comment_model one_comment its_connection
    × (new_page_input (pos 5) (some its_cursor)
        ≡ ok (page_of_size 5 (end_cursor (λ c. c.created_at) (λ c. id_text c.id) (a_comment ∷ []))))
new_comment_connection-continues_example =
    new_comment_connection-continues one_comment its_connection 4 (a_comment-IsValid, tt) connected

-- Two keys of one group about a post, and one about the replies to a comment.
abbrev keys : List CommentConnectionKey
keys =
    record { scope = scope_post; id = 1; first = pos 2; after = [] }
    ∷ record { scope = scope_comment; id = 2; first = pos 2; after = [] }
    ∷ record { scope = scope_post; id = 9; first = pos 2; after = [] }
    ∷ []

-- The groups, the one of the replies first.
abbrev replies_first : Grouped
replies_first =
    (record { scope = scope_comment; first = pos 2; after = [] }, 1 ∷ [])
    ∷ (record { scope = scope_post; first = pos 2; after = [] }, 0 ∷ 2 ∷ [])
    ∷ []

grouped_keys :
    group_comment_connection_keys keys
    ≡ (record { scope = scope_post; first = pos 2; after = [] }, 0 ∷ 2 ∷ [])
      ∷ (record { scope = scope_comment; first = pos 2; after = [] }, 1 ∷ [])
      ∷ []
unfolding group_comment_connection_keys group_from append_index group_eq text_eq ascii
grouped_keys = refl

replies_first-perm : Perm replies_first (group_comment_connection_keys keys)
replies_first-perm = rw grouped_keys (Perm.swap _ _ [])

batch_comment_connections-alone_example :
    batch_comment_connections (comments_service_of recorded) replies_first keys commented
    ≡ (map (λ key. some (answer_for (comments_service_of recorded) commented key)) keys, commented)
batch_comment_connections-alone_example =
    batch_comment_connections-alone recorded commented keys replies_first replies_first-perm

-- The event of a comment that is stored, and of one that is not.
abbrev two_events : List CommentAddedEvent
two_events =
    record { post_id = 1; comment_id = 2; author_id = 8 }
    ∷ record { post_id = 1; comment_id = 77; author_id = 8 }
    ∷ []

comment_added-loads_example :
    comment_added
      (comments_service_of recorded)
      (ok (map taken two_events ++ events_closed ∷ []))
      commented
    ≡ ok (record {
      sent = loads (comments_service_of recorded) two_events commented;
      returned = true;
    })
comment_added-loads_example =
    comment_added-loads (comments_service_of recorded) two_events [] commented
