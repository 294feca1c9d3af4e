-- ===== src/Graphql/Loaders/InMemory.antt =====
-- The loaders over the comments service with the memory repositories.
use mathlib.Core.List.{Perm}
use comments_service.Prelude.{
  ◌≡◌, refl, ap, true, Option, some, none, List, map, arith, if◌then◌else◌,
}
use comments_service.Go.Map.{Map, get, or_zero, contains}
use comments_service.Domain.Errors.{Result, ok, err, map_ok}
use comments_service.Domain.Ids.{Uuid, UuidText}
use comments_service.Domain.Pagination.{CursorJson}
use comments_service.Memory.Comments
use comments_service.Memory.Comments.Batch.{
  batch_list_top_level-list, batch_list_replies-list, batch_count_top_level-count,
  batch_count_replies-count,
}
use comments_service.Application.Services.{CommentsService, CommentAddedEvent}
use comments_service.Application.Comments.{
  list_top_level_comments, list_replies, count_top_level_comments, count_replies,
  batch_list_top_level_comments, batch_list_replies, batch_count_top_level_comments,
  batch_count_replies,
}
use comments_service.Application.InMemory.{World, comments_service_of}
use comments_service.Graphql.Loaders.{
  CommentConnectionKey, Grouped, group_comment_connection_keys, no_page, batch_comment_connections,
  batch_top_level_counts, batch_reply_counts,
}
use comments_service.Graphql.Loaders.Agrees.{
  IsBatched, answer_for, batch_comment_connections-answers, batch_top_level_counts-answers,
  batch_reply_counts-answers,
}

-- A batch whose entries are the single answers, which all succeed, succeeds with these answers.
entries_agree :
    {V : Type 0} (zero_value : V) (ids : List Uuid) (batch : Result (Map V))
    (single : Uuid → Result V)
    → ((k : Uuid) → (v : V) × (single k ≡ ok v))
    → ((k : Uuid)
        → map_ok (λ m. get m k) batch
          ≡ (if contains ids k then map_ok some (single k) else ok none))
    → (m : Map V) × (batch ≡ ok m)
      × ((k : Uuid) → contains ids k ≡ true → single k ≡ ok (or_zero zero_value (get m k)))
entries_agree zero_value ids (err e) single total entries =
    let (v, run) = total 0 in absurd (ground (arith, run, entries 0))
entries_agree zero_value ids (ok m) single total entries = (
  m,
  refl,
  λ k known.
      let (v, run) = total k in
      let entry : get m k ≡ some v = ground (arith, run, known, entries k) in rw (run, entry) refl,
)

module _ {E : Type 0} ⦃uuid : UuidText⦄ (publish : Option (CommentAddedEvent → E → E)) where
  abbrev service : CommentsService (World E)
  service = comments_service_of publish

  with_world :
      {V : Type 0} (zero_value : V) (ids : List Uuid) (w : World E) (batch : Result (Map V))
      (single : Uuid → Result V)
      → (m : Map V) × (batch ≡ ok m)
        × ((k : Uuid) → contains ids k ≡ true → single k ≡ ok (or_zero zero_value (get m k)))
      → (m : Map V) × (◌≡◌ {A = Result (Map V) × World E} (batch, w) (ok m, w))
        × ((k : Uuid)
            → contains ids k ≡ true
            → ◌≡◌ {A = Result V × World E} (single k, w) (ok (or_zero zero_value (get m k)), w))
  with_world zero_value ids w batch single (m, run, agrees) =
      (m, ap (λ r. (r, w)) run, λ k known. ap (λ r. (r, w)) (agrees k known))

  -- The memory repository's batched calls succeed, change nothing, and agree with the single calls.
  pub comments_service_of-IsBatched : IsBatched service
  unfolding list_top_level_comments list_replies count_top_level_comments count_replies
      batch_list_top_level_comments batch_list_replies batch_count_top_level_comments
      batch_count_replies Comments.list_top_level Comments.list_replies Comments.count_top_level
      Comments.count_replies
  comments_service_of-IsBatched = record {
    top_level_pages = λ ids page w.
        with_world no_page ids w _ (λ k. Comments.list_top_level k page w.store)
          (entries_agree no_page ids _ _ (λ k. (_, refl))
            (batch_list_top_level-list ids page w.store));
    reply_pages = λ ids page w.
        with_world no_page ids w _ (λ k. Comments.list_replies k page w.store)
          (entries_agree no_page ids _ _ (λ k. (_, refl))
            (batch_list_replies-list ids page w.store));
    top_level_counts = λ ids w.
        with_world 0 ids w _ (λ k. Comments.count_top_level k w.store)
          (entries_agree 0 ids _ _ (λ k. (_, refl)) (batch_count_top_level-count ids w.store));
    reply_counts = λ ids w.
        with_world 0 ids w _ (λ k. Comments.count_replies k w.store)
          (entries_agree 0 ids _ _ (λ k. (_, refl)) (batch_count_replies-count ids w.store));
  }

  -- Over the memory repositories: whatever the order in which `range` takes the groups, a batch of comment
  -- connections has for each key, in the keys' order, what that key is answered alone: the error of its page
  -- request, the connection of the page that ListTopLevel or ListReplies gives, or the error of a scope that
  -- is neither. Keys with different scopes and pages may stand in one batch; nothing is changed.
  pub batch_comment_connections-alone :
      ⦃json : CursorJson⦄ (w : World E) (keys : List CommentConnectionKey) (grouped : Grouped)
      → Perm grouped (group_comment_connection_keys keys)
      → batch_comment_connections (comments_service_of publish) grouped keys w
        ≡ (map (λ key. some (answer_for (comments_service_of publish) w key)) keys, w)
  batch_comment_connections-alone w keys grouped order =
      batch_comment_connections-answers service comments_service_of-IsBatched w keys grouped order

  -- Over the memory repositories, the two batches of counts have for each key, in the keys' order, the count
  -- that CountTopLevel or CountReplies gives for it, and change nothing.
  pub batch_counts-alone :
      (w : World E) (keys : List Uuid)
      → (batch_top_level_counts (comments_service_of publish) keys w ≡ (
        map (λ k. some (count_top_level_comments (comments_service_of publish) k w).0) keys,
        w,
      ))
        × (batch_reply_counts (comments_service_of publish) keys w
            ≡ (map (λ k. some (count_replies (comments_service_of publish) k w).0) keys, w))
  batch_counts-alone w keys = (
    batch_top_level_counts-answers service comments_service_of-IsBatched w keys,
    batch_reply_counts-answers service comments_service_of-IsBatched w keys,
  )
