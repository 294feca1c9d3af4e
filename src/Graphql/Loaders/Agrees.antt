-- ===== src/Graphql/Loaders/Agrees.antt =====
-- A batch gives each key what it would be given alone, if the service's batched calls do.
use mathlib.Core.List.{Perm}
use comments_service.Prelude.{
  ℕ, ◌≡◌, refl, sym, ap, ◌∙◌, true, some, none, List, [], ◌∷◌, map, length, replicate, All, All-map,
  Bool-cases, inl, inr, if◌then◌else◌,
}
use comments_service.Go.Text.{Text, text_eq}
use comments_service.Go.Map.{Map, get, or_zero, contains}
use comments_service.Domain.Errors.{Result, ok, err, ◌>>=◌}
use comments_service.Domain.Ids.{Uuid, UuidText}
use comments_service.Domain.Pagination.{CursorJson, PageInput, Page, new_page_input}
use comments_service.Domain.Comment.{Comment}
use comments_service.Application.Services.{CommentsService}
use comments_service.Application.Comments.{
  list_top_level_comments, list_replies, count_top_level_comments, count_replies,
  batch_list_top_level_comments, batch_list_replies, batch_count_top_level_comments,
  batch_count_replies,
}
use comments_service.Graphql.Mappers.{Connection, CommentModel, new_comment_connection}
use comments_service.Graphql.Loaders.{
  scope_post, scope_comment, CommentConnectionKey, CommentConnectionGroup, group_of, group_eq,
  Grouped, group_comment_connection_keys, Results, key_at, fill, fill_comment_connection_errors,
  fill_pages, unsupported_comment_connection_scope_error, optional_string, no_page,
  load_post_comment_connections, load_reply_comment_connections, load_scope,
  load_comment_connection_group, load_groups, batch_comment_connections, count_results,
  batch_top_level_counts, batch_reply_counts,
}
use comments_service.Graphql.Loaders.Groups.{
  group_eq→eq, and-true, all_indexes, all_of_group, proper, proper-perm, indexes-perm,
  group_comment_connection_keys-proper, group_comment_connection_keys-contains,
}
use comments_service.Graphql.Loaders.Fill.{
  length-replicate, length-fill, entries-map, get_elem?-fill, fill-append, fill_congr, map-contains,
  contains-All,
}

-- The batched calls of the service succeed, change nothing, and give each key what the single call gives.
pub record IsBatched {W : Type 0} (s : CommentsService W) : Type 0 where
  pub top_level_pages :
      (ids : List Uuid) (page : PageInput) (w : W)
      → (pages : Map (Page Comment)) × (batch_list_top_level_comments s ids page w ≡ (ok pages, w))
        × ((k : Uuid)
            → contains ids k ≡ true
            → list_top_level_comments s k page w ≡ (ok (or_zero no_page (get pages k)), w))
  pub reply_pages :
      (ids : List Uuid) (page : PageInput) (w : W)
      → (pages : Map (Page Comment)) × (batch_list_replies s ids page w ≡ (ok pages, w))
        × ((k : Uuid)
            → contains ids k ≡ true
            → list_replies s k page w ≡ (ok (or_zero no_page (get pages k)), w))
  pub top_level_counts :
      (ids : List Uuid) (w : W)
      → (counts : Map ℕ) × (batch_count_top_level_comments s ids w ≡ (ok counts, w))
        × ((k : Uuid)
            → contains ids k ≡ true
            → count_top_level_comments s k w ≡ (ok (or_zero 0 (get counts k)), w))
  pub reply_counts :
      (ids : List Uuid) (w : W)
      → (counts : Map ℕ) × (batch_count_replies s ids w ≡ (ok counts, w))
        × ((k : Uuid)
            → contains ids k ≡ true
            → count_replies s k w ≡ (ok (or_zero 0 (get counts k)), w))

module _ {W : Type 0} (s : CommentsService W) (w : W) ⦃json : CursorJson⦄ ⦃uuid : UuidText⦄ where
  -- What one key asks for: the page of the post or of the parent, as a connection.
  abbrev pub answer_page : Text → Uuid → Result PageInput → Result (Connection CommentModel)
  answer_page scope id (err e) = err e
  answer_page scope id (ok page) =
      if text_eq scope scope_post
      then (list_top_level_comments s id page w).0 >>= new_comment_connection
      else if text_eq scope scope_comment
      then (list_replies s id page w).0 >>= new_comment_connection
      else err unsupported_comment_connection_scope_error

  abbrev pub answer_for : CommentConnectionKey → Result (Connection CommentModel)
  answer_for key =
      answer_page key.scope key.id (new_page_input key.first (optional_string key.after))

module _ {W : Type 0} (s : CommentsService W) (b : IsBatched s) (w : W) where
  module _ ⦃json : CursorJson⦄ ⦃uuid : UuidText⦄ where
    module _ (keys : List CommentConnectionKey) where
      -- A batched answer that gives each id what `single` gives fills each entry with that.
      fill_pages-single :
          (results : Results (Connection CommentModel)) (indexes : List ℕ)
          (pages : Map (Page Comment)) (single : Uuid → Result (Page Comment) × W)
          → ((k : Uuid)
              → contains (map (λ i. (key_at keys i).id) indexes) k ≡ true
              → single k ≡ (ok (or_zero no_page (get pages k)), w))
          → fill_pages s results keys indexes (ok pages)
            ≡ fill results indexes (λ i. (single (key_at keys i).id).0 >>= new_comment_connection)
      unfolding fill_pages
      fill_pages-single results indexes pages single agrees = fill_congr results indexes _ _ (
          All-map _ _ indexes (λ i h. rw (agrees (key_at keys i).id h) refl)
            (map-contains (λ i. (key_at keys i).id) indexes))

      load_scope-fill :
          (results : Results (Connection CommentModel)) (scope : Text) (indexes : List ℕ)
          (page : Result PageInput)
          → load_scope s results keys scope indexes page w
            ≡ (fill results indexes (λ i. answer_page s w scope (key_at keys i).id page), w)
      unfolding load_scope load_post_comment_connections load_reply_comment_connections
          fill_comment_connection_errors
      load_scope-fill results scope indexes (err e) = refl
      load_scope-fill results scope indexes (ok page) =
          elim (Bool-cases (text_eq scope scope_post)) [
            | inl post ↦
                let (pages, run, agrees) =
                  b.top_level_pages (map (λ i. (key_at keys i).id) indexes) page w in
                rw (post, run)
                  (ap (λ r. (r, w))
                    (fill_pages-single results indexes pages
                      (λ k. list_top_level_comments s k page w) agrees))
            | inr other ↦ elim (Bool-cases (text_eq scope scope_comment)) [
              | inl comment ↦
                  let (pages, run, agrees) =
                    b.reply_pages (map (λ i. (key_at keys i).id) indexes) page w in
                  rw (other, comment, run)
                    (ap (λ r. (r, w))
                      (fill_pages-single results indexes pages (λ k. list_replies s k page w)
                        agrees))
              | inr unknown ↦ rw (other, unknown) refl
            ]
          ]

      answer_of_group :
          (g : CommentConnectionGroup) (key : CommentConnectionKey)
          → group_eq (group_of key) g ≡ true
          → answer_page s w g.scope key.id (new_page_input g.first (optional_string g.after))
            ≡ answer_for s w key
      answer_of_group g key same =
          ap
            (λ h. answer_page s w h.scope key.id (new_page_input h.first (optional_string h.after)))
            (sym (group_eq→eq (group_of key) g same))

      answers_of_group :
          (g : CommentConnectionGroup) (indexes : List ℕ)
          → all_of_group keys g indexes ≡ true
          → All
              (λ i.
                answer_page s w g.scope
                  (key_at keys i).id
                  (new_page_input g.first (optional_string g.after))
                ≡ answer_for s w (key_at keys i))
              indexes
      answers_of_group g [] h = tt
      answers_of_group g (i ∷ indexes) h =
          let (this, others) = and-true _ _ h in
          (answer_of_group g (key_at keys i) this, answers_of_group g indexes others)

      load_groups-fill :
          (grouped : Grouped) (results : Results (Connection CommentModel))
          → proper keys grouped ≡ true
          → load_groups s keys grouped results w
            ≡ (fill results (all_indexes grouped) (λ i. answer_for s w (key_at keys i)), w)
      unfolding load_groups load_comment_connection_group fill
      load_groups-fill [] results h = refl
      load_groups-fill ((g, indexes) ∷ grouped) results h =
          let (this, others) = and-true _ _ h in
          let page = new_page_input g.first (optional_string g.after) in
          let filled : load_scope s results keys g.scope indexes page w
              ≡ (fill results indexes (λ i. answer_for s w (key_at keys i)), w) =
            load_scope-fill results g.scope indexes page
            ∙ ap (λ r. (r, w)) (fill_congr results indexes _ _ (answers_of_group g indexes this)) in
          rw filled (
            load_groups-fill grouped _ others
            ∙ ap (λ r. (r, w))
                (sym (
                  fill-append results indexes (all_indexes grouped)
                    (λ i. answer_for s w (key_at keys i)))))

      -- Whatever the order in which `range` takes the groups, the results are one for each key, each the
      -- answer to that key alone, and nothing is changed.
      pub batch_comment_connections-answers :
          (grouped : Grouped)
          → Perm grouped (group_comment_connection_keys keys)
          → batch_comment_connections s grouped keys w
            ≡ (map (λ key. some (answer_for s w key)) keys, w)
      unfolding batch_comment_connections
      batch_comment_connections-answers grouped order =
          let fits = proper-perm keys order ∙ group_comment_connection_keys-proper keys in
          let empty : Results (Connection CommentModel) = replicate (length keys) none in
          let size : length empty ≡ length keys = length-replicate (length keys) none in
          load_groups-fill grouped empty fits
          ∙ ap (λ r. (r, w))
              (entries-map _ keys (λ key. some (answer_for s w key))
                (length-fill empty (all_indexes grouped) _ ∙ size)
                (λ i h.
                  let all =
                    indexes-perm i order ∙ group_comment_connection_keys-contains keys i h in
                  get_elem?-fill empty (all_indexes grouped) _ i (rw size h) ∙ rw all refl))

  -- The batches of counts likewise.
  count_results-single :
      (keys : List Uuid) (counts : Map ℕ) (single : Uuid → Result ℕ × W)
      → All (λ k. single k ≡ (ok (or_zero 0 (get counts k)), w)) keys
      → count_results s keys (ok counts) ≡ map (λ k. some (single k).0) keys
  unfolding count_results
  count_results-single [] counts single h = refl
  count_results-single (k ∷ keys) counts single h = rw (h.0) (
      ap (λ rest. some (ok (or_zero 0 (get counts k))) ∷ rest)
        (count_results-single keys counts single h.1))

  pub batch_top_level_counts-answers :
      (keys : List Uuid)
      → batch_top_level_counts s keys w
        ≡ (map (λ k. some (count_top_level_comments s k w).0) keys, w)
  unfolding batch_top_level_counts
  batch_top_level_counts-answers keys =
      let (counts, run, agrees) = b.top_level_counts keys w in
      rw run (
        ap (λ r. (r, w))
          (count_results-single keys counts (λ k. count_top_level_comments s k w)
            (All-map _ _ keys agrees (contains-All keys))))

  pub batch_reply_counts-answers :
      (keys : List Uuid)
      → batch_reply_counts s keys w ≡ (map (λ k. some (count_replies s k w).0) keys, w)
  unfolding batch_reply_counts
  batch_reply_counts-answers keys =
      let (counts, run, agrees) = b.reply_counts keys w in
      rw run (
        ap (λ r. (r, w))
          (count_results-single keys counts (λ k. count_replies s k w)
            (All-map _ _ keys agrees (contains-All keys))))
