-- ===== src/Graphql/Loaders.antt =====
-- internal/adapters/graphql/loaders.go: the batch functions that the dataloaders call. A loader takes
-- the keys that are asked for within a millisecond and hands them to its batch function.
pub mod Groups
pub mod Fill
pub mod Agrees
pub mod InMemory
use comments_service.Prelude.{
  ℕ, zero, suc, ◌+◌, Bool, ◌&&◌, Option, none, some, List, [], ◌∷◌, ◌++◌, map, ◌==◌, length,
  replicate, true, false, if◌then◌else◌,
}
use comments_service.Prelude.Int.{ℤ, pos, negsuc}
use comments_service.Go.Text.{Text, ascii, text_eq}
use comments_service.Go.Map.{Map, get, or_zero}
use comments_service.Domain.Errors.{Error, validation, Result, ok, err}
use comments_service.Domain.Ids.{Uuid, UuidText}
use comments_service.Domain.Pagination.{CursorJson, PageInput, Page, new_page_input}
use comments_service.Domain.Comment.{Comment}
use comments_service.Application.Services.{CommentsService}
use comments_service.Application.Comments.{
  batch_list_top_level_comments, batch_list_replies, batch_count_top_level_comments,
  batch_count_replies,
}
use comments_service.Graphql.Mappers.{Connection, CommentModel, new_comment_connection}

abbrev pub scope_post : Text
scope_post = ascii "post"

abbrev pub scope_comment : Text
scope_comment = ascii "comment"

pub record CommentConnectionKey : Type 0 where
  pub scope : Text
  pub id : Uuid
  pub first : ℤ
  pub after : Text

pub record CommentConnectionGroup : Type 0 where
  pub scope : Text
  pub first : ℤ
  pub after : Text

abbrev pub group_of : CommentConnectionKey → CommentConnectionGroup
group_of key = record { scope = key.scope; first = key.first; after = key.after }

-- a == b
abbrev pub int_eq : ℤ → ℤ → Bool
int_eq (pos a) (pos b) = a == b
int_eq (negsuc a) (negsuc b) = a == b
int_eq _ _ = false

unfoldable pub group_eq : CommentConnectionGroup → CommentConnectionGroup → Bool
group_eq g h = text_eq g.scope h.scope && (int_eq g.first h.first && text_eq g.after h.after)

-- map[commentConnectionGroup][]int, as the list of its entries.
abbrev pub Grouped : Type 0
Grouped = List (CommentConnectionGroup × List ℕ)

-- grouped[group] = append(grouped[group], idx)
unfoldable pub append_index : Grouped → CommentConnectionGroup → ℕ → Grouped
append_index [] group index = (group, index ∷ []) ∷ []
append_index ((g, indexes) ∷ grouped) group index =
    if group_eq g group
    then (g, indexes ++ index ∷ []) ∷ grouped
    else (g, indexes) ∷ append_index grouped group index

-- The loop over the keys from the index `index` on.
unfoldable pub group_from : ℕ → List CommentConnectionKey → Grouped → Grouped
unfolding append_index
group_from index [] grouped = grouped
group_from index (key ∷ keys) grouped =
    group_from (suc index) keys (append_index grouped (group_of key) index)

unfoldable pub group_comment_connection_keys : List CommentConnectionKey → Grouped
unfolding group_from
group_comment_connection_keys keys = group_from 0 keys []

-- *dataloader.Result: its value, or the error; nil in an entry that is not filled.
abbrev pub Results : Type 0 → Type 0
Results A = List (Option (Result A))

-- results[idx] = r, of an index in range
unfoldable pub set_at {ℓ} : {A : Type ℓ} → List A → ℕ → A → List A
set_at [] index a = []
set_at (b ∷ bs) zero a = a ∷ bs
set_at (b ∷ bs) (suc index) a = b ∷ set_at bs index a

abbrev zero_key : CommentConnectionKey
zero_key = record { scope = []; id = 0; first = pos 0; after = [] }

-- keys[idx], of an index in range: the indexes are those of the keys
unfoldable pub key_at : List CommentConnectionKey → ℕ → CommentConnectionKey
key_at [] index = zero_key
key_at (key ∷ keys) zero = key
key_at (key ∷ keys) (suc index) = key_at keys index

-- for _, idx := range indexes { results[idx] = f(idx) }
unfoldable pub fill : {A : Type 0} → Results A → List ℕ → (ℕ → Result A) → Results A
unfolding set_at
fill results [] f = results
fill results (index ∷ indexes) f = fill (set_at results index (some (f index))) indexes f

unfoldable pub fill_comment_connection_errors :
    {A : Type 0} → Results A → List ℕ → Error → Results A
unfolding fill
fill_comment_connection_errors results indexes error = fill results indexes (λ index. err error)

abbrev pub unsupported_comment_connection_scope_error : Error
unsupported_comment_connection_scope_error =
    validation (ascii "scope") (ascii "unsupported comment connection scope")

-- Go's pointer to a string that may be empty: nil for the empty one.
abbrev pub optional_string : Text → Option Text
optional_string value = if text_eq value [] then none else some value

-- pages[id] of a key that is missing: the zero Page
abbrev pub no_page : {A : Type 0} → Page A
no_page = record { items = []; has_next_page = false }

module _ {W : Type 0} (s : CommentsService W) where
  module _ ⦃json : CursorJson⦄ ⦃uuid : UuidText⦄ where
    -- What loadPostCommentConnections and loadReplyCommentConnections do with the answer of the service.
    unfoldable pub fill_pages :
        Results (Connection CommentModel)
        → List CommentConnectionKey
        → List ℕ
        → Result (Map (Page Comment))
        → Results (Connection CommentModel)
    unfolding fill fill_comment_connection_errors key_at
    fill_pages results keys indexes (err e) = fill_comment_connection_errors results indexes e
    fill_pages results keys indexes (ok pages) =
        fill results indexes
          (λ index. new_comment_connection (or_zero no_page (get pages (key_at keys index).id)))

    unfoldable pub load_post_comment_connections :
        Results (Connection CommentModel)
        → List CommentConnectionKey
        → List ℕ
        → PageInput
        → W
        → Results (Connection CommentModel) × W
    unfolding fill_pages
    load_post_comment_connections results keys indexes page w =
        let post_ids = map (λ index. (key_at keys index).id) indexes in
        let (answer, w') = batch_list_top_level_comments s post_ids page w in
        (fill_pages results keys indexes answer, w')

    unfoldable pub load_reply_comment_connections :
        Results (Connection CommentModel)
        → List CommentConnectionKey
        → List ℕ
        → PageInput
        → W
        → Results (Connection CommentModel) × W
    unfolding fill_pages
    load_reply_comment_connections results keys indexes page w =
        let parent_ids = map (λ index. (key_at keys index).id) indexes in
        let (answer, w') = batch_list_replies s parent_ids page w in
        (fill_pages results keys indexes answer, w')

    -- The switch on the scope, and what stands before it.
    unfoldable pub load_scope :
        Results (Connection CommentModel)
        → List CommentConnectionKey
        → Text
        → List ℕ
        → Result PageInput
        → W
        → Results (Connection CommentModel) × W
    unfolding load_post_comment_connections load_reply_comment_connections
    load_scope results keys scope indexes (err e) w =
        (fill_comment_connection_errors results indexes e, w)
    load_scope results keys scope indexes (ok page) w =
        if text_eq scope scope_post
        then load_post_comment_connections results keys indexes page w
        else if text_eq scope scope_comment
        then load_reply_comment_connections results keys indexes page w
        else (
          fill_comment_connection_errors results indexes unsupported_comment_connection_scope_error,
          w,
        )

    unfoldable pub load_comment_connection_group :
        Results (Connection CommentModel)
        → List CommentConnectionKey
        → CommentConnectionGroup
        → List ℕ
        → W
        → Results (Connection CommentModel) × W
    unfolding load_scope
    load_comment_connection_group results keys group indexes w =
        load_scope results keys group.scope indexes
          (new_page_input group.first (optional_string group.after)) w

    unfoldable pub load_groups :
        List CommentConnectionKey
        → Grouped
        → Results (Connection CommentModel)
        → W
        → Results (Connection CommentModel) × W
    unfolding load_comment_connection_group
    load_groups keys [] results w = (results, w)
    load_groups keys ((group, indexes) ∷ grouped) results w =
        let (results', w') = load_comment_connection_group results keys group indexes w in
        load_groups keys grouped results' w'

    -- `range` hands out the groups in any order: `grouped` is the one that it takes.
    unfoldable pub batch_comment_connections :
        Grouped → List CommentConnectionKey → W → Results (Connection CommentModel) × W
    unfolding load_groups
    batch_comment_connections grouped keys w =
        load_groups keys grouped (replicate (length keys) none) w

  -- The results of one batch of counts.
  unfoldable pub count_results : List Uuid → Result (Map ℕ) → Results ℕ
  count_results keys (err e) = map (λ key. some (err e)) keys
  count_results keys (ok counts) = map (λ key. some (ok (or_zero 0 (get counts key)))) keys

  unfoldable pub batch_top_level_counts : List Uuid → W → Results ℕ × W
  unfolding count_results
  batch_top_level_counts keys w =
      let (answer, w') = batch_count_top_level_comments s keys w in (count_results keys answer, w')

  unfoldable pub batch_reply_counts : List Uuid → W → Results ℕ × W
  unfolding count_results
  batch_reply_counts keys w =
      let (answer, w') = batch_count_replies s keys w in (count_results keys answer, w')
