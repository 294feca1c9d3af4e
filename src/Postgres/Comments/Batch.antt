-- ===== src/Postgres/Comments/Batch.antt =====
-- The batched lists of CommentRepository: for each identifier, the page that the memory repository gives.
use mathlib.Core.List.{Pairwise}
use mathlib.Core.List.Pairwise
use mathlib.Core.Option
use comments_service.Prelude.{
  ℕ, ◌≡◌, ◌≢◌, refl, sym, ap, ◌∙◌, Bool, true, false, ◌&&◌, Option, none, some, List, [], ◌∷◌, ◌++◌,
  ◌==◌, map, filter, filter-filter, take, All, All-map, All-filter, All-filter-true, filter-All,
  arith, if◌then◌else◌, Bool-cases, inl, inr,
}
use comments_service.Go.Map.{Map, get, put, or_zero, contains}
use comments_service.Go.Map.Laws.{get-map_values}
use comments_service.Go.Time.{equal, after}
use comments_service.Go.Sort.{sort_slice}
use comments_service.Go.Sort.Ordered.{StrictOrder}
use comments_service.Go.Sort.Unique.{Apart}
use comments_service.Domain.Ids.{Uuid, nil_uuid, CommentId, UuidText, id_text}
use comments_service.Domain.Pagination.{PageInput, limit_plus_one}
use comments_service.Domain.Comment.{Comment}
use comments_service.Memory.Paginate.{matches}
use comments_service.Memory.Paginate.Spec.{IsSmall}
use comments_service.Memory.Groups.{
  assign_all, has, append_to_groups, get-append_to_groups, get-assign_all, has-assign_all, more,
}
use comments_service.Memory.Comments.{
  text_of, has_no_parent, parent_of, comments_by_predicate, paginate_comments,
}
use comments_service.Memory.Comments.Pages.{Comment-set}
use comments_service.Postgres.Sql.{
  CommentRow, Column, Condition, key_of, by_key, newer_comment, ranked, selected, meets_all,
  comment_meets,
}
use comments_service.Postgres.Database.{Database, IsSql}
use comments_service.Postgres.Posts.{first_page}
use comments_service.Postgres.Comments.{start_all, group_by_post, group_by_parent, first_pages}
use comments_service.Postgres.Rows.{
  All-of_total, All-of_map, All-sort_slice, Pairwise-of_map, filter-Pairwise, map-filter,
}
use comments_service.Postgres.View.{comment_of, OrdersTexts, newer-comments}
use comments_service.Postgres.Pages.{first_page-paginate}
use comments_service.Postgres.Ranking.{ranked_key}
use comments_service.Postgres.Comments.Reads.{seen, held, selected-memory, comments_apart}

-- The loops are those of the memory repository.
pub start_all-assign_all :
    {V : Type 0} (v : V) (ids : List Uuid) (m : Map V) → start_all v ids m ≡ assign_all v ids m
unfolding start_all assign_all
start_all-assign_all v [] m = refl
start_all-assign_all v (id ∷ ids) m = start_all-assign_all v ids (put m id v)

pub group_by_post-append :
    (cs : List Comment) (m : Map (List Comment))
    → group_by_post cs m ≡ append_to_groups (λ c. c.post_id) cs m
unfolding group_by_post append_to_groups
group_by_post-append [] m = refl
group_by_post-append (c ∷ cs) m = group_by_post-append cs _

parent_group :
    (parent : Option CommentId) (c : Comment) (m : Map (List Comment))
    → ◌≡◌ {A = Bool} (elim parent [ none ↦ true | some id ↦ false ]) false
    → ◌≡◌ {A = Map (List Comment)}
        (elim parent [ none ↦ m | some id ↦ put m id (or_zero [] (get m id) ++ c ∷ []) ])
        (let key : CommentId = elim parent [ none ↦ nil_uuid | some id ↦ id ] in
          put m key (or_zero [] (get m key) ++ c ∷ []))
parent_group none c m h = absurd (ground arith)
parent_group (some id) c m h = refl

pub group_by_parent-append :
    (cs : List Comment) (m : Map (List Comment))
    → All (λ c. has_no_parent c ≡ false) cs
    → group_by_parent cs m ≡ append_to_groups parent_of cs m
unfolding group_by_parent append_to_groups
group_by_parent-append [] m h = refl
group_by_parent-append (c ∷ cs) m h =
    ap (group_by_parent cs) (parent_group c.parent_id c m h.0) ∙ group_by_parent-append cs _ h.1

CommentRow-set : IsSet CommentRow
CommentRow-set = hlevel

newer-StrictOrder : StrictOrder newer_comment
unfolding equal after
newer-StrictOrder = record { asymm = λ a b h. ground arith; trans = λ a b c h k. ground arith }

same_ids : (a b : CommentRow) → newer_comment a b ≡ false → newer_comment b a ≡ false → a.id ≡ b.id
unfolding equal after
same_ids a b p q = ground arith

newer-Apart :
    ⦃uuid : UuidText⦄ (a b : CommentRow) → id_text a.id ≢ id_text b.id → Apart newer_comment a b
newer-Apart a b n p q = n (ap id_text (same_ids a b p q))

module _ {Tx W : Type 0} (db : Database Tx W) ⦃uuid : UuidText⦄ (sql : IsSql db) (ctx : Option Tx)
    (w : W) where
  rows-Apart : Pairwise (Apart newer_comment) (seen db sql ctx w).comments
  rows-Apart =
      let rows = (seen db sql ctx w).comments in
      let every : filter (λ c. true) (map comment_of rows) ≡ map comment_of rows =
        filter-All (λ c. true) _ (All-of_total _ (λ c. refl) (map comment_of rows)) in
      Pairwise.imp newer-Apart
        (Pairwise-of_map comment_of _ rows (rw every at (comments_apart db sql ctx w (λ c. true))))

  -- A query of ranked rows, by a column that stands for the key of a comment: `q k` says of a comment
  -- what the conditions and the key `k` say of its row.
  module _ (column : Column) (key : Comment → ℕ) (q : ℕ → Comment → Bool) (ids : List Uuid)
      (conditions : List Condition) (page : PageInput)
      (key_agrees : (row : CommentRow) → key (comment_of row) ≡ key_of column row)
      (covers : (row : CommentRow)
        → meets_all (comment_meets db.stored db.read_uuid) conditions row ≡ true
        → contains ids (key_of column row) ≡ true)
      (agrees : (k : ℕ) (row : CommentRow)
        → contains ids k ≡ true
        → (q k (comment_of row) && matches (λ c. c.created_at) text_of page.after (comment_of row))
          ≡ (meets_all (comment_meets db.stored db.read_uuid) conditions row
              && (key_of column row == k))) where
    abbrev rows_met : List CommentRow
    rows_met = selected db.stored db.read_uuid conditions (seen db sql ctx w)

    abbrev top_rows : List CommentRow
    top_rows = ranked column rows_met (limit_plus_one page)

    All-have :
        All
          (λ c. has (assign_all {V = List Comment} [] ids []) (key c) ≡ true)
          (map comment_of top_rows)
    All-have = All-of_map comment_of _ top_rows (
        All-sort_slice _ (by_key column) _ (
          All-filter _ _ rows_met (
            All-map _ _ rows_met
              (λ row h.
                has-assign_all [] ids (key (comment_of row)) ∙ rw (key_agrees row) (covers row h))
              (All-filter-true _ (seen db sql ctx w).comments))))

    rows_of_key :
        (k : ℕ)
        → filter (λ c. key c == k) (map comment_of top_rows)
          ≡ map comment_of (
              take
                (limit_plus_one page)
                (sort_slice newer_comment (filter (λ row. key_of column row == k) rows_met)))
    rows_of_key k =
        sym (
          map-filter comment_of (λ row. key_of column row == k) (λ c. key c == k) top_rows
            (All-of_total _ (λ row. ap (λ j. j == k) (key_agrees row)) top_rows))
        ∙ ap (map comment_of) (
            ranked_key CommentRow-set (key_of column) newer-StrictOrder (limit_plus_one page) k
              rows_met (filter-Pairwise _ _ (seen db sql ctx w).comments rows-Apart))

    group_of_key :
        (k : ℕ)
        → get (append_to_groups key (map comment_of top_rows) (assign_all [] ids [])) k ≡ (
            if contains ids k
            then some (
                map comment_of (
                  take
                    (limit_plus_one page)
                    (sort_slice newer_comment (filter (λ row. key_of column row == k) rows_met))))
            else none)
    group_of_key k =
        get-append_to_groups key (map comment_of top_rows) (assign_all [] ids []) k All-have
        ∙ ap (more _) (get-assign_all [] ids [] k)
        ∙ elim (Bool-cases (contains ids k)) [
          | inl h ↦ rw h (ap some (rows_of_key k))
          | inr h ↦ rw h (unfold get in refl)
        ]

    first_of_key :
        (k : ℕ)
        → contains ids k ≡ true
        → OrdersTexts
        → IsSmall page
        → first_page page (
            map comment_of (
              take
                (limit_plus_one page)
                (sort_slice newer_comment (filter (λ row. key_of column row == k) rows_met))))
          ≡ paginate_comments (comments_by_predicate (q k) (held db sql ctx w)) page
    unfolding paginate_comments
    first_of_key k h orders small =
        let meets = meets_all (comment_meets db.stored db.read_uuid) conditions in
        let rows = (seen db sql ctx w).comments in
        ap
          (λ some_rows.
            first_page page
              (map comment_of (take (limit_plus_one page) (sort_slice newer_comment some_rows))))
          (filter-filter (λ row. key_of column row == k) meets rows)
        ∙ first_page-paginate comment_of Comment-set (λ c. c.created_at) text_of newer_comment
            (newer-comments orders) page (q k) _ rows small (comments_apart db sql ctx w (q k))
            (All-of_total _ (λ row. agrees k row h) rows)
        ∙ ap (λ cs. paginate_comments cs page) (sym (selected-memory db sql ctx w (q k)))

    -- The page of one key, out of the pages of all groups.
    pub page_of_key :
        (k : ℕ)
        → OrdersTexts
        → IsSmall page
        → get
            (first_pages page
              (append_to_groups key (map comment_of top_rows) (assign_all [] ids [])))
            k
          ≡ (if contains ids k
              then some (paginate_comments (comments_by_predicate (q k) (held db sql ctx w)) page)
              else none)
    unfolding first_pages
    page_of_key k orders small =
        get-map_values (first_page page) _ k
        ∙ ap (Option.map (first_page page)) (group_of_key k)
        ∙ elim (Bool-cases (contains ids k)) [
          | inr h ↦ rw h refl
          | inl h ↦ rw h (ap some (first_of_key k h orders small))
        ]
