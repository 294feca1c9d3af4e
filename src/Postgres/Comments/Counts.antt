-- ===== src/Postgres/Comments/Counts.antt =====
-- BatchCountTopLevel and BatchCountReplies of CommentRepository against those of the memory repository.
use comments_service.Prelude.{
  ℕ, zero, suc, ◌≡◌, refl, sym, ap, ◌∙◌, Bool, true, false, ◌&&◌, Option, none, some, List, [], ◌∷◌,
  ◌==◌, ==_iff, map, filter, filter-filter, filter_none, length, All-map, All-filter-true, arith,
  if◌then◌else◌, Bool-cases, inl, inr,
}
use comments_service.Go.Text.{ascii, Text}
use comments_service.Go.Map.{Map, get, contains}
use comments_service.Domain.Errors.{Error, ok, map_ok}
use comments_service.Domain.Ids.{Uuid, PostId, CommentId, UuidText}
use comments_service.Domain.Comment.{Comment}
use comments_service.Memory.Groups.{get-assign_all}
use comments_service.Memory.Comments as MemoryComments
use comments_service.Memory.Comments.{is_top_level_of, is_reply_to, comments_by_predicate}
use comments_service.Memory.Comments.Batch as MemoryBatch
use comments_service.Postgres.Sql.{
  CommentRow, Column, post_id_column, parent_id_column, Condition, equals_any, parent_is_null,
  key_of, selected, count_by, meets_all, comment_meets, answer,
}
use comments_service.Postgres.Database.{db_from_context, Database, IsSql}
use comments_service.Postgres.Posts.{wrapped}
use comments_service.Postgres.Comments.{
  start_all, put_counts, counts_of_rows, batch_count_top_level, batch_count_replies,
}
use comments_service.Postgres.Replies.{unless, unless_congr, map_ok-unless, reply_fault, replied}
use comments_service.Postgres.Rows.{All-of_total, length-map, map-filter}
use comments_service.Postgres.View.{comment_of}
use comments_service.Postgres.Counting.{or_else, some_rows, put_counts_lem}
use comments_service.Postgres.Comments.Reads.{seen, held, selected-memory}
use comments_service.Postgres.Comments.Batch.{start_all-assign_all}
use comments_service.Postgres.Comments.Single.{and-true}
use comments_service.Postgres.Comments.Ranked.{
  to_uuids-id, to_uuids_from_comments-id, top_level_agrees, reply_agrees, parent_asked_for, of_key,
}

map_id : {A : Type 0} (xs : List A) → map (λ x. x) xs ≡ xs
map_id [] = refl
map_id (x ∷ xs) = ap (◌∷◌ x) (map_id xs)

zero_if_absent :
    (asked : Bool) (n : ℕ)
    → (asked ≡ false → n ≡ 0)
    → or_else (some_rows n) (if asked then some 0 else none) ≡ (if asked then some n else none)
zero_if_absent true zero h = refl
zero_if_absent true (suc n) h = refl
zero_if_absent false n h = rw (h refl) refl

module _ {Tx W : Type 0} (db : Database Tx W) ⦃uuid : UuidText⦄ (sql : IsSql db) (ctx : Option Tx)
    (w : W) where
  -- What the reply to a grouped count reports.
  abbrev pub groups_fault : Text → Text → Text → Column → List Condition → Option Error
  groups_fault queried scanned iterated column conditions =
      reply_fault scanned iterated queried
        (db.query (db_from_context ctx) (count_by column conditions) w).0

  module _ (column : Column) (q : ℕ → Comment → Bool) (ids : List Uuid)
      (conditions : List Condition)
      (covers : (row : CommentRow)
        → meets_all (comment_meets db.stored db.read_uuid) conditions row ≡ true
        → contains ids (key_of column row) ≡ true)
      (agrees : (k : ℕ) (row : CommentRow)
        → contains ids k ≡ true
        → q k (comment_of row) ≡ (
            meets_all (comment_meets db.stored db.read_uuid) conditions row
            && (key_of column row == k))) where
    abbrev rows_met : List CommentRow
    rows_met = selected db.stored db.read_uuid conditions (seen db sql ctx w)

    abbrev of_key_count : ℕ → ℕ
    of_key_count k = length (filter (λ row. key_of column row == k) rows_met)

    other_key :
        (k : ℕ) (row : CommentRow)
        → contains ids k ≡ false
        → meets_all (comment_meets db.stored db.read_uuid) conditions row ≡ true
        → (key_of column row == k) ≡ false
    other_key k row absent met = elim (Bool-cases (key_of column row == k)) [
      | inr e ↦ e
      | inl e ↦
          let there : contains ids k ≡ true =
            rw (← (==_iff (key_of column row) k).0 e) (covers row met) in
          absurd (ground arith)
    ]

    absent_count : (k : ℕ) → contains ids k ≡ false → of_key_count k ≡ 0
    absent_count k absent = ap length (
        filter_none _ rows_met (
          All-map _ _ rows_met (λ row met. other_key k row absent met)
            (All-filter-true _ (seen db sql ctx w).comments)))

    memory_count :
        (k : ℕ)
        → contains ids k ≡ true
        → of_key_count k ≡ length (comments_by_predicate (q k) (held db sql ctx w))
    memory_count k there =
        let rows = (seen db sql ctx w).comments in
        ap length (filter-filter (λ row. key_of column row == k) _ rows)
        ∙ sym (length-map comment_of _)
        ∙ ap length (
            map-filter comment_of _ (q k) rows (All-of_total _ (λ row. agrees k row there) rows)
            ∙ sym (selected-memory db sql ctx w (q k)))

    count_or_zero :
        (k : ℕ)
        → or_else (some_rows (of_key_count k)) (if contains ids k then some 0 else get [] k) ≡ (
            if contains ids k
            then some (length (comments_by_predicate (q k) (held db sql ctx w)))
            else none)
    unfolding get
    count_or_zero k =
        zero_if_absent (contains ids k) (of_key_count k) (absent_count k)
        ∙ elim (Bool-cases (contains ids k)) [
          | inl h ↦ rw h (ap some (memory_count k h))
          | inr h ↦ rw h refl
        ]

    pub counts_by_key :
        (queried scanned iterated : Text) (k : ℕ)
        → map_ok
            (λ counts. get counts k)
            (counts_of_rows queried scanned iterated ids
              (db.query (db_from_context ctx) (count_by column conditions) w).0)
          ≡ unless (groups_fault queried scanned iterated column conditions) (
              if contains ids k
              then map_ok some (ok (length (comments_by_predicate (q k) (held db sql ctx w))))
              else ok none)
    unfolding counts_of_rows answer
    counts_by_key queried scanned iterated k =
        let (rows, same, reply) =
          sql.query-answers (db_from_context ctx) (count_by column conditions) w in
        let g : List (Uuid × ℕ) → Map ℕ = λ counted. put_counts counted (start_all 0 ids []) in
        let found : get (g (map (λ r. r) rows)) k ≡ (
            if contains ids k
            then some (length (comments_by_predicate (q k) (held db sql ctx w)))
            else none) =
          ap (λ groups. get (g groups) k) (map_id rows)
          ∙ put_counts_lem column rows_met rows _ k same
          ∙ ap (or_else _)
              (ap (λ m. get m k) (start_all-assign_all 0 ids []) ∙ get-assign_all 0 ids [] k)
          ∙ count_or_zero k in
        ap (map_ok (λ counts. get counts k)) (
          replied db.is_no_rows scanned iterated (wrapped scanned) (λ r. r) (λ e h. refl) queried g
            _ rows (All-of_total _ (λ r. refl) rows) reply)
        ∙ map_ok-unless (λ counts. get counts k) _ (ok (g (map (λ r. r) rows)))
        ∙ unless_congr _ (ap ok found ∙ of_key (contains ids k) _)

  -- BatchCountTopLevel gives the first error that the database reports as an OperationError, and if it
  -- reports none, for every identifier what the memory repository's gives for it on the same comments.
  pub batch_count_top_level-memory :
      (ids : List PostId) (k : PostId)
      → map_ok (λ counts. get counts k) (batch_count_top_level db ctx ids w).0
        ≡ unless
            (groups_fault
              (ascii "batch count top-level comments")
              (ascii "scan top-level comment counts")
              (ascii "iterate top-level comment counts")
              post_id_column
              (equals_any post_id_column ids ∷ parent_is_null ∷ []))
            (map_ok
              (λ counts. get counts k)
              (MemoryComments.batch_count_top_level ids (held db sql ctx w)))
  unfolding batch_count_top_level MemoryComments.count_top_level
  batch_count_top_level-memory ids k =
      rw
        (
          to_uuids-id ids,
          counts_by_key post_id_column is_top_level_of ids
              (equals_any post_id_column ids ∷ parent_is_null ∷ []) (λ row h. ground arith)
              (λ j row there.
                sym (and-true _)
                ∙ top_level_agrees ids j row.post_id row.parent_id true true there refl)
              (ascii "batch count top-level comments") (ascii "scan top-level comment counts")
              (ascii "iterate top-level comment counts") k,
        )
        (unless_congr _ (sym (MemoryBatch.batch_count_top_level-count ids (held db sql ctx w) k)))

  -- BatchCountReplies gives the first error that the database reports as an OperationError, and if it
  -- reports none, for every identifier what the memory repository's gives for it on the same comments.
  pub batch_count_replies-memory :
      (ids : List CommentId) (k : CommentId)
      → map_ok (λ counts. get counts k) (batch_count_replies db ctx ids w).0
        ≡ unless
            (groups_fault
              (ascii "batch count replies")
              (ascii "scan reply counts")
              (ascii "iterate reply counts")
              parent_id_column
              (equals_any parent_id_column ids ∷ []))
            (map_ok
              (λ counts. get counts k)
              (MemoryComments.batch_count_replies ids (held db sql ctx w)))
  unfolding batch_count_replies MemoryComments.count_replies
  batch_count_replies-memory ids k =
      rw
        (
          to_uuids_from_comments-id ids,
          counts_by_key parent_id_column is_reply_to ids (equals_any parent_id_column ids ∷ [])
              (λ row h. parent_asked_for ids row.parent_id _ h)
              (λ j row there.
                sym (and-true _) ∙ reply_agrees ids j row.parent_id true true there refl)
              (ascii "batch count replies") (ascii "scan reply counts")
              (ascii "iterate reply counts") k,
        )
        (unless_congr _ (sym (MemoryBatch.batch_count_replies-count ids (held db sql ctx w) k)))
