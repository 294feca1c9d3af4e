-- ===== src/Postgres/Comments/Ranked.antt =====
-- What a ranked query of batchListByPostID and batchListByParentID gives, and how its conditions agree
-- with the tests of the memory repository.
use comments_service.Prelude.{
  ℕ, ◌≡◌, refl, subst, ap, ◌∙◌, Bool, true, false, ◌&&◌, Option, none, some, List, [], ◌∷◌, ◌==◌,
  ==_iff, map, All, All-map, All-filter, arith, if◌then◌else◌, Bool-cases, inl, inr,
}
use comments_service.Go.Text.{ascii, Text}
use comments_service.Go.Map.{contains}
use comments_service.Domain.Errors.{Error, operation, Result, ok, err, ◌>>=◌, map_ok}
use comments_service.Domain.Ids.{Uuid, PostId, CommentId, UuidText}
use comments_service.Domain.Pagination.{PageInput, limit_plus_one}
use comments_service.Domain.Comment.{Comment}
use comments_service.Domain.Comment.Valid as ValidComment
use comments_service.Postgres.Sql.{
  CommentRow, Column, Condition, is_null, is_cell_in, by_key, row_number, ranked, selected,
  ranked_comments, answer,
}
use comments_service.Postgres.Database.{db_from_context, Database, IsSql, IsReply}
use comments_service.Postgres.Posts.{wrapped, scan_all, check_ended}
use comments_service.Postgres.Comments.{to_uuids, to_uuids_from_comments, scan_comment_with_rank}
use comments_service.Postgres.Replies.{unless, unless_congr, reply_fault, replied}
use comments_service.Postgres.Rows.{All-of_map, All-sort_slice, map-map}
use comments_service.Postgres.View.{comment_of, HoldsValid, built_comment}
use comments_service.Postgres.Comments.Reads.{seen}

pub to_uuids-id : (ids : List PostId) → to_uuids ids ≡ ids
unfolding to_uuids
to_uuids-id [] = refl
to_uuids-id (id ∷ ids) = ap (◌∷◌ id) (to_uuids-id ids)

pub to_uuids_from_comments-id : (ids : List CommentId) → to_uuids_from_comments ids ≡ ids
unfolding to_uuids_from_comments
to_uuids_from_comments-id [] = refl
to_uuids_from_comments-id (id ∷ ids) = ap (◌∷◌ id) (to_uuids_from_comments-id ids)

scan_ranked-row :
    (row : CommentRow) (n : ℕ)
    → ValidComment.IsValid (comment_of row)
    → scan_comment_with_rank (ok (row, n)) ≡ ok (comment_of row)
unfolding scan_comment_with_rank
scan_ranked-row row n v = built_comment row v

scan_ranked-error :
    (e : Error) → scan_comment_with_rank (err e) ≡ err (operation (ascii "scan ranked comment") e)
unfolding scan_comment_with_rank
scan_ranked-error e = refl

asked_for :
    (ids : List Uuid) (k u : Uuid) (m n : Bool)
    → contains ids k ≡ true
    → m ≡ n
    → ((u == k) && m) ≡ ((contains ids u && n) && (u == k))
asked_for ids k u m n there h = elim (Bool-cases (u == k)) [
  | inl e ↦
      let u_is : contains ids u ≡ true = rw ((==_iff u k).0 e) there in
      rw (e, u_is, h) (ground arith)
  | inr e ↦ rw e (ground arith)
]

-- The conditions of a batched statement and the tests of the memory repository.
pub top_level_agrees :
    (ids : List Uuid) (k post_id : Uuid) (parent : Option Uuid) (m n : Bool)
    → contains ids k ≡ true
    → m ≡ n
    → (((post_id == k) && elim parent [ none ↦ true | some id ↦ false ]) && m)
      ≡ ((contains ids post_id && (is_null parent && n)) && (post_id == k))
top_level_agrees ids k post_id none m n there h =
    ground (arith, asked_for ids k post_id m n there h)
top_level_agrees ids k post_id (some id) m n there h = ground arith

pub reply_agrees :
    (ids : List Uuid) (k : Uuid) (parent : Option Uuid) (m n : Bool)
    → contains ids k ≡ true
    → m ≡ n
    → (elim parent [ none ↦ false | some u ↦ u == k ] && m)
      ≡ ((is_cell_in parent ids && n) && (elim parent [ none ↦ 0 | some u ↦ u ] == k))
reply_agrees ids k none m n there h = refl
reply_agrees ids k (some u) m n there h = asked_for ids k u m n there h

pub parent_asked_for :
    (ids : List Uuid) (parent : Option Uuid) (b : Bool)
    → (is_cell_in parent ids && b) ≡ true
    → contains ids (elim parent [ none ↦ 0 | some u ↦ u ]) ≡ true
parent_asked_for ids none b h = absurd (ground arith)
parent_asked_for ids (some u) b h = ground arith

pub of_key :
    {A : Type 0} (asked : Bool) (p : A)
    → ◌≡◌ {A = Result (Option A)}
        (ok (if asked then some p else none))
        (if asked then map_ok some (ok p) else ok none)
of_key true p = refl
of_key false p = refl

module _ {Tx W : Type 0} (db : Database Tx W) ⦃uuid : UuidText⦄ (sql : IsSql db) (ctx : Option Tx)
    (w : W) where
  abbrev pub top_of : Column → List Condition → PageInput → List CommentRow
  top_of column conditions page =
      ranked column (selected db.stored db.read_uuid conditions (seen db sql ctx w))
        (limit_plus_one page)

  -- What the reply to a ranked query reports.
  abbrev pub ranked_fault : Text → Text → Column → List Condition → PageInput → Option Error
  ranked_fault queried iterated column conditions page =
      reply_fault (ascii "scan ranked comment") iterated queried
        (db.query (db_from_context ctx) (ranked_comments column conditions (limit_plus_one page))
          w).0

  -- The rows of the answer, with their ranks, scan into the comments.
  ranked_answer :
      (column : Column) (conditions : List Condition) (page : PageInput)
      → HoldsValid (seen db sql ctx w)
      → All
          (λ r. scan_comment_with_rank (ok r) ≡ ok (comment_of r.0))
          (answer db.stored db.read_uuid
            (ranked_comments column conditions (limit_plus_one page))
            (seen db sql ctx w))
  unfolding answer
  ranked_answer column conditions page valid =
      let rows = selected db.stored db.read_uuid conditions (seen db sql ctx w) in
      All-of_map (λ row. (row, row_number column rows row)) _ (top_of column conditions page)
        (All-sort_slice _ (by_key column) _ (
          All-filter _ _ rows (
            All-map _ _ rows (λ row v. scan_ranked-row row (row_number column rows row) v)
              (All-filter _ _ (seen db sql ctx w).comments valid.valid_comments))))

  ranked_comments_of :
      (column : Column) (conditions : List Condition) (page : PageInput)
      → map
          (λ r. comment_of r.0)
          (answer db.stored db.read_uuid
            (ranked_comments column conditions (limit_plus_one page))
            (seen db sql ctx w))
        ≡ map comment_of (top_of column conditions page)
  unfolding answer
  ranked_comments_of column conditions page =
      map-map _ (λ (r : CommentRow × ℕ). comment_of r.0) (top_of column conditions page)

  -- What the two batched lists make of the reply, up to the grouping `g`.
  pub scanned_batch :
      {A : Type 0} (queried iterated : Text) (column : Column) (conditions : List Condition)
      (page : PageInput) (g : List Comment → A)
      → HoldsValid (seen db sql ctx w)
      → (wrapped queried
            (db.query
              (db_from_context ctx)
              (ranked_comments column conditions (limit_plus_one page))
              w).0
          >>= λ rows. scan_all scan_comment_with_rank rows.rows >>= λ comments.
              check_ended iterated rows.ended >>= λ end. ok (g comments))
        ≡ unless
            (ranked_fault queried iterated column conditions page)
            (ok (g (map comment_of (top_of column conditions page))))
  scanned_batch queried iterated column conditions page g valid =
      let (rows, same, reply) =
        sql.query-answers (db_from_context ctx)
          (ranked_comments column conditions (limit_plus_one page)) w in
      replied db.is_no_rows (ascii "scan ranked comment") iterated scan_comment_with_rank
        (λ r. comment_of r.0) (λ e h. scan_ranked-error e) queried g _ _
        (ranked_answer column conditions page valid) (subst (IsReply db.is_no_rows _) same reply)
      ∙ unless_congr _ (ap (λ cs. ok (g cs)) (ranked_comments_of column conditions page))
