-- ===== src/Postgres/Posts/Writes.antt =====
-- The writes of PostRepository do to the tables what the memory repository does to the store that they
-- hold, with the time that a column keeps.
use comments_service.Prelude.{
  ℕ, ◌≡◌, refl, subst, sym, ap, ◌∙◌, false, Option, none, some, List, [], ◌∷◌, ◌++◌, ◌==◌, ==_iff,
  filter, length, arith, Bool-cases, Option-cases, inl, inr,
}
use comments_service.Go.Text.{ascii}
use comments_service.Go.Map.{Map, get, put}
use comments_service.Go.Map.Laws.{IsDistinct}
use comments_service.Domain.Errors.{Result, ok, err, Result-cases}
use comments_service.Domain.Ids.{UuidText}
use comments_service.Domain.Post.{Post}
use comments_service.Memory.Store.{Store}
use comments_service.Memory.Posts as MemoryPosts
use comments_service.Postgres.Sql.{PostRow, insert_post, update_post}
use comments_service.Postgres.Database.{db_from_context, Database, IsSql, keyed_posts, replace_post}
use comments_service.Postgres.Posts.{post_columns, create, update, post_not_found}
use comments_service.Postgres.Replies.{unless, statement_fault, outcome}
use comments_service.Postgres.Rows.{map-append}
use comments_service.Postgres.View.{post_of, posts_of, store_of}
use comments_service.Postgres.Pages.{put_last, map-IsDistinct}

-- The post, with the time that a column keeps of its own.
abbrev pub kept : {Tx W : Type 0} → Database Tx W → Post → Post
kept db post = record post {
  created_at = record { instant = (db.stored post.created_at).instant; zone = 0 };
}

-- An update of a post that is not there replaces nothing and affects no row.
replaced_none :
    (post : PostRow) (rows : List PostRow)
    → get (posts_of rows) post.id ≡ none
    → (posts_of (replace_post post rows) ≡ posts_of rows)
      × (length (filter (λ r. r.id == post.id) rows) ≡ 0)
unfolding get
replaced_none post [] h = (refl, refl)
replaced_none post (row ∷ rows) h = elim (Bool-cases (row.id == post.id)) [
  | inl e ↦ absurd (ground arith)
  | inr e ↦
      let (same, zero_rows) = replaced_none post rows (rw e at h) in
      rw e (ap (◌∷◌ (row.id, post_of row)) same, zero_rows)
]

-- An update of a post that is there replaces it and affects a row.
replaced_some :
    (post : PostRow) (rows : List PostRow) (old : Post)
    → IsDistinct (posts_of rows)
    → get (posts_of rows) post.id ≡ some old
    → (posts_of (replace_post post rows) ≡ put (posts_of rows) post.id (post_of post))
      × ((length (filter (λ r. r.id == post.id) rows) == 0) ≡ false)
unfolding get put
replaced_some post [] old d h = absurd (ground arith)
replaced_some post (row ∷ rows) old d h = elim (Bool-cases (row.id == post.id)) [
  | inr e ↦
      let (same, some_rows) = replaced_some post rows old d.1 (rw e at h) in
      rw e (ap (◌∷◌ (row.id, post_of row)) same, some_rows)
  | inl e ↦
      let (same, zero_rows) = replaced_none post rows (rw (← (==_iff row.id post.id).0 e) d.0) in
      rw e (ap (◌∷◌ (post.id, post_of post)) same, ground arith)
]

-- A row at the end, where the identifiers are still distinct.
inserted_last :
    (rows : List PostRow) (row : PostRow)
    → IsDistinct (keyed_posts (rows ++ row ∷ []))
    → posts_of (rows ++ row ∷ []) ≡ put (posts_of rows) row.id (post_of row)
inserted_last rows row d =
    let split = map-append (λ r. (r.id, post_of r)) rows (row ∷ []) in
    let distinct = map-IsDistinct (λ r. r.id) (λ r. r) post_of (rows ++ row ∷ []) d in
    split ∙ sym (put_last (posts_of rows) row.id (post_of row) (subst IsDistinct split distinct))

update_absent :
    ⦃uuid : UuidText⦄ (post : Post) (s : Store)
    → get s.posts post.id ≡ none
    → MemoryPosts.update post s ≡ (err (post_not_found post.id), s)
unfolding MemoryPosts.update
update_absent post s h = rw (MemoryPosts.update, h) refl

update_there :
    ⦃uuid : UuidText⦄ (post old : Post) (s : Store)
    → get s.posts post.id ≡ some old
    → MemoryPosts.update post s ≡ (ok tt, record s { posts = put s.posts post.id post })
unfolding MemoryPosts.update
update_there post old s h = rw (MemoryPosts.update, h) refl

module _ {Tx W : Type 0} (db : Database Tx W) ⦃uuid : UuidText⦄ (sql : IsSql db) (ctx : Option Tx)
    (w : W) (post : Post) where
  abbrev pub held : W → Store
  held v = store_of (sql.tables (db_from_context ctx) v)

  abbrev pub inserted : Result ℕ × W
  inserted = db.exec (db_from_context ctx) (insert_post (post_columns post)) w

  abbrev pub updated : Result ℕ × W
  updated = db.exec (db_from_context ctx) (update_post (post_columns post)) w

  -- Create gives the database's error as an OperationError and then leaves the tables as they are; without
  -- an error the tables hold what the memory repository's Create leaves for the post with its time as the
  -- column keeps it.
  pub create-memory :
      ((create db ctx post w).0
        ≡ unless
            (statement_fault (ascii "insert post") inserted.0)
            (MemoryPosts.create (kept db post) (held w)).0)
      × (held (create db ctx post w).1
          ≡ outcome inserted.0 (held w) (MemoryPosts.create (kept db post) (held w)).1)
  unfolding create MemoryPosts.create store_of
  create-memory = elim (Result-cases inserted.0) [
    | inr (e, failed) ↦ rw failed (
      refl,
      ap store_of (
          sql.exec_err (db_from_context ctx) (insert_post (post_columns post)) w inserted.1 e
            (ap (λ r. (r, inserted.1)) failed)),
    )
    | inl (n, fine) ↦ rw fine (
      refl,
      let (one, left) =
            sql.exec_ok (db_from_context ctx) (insert_post (post_columns post)) w inserted.1 n
              (ap (λ r. (r, inserted.1)) fine) in
          let distinct =
            subst (λ t. IsDistinct (keyed_posts t.posts)) left
              (sql.posts_distinct (db_from_context ctx) inserted.1) in
          ap store_of left
          ∙ ap (λ posts. record { posts = posts; comments = (held w).comments })
              (inserted_last (sql.tables (db_from_context ctx) w).posts _ distinct),
    )
  ]

  -- Update gives the database's error as an OperationError and then leaves the tables as they are; without
  -- an error it gives what the memory repository's Update gives, a missing post included, and the tables
  -- hold what that leaves for the post with its time as the column keeps it.
  pub update-memory :
      ((update db ctx post w).0
        ≡ unless
            (statement_fault (ascii "update post") updated.0)
            (MemoryPosts.update (kept db post) (held w)).0)
      × (held (update db ctx post w).1
          ≡ outcome updated.0 (held w) (MemoryPosts.update (kept db post) (held w)).1)
  unfolding update store_of
  update-memory = elim (Result-cases updated.0) [
    | inr (e, failed) ↦ rw failed (
      refl,
      ap store_of (
          sql.exec_err (db_from_context ctx) (update_post (post_columns post)) w updated.1 e
            (ap (λ r. (r, updated.1)) failed)),
    )
    | inl (n, fine) ↦
        let (affected, left) =
          sql.exec_ok (db_from_context ctx) (update_post (post_columns post)) w updated.1 n
            (ap (λ r. (r, updated.1)) fine) in
        let old_rows = (sql.tables (db_from_context ctx) w).posts in
        let after : Map Post → Store =
          λ posts. record { posts = posts; comments = (held w).comments } in
        elim (Option-cases (get (posts_of old_rows) post.id)) [
          | inl absent ↦
              let (same, no_rows) = replaced_none _ old_rows absent in
              (
                rw (fine, update_absent (kept db post) (held w) absent, affected, no_rows) refl,
                rw (fine, update_absent (kept db post) (held w) absent)
                    (ap store_of left ∙ ap after same),
              )
          | inr (old, there) ↦
              let distinct =
                map-IsDistinct (λ r. r.id) (λ r. r) post_of old_rows
                  (sql.posts_distinct (db_from_context ctx) w) in
              let (same, some_rows) = replaced_some _ old_rows old distinct there in
              (
                rw (fine, update_there (kept db post) old (held w) there, affected, some_rows) refl,
                rw (fine, update_there (kept db post) old (held w) there)
                    (ap store_of left ∙ ap after same),
              )
        ]
  ]
