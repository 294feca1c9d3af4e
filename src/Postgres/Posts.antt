-- ===== src/Postgres/Posts.antt =====
-- internal/adapters/storage/postgres/post_repository.go. A method takes the transaction of its context,
-- if there is one, and gives its result with the world that it leaves.
pub mod Reads
pub mod Writes
use comments_service.Prelude.{
  ℕ, ◌==◌, ltb, Bool, true, false, Option, none, some, List, [], ◌∷◌, length, take, if◌then◌else◌,
}
use comments_service.Go.Text.{Text, ascii}
use comments_service.Go.Time.{Time, zero_instant}
use comments_service.Domain.Errors.{Error, not_found, operation, Result, ok, err, ◌>>=◌, map_ok}
use comments_service.Domain.Ids.{PostId, nil_uuid, UuidText, id_text}
use comments_service.Domain.Pagination.{Cursor, PageInput, Page, limit_plus_one}
use comments_service.Domain.Post.{Post, new_post}
use comments_service.Postgres.Sql.{
  PostRow, Condition, goes_behind, post_by_id, posts_page, count_posts, insert_post, update_post,
}
use comments_service.Postgres.Database.{Rows, Database, db_from_context}

-- if err != nil { return &domain.OperationError{…} }
abbrev pub wrapped {ℓ} : {A : Type ℓ} → Text → Result A → Result A
wrapped op (ok a) = ok a
wrapped op (err e) = err (operation op e)

-- The error of a statement without a result.
abbrev pub done : Result ℕ → Result (Unit {0})
done r = map_ok (λ n. tt) r

abbrev pub zero_time : Time
zero_time = record { instant = zero_instant; zone = 0 }

-- domain.Post{}
abbrev pub zero_post : Post
zero_post = record {
  id = nil_uuid;
  author_id = nil_uuid;
  title = [];
  content = [];
  comments_enabled = false;
  created_at = zero_time;
}

-- rows.Next and the scan of each row, up to the first error.
unfoldable pub scan_all : {R A : Type 0} → (Result R → Result A) → List (Result R) → Result (List A)
scan_all scan [] = ok []
scan_all scan (row ∷ rows) = scan row >>= λ a. map_ok (◌∷◌ a) (scan_all scan rows)

-- rows.Err()
abbrev pub check_ended : Text → Option Error → Result (Unit {0})
check_ended op none = ok tt
check_ended op (some e) = err (operation op e)

unfoldable pub first_page : {A : Type 0} → PageInput → List A → Page A
first_page page items =
    let has_next_page = ltb page.first (length items) in
    record {
      items = if has_next_page then take page.first items else items;
      has_next_page = has_next_page;
    }

-- What a list does with the reply to its query.
unfoldable pub page_of_rows :
    {R A : Type 0}
    → Text
    → Text
    → (Result R → Result A)
    → PageInput
    → Result (Rows R)
    → Result (Page A)
unfolding scan_all first_page
page_of_rows queried iterated scan page reply = wrapped queried reply >>= λ rows.
    scan_all scan rows.rows >>= λ items.
    check_ended iterated rows.ended >>= λ end. ok (first_page page items)

abbrev pub post_columns : Post → PostRow
post_columns post = record {
  id = post.id;
  author_id = post.author_id;
  title = post.title;
  content = post.content;
  comments_enabled = post.comments_enabled;
  created_at = post.created_at;
}

-- if page.After != nil { … }
abbrev pub keyset : Option Cursor → List Condition
keyset none = []
keyset (some after) = goes_behind after.created_at after.id ∷ []

-- The end of scanPost, with the columns of the row.
unfoldable pub build_post : PostRow → Result (Post × Bool)
build_post row = new_post row.id row.author_id row.title row.content row.created_at >>= λ post.
    ok (record post { comments_enabled = row.comments_enabled }, true)

abbrev pub post_not_found : ⦃uuid : UuidText⦄ → PostId → Error
post_not_found ⦃uuid⦄ id = not_found (ascii "post") (id_text id)

module _ {Tx W : Type 0} (db : Database Tx W) where
  -- The post, and whether there is one.
  unfoldable pub scan_post : Result PostRow → Result (Post × Bool)
  unfolding build_post
  scan_post (err e) =
      if db.is_no_rows e then ok (zero_post, false) else err (operation (ascii "scan post") e)
  scan_post (ok row) = build_post row

  -- post, _, scanErr := scanPost(rows)
  abbrev pub scan_next_post : Result PostRow → Result Post
  scan_next_post row = map_ok (λ found. found.0) (scan_post row)

  unfoldable pub create : Option Tx → Post → W → Result (Unit {0}) × W
  unfolding db_from_context
  create ctx post w =
      let (r, left) = db.exec (db_from_context ctx) (insert_post (post_columns post)) w in
      (done (wrapped (ascii "insert post") r), left)

  unfoldable pub count : Option Tx → W → Result ℕ × W
  unfolding db_from_context
  count ctx w =
      let (r, left) = db.query_row (db_from_context ctx) count_posts w in
      (wrapped (ascii "count posts") r, left)

  unfoldable pub list : Option Tx → PageInput → W → Result (Page Post) × W
  unfolding db_from_context page_of_rows limit_plus_one
  list ctx page w =
      let query = posts_page (keyset page.after) (limit_plus_one page) in
      let (reply, left) = db.query (db_from_context ctx) query w in
      (page_of_rows (ascii "list posts") (ascii "iterate posts") scan_next_post page reply, left)

  module _ ⦃uuid : UuidText⦄ where
    unfoldable pub get_by_id : Option Tx → PostId → W → Result Post × W
    unfolding db_from_context scan_post
    get_by_id ctx id w =
        let (row, left) = db.query_row (db_from_context ctx) (post_by_id id) w in
        (scan_post row >>= λ found. if found.1 then ok found.0 else err (post_not_found id), left)

    unfoldable pub update : Option Tx → Post → W → Result (Unit {0}) × W
    unfolding db_from_context
    update ctx post w =
        let (r, left) = db.exec (db_from_context ctx) (update_post (post_columns post)) w in
        (
          wrapped (ascii "update post") r >>= λ affected.
              if affected == 0 then err (post_not_found post.id) else ok tt,
          left,
        )
