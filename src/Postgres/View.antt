-- ===== src/Postgres/View.antt =====
-- What the rows of the tables say: the posts and comments that are scanned from them, and the memory
-- store that holds the same.
use comments_service.Prelude.{
  ◌≡◌, refl, ap, true, ◌&&◌, ◌||◌, Option, none, some, List, [], ◌∷◌, map, arith, All, ltb,
}
use comments_service.Go.Text.{text_ltb}
use comments_service.Go.Map.{Map, values}
use comments_service.Go.Map.Laws.{IsDistinct}
use comments_service.Go.Time
use comments_service.Go.Time.{Time, utc, before, after, equal}
use comments_service.Domain.Errors.{ok}
use comments_service.Domain.Ids.{Uuid, UuidText, id_text}
use comments_service.Domain.Pagination.{Cursor, cursor_matches_after}
use comments_service.Domain.Post.{Post, new_post}
use comments_service.Domain.Post.Valid as ValidPost
use comments_service.Domain.Comment.{Comment, new_comment}
use comments_service.Domain.Comment.Valid as ValidComment
use comments_service.Memory.Store.{Store}
use comments_service.Memory.WellFormed.{IsWellFormed}
use comments_service.Memory.Paginate.{matches, goes_first}
use comments_service.Memory.Comments.{text_of}
use comments_service.Postgres.Sql.{
  PostRow, CommentRow, Tables, newer_post, newer_comment, is_behind, meets_all, post_meets,
  comment_meets,
}
use comments_service.Postgres.Database.{Database, keyed_posts, keyed_comments}
use comments_service.Postgres.Posts.{build_post, keyset}
use comments_service.Postgres.Comments.{build_comment}
use comments_service.Postgres.Pages.{map-IsDistinct, map-Entries}

abbrev pub post_of : PostRow → Post
post_of row = record {
  id = row.id;
  author_id = row.author_id;
  title = row.title;
  content = row.content;
  comments_enabled = row.comments_enabled;
  created_at = record { instant = row.created_at.instant; zone = 0 };
}

abbrev pub comment_of : CommentRow → Comment
comment_of row = record {
  id = row.id;
  post_id = row.post_id;
  parent_id = row.parent_id;
  author_id = row.author_id;
  body = row.body;
  created_at = record { instant = row.created_at.instant; zone = 0 };
}

abbrev pub posts_of : List PostRow → Map Post
posts_of rows = map (λ row. (row.id, post_of row)) rows

abbrev pub comments_of : List CommentRow → Map Comment
comments_of rows = map (λ row. (row.id, comment_of row)) rows

unfoldable pub store_of : Tables → Store
store_of tables = record { posts = posts_of tables.posts; comments = comments_of tables.comments }

-- Every row was written from a valid post or comment.
pub record HoldsValid (tables : Tables) : Type 0 where
  pub valid_posts : All (λ row. ValidPost.IsValid (post_of row)) tables.posts
  pub valid_comments : All (λ row. ValidComment.IsValid (comment_of row)) tables.comments

module _ ⦃uuid : UuidText⦄ where
  -- The texts of identifiers are ordered as their bytes are, as lower case hexadecimal digits are.
  abbrev pub OrdersTexts : Type 0
  OrdersTexts = (u v : Uuid) → text_ltb (id_text u) (id_text v) ≡ ltb u v

  -- The cursor has the text of an identifier and a time that a column keeps.
  abbrev pub FitsColumns : {Tx W : Type 0} → Database Tx W → Option Cursor → Type 0
  FitsColumns db none = Unit
  FitsColumns db (some c) =
      (u : Uuid) × (c.id ≡ id_text u) × ((db.stored c.created_at).instant ≡ c.created_at.instant)

pub values-posts : (rows : List PostRow) → values (posts_of rows) ≡ map post_of rows
unfolding values
values-posts [] = refl
values-posts (row ∷ rows) = ap (◌∷◌ (post_of row)) (values-posts rows)

pub values-comments : (rows : List CommentRow) → values (comments_of rows) ≡ map comment_of rows
unfolding values
values-comments [] = refl
values-comments (row ∷ rows) = ap (◌∷◌ (comment_of row)) (values-comments rows)

-- A valid row is built into its post or comment.
pub built_post :
    (row : PostRow) → ValidPost.IsValid (post_of row) → build_post row ≡ ok (post_of row, true)
unfolding build_post new_post Time.is_zero utc
built_post row v = ground arith

pub built_comment :
    (row : CommentRow)
    → ValidComment.IsValid (comment_of row)
    → build_comment row ≡ ok (comment_of row)
unfolding build_comment new_comment Time.is_zero utc
built_comment row v = ground arith

module _ ⦃uuid : UuidText⦄ (orders : OrdersTexts) where
  pub newer-posts :
      (a b : PostRow)
      → goes_first (λ p. p.created_at) (λ p. id_text p.id) (post_of a) (post_of b) ≡ newer_post a b
  unfolding goes_first equal after
  newer-posts a b = rw (orders b.id a.id) refl

  pub newer-comments :
      (a b : CommentRow)
      → goes_first (λ c. c.created_at) text_of (comment_of a) (comment_of b) ≡ newer_comment a b
  unfolding goes_first equal after
  newer-comments a b = rw (orders b.id a.id) refl

  module _ {Tx W : Type 0} (db : Database Tx W)
      (reads_texts : (u : Uuid) → db.read_uuid (id_text u) ≡ some u) where  -- What stands behind the cursor of a request.
    matches-is_behind :
        (t : Time) (id : Uuid) (c : Cursor)
        → FitsColumns db (some c)
        → (before t c.created_at || equal t c.created_at && text_ltb (id_text id) c.id)
          ≡ is_behind db.stored db.read_uuid t id c.created_at c.id
    unfolding before equal
    matches-is_behind t id c (u, e, same) = rw (e, is_behind, reads_texts u, orders id u, same) refl

    pub posts_behind :
        (cursor : Option Cursor) (row : PostRow)
        → FitsColumns db cursor
        → matches (λ p. p.created_at) (λ p. id_text p.id) cursor (post_of row)
          ≡ meets_all (post_meets db.stored db.read_uuid) (keyset cursor) row
    unfolding matches cursor_matches_after
    posts_behind none row h = refl
    posts_behind (some c) row h = ground (arith, matches-is_behind row.created_at row.id c h)

    pub comments_behind :
        (cursor : Option Cursor) (row : CommentRow)
        → FitsColumns db cursor
        → matches (λ c. c.created_at) text_of cursor (comment_of row)
          ≡ meets_all (comment_meets db.stored db.read_uuid) (keyset cursor) row
    unfolding matches cursor_matches_after
    comments_behind none row h = refl
    comments_behind (some c) row h = ground (arith, matches-is_behind row.created_at row.id c h)

-- The store that the tables hold is well-formed, since identifiers are primary keys.
pub store_of-IsWellFormed :
    (tables : Tables)
    → IsDistinct (keyed_posts tables.posts)
    → IsDistinct (keyed_comments tables.comments)
    → IsWellFormed (store_of tables)
unfolding store_of
store_of-IsWellFormed tables posts comments = record {
  posts_distinct = map-IsDistinct (λ row. row.id) (λ row. row) post_of tables.posts posts;
  posts_keyed = map-Entries (λ row. row.id) (λ p. p.id) post_of tables.posts (λ row. refl);
  comments_distinct =
      map-IsDistinct (λ row. row.id) (λ row. row) comment_of tables.comments comments;
  comments_keyed = map-Entries (λ row. row.id) (λ c. c.id) comment_of tables.comments (λ row. refl);
}
