-- ===== src/Memory/Posts.antt =====
-- internal/adapters/storage/memory/post_repository.go. A method takes the store and gives its result,
-- with the store that it leaves if it writes.
pub mod Pages
use comments_service.Prelude.{ℕ, Option, none, some, List, length}
use comments_service.Go.Text.{Text, ascii}
use comments_service.Go.Map.{Map, get, put, values}
use comments_service.Domain.Errors.{Error, not_found, Result, ok, err}
use comments_service.Domain.Ids.{PostId, UuidText, id_text}
use comments_service.Domain.Pagination.{PageInput, Page}
use comments_service.Domain.Post.{Post}
use comments_service.Memory.Store.{Store}
use comments_service.Memory.Paginate.{paginate}

unfoldable pub create : Post → Store → Result (Unit {0}) × Store
create post s = (ok tt, record s { posts = put s.posts post.id post })

-- The posts, in the map's order.
unfoldable pub snapshot_posts : Map Post → List Post
snapshot_posts posts = values posts

unfoldable pub list_posts : Store → List Post
unfolding snapshot_posts
list_posts s = snapshot_posts s.posts

unfoldable pub count : Store → Result ℕ
count s = ok (length s.posts)

module _ ⦃uuid : UuidText⦄ where
  abbrev pub post_not_found : PostId → Error
  post_not_found id = not_found (ascii "post") (id_text id)

  unfoldable pub get_by_id : PostId → Store → Result Post
  get_by_id id s = elim (get s.posts id) [ none ↦ err (post_not_found id) | some post ↦ ok post ]

  unfoldable pub list : PageInput → Store → Result (Page Post)
  unfolding list_posts paginate
  list page s =
      ok (paginate (λ post. post.created_at) (λ post. id_text post.id) (list_posts s) page)

  unfoldable pub update : Post → Store → Result (Unit {0}) × Store
  update post s = elim (get s.posts post.id) [
    | none ↦ (err (post_not_found post.id), s)
    | some old ↦ (ok tt, record s { posts = put s.posts post.id post })
  ]
