-- ===== src/Memory/Posts/Pages.antt =====
-- The pages of List on a well-formed store.
use mathlib.Core.List.{Perm}
use comments_service.Prelude.{ℕ, suc, ◌<◌, ◌≡◌, ap, Bool, none, List, length}
use comments_service.Go.Map.{Map}
use comments_service.Go.Map.Order.{values-perm}
use comments_service.Go.Sort.Unique.{IsStrict}
use comments_service.Domain.Errors.{Result, ok}
use comments_service.Domain.Ids.{UuidText, id_text}
use comments_service.Domain.Pagination.{PageInput, Page}
use comments_service.Domain.Post.{Post}
use comments_service.Memory.Store.{Store}
use comments_service.Memory.WellFormed.{IsWellFormed, posts-HasDistinctIds}
use comments_service.Memory.Paginate.{goes_first}
use comments_service.Memory.Paginate.Spec.{IsSmall}
use comments_service.Memory.Paginate.Order.{paginate_of_perm}
use comments_service.Memory.Paginate.Walk.{page_of_size, page_or_empty, follow, follow_covers}
use comments_service.Memory.Posts.{list_posts, list}

pub Post-set : IsSet Post
Post-set = hlevel

module _ ⦃uuid : UuidText⦄ where
  abbrev pub newest_first : Post → Post → Bool
  newest_first = goes_first (λ post. post.created_at) (λ post. id_text post.id)

  -- What a client gets that asks for pages of `size` posts, at most `fuel` times, each after the last
  -- post that it has.
  abbrev pub visited : (PageInput → Result (Page Post)) → ℕ → ℕ → List Post
  visited request fuel size =
      follow (λ post. post.created_at) (λ post. id_text post.id)
        (λ page. page_or_empty (request page)) fuel size none

  -- On a well-formed store, a client that follows the pages of List, of a size of at least one that fits
  -- an int and with more requests than there are posts, sees each post once, newest first.
  pub list-covers :
      (s : Store)
      → IsWellFormed s
      → (fuel n : ℕ) → IsSmall (page_of_size (suc n) none)
      → length (list_posts s) < fuel
      → IsStrict newest_first (visited (λ page. list page s) fuel (suc n))
        × Perm (visited (λ page. list page s) fuel (suc n)) (list_posts s)
  unfolding list list_posts
  list-covers s w fuel n small enough =
      follow_covers (λ post. post.created_at) (λ post. id_text post.id) fuel n _
        (posts-HasDistinctIds s w) small enough

  -- On a well-formed store, the order in which the map hands out its entries does not show in a page of
  -- List.
  pub list_of_perm :
      (s : Store) (other : Map Post) (page : PageInput)
      → IsWellFormed s
      → Perm s.posts other
      → list page s ≡ list page (record s { posts = other })
  unfolding list list_posts
  list_of_perm s other page w same = ap ok (
      paginate_of_perm (λ post. post.created_at) (λ post. id_text post.id) Post-set _ _ page
        (posts-HasDistinctIds s w) (values-perm same))
