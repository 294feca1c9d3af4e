-- ===== src/Examples/Memory.antt =====
-- The theorems of the memory adapter on a store of two posts, a thread and its replies.
use mathlib.Core.List.{Perm}
use comments_service.Prelude.{arith, ◌<◌, refl, some, none, [], ◌∷◌, true, Option, ℕ, length}
use comments_service.Go.Map.{Map, get, values}
use comments_service.Go.Sort.Unique.{IsStrict}
use comments_service.Go.Time.{Time}
use comments_service.Domain.Pagination.{PageInput}
use comments_service.Domain.Post.{Post}
use comments_service.Domain.Comment.{Comment}
use comments_service.Memory.Store.{Store}
use comments_service.Memory.WellFormed.{IsWellFormed}
use comments_service.Memory.Posts
use comments_service.Memory.Posts.{list_posts}
use comments_service.Memory.Posts.Pages as PostPages
use comments_service.Memory.Comments.{
  list_top_level, list_replies, comments_by_predicate, filter_comments, is_top_level_of,
  is_reply_to,
}
use comments_service.Memory.Comments.Pages as CommentPages
use comments_service.Examples.Codec.{unary_uuid}

abbrev pub at_time : ℕ → Time
at_time n = record { instant = n; zone = 0 }

abbrev pub post_of : ℕ → Post
post_of n = record {
  id = n;
  author_id = 7;
  title = 104 ∷ [];
  content = 105 ∷ [];
  comments_enabled = true;
  created_at = at_time n;
}

abbrev pub comment_of : ℕ → ℕ → Option ℕ → Comment
comment_of n post_id parent_id = record {
  id = n;
  post_id = post_id;
  parent_id = parent_id;
  author_id = 8;
  body = 104 ∷ [];
  created_at = at_time n;
}

-- Two posts; two threads under the first, one of them with two replies; one under the second.
abbrev busy : Store
busy = record {
  posts = (1, post_of 1) ∷ (2, post_of 2) ∷ [];
  comments =
      (10, comment_of 10 1 none)
      ∷ (11, comment_of 11 1 none)
      ∷ (12, comment_of 12 1 (some 10))
      ∷ (13, comment_of 13 2 none)
      ∷ (14, comment_of 14 1 (some 10))
      ∷ [];
}

busy-IsWellFormed : IsWellFormed busy
unfolding get
busy-IsWellFormed = record {
  posts_distinct = (refl, (refl, tt));
  posts_keyed = (refl, (refl, tt));
  comments_distinct = (refl, (refl, (refl, (refl, (refl, tt)))));
  comments_keyed = (refl, (refl, (refl, (refl, (refl, tt)))));
}

three_posts : length (list_posts busy) < 4
unfolding list_posts values Posts.snapshot_posts
three_posts = omega arith

two_threads : length (comments_by_predicate (is_top_level_of 1) busy) < 3
unfolding comments_by_predicate filter_comments values
two_threads = omega arith

two_replies : length (comments_by_predicate (is_reply_to 10) busy) < 3
unfolding comments_by_predicate filter_comments values
two_replies = omega arith

list_top_level-covers_example :
    IsStrict CommentPages.newest_first
      (CommentPages.visited (λ page. list_top_level 1 page busy) 3 1)
    × Perm
        (CommentPages.visited (λ page. list_top_level 1 page busy) 3 1)
        (comments_by_predicate (is_top_level_of 1) busy)
list_top_level-covers_example =
    CommentPages.list_top_level-covers busy busy-IsWellFormed 3 0 (omega arith) 1 two_threads

list_replies-covers_example :
    IsStrict CommentPages.newest_first
      (CommentPages.visited (λ page. list_replies 10 page busy) 3 1)
    × Perm
        (CommentPages.visited (λ page. list_replies 10 page busy) 3 1)
        (comments_by_predicate (is_reply_to 10) busy)
list_replies-covers_example =
    CommentPages.list_replies-covers busy busy-IsWellFormed 3 0 (omega arith) 10 two_replies

list-covers_example :
    IsStrict PostPages.newest_first (PostPages.visited (λ page. Posts.list page busy) 4 1)
    × Perm (PostPages.visited (λ page. Posts.list page busy) 4 1) (list_posts busy)
list-covers_example = PostPages.list-covers busy busy-IsWellFormed 4 0 (omega arith) three_posts

abbrev pub first_two : PageInput
first_two = record { first = 2; after = none }

abbrev reordered_posts : Map Post
reordered_posts = (2, post_of 2) ∷ (1, post_of 1) ∷ []

abbrev reordered_comments : Map Comment
reordered_comments =
    (11, comment_of 11 1 none)
    ∷ (10, comment_of 10 1 none)
    ∷ (12, comment_of 12 1 (some 10))
    ∷ (13, comment_of 13 2 none)
    ∷ (14, comment_of 14 1 (some 10))
    ∷ []
