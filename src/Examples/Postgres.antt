-- ===== src/Examples/Postgres.antt =====
-- The theorems of the PostgreSQL adapter on a small database of two posts, a thread and its replies.
use comments_service.Prelude.{◌≡◌, refl, arith, none, some, List, [], ◌∷◌}
use comments_service.Go.Text.{ascii}
use comments_service.Go.Map.{get}
use comments_service.Go.Map.Laws.{IsDistinct}
use comments_service.Go.Time
use comments_service.Go.Text.{text_eq}
use comments_service.Go.Text.Space.{trim_space, strip, front_width, back_width}
use comments_service.Go.Text.Runes.{rune_count, runes_from, rune_tail}
use comments_service.Domain.Ids
use comments_service.Domain.Errors.{map_ok}
use comments_service.Domain.Post.Valid as ValidPost
use comments_service.Domain.Comment.Valid as ValidComment
use comments_service.Domain.Pagination.{limit_plus_one}
use comments_service.Domain.Post.{new_post}
use comments_service.Domain.Comment.{new_comment}
use comments_service.Memory.Posts as MemoryPosts
use comments_service.Memory.Comments as MemoryComments
use comments_service.Memory.Paginate.Spec.{IsSmall}
use comments_service.Postgres.Sql.{
  PostRow, CommentRow, posts_page, equals_any, parent_is_null, post_id_column, parent_id_column,
}
use comments_service.Postgres.Database.{Dbtx, in_pool, keyed_posts, keyed_comments}
use comments_service.Postgres.Posts.{post_columns, build_post, scan_post}
use comments_service.Postgres.Posts as Posts
use comments_service.Postgres.Posts.Reads as PostReads
use comments_service.Postgres.Posts.Writes as PostWrites
use comments_service.Postgres.Comments.{comment_columns, build_comment, scan_comment}
use comments_service.Postgres.Comments as Comments
use comments_service.Postgres.Comments.Reads as CommentReads
use comments_service.Postgres.Comments.Single as Single
use comments_service.Postgres.Comments.Batched as Batched
use comments_service.Postgres.Comments.Ranked as Ranked
use comments_service.Postgres.Comments.Counts as Counts
use comments_service.Postgres.Replies.{unless, reply_fault, statement_fault, outcome}
use comments_service.Postgres.View.{store_of, HoldsValid}
use comments_service.Examples.Codec.{unary_uuid}
use comments_service.Examples.Database.{Snapshot, snapshots, snapshots-IsSql, unary-OrdersTexts}
use comments_service.Examples.Memory.{post_of, comment_of, at_time, first_two}

abbrev post_rows : List PostRow
post_rows = post_columns (post_of 1) ∷ post_columns (post_of 2) ∷ []

abbrev comment_rows : List CommentRow
comment_rows =
    comment_columns (comment_of 10 1 none)
    ∷ comment_columns (comment_of 11 1 none)
    ∷ comment_columns (comment_of 12 1 (some 10))
    ∷ []

pub posts_differ : IsDistinct (keyed_posts post_rows)
unfolding get
posts_differ = (refl, (refl, tt))

pub comments_differ : IsDistinct (keyed_comments comment_rows)
unfolding get
comments_differ = (refl, (refl, (refl, tt)))

small : IsSmall first_two
small = omega arith

-- Two posts; two threads under the first, one of them with a reply.
abbrev pub sample : Snapshot
sample = record {
  rows = record { posts = post_rows; comments = comment_rows };
  posts_distinct = posts_differ;
  comments_distinct = comments_differ;
}

sample-HoldsValid : HoldsValid sample.rows
unfolding new_post new_comment Time.is_zero trim_space strip front_width back_width rune_count
    runes_from rune_tail Ids.is_zero text_eq Time.zero_instant Time.utc
sample-HoldsValid = record {
  valid_posts = (
    ValidPost.new_post-IsValid 1 7 (104 ∷ []) (105 ∷ []) (at_time 1) (post_of 1) refl,
    (ValidPost.new_post-IsValid 2 7 (104 ∷ []) (105 ∷ []) (at_time 2) (post_of 2) refl, tt),
  );
  valid_comments = (
    ValidComment.new_comment-IsValid 10 1 none 8 (104 ∷ []) (at_time 10) (comment_of 10 1 none)
        refl,
    (
      ValidComment.new_comment-IsValid 11 1 none 8 (104 ∷ []) (at_time 11) (comment_of 11 1 none)
          refl,
      (
        ValidComment.new_comment-IsValid 12 1 (some 10) 8 (104 ∷ []) (at_time 12)
            (comment_of 12 1 (some 10)) refl,
        tt,
      ),
    ),
  );
}

list-memory_example :
    ((Posts.list snapshots none first_two sample).0
      ≡ unless
          (reply_fault
            (ascii "scan post")
            (ascii "iterate posts")
            (ascii "list posts")
            (snapshots.query in_pool (posts_page [] (limit_plus_one first_two)) sample).0)
          (MemoryPosts.list first_two (store_of sample.rows)))
    × ((d : Dbtx (Unit {0})) → (Posts.list snapshots none first_two sample).1.rows ≡ sample.rows)
unfolding snapshots-IsSql
list-memory_example =
    PostReads.list-memory snapshots snapshots-IsSql none sample sample-HoldsValid unary-OrdersTexts
      first_two small tt

update-memory_example :
    ((Posts.update snapshots none (post_of 2) sample).0
      ≡ unless
          (statement_fault
            (ascii "update post")
            (PostWrites.updated snapshots snapshots-IsSql none sample (post_of 2)).0)
          (MemoryPosts.update (PostWrites.kept snapshots (post_of 2)) (store_of sample.rows)).0)
    × (store_of (Posts.update snapshots none (post_of 2) sample).1.rows
        ≡ outcome
            (PostWrites.updated snapshots snapshots-IsSql none sample (post_of 2)).0
            (store_of sample.rows)
            (MemoryPosts.update (PostWrites.kept snapshots (post_of 2)) (store_of sample.rows)).1)
unfolding snapshots-IsSql
update-memory_example = PostWrites.update-memory snapshots snapshots-IsSql none sample (post_of 2)

lists-memory_example :
    ((Comments.list_top_level snapshots none 1 first_two sample).0
      ≡ unless
          (CommentReads.comments_fault snapshots snapshots-IsSql none sample
            (Single.top_level_conditions 1 [])
            first_two)
          (MemoryComments.list_top_level 1 first_two (store_of sample.rows)))
    × ((Comments.list_replies snapshots none 1 first_two sample).0
        ≡ unless
            (CommentReads.comments_fault snapshots snapshots-IsSql none sample
              (Single.reply_conditions 1 [])
              first_two)
            (MemoryComments.list_replies 1 first_two (store_of sample.rows)))
    × ((d : Dbtx (Unit {0}))
        → (Comments.list_top_level snapshots none 1 first_two sample).1.rows ≡ sample.rows)
    × ((d : Dbtx (Unit {0}))
        → (Comments.list_replies snapshots none 1 first_two sample).1.rows ≡ sample.rows)
unfolding snapshots-IsSql
lists-memory_example =
    Single.lists-memory snapshots snapshots-IsSql none sample 1 first_two sample-HoldsValid
      unary-OrdersTexts small tt

batch_list_top_level-memory_example :
    map_ok
      (λ pages. get pages 1)
      (Comments.batch_list_top_level snapshots none (2 ∷ 1 ∷ []) first_two sample).0
    ≡ unless
        (Ranked.ranked_fault snapshots snapshots-IsSql none sample
          (ascii "batch list top-level comments")
          (ascii "iterate batched top-level comments")
          post_id_column
          (equals_any post_id_column (2 ∷ 1 ∷ []) ∷ parent_is_null ∷ [])
          first_two)
        (map_ok
          (λ pages. get pages 1)
          (MemoryComments.batch_list_top_level (2 ∷ 1 ∷ []) first_two (store_of sample.rows)))
unfolding snapshots-IsSql
batch_list_top_level-memory_example =
    Batched.batch_list_top_level-memory snapshots snapshots-IsSql none sample (2 ∷ 1 ∷ []) first_two
      1 sample-HoldsValid unary-OrdersTexts small tt

batch_list_replies-memory_example :
    map_ok
      (λ pages. get pages 10)
      (Comments.batch_list_replies snapshots none (10 ∷ 11 ∷ []) first_two sample).0
    ≡ unless
        (Ranked.ranked_fault snapshots snapshots-IsSql none sample
          (ascii "batch list replies")
          (ascii "iterate batched replies")
          parent_id_column
          (equals_any parent_id_column (10 ∷ 11 ∷ []) ∷ [])
          first_two)
        (map_ok
          (λ pages. get pages 10)
          (MemoryComments.batch_list_replies (10 ∷ 11 ∷ []) first_two (store_of sample.rows)))
unfolding snapshots-IsSql
batch_list_replies-memory_example =
    Batched.batch_list_replies-memory snapshots snapshots-IsSql none sample (10 ∷ 11 ∷ []) first_two
      10 sample-HoldsValid unary-OrdersTexts small tt

batch_count_top_level-memory_example :
    map_ok
      (λ counts. get counts 1)
      (Comments.batch_count_top_level snapshots none (2 ∷ 1 ∷ []) sample).0
    ≡ unless
        (Counts.groups_fault snapshots snapshots-IsSql none sample
          (ascii "batch count top-level comments")
          (ascii "scan top-level comment counts")
          (ascii "iterate top-level comment counts")
          post_id_column
          (equals_any post_id_column (2 ∷ 1 ∷ []) ∷ parent_is_null ∷ []))
        (map_ok
          (λ counts. get counts 1)
          (MemoryComments.batch_count_top_level (2 ∷ 1 ∷ []) (store_of sample.rows)))
unfolding snapshots-IsSql
batch_count_top_level-memory_example =
    Counts.batch_count_top_level-memory snapshots snapshots-IsSql none sample (2 ∷ 1 ∷ []) 1
