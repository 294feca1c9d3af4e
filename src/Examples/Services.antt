-- ===== src/Examples/Services.antt =====
-- A history of requests: a post is created, a comment is added, and the author switches comments off.
use comments_service.Prelude.{
  arith, ℕ, ◌+◌, ◌≡◌, refl, some, none, [], ◌∷◌, true, false, Option, List, if◌then◌else◌,
}
use comments_service.Go.Time
use comments_service.Go.Time.{Time, utc}
use comments_service.Go.Text.{ascii, text_eq}
use comments_service.Go.Text.Space.{trim_space, strip, front_width, back_width}
use comments_service.Go.Text.Runes.{rune_count, runes_from, rune_tail}
use comments_service.Go.Map.{get, put}
use comments_service.Domain.Errors.{ok, err, map_ok, forbidden}
use comments_service.Domain.Ids
use comments_service.Domain.Post.{Post, new_post, set_comments_enabled, must_not_be_empty}
use comments_service.Domain.Comment.{Comment, new_comment}
use comments_service.Memory.Store.{new_store}
use comments_service.Memory.Posts
use comments_service.Memory.Comments
use comments_service.Memory.Comments.{is_top_level_of, is_reply_to, count_top_level, count_replies}
use comments_service.Application.Tx.{within_tx}
use comments_service.Application.Services.{CommentAddedEvent}
use comments_service.Application.Posts.{
  CreatePostInput, SetCommentsEnabledInput, create_post, set_enabled,
}
use comments_service.Application.Comments.{
  CreateCommentInput, create_comment, comments_disabled, parent_elsewhere,
}
use comments_service.Application.InMemory.{World, posts_service, comments_service_of}
use comments_service.Application.InMemory.Outcome.{
  Created, create_comment-Created, create_comment-atomic, set_enabled-ok,
}
use comments_service.Application.InMemory.Reach.{
  IsSound, Reach, Reach-IsSound, IsSound-start, here, next, post_created, comment_created,
}
use comments_service.Application.InMemory.Behaviour.{
  create_comment_after_disabling, counts-create_comment,
}
use comments_service.Examples.Codec.{unary_uuid}

abbrev pub recorded : Option (CommentAddedEvent → List CommentAddedEvent → List CommentAddedEvent)
recorded = some (λ e es. e ∷ es)

abbrev start : World (List CommentAddedEvent)
start = record {
  store = new_store;
  events = [];
  ids = λ n. n + 1;
  drawn = 0;
  times = λ n. record { instant = n + 1; zone = 3 };
  ticks = 0;
}

abbrev post_input : CreatePostInput
post_input = record { author_id = 7; title = 104 ∷ []; content = 105 ∷ [] }

abbrev posted : World (List CommentAddedEvent)
posted = (create_post posts_service post_input start).1

abbrev comment_input : CreateCommentInput
comment_input = record { post_id = 1; parent_id = none; author_id = 8; body = 104 ∷ [] }

abbrev pub commented : World (List CommentAddedEvent)
commented = (create_comment (comments_service_of recorded) comment_input posted).1

abbrev made_comment : Comment
made_comment = record {
  id = 2;
  post_id = 1;
  parent_id = none;
  author_id = 8;
  body = 104 ∷ [];
  created_at = record { instant = 2; zone = 0 };
}

start-IsSound : IsSound start
start-IsSound = IsSound-start start refl (λ i j e. omega (arith, e))

history : Reach recorded start commented
history =
    next (next here (post_created post_input (create_post posts_service post_input start).0 refl)) (
      comment_created comment_input
        (create_comment (comments_service_of recorded) comment_input posted).0 refl)

Reach-IsSound_example : IsSound commented
Reach-IsSound_example = Reach-IsSound recorded history start-IsSound

posted-IsSound : IsSound posted
posted-IsSound =
    Reach-IsSound recorded
      (next here (post_created post_input (create_post posts_service post_input start).0 refl))
      start-IsSound

ok_run :
    create_comment (comments_service_of recorded) comment_input posted
    ≡ (ok made_comment, commented)
unfolding create_comment create_post within_tx Posts.create Posts.get_by_id Comments.create new_post
    new_comment utc Time.is_zero trim_space strip front_width back_width rune_count runes_from
    rune_tail Ids.is_zero text_eq Time.zero_instant get put
ok_run = refl

create_comment-Created_example : Created recorded comment_input posted made_comment commented
create_comment-Created_example =
    create_comment-Created recorded comment_input posted made_comment commented ok_run

counts-create_comment_example :
    (count_top_level 1 commented.store
      ≡ map_ok
          (λ n. (if is_top_level_of 1 made_comment then 1 else 0) + n)
          (count_top_level 1 posted.store))
    × (count_replies 1 commented.store
        ≡ map_ok
            (λ n. (if is_reply_to 1 made_comment then 1 else 0) + n)
            (count_replies 1 posted.store))
counts-create_comment_example =
    counts-create_comment recorded comment_input posted made_comment commented posted-IsSound ok_run
      1

-- A comment without a text is refused, after its identifier and its time have been drawn.
abbrev blank_input : CreateCommentInput
blank_input = record { post_id = 1; parent_id = none; author_id = 8; body = 32 ∷ [] }

abbrev refused : World (List CommentAddedEvent)
refused = (create_comment (comments_service_of recorded) blank_input posted).1

refused_run :
    create_comment (comments_service_of recorded) blank_input posted
    ≡ (err (must_not_be_empty (ascii "body")), refused)
unfolding create_comment create_post within_tx Posts.create Posts.get_by_id Comments.create new_post
    new_comment utc Time.is_zero trim_space strip front_width back_width rune_count runes_from
    rune_tail Ids.is_zero text_eq Time.zero_instant get put
refused_run = refl

create_comment-atomic_example : (refused.store ≡ posted.store) × (refused.events ≡ posted.events)
create_comment-atomic_example =
    create_comment-atomic recorded blank_input posted (must_not_be_empty (ascii "body")) refused
      refused_run

-- So is a post without a title.
abbrev untitled : CreatePostInput
untitled = record { author_id = 7; title = []; content = 105 ∷ [] }

abbrev unposted : World (List CommentAddedEvent)
unposted = (create_post posts_service untitled posted).1

unposted_run :
    create_post posts_service untitled posted ≡ (err (must_not_be_empty (ascii "title")), unposted)
unfolding create_post within_tx Posts.create new_post trim_space strip front_width back_width
    Ids.is_zero text_eq Time.is_zero Time.zero_instant
unposted_run = refl

abbrev first_post : Post
first_post = record {
  id = 1;
  author_id = 7;
  title = 104 ∷ [];
  content = 105 ∷ [];
  comments_enabled = true;
  created_at = record { instant = 1; zone = 0 };
}

abbrev switch_off : ℕ → SetCommentsEnabledInput
switch_off actor_id = record { post_id = 1; actor_id = actor_id; enabled = false }

abbrev closed : World (List CommentAddedEvent)
closed = (set_enabled posts_service (switch_off 7) posted).1

abbrev closed_post : Post
closed_post = record first_post { comments_enabled = false }

closed_run : set_enabled posts_service (switch_off 7) posted ≡ (ok closed_post, closed)
unfolding set_enabled set_comments_enabled Posts.get_by_id Posts.update create_post within_tx
    Posts.create new_post utc Time.is_zero trim_space strip front_width back_width Ids.is_zero
    text_eq Time.zero_instant get put
closed_run = refl

set_enabled-ok_example :
    (old : Post) × (get posted.store.posts 1 ≡ some old)
    × (old.author_id ≡ 7)
    × (closed_post ≡ record old { comments_enabled = false })
    × (closed ≡ record posted {
      store = record posted.store { posts = put posted.store.posts 1 closed_post };
    })
set_enabled-ok_example = set_enabled-ok (switch_off 7) posted closed_post closed closed_run

create_comment_after_disabling_example :
    create_comment (comments_service_of recorded) comment_input closed
    ≡ (err comments_disabled, closed)
create_comment_after_disabling_example =
    create_comment_after_disabling recorded (switch_off 7) posted closed_post closed posted-IsSound
      refl closed_run comment_input refl

abbrev unswitched : World (List CommentAddedEvent)
unswitched = (set_enabled posts_service (switch_off 8) posted).1

unswitched_run :
    set_enabled posts_service (switch_off 8) posted
    ≡ (err (forbidden (ascii "set comments availability") (ascii "post")), unswitched)
unfolding set_enabled set_comments_enabled Posts.get_by_id Posts.update create_post within_tx
    Posts.create new_post utc Time.is_zero trim_space strip front_width back_width Ids.is_zero
    text_eq Time.zero_instant get put
unswitched_run = refl

-- A second post, and a reply on it to the comment of the first.
abbrev two_posts : World (List CommentAddedEvent)
two_posts = (create_post posts_service post_input commented).1

abbrev stray_input : CreateCommentInput
stray_input = record { post_id = 3; parent_id = some 2; author_id = 8; body = 104 ∷ [] }

stray_refused :
    create_comment (comments_service_of recorded) stray_input two_posts
    ≡ (err parent_elsewhere, two_posts)
unfolding create_comment create_post within_tx Posts.create Posts.get_by_id Comments.create
    Comments.get_by_id new_post new_comment utc Time.is_zero trim_space strip front_width back_width
    rune_count runes_from rune_tail Ids.is_zero text_eq Time.zero_instant get put
stray_refused = refl
