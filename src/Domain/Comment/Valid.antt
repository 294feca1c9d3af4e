-- ===== src/Domain/Comment/Valid.antt =====
-- Which comments NewComment makes.
use comments_service.Prelude.{◌≤◌, ◌≡◌, false, [], arith, Option}
use comments_service.Go.Text.{Text, text_eq}
use comments_service.Go.Text.Space.{trim_space}
use comments_service.Go.Text.Runes.{rune_count}
use comments_service.Go.Time
use comments_service.Go.Time.{Time, utc}
use comments_service.Domain.Errors.{ok}
use comments_service.Domain.Ids.{PostId, CommentId, UserId, is_zero}
use comments_service.Domain.Comment.{Comment, new_comment, is_zero_parent, max_comment_body_length}

-- What every stored comment satisfies.
pub record IsValid (c : Comment) : Type 0 where
  pub has_id : is_zero c.id ≡ false
  pub has_post : is_zero c.post_id ≡ false
  pub has_author : is_zero c.author_id ≡ false
  pub has_parent : is_zero_parent c.parent_id ≡ false
  pub has_body : text_eq (trim_space c.body) [] ≡ false
  pub body_fits : rune_count c.body ≤ max_comment_body_length
  pub has_time : Time.is_zero c.created_at ≡ false
  pub in_utc : c.created_at.zone ≡ 0

-- A comment that NewComment returns is valid: its identifiers are not the zero one, its text is not blank
-- and has at most 2000 characters, and its time is not the zero one and stands in UTC.
pub new_comment-IsValid :
    (id : CommentId) (post_id : PostId) (parent_id : Option CommentId) (author_id : UserId)
    (body : Text) (created_at : Time) (c : Comment)
    → new_comment id post_id parent_id author_id body created_at ≡ ok c
    → IsValid c
unfolding new_comment utc Time.is_zero
new_comment-IsValid id post_id parent_id author_id body created_at c h = ground arith

-- The comment that NewComment makes has what it was given, with the time in UTC.
pub new_comment-fields :
    (id : CommentId) (post_id : PostId) (parent_id : Option CommentId) (author_id : UserId)
    (body : Text) (created_at : Time) (c : Comment)
    → new_comment id post_id parent_id author_id body created_at ≡ ok c
    → c ≡ record {
      id = id;
      post_id = post_id;
      parent_id = parent_id;
      author_id = author_id;
      body = body;
      created_at = utc created_at;
    }
unfolding new_comment
new_comment-fields id post_id parent_id author_id body created_at c h = ground arith

-- NewComment, given the fields of a valid comment, returns that comment.
pub new_comment-of_IsValid :
    (c : Comment)
    → IsValid c
    → new_comment c.id c.post_id c.parent_id c.author_id c.body c.created_at ≡ ok c
unfolding new_comment utc Time.is_zero
new_comment-of_IsValid c v = ground arith
