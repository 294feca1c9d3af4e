-- ===== src/Domain/Post/Valid.antt =====
-- Which posts NewPost makes.
use comments_service.Prelude.{◌≡◌, false, [], arith}
use comments_service.Go.Text.{Text, text_eq}
use comments_service.Go.Text.Space.{trim_space}
use comments_service.Go.Time
use comments_service.Go.Time.{Time, utc}
use comments_service.Domain.Errors.{ok}
use comments_service.Domain.Ids.{PostId, UserId, is_zero}
use comments_service.Domain.Post.{Post, new_post}

-- What every stored post satisfies.
pub record IsValid (p : Post) : Type 0 where
  pub has_id : is_zero p.id ≡ false
  pub has_author : is_zero p.author_id ≡ false
  pub has_title : text_eq (trim_space p.title) [] ≡ false
  pub has_content : text_eq (trim_space p.content) [] ≡ false
  pub has_time : Time.is_zero p.created_at ≡ false
  pub in_utc : p.created_at.zone ≡ 0

-- A post that NewPost returns is valid: its identifiers are not the zero one, its title and content are
-- not blank, and its time is not the zero one and stands in UTC.
pub new_post-IsValid :
    (id : PostId) (author_id : UserId) (title content : Text) (created_at : Time) (p : Post)
    → new_post id author_id title content created_at ≡ ok p
    → IsValid p
unfolding new_post utc Time.is_zero
new_post-IsValid id author_id title content created_at p h = ground arith
