-- ===== src/Domain/Post.antt =====
-- internal/domain/post.go.
pub mod Valid
use comments_service.Prelude.{Bool, true, not, ◌==◌, [], if◌then◌else◌}
use comments_service.Go.Text.{Text, ascii, text_eq}
use comments_service.Go.Text.Space.{trim_space}
use comments_service.Go.Time
use comments_service.Go.Time.{Time, utc}
use comments_service.Domain.Errors.{Error, validation, forbidden, Result, ok, err, require}
use comments_service.Domain.Ids.{PostId, UserId, UuidText, is_zero, id_text}
use comments_service.Domain.Pagination.{Cursor, new_cursor}

pub record Post : Type 0 where
  pub id : PostId
  pub author_id : UserId
  pub title : Text
  pub content : Text
  pub comments_enabled : Bool
  pub created_at : Time

abbrev pub must_not_be_empty : Text → Error
must_not_be_empty field = validation field (ascii "must not be empty")

unfoldable pub new_post : PostId → UserId → Text → Text → Time → Result Post
new_post id author_id title content created_at =
    require (not (is_zero id)) (must_not_be_empty (ascii "id")) (
      require (not (is_zero author_id)) (must_not_be_empty (ascii "authorId")) (
        require (not (text_eq (trim_space title) [])) (must_not_be_empty (ascii "title")) (
          require (not (text_eq (trim_space content) [])) (must_not_be_empty (ascii "content")) (
            require (not (Time.is_zero created_at)) (must_not_be_empty (ascii "createdAt")) (
              ok (record {
                id = id;
                author_id = author_id;
                title = title;
                content = content;
                comments_enabled = true;
                created_at = utc created_at;
              }))))))

-- The pointer method: the post as it is left, or the error, after which it is as it was.
unfoldable pub set_comments_enabled : Post → UserId → Bool → Result Post
set_comments_enabled p actor_id enabled =
    if not (actor_id == p.author_id)
    then err (forbidden (ascii "set comments availability") (ascii "post"))
    else ok (record p { comments_enabled = enabled })

unfoldable pub cursor : ⦃uuid : UuidText⦄ → Post → Cursor
unfolding id_text new_cursor
cursor ⦃uuid⦄ p = new_cursor p.created_at (id_text p.id)
