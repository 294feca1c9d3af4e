-- ===== src/Domain/Comment.antt =====
-- internal/domain/comment.go.
pub mod Valid
use comments_service.Prelude.{ℕ, Bool, true, false, not, Option, none, some, [], ltb, if◌then◌else◌}
use comments_service.Go.Text.{Text, ascii, text_eq}
use comments_service.Go.Text.Space.{trim_space}
use comments_service.Go.Text.Runes.{rune_count}
use comments_service.Go.Time
use comments_service.Go.Time.{Time, utc}
use comments_service.Domain.Errors.{validation, Result, ok, require}
use comments_service.Domain.Ids.{PostId, CommentId, UserId, UuidText, is_zero, id_text}
use comments_service.Domain.Pagination.{Cursor, new_cursor}
use comments_service.Domain.Post.{must_not_be_empty}

abbrev pub max_comment_body_length : ℕ
max_comment_body_length = 2000

pub record Comment : Type 0 where
  pub id : CommentId
  pub post_id : PostId
  pub parent_id : Option CommentId
  pub author_id : UserId
  pub body : Text
  pub created_at : Time

-- parentID != nil && parentID.IsZero()
abbrev pub is_zero_parent : Option CommentId → Bool
is_zero_parent none = false
is_zero_parent (some id) = is_zero id

unfoldable pub new_comment :
    CommentId → PostId → Option CommentId → UserId → Text → Time → Result Comment
new_comment id post_id parent_id author_id body created_at =
    require (not (is_zero id)) (must_not_be_empty (ascii "id")) (
      require (not (is_zero post_id)) (must_not_be_empty (ascii "postId")) (
        require (not (is_zero author_id)) (must_not_be_empty (ascii "authorId")) (
          require (not (is_zero_parent parent_id)) (must_not_be_empty (ascii "parentId")) (
            require (not (text_eq (trim_space body) [])) (must_not_be_empty (ascii "body")) (
              require (not (ltb max_comment_body_length (rune_count body)))
                (validation (ascii "body") (ascii "must be at most 2000 characters"))
                (require (not (Time.is_zero created_at)) (must_not_be_empty (ascii "createdAt")) (
                  ok (record {
                    id = id;
                    post_id = post_id;
                    parent_id = parent_id;
                    author_id = author_id;
                    body = body;
                    created_at = utc created_at;
                  }))))))))

unfoldable pub is_top_level : Comment → Bool
is_top_level c = elim c.parent_id [ none ↦ true | some id ↦ false ]

unfoldable pub cursor : ⦃uuid : UuidText⦄ → Comment → Cursor
unfolding id_text new_cursor
cursor ⦃uuid⦄ c = new_cursor c.created_at (id_text c.id)
