-- ===== src/Domain/Ids.antt =====
-- internal/domain/ids.go. A uuid.UUID is an array of 16 bytes; it is modelled by the number that these
-- bytes write, the first one the most significant, so that Go's `==` on identifiers is equality and
-- uuid.Nil is 0. PostID, CommentID and UserID are the same array under three names.
use comments_service.Prelude.{ℕ, ◌<◌, ◌≡◌, ◌≢◌, Bool, Option, none, some, [], ◌==◌, All}
use comments_service.Go.Text.{Text, ascii}
use comments_service.Domain.Errors.{validation, Result, ok, err}

abbrev pub Uuid : Type 0
Uuid = ℕ

-- The package github.com/google/uuid: Parse, and String, which writes the canonical form. Parse reads
-- what String writes, which is ASCII and not empty.
pub record UuidText : Type 0 where
  pub parse : Text → Option Uuid
  pub format : Uuid → Text
  pub parse-format : (u : Uuid) → parse (format u) ≡ some u
  pub format_ascii : (u : Uuid) → All (λ b. b < 128) (format u)
  pub format-ne-nil : (u : Uuid) → format u ≢ []

abbrev pub PostId : Type 0
PostId = Uuid

abbrev pub CommentId : Type 0
CommentId = Uuid

abbrev pub UserId : Type 0
UserId = Uuid

abbrev pub nil_uuid : Uuid
nil_uuid = 0

-- id.IsZero()
unfoldable pub is_zero : Uuid → Bool
is_zero id = id == nil_uuid

module _ ⦃uuid : UuidText⦄ where
  -- id.String()
  unfoldable pub id_text : Uuid → Text
  id_text id = uuid.format id

  unfoldable pub parse_uuid : Text → Text → Result Uuid
  parse_uuid field raw = elim (uuid.parse raw) [
    | none ↦ err (validation field (ascii "must be a valid UUID"))
    | some parsed ↦ ok parsed
  ]

  unfoldable pub parse_post_id : Text → Result PostId
  unfolding parse_uuid
  parse_post_id raw = parse_uuid (ascii "postId") raw

  unfoldable pub parse_comment_id : Text → Result CommentId
  unfolding parse_uuid
  parse_comment_id raw = parse_uuid (ascii "commentId") raw

  unfoldable pub parse_user_id : Text → Result UserId
  unfolding parse_uuid
  parse_user_id raw = parse_uuid (ascii "authorId") raw

  -- Different identifiers have different texts.
  pub id_text-injective : (u v : Uuid) → id_text u ≡ id_text v → u ≡ v
  unfolding id_text
  id_text-injective u v h = cc (uuid.parse-format u, uuid.parse-format v)

  -- Every identifier is read back from its text, whatever the field is called.
  pub parse_uuid-id_text : (field : Text) (u : Uuid) → parse_uuid field (id_text u) ≡ ok u
  unfolding parse_uuid id_text
  parse_uuid-id_text field u = rw (parse_uuid, uuid.parse-format u)
