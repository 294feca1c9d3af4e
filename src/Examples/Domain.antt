-- ===== src/Examples/Domain.antt =====
-- The theorems of the domain at concrete values.
use comments_service.Prelude.{arith, ◌≡◌, ◌≢◌, refl, none, [], ◌∷◌, true, false}
use comments_service.Go.Text.{Text, text_eq}
use comments_service.Go.Text.Space.{trim_space, strip, front_width, back_width}
use comments_service.Go.Text.Runes.{rune_count, runes_from, rune_tail}
use comments_service.Go.Time
use comments_service.Go.Time.{Time, utc}
use comments_service.Go.Base64.{encode}
use comments_service.Domain.Errors.{ok}
use comments_service.Domain.Ids
use comments_service.Domain.Ids.{id_text, parse_uuid, parse_uuid-id_text}
use comments_service.Domain.Pagination.{Cursor, IsPortable, encode_cursor, decode_cursor}
use comments_service.Domain.Pagination.RoundTrip.{decode_cursor-encode_cursor}
use comments_service.Domain.Post.{Post, new_post}
use comments_service.Domain.Comment.{Comment, new_comment}
use comments_service.Domain.Comment.Valid as ValidComment
use comments_service.Domain.Comment.Valid.{new_comment-IsValid, new_comment-of_IsValid}
use comments_service.Examples.Codec.{unary_uuid, unary_json}

abbrev hello : Text
hello = 104 ∷ 101 ∷ 108 ∷ 108 ∷ 111 ∷ []

abbrev noon : Time
noon = record { instant = 12; zone = 0 }

abbrev a_cursor : Cursor
a_cursor = record { created_at = noon; id = 97 ∷ 98 ∷ [] }

abbrev a_post : Post
a_post = record {
  id = 1;
  author_id = 7;
  title = hello;
  content = hello;
  comments_enabled = true;
  created_at = noon;
}

abbrev pub a_comment : Comment
a_comment = record {
  id = 2;
  post_id = 1;
  parent_id = none;
  author_id = 8;
  body = hello;
  created_at = noon;
}

a_comment-made : new_comment 2 1 none 8 hello noon ≡ ok a_comment
unfolding new_comment utc Time.is_zero trim_space strip front_width back_width rune_count runes_from
    rune_tail Ids.is_zero text_eq Time.zero_instant
a_comment-made = refl

pub a_comment-IsValid : ValidComment.IsValid a_comment
a_comment-IsValid = new_comment-IsValid 2 1 none 8 hello noon a_comment a_comment-made

a_post-made : new_post 1 7 hello hello noon ≡ ok a_post
unfolding new_post utc Time.is_zero trim_space strip front_width back_width Ids.is_zero text_eq
    Time.zero_instant
a_post-made = refl

abbrev raw : Text
raw = encode (1 ∷ 1 ∷ 1 ∷ 1 ∷ 1 ∷ 1 ∷ 1 ∷ 1 ∷ 1 ∷ 1 ∷ 1 ∷ 1 ∷ 0 ∷ 97 ∷ 98 ∷ [])

a_cursor-IsPortable : IsPortable a_cursor
a_cursor-IsPortable = (refl, (omega arith, (omega arith, tt)))

noon-not_zero : Time.is_zero noon ≡ false
unfolding Time.is_zero Time.zero_instant
noon-not_zero = refl

ab-ne-nil : a_cursor.id ≢ []
ab-ne-nil e = absurd (ground arith)

encoded : encode_cursor a_cursor ≡ ok raw
unfolding encode_cursor unary_json
encoded = refl

decode_cursor-encode_cursor_example : decode_cursor raw ≡ ok a_cursor
decode_cursor-encode_cursor_example =
    decode_cursor-encode_cursor a_cursor raw a_cursor-IsPortable noon-not_zero ab-ne-nil encoded
