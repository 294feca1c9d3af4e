-- ===== src/Domain/Pagination.antt =====
-- internal/domain/pagination.go: cursors, page requests and pages.
pub mod RoundTrip
use comments_service.Prelude.{
  ℕ, ◌+◌, ◌^◌, ◌%◌, ◌<◌, ◌≡◌, ◌≢◌, Bool, true, false, ◌&&◌, ◌||◌, Option, none, some, List, [], All,
  if◌then◌else◌,
}
use comments_service.Prelude.Int.{ℤ, pos, leb_ℤ, to_nat}
use comments_service.Go.Text.{Text, ascii, text_eq, text_ltb}
use comments_service.Go.Time.{Time, is_zero, utc, before, equal}
use comments_service.Go.Base64
use comments_service.Domain.Errors.{Error, validation, operation, Result, ok, err, ◌>>=◌}

pub record Cursor : Type 0 where
  pub created_at : Time
  pub id : Text

unfoldable pub new_cursor : Time → Text → Cursor
unfolding utc
new_cursor created_at id = record { created_at = utc created_at; id = id }

-- The cursors that JSON carries without loss: a time in UTC, and an id in ASCII.
abbrev pub IsPortable : Cursor → Type 0
IsPortable c = (c.created_at.zone ≡ 0) × All (λ b. b < 128) c.id

-- The package encoding/json at the type Cursor: Marshal, and Unmarshal into an empty Cursor. Marshal
-- fails for a year of more than four digits; what it writes is bytes and never empty, and Unmarshal
-- reads it back.
pub record CursorJson : Type 0 where
  pub marshal : Cursor → Result Text
  pub unmarshal : Text → Option Cursor
  pub marshal-IsBytes : (c : Cursor) (t : Text) → marshal c ≡ ok t → All (λ b. b < 256) t
  pub marshal-ne-nil : (c : Cursor) (t : Text) → marshal c ≡ ok t → t ≢ []
  pub unmarshal-marshal :
      (c : Cursor) (t : Text) → IsPortable c → marshal c ≡ ok t → unmarshal t ≡ some c

abbrev pub invalid_cursor : Error
invalid_cursor = validation (ascii "after") (ascii "invalid cursor")

pub record PageInput : Type 0 where
  -- NewPageInput, the only maker of a PageInput, takes no First below one, so First is a number here.
  pub first : ℕ
  pub after : Option Cursor

module _ ⦃json : CursorJson⦄ where
  unfoldable pub encode_cursor : Cursor → Result Text
  encode_cursor cursor = elim (json.marshal cursor) [
    | err e ↦ err (operation (ascii "marshal cursor") e)
    | ok payload ↦ ok (Base64.encode payload)
  ]

  -- The test of the decoded fields.
  unfoldable pub check_cursor : Cursor → Result Cursor
  check_cursor cursor =
      if is_zero cursor.created_at || text_eq cursor.id [] then err invalid_cursor else ok cursor

  unfoldable pub decode_payload : Text → Result Cursor
  unfolding check_cursor
  decode_payload decoded = elim (json.unmarshal decoded) [
    | none ↦ err invalid_cursor
    | some cursor ↦ check_cursor cursor
  ]

  unfoldable pub decode_cursor : Text → Result Cursor
  unfolding decode_payload
  decode_cursor raw = elim (Base64.decode raw) [
    | none ↦ err invalid_cursor
    | some decoded ↦ decode_payload decoded
  ]

  unfoldable pub page_after : ℕ → Text → Result PageInput
  unfolding decode_cursor
  page_after first raw =
      if text_eq raw []
      then ok (record { first = first; after = none })
      else decode_cursor raw >>= λ cursor. ok (record { first = first; after = some cursor })

  unfoldable pub new_page_input : ℤ → Option Text → Result PageInput
  unfolding page_after
  new_page_input first after =
      if leb_ℤ first (pos 0)
      then err (validation (ascii "first") (ascii "must be greater than zero"))
      else elim after [
        | none ↦ ok (record { first = to_nat first; after = none })
        | some raw ↦ page_after (to_nat first) raw
      ]

-- p.First + 1, an int of 64 bits, as the bit pattern. From 2^63 on the pattern stands for a negative
-- int.
unfoldable pub limit_plus_one : PageInput → ℕ
limit_plus_one p = (p.first + 1) % 2 ^ 64

unfoldable pub cursor_matches_after : Time → Text → Option Cursor → Bool
unfolding before equal
cursor_matches_after created_at id none = true
cursor_matches_after created_at id (some after) =
    before created_at after.created_at || equal created_at after.created_at && text_ltb id after.id

pub record Page {ℓ} (A : Type ℓ) : Type ℓ where
  pub items : List A
  pub has_next_page : Bool
