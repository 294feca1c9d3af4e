-- ===== src/Domain/Pagination/RoundTrip.antt =====
-- A cursor that the service hands out is accepted when it comes back.
use comments_service.Prelude.{ℕ, suc, ◌≡◌, ◌≢◌, false, some, [], arith, Bool-cases, inl, inr}
use comments_service.Prelude.Int.{pos}
use comments_service.Go.Text.{Text, text_eq}
use comments_service.Go.Text.Order.{text_eq→eq}
use comments_service.Go.Time.{is_zero}
use comments_service.Go.Base64.{encode}
use comments_service.Go.Base64.RoundTrip.{decode-encode, encode-ne-nil}
use comments_service.Domain.Errors.{Result-cases, ok}
use comments_service.Domain.Pagination.{
  Cursor, IsPortable, CursorJson, encode_cursor, decode_cursor, decode_payload, check_cursor,
  page_after, new_page_input,
}

text_eq-false : (s t : Text) → s ≢ t → text_eq s t ≡ false
text_eq-false s t h = elim (Bool-cases (text_eq s t)) [
  | inl e ↦ absurd (h (text_eq→eq s t e))
  | inr e ↦ e
]

module _ ⦃json : CursorJson⦄ where
  -- The payload that stands in an encoded cursor.
  payload_of :
      (c : Cursor) (raw : Text)
      → encode_cursor c ≡ ok raw
      → (t : Text) × (json.marshal c ≡ ok t) × (raw ≡ encode t)
  unfolding encode_cursor
  payload_of c raw h = elim (Result-cases (json.marshal c)) [
    | inl (t, m) ↦ (t, m, ground arith)
    | inr (e, m) ↦ absurd (ground arith)
  ]

  check_cursor-ok : (c : Cursor) → is_zero c.created_at ≡ false → c.id ≢ [] → check_cursor c ≡ ok c
  unfolding check_cursor
  check_cursor-ok c z n = rw (z, text_eq-false c.id [] n)

  -- DecodeCursor reads back what EncodeCursor writes, of a cursor with a time in UTC that is not the zero
  -- time and with an ASCII id that is not empty.
  pub decode_cursor-encode_cursor :
      (c : Cursor) (raw : Text)
      → IsPortable c
      → is_zero c.created_at ≡ false
      → c.id ≢ []
      → encode_cursor c ≡ ok raw
      → decode_cursor raw ≡ ok c
  unfolding decode_cursor decode_payload
  decode_cursor-encode_cursor c raw p z n h =
      let (t, m, e) = payload_of c raw h in
      rw
        (
          e,
          decode_cursor,
          decode-encode t (json.marshal-IsBytes c t m),
          decode_payload,
          json.unmarshal-marshal c t p m,
        )
        (check_cursor-ok c z n)

  -- A page that is asked for with a positive First and an encoded cursor starts after that cursor.
  pub new_page_input-encode_cursor :
      (first : ℕ) (c : Cursor) (raw : Text)
      → IsPortable c
      → is_zero c.created_at ≡ false
      → c.id ≢ []
      → encode_cursor c ≡ ok raw
      → new_page_input (pos (suc first)) (some raw)
        ≡ ok (record { first = suc first; after = some c })
  unfolding new_page_input
  new_page_input-encode_cursor first c raw p z n h =
      let (t, m, e) = payload_of c raw h in
      let nonempty = rw (← e) at (encode-ne-nil t (json.marshal-ne-nil c t m)) in
      rw (page_after, text_eq-false raw [] nonempty, decode_cursor-encode_cursor c raw p z n h)
        (ground arith)
