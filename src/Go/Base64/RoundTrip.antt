-- ===== src/Go/Base64/RoundTrip.antt =====
-- What is encoded is decoded again.
use comments_service.Prelude.{
  ℕ, ◌+◌, ◌*◌, ◌/◌, ◌%◌, ◌<◌, ◌≡◌, ◌≢◌, refl, false, not, some, List, [], ◌∷◌, arith, filter,
}
use comments_service.Prelude.{All}
use comments_service.Go.Text.{Text}
use comments_service.Go.Base64.{digit, digit_value, encode, is_break, digit_values, groups, decode}

abbrev pub IsBytes : Text → Type 0
IsBytes s = All (λ b. b < 256) s

digit_value-digit : (n : ℕ) → n < 64 → digit_value (digit n) ≡ some n
unfolding digit digit_value
digit_value-digit n h = ground arith

is_break-digit : (n : ℕ) → n < 64 → is_break (digit n) ≡ false
unfolding digit
is_break-digit n h = ground arith

-- The numbers of the digits that `encode` writes.
sextets : Text → List ℕ
sextets [] = []
sextets (a ∷ []) = a / 4 ∷ a % 4 * 16 ∷ []
sextets (a ∷ b ∷ []) = a / 4 ∷ (a % 4 * 16 + b / 16) ∷ b % 16 * 4 ∷ []
sextets (a ∷ b ∷ c ∷ s) = a / 4 ∷ (a % 4 * 16 + b / 16) ∷ (b % 16 * 4 + c / 64) ∷ c % 64 ∷ sextets s

abbrev AreSextets : List ℕ → Type 0
AreSextets vs = All (λ v. v < 64) vs

digits_of : List ℕ → Text
digits_of [] = []
digits_of (v ∷ vs) = digit v ∷ digits_of vs

encode-sextets : (s : Text) → encode s ≡ digits_of (sextets s)
unfolding encode sextets digits_of
encode-sextets [] = refl
encode-sextets (a ∷ []) = refl
encode-sextets (a ∷ b ∷ []) = refl
encode-sextets (a ∷ b ∷ c ∷ s) = rw (encode-sextets s)

sextets-AreSextets : (s : Text) → IsBytes s → AreSextets (sextets s)
unfolding sextets
sextets-AreSextets [] h = tt
sextets-AreSextets (a ∷ []) h = omega arith
sextets-AreSextets (a ∷ b ∷ []) h = omega arith
sextets-AreSextets (a ∷ b ∷ c ∷ s) h =
    (omega arith, (omega arith, (omega arith, (omega arith, sextets-AreSextets s h.1.1.1))))

no_breaks :
    (vs : List ℕ) → AreSextets vs → filter (λ c. not (is_break c)) (digits_of vs) ≡ digits_of vs
unfolding digits_of
no_breaks [] h = refl
no_breaks (v ∷ vs) h = ground (arith, is_break-digit v h.0, no_breaks vs h.1)

digit_values-digits_of : (vs : List ℕ) → AreSextets vs → digit_values (digits_of vs) ≡ some vs
unfolding digit_values digits_of
digit_values-digits_of [] h = refl
digit_values-digits_of (v ∷ vs) h = rw (digit_value-digit v h.0, digit_values-digits_of vs h.1)

groups-sextets : (s : Text) → IsBytes s → groups (sextets s) ≡ some s
unfolding groups sextets
groups-sextets [] h = refl
groups-sextets (a ∷ []) h = ground arith
groups-sextets (a ∷ b ∷ []) h = ground arith
groups-sextets (a ∷ b ∷ c ∷ s) h = rw (groups-sextets s h.1.1.1) (ground arith)

-- Decoding reads back what encoding writes, of any bytes.
pub decode-encode : (s : Text) → IsBytes s → decode (encode s) ≡ some s
unfolding decode
decode-encode s h =
    let small = sextets-AreSextets s h in
    rw (encode-sextets s, no_breaks (sextets s) small, digit_values-digits_of (sextets s) small)
      (groups-sextets s h)

-- Only the empty text is encoded as the empty text.
pub encode-ne-nil : (s : Text) → s ≢ [] → encode s ≢ []
unfolding encode
encode-ne-nil [] h e = h refl
encode-ne-nil (a ∷ []) h e = cc
encode-ne-nil (a ∷ b ∷ []) h e = cc
encode-ne-nil (a ∷ b ∷ c ∷ s) h e = cc
