-- ===== src/Go/Base64.antt =====
-- encoding/base64's RawURLEncoding: digits A-Z a-z 0-9 - _, no padding. DecodeString skips line
-- breaks, refuses any other byte that is no digit, and ignores the bits that a short last group leaves.
pub mod RoundTrip
use comments_service.Prelude.{
  ℕ, ◌+◌, ◌-◌, ◌*◌, ◌/◌, ◌%◌, Bool, not, ◌||◌, Option, none, some, [], ◌∷◌, List, ◌==◌, ltb, leb,
  ◌&&◌, filter, if◌then◌else◌,
}
use comments_service.Go.Text.{Text}

-- The digit of a number below 64.
unfoldable pub digit : ℕ → ℕ
digit n =
    if ltb n 26
    then n + 65
    else if ltb n 52
    then n + 71
    else if ltb n 62
    then n - 4
    else if n == 62
    then 45
    else 95

-- The number of a digit.
unfoldable pub digit_value : ℕ → Option ℕ
digit_value c =
    if leb 65 c && leb c 90
    then some (c - 65)
    else if leb 97 c && leb c 122
    then some (c - 71)
    else if leb 48 c && leb c 57
    then some (c + 4)
    else if c == 45
    then some 62
    else if c == 95
    then some 63
    else none

-- EncodeToString
unfoldable pub encode : Text → Text
encode [] = []
encode (a ∷ []) = digit (a / 4) ∷ digit (a % 4 * 16) ∷ []
encode (a ∷ b ∷ []) = digit (a / 4) ∷ digit (a % 4 * 16 + b / 16) ∷ digit (b % 16 * 4) ∷ []
encode (a ∷ b ∷ c ∷ s) =
    digit (a / 4)
    ∷ digit (a % 4 * 16 + b / 16)
    ∷ digit (b % 16 * 4 + c / 64)
    ∷ digit (c % 64)
    ∷ encode s

abbrev pub is_break : ℕ → Bool
is_break c = (c == 10) || (c == 13)

-- `rest`, unless it or the digit is missing
abbrev cons_value : Option ℕ → Option (List ℕ) → Option (List ℕ)
cons_value (some v) (some rest) = some (v ∷ rest)
cons_value (some v) none = none
cons_value none rest = none

unfoldable pub digit_values : Text → Option (List ℕ)
digit_values [] = some []
digit_values (c ∷ s) = cons_value (digit_value c) (digit_values s)

abbrev cons_bytes : ℕ → ℕ → ℕ → Option Text → Option Text
cons_bytes a b c (some rest) = some (a ∷ b ∷ c ∷ rest)
cons_bytes a b c none = none

unfoldable pub groups : List ℕ → Option Text
groups [] = some []
groups (a ∷ []) = none
groups (a ∷ b ∷ []) = some ((a * 4 + b / 16) ∷ [])
groups (a ∷ b ∷ c ∷ []) = some ((a * 4 + b / 16) ∷ (b % 16 * 16 + c / 4) ∷ [])
groups (a ∷ b ∷ c ∷ d ∷ s) =
    cons_bytes (a * 4 + b / 16) (b % 16 * 16 + c / 4) (c % 4 * 64 + d) (groups s)

abbrev from_values : Option (List ℕ) → Option Text
from_values none = none
from_values (some vs) = groups vs

-- DecodeString
unfoldable pub decode : Text → Option Text
unfolding digit_value digit_values groups
decode raw = from_values (digit_values (filter (λ c. not (is_break c)) raw))
