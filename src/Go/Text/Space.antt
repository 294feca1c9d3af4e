-- ===== src/Go/Text/Space.antt =====
-- strings.TrimSpace. Unicode's white space is U+0009 to U+000D, U+0020, U+0085, U+00A0, U+1680,
-- U+2000 to U+200A, U+2028, U+2029, U+202F, U+205F and U+3000; the widths below are the bytes of
-- such a character in UTF-8, at the front of a text and at the end of one.
use mathlib.Core.List.{reverse}
use comments_service.Prelude.{
  ℕ, zero, suc, ◌≡◌, refl, Bool, ◌&&◌, ◌||◌, [], ◌∷◌, ◌==◌, leb, if◌then◌else◌,
}
use comments_service.Go.Text.{Text}

-- U+0009 to U+000D and U+0020
abbrev pub is_space_1 : ℕ → Bool
is_space_1 a = leb 9 a && leb a 13 || (a == 32)

-- U+0085 and U+00A0
abbrev pub is_space_2 : ℕ → ℕ → Bool
is_space_2 a b = (a == 0xC2) && ((b == 0x85) || (b == 0xA0))

abbrev pub is_space_3 : ℕ → ℕ → ℕ → Bool
is_space_3 a b c =
    (a == 0xE1) && (b == 0x9A) && (c == 0x80)
    || (a == 0xE2)
      && (b == 0x80)
      && (leb 0x80 c && leb c 0x8A || (c == 0xA8) || (c == 0xA9) || (c == 0xAF))
    || (a == 0xE2) && (b == 0x81) && (c == 0x9F)
    || (a == 0xE3) && (b == 0x80) && (c == 0x80)

-- The bytes of the white space at the front, 0 if there is none.
unfoldable pub front_width : Text → ℕ
front_width [] = 0
front_width (a ∷ []) = if is_space_1 a then 1 else 0
front_width (a ∷ b ∷ []) = if is_space_1 a then 1 else if is_space_2 a b then 2 else 0
front_width (a ∷ b ∷ c ∷ s) =
    if is_space_1 a then 1 else if is_space_2 a b then 2 else if is_space_3 a b c then 3 else 0

-- The same at the end, of a text that is given backwards.
unfoldable pub back_width : Text → ℕ
back_width [] = 0
back_width (a ∷ []) = if is_space_1 a then 1 else 0
back_width (a ∷ b ∷ []) = if is_space_1 a then 1 else if is_space_2 b a then 2 else 0
back_width (a ∷ b ∷ c ∷ s) =
    if is_space_1 a then 1 else if is_space_2 b a then 2 else if is_space_3 c b a then 3 else 0

-- Drops characters while the width is positive; `k` bytes of the current one are left to drop.
unfoldable pub strip : (Text → ℕ) → ℕ → Text → Text
strip width k [] = []
strip width (suc k) (a ∷ s) = strip width k s
strip width zero (a ∷ s) = elim (width (a ∷ s)) [ zero ↦ a ∷ s | suc k ↦ strip width k s ]

unfoldable pub trim_space : Text → Text
unfolding strip front_width back_width
trim_space s = reverse (strip back_width 0 (reverse (strip front_width 0 s)))

-- A text of ASCII spaces trims to nothing.
trim_space_blank : trim_space (32 ∷ 9 ∷ 10 ∷ 0xC2 ∷ 0xA0 ∷ []) ≡ []
unfolding trim_space
trim_space_blank = refl

trim_space_both : trim_space (32 ∷ 97 ∷ 32 ∷ 98 ∷ 0xE3 ∷ 0x80 ∷ 0x80 ∷ []) ≡ 97 ∷ 32 ∷ 98 ∷ []
unfolding trim_space
trim_space_both = refl
