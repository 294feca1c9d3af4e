-- ===== src/Go/Text/Runes.antt =====
-- utf8.RuneCountInString: a well-formed UTF-8 sequence is one rune, and so is any byte that begins
-- none.
use comments_service.Prelude.{
  ℕ, zero, suc, ◌≤◌, ◌≡◌, refl, Bool, ◌&&◌, [], ◌∷◌, arith, ◌==◌, leb, length, if◌then◌else◌,
}
use comments_service.Go.Text.{Text}

abbrev pub is_between : ℕ → ℕ → ℕ → Bool
is_between lo hi b = leb lo b && leb b hi

-- The second byte that a first byte of a three-byte sequence allows.
abbrev pub second_of_3 : ℕ → ℕ → Bool
second_of_3 a b =
    if a == 0xE0
    then is_between 0xA0 0xBF b
    else if a == 0xED
    then is_between 0x80 0x9F b
    else is_between 0x80 0xBF b

abbrev pub second_of_4 : ℕ → ℕ → Bool
second_of_4 a b =
    if a == 0xF0
    then is_between 0x90 0xBF b
    else if a == 0xF4
    then is_between 0x80 0x8F b
    else is_between 0x80 0xBF b

-- The bytes of the rune that begins with byte `a`, before the bytes `s`, less one.
unfoldable pub rune_tail : ℕ → Text → ℕ
rune_tail a [] = 0
rune_tail a (b ∷ []) = if is_between 0xC2 0xDF a && is_between 0x80 0xBF b then 1 else 0
rune_tail a (b ∷ c ∷ []) =
    if is_between 0xC2 0xDF a && is_between 0x80 0xBF b
    then 1
    else if is_between 0xE0 0xEF a && second_of_3 a b && is_between 0x80 0xBF c
    then 2
    else 0
rune_tail a (b ∷ c ∷ d ∷ s) =
    if is_between 0xC2 0xDF a && is_between 0x80 0xBF b
    then 1
    else if is_between 0xE0 0xEF a && second_of_3 a b && is_between 0x80 0xBF c
    then 2
    else if is_between 0xF0 0xF4 a
        && second_of_4 a b
        && is_between 0x80 0xBF c
        && is_between 0x80 0xBF d
    then 3
    else 0

-- `k` bytes of the current rune are left to pass.
unfoldable pub runes_from : ℕ → Text → ℕ
runes_from k [] = 0
runes_from (suc k) (a ∷ s) = runes_from k s
runes_from zero (a ∷ s) = suc (runes_from (rune_tail a s) s)

unfoldable pub rune_count : Text → ℕ
unfolding runes_from rune_tail
rune_count s = runes_from 0 s

-- Two letters, a two-byte letter, an ellipsis of three bytes and a stray byte.
rune_count_mixed : rune_count (97 ∷ 98 ∷ 0xD0 ∷ 0x9F ∷ 0xE2 ∷ 0x80 ∷ 0xA6 ∷ 0xFF ∷ []) ≡ 5
unfolding rune_count
rune_count_mixed = refl

pub runes_from-le-length : (k : ℕ) (s : Text) → runes_from k s ≤ length s
unfolding runes_from
runes_from-le-length k [] = omega arith
runes_from-le-length (suc k) (a ∷ s) = omega (arith, runes_from-le-length k s)
runes_from-le-length zero (a ∷ s) = omega (arith, runes_from-le-length (rune_tail a s) s)
