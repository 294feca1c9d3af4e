-- ===== src/Go/Text.antt =====
-- A Go string is the list of its bytes. Here are `==`, `<`, strings.TrimSpace and
-- utf8.RuneCountInString.
pub mod Order
pub mod Space
pub mod Runes
use Prim.Native.Char.{code}
use Prim.Native.String.{String}
use comments_service.Prelude.{ℕ, Bool, true, false, ◌&&◌, List, [], ◌∷◌, ◌==◌, ltb, if◌then◌else◌}

abbrev pub Text : Type 0
Text = List ℕ

-- An ASCII literal. It stays shut, so that messages are compared as they are written.
unfoldable pub ascii : String → Text
ascii String.[] = []
ascii (String.◌∷◌ c s) = code c ∷ ascii s

-- s == t
unfoldable pub text_eq : Text → Text → Bool
text_eq [] [] = true
text_eq [] (b ∷ t) = false
text_eq (a ∷ s) [] = false
text_eq (a ∷ s) (b ∷ t) = (a == b) && text_eq s t

-- s < t, byte by byte
unfoldable pub text_ltb : Text → Text → Bool
text_ltb s [] = false
text_ltb [] (b ∷ t) = true
text_ltb (a ∷ s) (b ∷ t) = if a == b then text_ltb s t else ltb a b
