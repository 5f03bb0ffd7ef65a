-- ===== src/Contract/Patterns.antt =====
-- The tests on a text that the handlers of directives make: isDigit of src/contract/include/misc_tool.hpp,
-- the expression for base 64 of src/contract/set_handler.cpp, and std::string::find.
use Prim.Native.Char.{Char, code}
use Prim.Native.String.{[], ◌∷◌}
use gruut.Base.{ℕ, String, Bool, true, false, ◌&&◌, ◌||◌, leb, ◌==◌, if◌then◌else◌}

abbrev pub between : ℕ → ℕ → Char → Bool
between lo hi c = leb lo (code c) && leb (code c) hi

abbrev pub is_digit : String → Bool
is_digit [] = true
is_digit (c ∷ s) = between 48 57 c && is_digit s

-- [A-Za-z0-9+/]
abbrev base64_char : Char → Bool
base64_char c =
    between 65 90 c || between 97 122 c || between 48 57 c || code c == 43 || code c == 47

-- Fours of characters, of which the last may end in one "=" or two.
unfoldable pub is_base64 : String → Bool
is_base64 [] = true
is_base64 (a ∷ []) = false
is_base64 (a ∷ b ∷ []) = false
is_base64 (a ∷ b ∷ c ∷ []) = false
is_base64 (a ∷ b ∷ c ∷ d ∷ s) =
    let rest = is_base64 s in
    if base64_char a && base64_char b
    then if base64_char c && base64_char d then rest else is_end c d s
    else false
  where
    is_end : Char → Char → String → Bool
    is_end c d [] = (base64_char c && code d == 61) || (code c == 61 && code d == 61)
    is_end c d (e ∷ s) = false

abbrev pub starts_with : String → String → Bool
starts_with [] s = true
starts_with (p ∷ ps) [] = false
starts_with (p ∷ ps) (c ∷ s) = code p == code c && starts_with ps s

-- find(part) != npos
abbrev pub has_part : String → String → Bool
has_part part [] = starts_with part []
has_part part (c ∷ s) = starts_with part (c ∷ s) || has_part part s
