-- ===== src/Contract/Text.antt =====
-- The string tools of src/contract/include/misc_tool.hpp. A text is read as ASCII.
use Prim.Native.Char.{Char, code}
use Prim.Native.String.{[], ◌∷◌, ◌++◌, len, slice, char_at}
use gruut.Base.{
  ◌≡◌, refl, ℕ, ◌+◌, ◌-◌, ◌*◌, ◌^◌, ◌%◌, String, Bool, true, false, ◌&&◌, ◌||◌, Option, none, some,
  ltb, leb, ◌==◌, if◌then◌else◌,
}
use gruut.Base.Int.{ℤ, to_int}

abbrev pub empty : String → Bool
empty [] = true
empty (c ∷ s) = false

pub empty-eq : (s : String) → empty s ≡ true → s ≡ ""
empty-eq [] h = refl
empty-eq (c ∷ s) h = cc

-- "\t\n\v\f\r "
abbrev pub is_space : Char → Bool
is_space c = code c == 32 || (leb 9 (code c) && leb (code c) 13)

abbrev pub ltrim : String → String
ltrim [] = []
ltrim (c ∷ s) = if is_space c then ltrim s else c ∷ s

abbrev pub rtrim : String → String
rtrim [] = []
rtrim (c ∷ s) = let r = rtrim s in if is_space c && empty r then [] else c ∷ r

unfoldable pub trim : String → String
trim s = ltrim (rtrim s)

-- The character of the second text that stands where c stands in the first.
abbrev translate : String → String → Char → Char
translate (u ∷ us) (l ∷ ls) c = if code u == code c then l else translate us ls c
translate [] ls c = c
translate (u ∷ us) [] c = c

abbrev each : (Char → Char) → String → String
each f [] = []
each f (c ∷ s) = f c ∷ each f s

abbrev upper_letters : String
upper_letters = "ABCDEFGHIJKLMNOPQRSTUVWXYZ"

abbrev lower_letters : String
lower_letters = "abcdefghijklmnopqrstuvwxyz"

unfoldable pub to_lower : String → String
to_lower s = each (translate upper_letters lower_letters) s

unfoldable pub to_upper : String → String
to_upper s = each (translate lower_letters upper_letters) s

abbrev digit : Char → Option ℕ
digit c = if leb 48 (code c) && leb (code c) 57 then some (code c - 48) else none

-- The number that the digits in front of a text make, after those read so far.
abbrev digits : ℕ → String → ℕ
digits n [] = n
digits n (c ∷ s) = elim (digit c) [ none ↦ n | some d ↦ digits (n * 10 + d) s ]

-- std::stoll throws where there is no digit.
abbrev magnitude : String → Option ℕ
magnitude [] = none
magnitude (c ∷ s) = elim (digit c) [ none ↦ none | some d ↦ some (digits d s) ]

-- std::stoll throws out of range. The result is the `uint64_t` of the same bits.
abbrev within : Bool → Option ℕ → Option ℕ
within neg none = none
within false (some n) = if ltb n (2 ^ 63) then some n else none
within true (some n) = if leb n (2 ^ 63) then some ((2 ^ 64 - n) % 2 ^ 64) else none

abbrev signed : String → Option ℕ
signed [] = none
signed (c ∷ s) =
    if code c == 45
    then within true (magnitude s)
    else if code c == 43
    then within false (magnitude s)
    else within false (magnitude (c ∷ s))

-- str2num<uint64_t>, 0 where stoll throws
unfoldable pub str2num_u64 : String → ℕ
str2num_u64 s = elim (signed (ltrim s)) [ none ↦ 0 | some n ↦ n ]

-- str2num<int>
unfoldable pub str2num_int : String → ℤ
unfolding str2num_u64
str2num_int s = to_int (str2num_u64 s)

abbrev ends_in_z : String → Bool
ends_in_z s = let c = code (char_at s (len s - 1)) in c == 90 || c == 122

abbrev drop_z : String → String
drop_z s = if ends_in_z s then slice s 0 (len s - 1) else s

-- iso_time[10] = 'T'
abbrev set_t : String → String
set_t s = if ltb 10 (len s) then slice s 0 10 ++ "T" ++ slice s 11 (len s) else s

abbrev or_zero : Option ℕ → ℕ
or_zero none = 0
or_zero (some n) = n

-- date::parse is `parse`: the milliseconds, or none where the stream fails.
abbrev stamp : (String → Option ℕ) → String → ℕ
stamp parse s =
    if len s == 10
    then or_zero (parse (s ++ "T00:00:00+00:00"))
    else if len s == 19
    then or_zero (parse (s ++ "+00:00"))
    else if len s == 25
    then or_zero (parse s)
    else 0

unfoldable pub timestr2timestamp : (String → Option ℕ) → String → ℕ
timestr2timestamp parse s =
    if empty s then 0 else if ltb (len (drop_z s)) 10 then 0 else stamp parse (set_t (drop_z s))

-- expr[0] == '$'
abbrev pub is_variable : String → Bool
is_variable [] = false
is_variable (c ∷ s) = code c == 36
