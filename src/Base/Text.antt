-- ===== src/Base/Text.antt =====
-- The functions of Go's `strings` that the program calls. A Go string is read as a sequence of
-- Unicode code points, that is, as valid UTF-8. `len` of the library counts bytes, as Go's does.
pub mod Splitting
use Prim.Native.Char.{Char, code}
use Prim.Native.String.{String, [], ◌∷◌, ◌++◌}
use mathlib.Core.List.{List}
use mathlib.Core.Path.{◌≡◌}
use mathlib.Core.Bool.{Bool, true, false, not, ◌&&◌, ◌||◌}
use zerobased.Base.Equality.{if◌then◌else◌, ◌==◌, string_eq, nat_eq}
use zerobased.Base.Numbers.{leb}

-- Unicode's tables, which Go's library holds as data, and what the model assumes of them:
-- `lower` is `unicode.ToLower`, `quote` is `strconv.Quote`, which asks the table of printable characters.
pub record Unicode : Type 0 where
  pub lower : Char → Char
  pub quote : String → String
  -- An ASCII character that is no capital stays.
  pub lower_fixes :
      (c : Char)
      → leb (code c) 127 && not (leb b'A' (code c) && leb (code c) b'Z') ≡ true
      → lower c ≡ c

-- The white space of Unicode, as `unicode.IsSpace` lists it.
unfoldable pub is_space : Char → Bool
is_space ch =
    let c = code ch in
    (leb 9 c && leb c 13)
    || c == 32
    || c == 0x85
    || c == 0xa0
    || c == 0x1680
    || (leb 0x2000 c && leb c 0x200a)
    || c == 0x2028
    || c == 0x2029
    || c == 0x202f
    || c == 0x205f
    || c == 0x3000

unfoldable pub trim_left_space : String → String
trim_left_space [] = []
trim_left_space (c ∷ s) = if is_space c then trim_left_space s else c ∷ s

-- Keeps a character unless it is white space before nothing.
unfoldable pub keep_unless_blank : Char → String → String
keep_unless_blank c [] = if is_space c then [] else c ∷ []
keep_unless_blank c (d ∷ s) = c ∷ d ∷ s

unfoldable pub trim_right_space : String → String
unfolding keep_unless_blank
trim_right_space [] = []
trim_right_space (c ∷ s) = keep_unless_blank c (trim_right_space s)

-- strings.TrimSpace
unfoldable pub trim_space : String → String
unfolding trim_left_space trim_right_space is_space
trim_space s = trim_right_space (trim_left_space s)

-- strings.ToLower
unfoldable pub to_lower : ⦃t : Unicode⦄ → String → String
to_lower ⦃t⦄ [] = []
to_lower ⦃t⦄ (c ∷ s) = t.lower c ∷ to_lower s

-- strings.TrimRight, with a cutset of one character
unfoldable pub trim_right : Char → String → String
trim_right ch [] = []
trim_right ch (c ∷ s) =
    let rest = trim_right ch s in if code c == code ch && rest == "" then "" else c ∷ rest

-- strings.HasPrefix
unfoldable pub has_prefix : String → String → Bool
has_prefix s [] = true
has_prefix [] (p ∷ ps) = false
has_prefix (c ∷ s) (p ∷ ps) = code c == code p && has_prefix s ps

-- strings.HasSuffix
unfoldable pub has_suffix : String → String → Bool
has_suffix [] suffix = [] == suffix
has_suffix (c ∷ s) suffix = (c ∷ s) == suffix || has_suffix s suffix

-- strings.TrimSuffix
unfoldable pub trim_suffix : String → String → String
trim_suffix [] suffix = []
trim_suffix (c ∷ s) suffix = if (c ∷ s) == suffix then [] else c ∷ trim_suffix s suffix

-- Whether the text has this character.
unfoldable pub has_char : String → Char → Bool
has_char [] c = false
has_char (d ∷ s) c = code d == code c || has_char s c

-- strings.ContainsAny
unfoldable pub contains_any : String → String → Bool
unfolding has_char
contains_any [] chars = false
contains_any (c ∷ s) chars = has_char chars c || contains_any s chars

-- strings.Join
unfoldable pub join : List String → String → String
join List.[] separator = ""
join (List.◌∷◌ s List.[]) separator = s
join (List.◌∷◌ s (List.◌∷◌ t parts)) separator =
    s ++ (separator ++ join (List.◌∷◌ t parts) separator)

-- A lower-case ASCII letter or a digit.
unfoldable pub is_alphanumeric : Char → Bool
is_alphanumeric ch = let c = code ch in (leb b'a' c && leb c b'z') || (leb b'0' c && leb c b'9')

unfoldable pub add_to_first : Char → List String → List String
add_to_first c List.[] = List.◌∷◌ (c ∷ []) List.[]
add_to_first c (List.◌∷◌ part parts) = List.◌∷◌ (c ∷ part) parts

-- strings.Split with a separator of one character
unfoldable pub split : String → Char → List String
unfolding add_to_first
split [] separator = List.◌∷◌ "" List.[]
split (c ∷ s) separator =
    let rest = split s separator in
    if code c == code separator then List.◌∷◌ "" rest else add_to_first c rest
