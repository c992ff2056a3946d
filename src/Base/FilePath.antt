-- ===== src/Base/FilePath.antt =====
-- The functions of Go's `path/filepath` that the program calls, for Unix.
pub mod Laws
use Prim.Native.Char.{Char}
use mathlib.Core.List.{reverse}
use zerobased.Base.Equality.{if◌then◌else◌, ◌==◌, string_eq}
use zerobased.Base.Text.{has_prefix, join, split}
use Prim.Native.String.{String, ◌++◌ as ◌<>◌}
use mathlib.Core.Bool.{Bool, ◌||◌}
use mathlib.Core.List.{List, [], ◌∷◌}

abbrev pub slash : Char
slash = "/"

-- filepath.IsAbs
unfoldable pub is_abs : String → Bool
unfolding has_prefix
is_abs path = has_prefix path "/"

-- The element `..` on the elements that are kept, last first.
unfoldable pub go_up : Bool → List String → List String
go_up rooted [] = if rooted then [] else ".." ∷ []
go_up rooted (top ∷ rest) = if top == ".." then ".." ∷ top ∷ rest else rest

unfoldable pub resolve : Bool → List String → List String → List String
unfolding go_up
resolve rooted kept [] = reverse kept
resolve rooted kept (part ∷ parts) =
    resolve rooted
      (if part == "" || part == "."
        then kept
        else if part == ".."
        then go_up rooted kept
        else part ∷ kept)
      parts

abbrev or_dot : String → String
or_dot path = if path == "" then "." else path

-- filepath.Clean
unfoldable pub clean : String → String
unfolding is_abs resolve join split
clean path =
    let parts = join (resolve (is_abs path) [] (split path slash)) "/" in
    if is_abs path then "/" <> parts else or_dot parts

-- filepath.Join, which drops the empty elements in front.
unfoldable pub join_path : List String → String
unfolding clean
join_path [] = ""
join_path (part ∷ parts) =
    let rest = join_path parts in if part == "" then rest else clean (join (part ∷ parts) "/")

-- What stands before the last element, slash included.
abbrev pub before_last : List String → String
before_last [] = ""
before_last (part ∷ []) = ""
before_last (part ∷ next ∷ parts) = part <> ("/" <> before_last (next ∷ parts))

-- filepath.Dir
unfoldable pub dir : String → String
unfolding clean
dir path = clean (before_last (split path slash))

abbrev last_part : List String → String → String
last_part [] found = found
last_part (part ∷ parts) found = last_part parts (if part == "" then found else part)

-- filepath.Base: the last element that is not empty.
unfoldable pub base : String → String
unfolding split
base path =
    if path == ""
    then "."
    else let name = last_part (split path slash) "" in if name == "" then "/" else name
