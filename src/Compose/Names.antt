-- ===== src/Compose/Names.antt =====
-- internal/composebackend/backend.go: the name of a project. The hexadecimal SHA-256 of a text is a parameter.
use Prim.Native.Char.{code}
use Prim.Native.String.{[], ◌∷◌}
use zerobased.Base.{
  String, ◌<>◌, ℕ, zero, suc, Bool, true, false, ◌&&◌, ◌==◌, string_eq, nat_eq, if◌then◌else◌,
}
use zerobased.Base.Text.{Unicode, trim_space, to_lower, is_alphanumeric}

-- `invalidNameChars.ReplaceAllString(value, "_")`; the flag says that a run of such characters goes on.
unfoldable pub replace_runs : Bool → String → String
replace_runs in_run [] = []
replace_runs in_run (c ∷ s) =
    let inside = replace_runs true s in
    let outside = replace_runs false s in
    if is_alphanumeric c then c ∷ outside else if in_run then inside else "_" ∷ inside

unfoldable pub trim_left_underscores : String → String
trim_left_underscores [] = []
trim_left_underscores (c ∷ s) =
    let rest = trim_left_underscores s in if code c == b'_' then rest else c ∷ s

unfoldable pub trim_right_underscores : String → String
trim_right_underscores [] = []
trim_right_underscores (c ∷ s) =
    let rest = trim_right_underscores s in if code c == b'_' && rest == "" then "" else c ∷ rest

unfoldable pub sanitize_name : ⦃t : Unicode⦄ → String → String
sanitize_name value =
    trim_right_underscores
      (trim_left_underscores (replace_runs false (to_lower (trim_space value))))

-- `text[:n]`, for a text of ASCII characters
unfoldable pub take_chars : ℕ → String → String
take_chars zero s = []
take_chars (suc n) [] = []
take_chars (suc n) (c ∷ s) = c ∷ take_chars n s

abbrev or_default : String → String → String
or_default name default = if name == "" then default else name

unfoldable pub project_name :
    ⦃t : Unicode⦄ → (sha256_hex : String → String) → String → String → String → String
project_name sha256_hex stack_name profile project_dir =
    let stack = or_default (sanitize_name stack_name) "stack" in
    let profile' = or_default (sanitize_name profile) "dev" in
    let sum = sha256_hex (project_dir <> ("\0" <> (stack <> ("\0" <> profile')))) in
    "zb_" <> (stack <> ("_" <> (profile' <> ("_" <> take_chars 12 sum))))
