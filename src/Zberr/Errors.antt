-- ===== src/Zberr/Errors.antt =====
-- internal/zberr/error.go: Go's `error` values as the program makes them, and the search of an error's
-- chain. `nil` is the nil error; `plain` is an error with a text and nothing below it; `wrap` is
-- `fmt.Errorf` with a `%w`; `canceled` and `deadline_exceeded` are `context.Canceled` and
-- `context.DeadlineExceeded`; `zb` is a `*zberr.Error`.
pub mod Laws
use zerobased.Base.{
  String, ◌<>◌, Bool, true, false, not, ◌&&◌, ◌||◌, List, [], ◌∷◌, ◌==◌, string_eq, if◌then◌else◌,
}
use zerobased.Zberr.Layer
use zerobased.Zberr.Layer.{Layer}
use zerobased.Zberr.Code
use zerobased.Zberr.Code.{Code}

pub data Error : Type 0 where
  nil canceled deadline_exceeded : Error
  plain : String → Error
  wrap : String → Error → Error
  -- layer, code, phase, owner, cause, origin
  zb : Layer → Code → String → String → Error → List Layer → Error

-- `err == nil`
abbrev pub is_nil : Error → Bool
is_nil nil = true
is_nil _ = false

-- An `Option` sets fields of the error that `New` has made.
abbrev pub Setting : Type 0
Setting = Error → Error

unfoldable pub with_phase : String → Setting
with_phase p (zb l c _ o k g) = zb l c p o k g
with_phase p e = e

unfoldable pub with_owner : String → Setting
with_owner o (zb l c p _ k g) = zb l c p o k g
with_owner o e = e

unfoldable pub with_cause : Error → Setting
with_cause k (zb l c p o _ g) = zb l c p o k g
with_cause k e = e

unfoldable pub with_origin : List Layer → Setting
with_origin g (zb l c p o k _) = zb l c p o k g
with_origin g e = e

unfoldable pub apply_settings : List Setting → Error → Error
apply_settings [] e = e
apply_settings (f ∷ fs) e = apply_settings fs (f e)

unfoldable pub new : Layer → Code → List Setting → Error
unfolding apply_settings with_phase with_owner with_cause with_origin
new layer code settings = apply_settings settings (zb layer code "" "" nil [])

-- `New` with a cause and nothing else, the call that the program makes most.
abbrev pub caused : Layer → Code → Error → Error
caused layer code cause = new layer code (with_cause cause ∷ [])

-- `errors.As` with a `*Error` target: the first of the chain, or `nil`.
unfoldable pub as_error : Error → Error
as_error (zb l c p o k g) = zb l c p o k g
as_error (wrap _ e) = as_error e
as_error _ = nil

abbrev origin_of : Error → List Layer
origin_of (zb _ _ _ _ _ g) = g
origin_of _ = []

unfoldable pub critical : Layer → Error → List Layer → Error
unfolding new as_error
critical layer cause [] =
    new layer Code.critical
      (with_cause cause ∷ with_origin (layer ∷ origin_of (as_error cause)) ∷ [])
critical layer cause (l ∷ ls) =
    new layer Code.critical (with_cause cause ∷ with_origin (l ∷ ls) ∷ [])

abbrev labelled : String → String → String
labelled label text = if text == "" then "" else label <> text

-- `Error()`
unfoldable pub text : Error → String
text nil = "<nil>"
text canceled = "context canceled"
text deadline_exceeded = "context deadline exceeded"
text (plain s) = s
text (wrap s e) = s
text (zb l c p o nil g) = l <> (":" <> (c <> (labelled " phase=" p <> labelled " owner=" o)))
text (zb l c p o k g) =
    l <> (":" <> (c <> (labelled " phase=" p <> (labelled " owner=" o <> (": " <> text k)))))

-- `errors.Unwrap`, which calls `Unwrap`
unfoldable pub unwrap : Error → Error
unwrap (wrap _ e) = e
unwrap (zb _ _ _ _ k _) = k
unwrap _ = nil

abbrev no_origin : List Layer → Bool
no_origin [] = true
no_origin (_ ∷ _) = false

unfoldable pub validate : Error → Error
validate (zb l c p o k g) =
    if l == Layer.cli && (c == Code.start_failed || c == Code.up_failed) && p == ""
    then plain (l <> ("/" <> (c <> " requires phase")))
    else if c == Code.critical && no_origin g
    then plain (l <> ("/" <> (c <> " requires origin chain")))
    else nil
validate _ = nil

-- The test of one round of `Is`.
unfoldable pub matches : Layer → Code → Error → Bool
matches layer code (zb l c _ _ _ _) = l == layer && c == code
matches layer code _ = false

-- `Is`: each round looks at the first `*Error` from here on, then goes down by one.
unfoldable pub is : Error → Layer → Code → Bool
unfolding as_error matches
is nil layer code = false
is (wrap s e) layer code = matches layer code (as_error (wrap s e)) || is e layer code
is (zb l c p o k g) layer code = matches layer code (as_error (zb l c p o k g)) || is k layer code
is e layer code = matches layer code (as_error e)
