-- ===== src/RouteRuntime/Validation.antt =====
-- internal/route_runtime/docker_caddy.go: the host pattern and `validatePublication`.
use Prim.Native.Char.{Char, code}
use Prim.Native.String.{String, [], ◌∷◌, ◌++◌ as ◌<>◌}
use mathlib.Core.List.{List}
use zerobased.Base.{
  Bool, false, not, ◌&&◌, ◌||◌, ◌==◌, nat_eq, string_eq, if◌then◌else◌, is_positive, le_nat,
}
use zerobased.Base.Text.{Unicode, is_alphanumeric, has_prefix, contains_any}
use zerobased.Base.Decimal.{show_int}
use zerobased.Controlplane.{Route, Publication}
use zerobased.Zberr.Layer
use zerobased.Zberr.Code
use zerobased.Zberr.Errors.{Error, nil, plain, caused}

-- `[a-z0-9.-]`
unfoldable pub is_host_char : Char → Bool
unfolding is_alphanumeric
is_host_char c = is_alphanumeric c || code c == b'.' || code c == b'-'

-- `[a-z0-9.-]*[a-z0-9]$`
unfoldable pub host_tail : String → Bool
unfolding is_host_char
host_tail [] = false
host_tail (c ∷ []) = is_alphanumeric c
host_tail (c ∷ (d ∷ s)) = is_host_char c && host_tail (d ∷ s)

-- `^[a-z0-9][a-z0-9.-]*[a-z0-9]$`
unfoldable pub valid_caddy_host : String → Bool
unfolding host_tail
valid_caddy_host [] = false
valid_caddy_host (c ∷ s) = is_alphanumeric c && host_tail s

unfoldable pub valid_port : Route → Bool
valid_port r = is_positive r.port && le_nat r.port 65535

unfoldable pub valid_path : Route → Bool
unfolding has_prefix contains_any
valid_path r = has_prefix r.path "/" && not (contains_any r.path " \t\r\n{}")

abbrev apply_rejected : String → Error
apply_rejected message = caused Layer.route_runtime Code.apply_rejected (plain message)

module _ ⦃t : Unicode⦄ where
  unfoldable pub validate_routes : List Route → Error
  unfolding valid_port valid_path show_int
  validate_routes List.[] = nil
  validate_routes (List.◌∷◌ r rs) =
      let rest = validate_routes rs in
      if not (valid_port r)
      then apply_rejected ("invalid route port " <> show_int r.port)
      else if not (valid_path r)
      then apply_rejected ("invalid route path " <> t.quote r.path)
      else rest

  unfoldable pub validate_publication : Publication → Error
  unfolding valid_caddy_host validate_routes
  validate_publication p =
      if not (valid_caddy_host p.host)
      then apply_rejected ("invalid route host " <> t.quote p.host)
      else validate_routes p.routes
