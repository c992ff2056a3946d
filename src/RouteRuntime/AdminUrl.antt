-- ===== src/RouteRuntime/AdminUrl.antt =====
-- internal/route_runtime/admin_url.go. `net/http` and the JSON encoder are the record Http.
use Prim.Native.Char.{Char}
use zerobased.Base.{
  ℕ, String, ◌<>◌, Bool, not, ◌||◌, ◌==◌, string_eq, nat_eq, if◌then◌else◌, ltb, leb, [],
}
use zerobased.Base.Text.{trim_right}
use zerobased.Controlplane.{Publication}
use zerobased.Zberr.Layer
use zerobased.Zberr.Code
use zerobased.Zberr.Errors.{Error, nil, plain, is_nil, caused, critical}
use zerobased.Daemon.Runtime.{RouteRuntime}

pub record Http : Type 1 where
  pub World : Type 0
  pub Bytes : Type 0
  pub marshal : Publication → Error × Bytes
  -- http.NewRequestWithContext's error, for a method and an URL
  pub request_error : String → String → Error
  -- httpClient.Do: the error, the status code and `response.Status`
  pub perform : String → String → Bytes → World → Error × ℕ × String × World

abbrev slash : Char
slash = "/"

abbrev pub apply_rejected : String → Error
apply_rejected status =
    caused Layer.route_runtime Code.apply_rejected (plain ("route runtime returned " <> status))

abbrev pub is_success : ℕ → Bool
is_success status = not (ltb status 200 || leb 300 status)

module _ (H : Http) where
  abbrev pub routes_url : String → String
  routes_url url = trim_right slash url <> "/routes"

  -- `AdminURL.send`, on the adapter's URL
  unfoldable pub send : String → String → Publication → H.World → Error × H.World
  send url method publication w =
      let (unmarshalled, body) = H.marshal publication in
      let unmade = H.request_error method (routes_url url) in
      let (failed, status, status_text, w₁) = H.perform method (routes_url url) body w in
      if url == ""
      then (caused Layer.route_runtime Code.bootstrap_failed (plain "admin URL is required"), w)
      else if not (is_nil unmarshalled)
      then (critical Layer.route_runtime unmarshalled [], w)
      else if not (is_nil unmade)
      then (critical Layer.route_runtime unmade [], w)
      else if not (is_nil failed)
      then (caused Layer.route_runtime Code.reload_failed failed, w₁)
      else if not (is_success status)
      then (apply_rejected status_text, w₁)
      else (nil, w₁)

  -- `Publish` and `Unpublish`
  unfoldable pub admin_runtime : String → RouteRuntime
  admin_runtime url = record {
    State = H.World;
    publish = λ p w. send url "PUT" p w;
    unpublish = λ p w. send url "DELETE" p w;
  }
