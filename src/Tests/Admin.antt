-- ===== src/Tests/Admin.antt =====
-- Publications over an admin URL whose server answers 200, and over one that answers 300.
use zerobased.Base.{◌≡◌, refl, ℕ, suc, String, nat_eq, string_eq}
use zerobased.Base.Text.{trim_right}
use zerobased.Controlplane.{Publication}
use zerobased.Zberr.Errors.{nil, new}
use zerobased.RouteRuntime.AdminUrl.{Http, apply_rejected, send}
use zerobased.Tests.Samples.{shop}

-- The world counts the requests.
abbrev server : ℕ → String → Http
server status status_text = record {
  World = ℕ;
  Bytes = Publication;
  marshal = λ p. (nil, p);
  request_error = λ method url. nil;
  perform = λ method url body w. (nil, status, status_text, suc w);
}

sends :
    (send (server 200 "200 OK") "http://admin/" "PUT" shop 0 ≡ (nil, 1))
    × (send (server 300 "300 Multiple Choices") "http://admin/" "PUT" shop 0
        ≡ (apply_rejected "300 Multiple Choices", 1))
unfolding send new trim_right nat_eq string_eq
sends = (refl, refl)
