-- ===== src/Controlplane/Client.antt =====
-- internal/controlplane/client.go. `net/http` over the daemon's socket and the JSON codecs of the messages
-- are the record Http; a client is its socket's path.
use zerobased.Base.{
  ℕ, String, ◌<>◌, Bool, not, ◌&&◌, ◌||◌, Option, none, some, [], ◌∷◌, ◌==◌, string_eq,
  if◌then◌else◌, ltb, leb,
}
use zerobased.Controlplane.{Claim, ClaimReceipt, Publication, Release, ErrorResponse}
use zerobased.Zberr.Layer
use zerobased.Zberr.Code
use zerobased.Zberr.Errors.{
  Error, nil, plain, is_nil, caused, critical, new, with_owner, with_cause, is,
}

pub record Http : Type 1 where
  pub World : Type 0
  pub Bytes : Type 0
  pub marshal_claim : Claim → Error × Bytes
  pub marshal_publication : Publication → Error × Bytes
  pub marshal_release : Release → Error × Bytes
  -- http.NewRequestWithContext's error
  pub request_error : String → String → Error
  -- httpClient.Do, whose transport dials the socket's path: the error, the status code, `response.Status` and the body
  pub perform : String → String → String → Bytes → World → Error × ℕ × String × Bytes × World
  pub decode_error : Bytes → Error × ErrorResponse
  pub decode_receipt : Bytes → Error × ClaimReceipt
  -- err == io.EOF
  pub is_eof : Error → Bool

abbrev pub no_receipt : ClaimReceipt
no_receipt = record { token = ""; generation = 0 }

module _ (H : Http) where
  unfoldable pub decode_error_response : String → H.Bytes → Error
  decode_error_response status body =
      let (err, payload) = H.decode_error body in
      if not (is_nil err) || payload.layer == "" || payload.code == ""
      then critical Layer.control_plane_client (plain ("daemon returned " <> status)) []
      else new payload.layer payload.code
          (with_owner payload.owner ∷ with_cause (plain payload.message) ∷ [])

  -- The reading of an answer, with the decoder of its body if the caller wants it.
  unfoldable pub read_answer :
      {A : Type 0} → Option (H.Bytes → Error × A) → A → ℕ → String → H.Bytes → Error × A
  read_answer decode zero code status body =
      if ltb code 200 || leb 300 code
      then (decode_error_response status body, zero)
      else elim decode [
        | none ↦ (nil, zero)
        | some read ↦
            let (err, value) = read body in
            if not (is_nil err) && not (H.is_eof err)
            then (critical Layer.control_plane_client err [], value)
            else (nil, value)
      ]

  -- `Client.request`
  unfoldable pub request :
      {A : Type 0}
      → String
      → String
      → String
      → Error × H.Bytes
      → Option (H.Bytes → Error × A)
      → A
      → H.World
      → Error × A × H.World
  request socket method path (unmarshalled, body) decode zero w =
      if socket == ""
      then (
        caused Layer.control_plane_client Code.connection_failed
            (plain "daemon socket path is required"),
        zero,
        w,
      )
      else if not (is_nil unmarshalled)
      then (critical Layer.control_plane_client unmarshalled [], zero, w)
      else if not (is_nil (H.request_error method path))
      then (critical Layer.control_plane_client (H.request_error method path) [], zero, w)
      else let (failed, code, status, answer, w₁) = H.perform socket method path body w in
        if not (is_nil failed)
        then (caused Layer.control_plane_client Code.connection_failed failed, zero, w₁)
        else let (err, value) = read_answer decode zero code status answer in (err, value, w₁)

  unfoldable pub claim : String → Claim → H.World → Error × ClaimReceipt × H.World
  claim socket c w =
      let (err, receipt, w₁) =
        request socket "PUT" "/claims" (H.marshal_claim c) (some H.decode_receipt) no_receipt w in
      if not (is_nil err) then (err, no_receipt, w₁) else (nil, receipt, w₁)

  abbrev drop_value : Error × ClaimReceipt × H.World → Error × H.World
  drop_value (err, _, w) = (err, w)

  unfoldable pub publish : String → Publication → H.World → Error × H.World
  publish socket p w =
      drop_value (request socket "PUT" "/routes" (H.marshal_publication p) none no_receipt w)

  unfoldable pub release : String → Release → H.World → Error × H.World
  release socket l w =
      drop_value (request socket "DELETE" "/claims" (H.marshal_release l) none no_receipt w)

-- `IsConnectionFailed`
unfoldable pub is_connection_failed : Error → Bool
is_connection_failed err = is err Layer.control_plane_client Code.connection_failed
