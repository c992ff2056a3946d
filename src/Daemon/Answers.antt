-- ===== src/Daemon/Answers.antt =====
-- How the API server answers a claim.
use zerobased.Base.{
  ℕ, String, ◌≡◌, ◌⊎◌, refl, not, true, false, some, ◌&&◌, ◌==◌, leb, string_eq, Bool-cases,
  Option-cases, inl, inr,
}
use zerobased.Base.Dict
use zerobased.Base.Text.{Unicode}
use zerobased.Controlplane.{Claim, ClaimReceipt, ErrorResponse}
use zerobased.Zberr.Layer
use zerobased.Zberr.Code
use zerobased.Daemon.Server.{
  ApiServer, Response, receipt, error, write_json, receipt_of, new_record, next_generation,
  canonical_host, claim_host, handle_claim,
}

-- Refused with an error response, of a layer and a code.
abbrev pub Refused : Response → Type 0
Refused response =
    (e : ErrorResponse) × (status : ℕ) × (response ≡ write_json status (error e))
    × (leb 300 status ≡ true)
    × ((e.layer == "") ≡ false)
    × ((e.code == "") ≡ false)

abbrev pub Answered : Response → Type 0
Answered response =
    ((g : ClaimReceipt) × (response ≡ write_json 200 (receipt g))) ⊎ Refused response

conflict_refuses :
    (owner message : String)
    → Refused (
        write_json 409 (
          error (record {
            layer = Layer.control_plane;
            code = Code.host_claim_conflict;
            owner = owner;
            message = message;
          })))
unfolding string_eq
conflict_refuses owner message = (_, 409, refl, refl, refl, refl)

claim_host-Answered :
    (claim : Claim) (token : String) (s : ApiServer) → Answered ((claim_host claim token s).0)
unfolding claim_host
claim_host-Answered claim token s = elim (Option-cases (Dict.lookup claim.host s.claims)) [
  | inl free ↦
      rw (free, claim_host) (inl (receipt_of (new_record claim token (next_generation s)), refl))
  | inr (r, e) ↦
      elim (Bool-cases (
        r.claim.project_dir == claim.project_dir
        && r.claim.session_id == claim.session_id
        && not r.releasing)) [
          | inl same ↦ rw (e, same, claim_host) (inl (receipt_of r, refl))
          | inr other ↦
              rw (e, other, claim_host)
                (inr (conflict_refuses r.claim.project_dir "host already claimed"))
        ]
]

module _ ⦃t : Unicode⦄ where
  pub handle_claim-Answered :
      (claim : Claim) (token : String) (s : ApiServer)
      → Answered ((handle_claim (some claim) token s).0)
  unfolding handle_claim string_eq
  handle_claim-Answered claim token s = elim (Bool-cases (claim.host == "")) [
    | inl nowhere ↦ rw (nowhere) (inr (_, 400, refl, refl, refl, refl))
    | inr host ↦ elim (Bool-cases (claim.session_id == "")) [
      | inl nobody ↦ rw (host, nobody) (inr (_, 400, refl, refl, refl, refl))
      | inr session ↦
          rw (host, session)
            (claim_host-Answered (record claim { host = canonical_host claim.host }) token s)
    ]
  ]
