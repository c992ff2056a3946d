-- ===== src/Daemon/Claims.antt =====
-- Who holds a host: what a claim grants, and what it leaves alone.
use zerobased.Base.{
  String, ◌≡◌, refl, false, Option, none, some, arith, string_eq, Option-cases, inl, inr,
}
use zerobased.Base.Dict
use zerobased.Base.Text.{Unicode}
use zerobased.Controlplane.{Claim, ClaimReceipt}
use zerobased.Daemon.Server.{
  ApiServer, ClaimRecord, receipt, write_json, receipt_of, new_record, next_generation,
  canonical_host, claim_host, handle_claim,
}

-- A claim never changes the record of a host that is claimed, whatever the daemon answers.
pub claim_host-keeps :
    (claim : Claim) (token : String) (s : ApiServer) (host : String) (r : ClaimRecord)
    → Dict.lookup host s.claims ≡ some r
    → Dict.lookup host (claim_host claim token s).1.claims ≡ some r
unfolding claim_host
claim_host-keeps claim token s host r e = ground (
  arith,
  Dict.lookup-insert host claim.host (new_record claim token (next_generation s)) s.claims,
)

-- The record of a host that a claim was granted: it names the claimant, and its receipt is the answer.
abbrev pub Granted : Claim → ClaimReceipt → Option ClaimRecord → Type 0
Granted claim g held =
    (r : ClaimRecord) × (held ≡ some r)
    × (receipt_of r ≡ g)
    × (r.claim.project_dir ≡ claim.project_dir)
    × (r.claim.session_id ≡ claim.session_id)
    × (r.releasing ≡ false)

claim_host-Granted :
    (claim : Claim) (token : String) (s : ApiServer) (g : ClaimReceipt)
    → (claim_host claim token s).0 ≡ write_json 200 (receipt g)
    → Granted claim g (Dict.lookup claim.host (claim_host claim token s).1.claims)
unfolding claim_host
claim_host-Granted claim token s g h = elim (Option-cases (Dict.lookup claim.host s.claims)) [
  | inl free ↦
      let r = new_record claim token (next_generation s) in
      (
        r,
        ground (arith, Dict.lookup-insert claim.host claim.host r s.claims),
        ground arith,
        refl,
        refl,
        refl,
      )
  | inr (r, e) ↦ (r, ground arith, ground arith, ground arith, ground arith, ground arith)
]

module _ ⦃t : Unicode⦄ where
  -- A claim, whatever it asks and whatever is answered, leaves the record of every host that is claimed
  -- as it is.
  pub handle_claim-keeps :
      (body : Option Claim) (token : String) (s : ApiServer) (host : String) (r : ClaimRecord)
      → Dict.lookup host s.claims ≡ some r
      → Dict.lookup host (handle_claim body token s).1.claims ≡ some r
  unfolding handle_claim
  handle_claim-keeps none token s host r e = e
  handle_claim-keeps (some claim) token s host r e =
      ground
        (arith, claim_host-keeps (record claim { host = canonical_host claim.host }) token s host r)

  -- The record under the claim's canonical host after the request.
  abbrev pub holder : Claim → String → ApiServer → Option ClaimRecord
  holder claim token s =
      Dict.lookup (canonical_host claim.host) (handle_claim (some claim) token s).1.claims

  abbrev canonical : Claim → Claim
  canonical claim = record claim { host = canonical_host claim.host }

  -- Past the two checks of its fields, a claim comes to the table.
  named_claim :
      (claim : Claim) (token : String) (s : ApiServer) (g : ClaimReceipt)
      → (handle_claim (some claim) token s).0 ≡ write_json 200 (receipt g)
      → handle_claim (some claim) token s ≡ claim_host (canonical claim) token s
  unfolding handle_claim
  named_claim claim token s g h = ground arith

  -- A claim that is answered with a receipt leaves, under the canonical host, a record of the claimant's
  -- project and session that is not being released, and whose token and generation the receipt has.
  pub handle_claim-Granted :
      (claim : Claim) (token : String) (s : ApiServer) (g : ClaimReceipt)
      → (handle_claim (some claim) token s).0 ≡ write_json 200 (receipt g)
      → Granted claim g (holder claim token s)
  handle_claim-Granted claim token s g h =
      let e = named_claim claim token s g h in
      rw e (claim_host-Granted (canonical claim) token s g (rw e at h))
