-- ===== src/Daemon/Generations/Keeping.antt =====
-- internal/daemon/start.go: what a critical section does to the generations.
use Prim.Native.Nat.{◌^◌}
use zerobased.Base.{
  ◌+◌, ◌≤◌, ◌<◌, String, ◌≡◌, refl, sym, ◌∙◌, true, false, ◌⊎◌, inl, inr, none, some, arith, ◌==◌,
  string_eq, Option-cases, Bool-cases,
}
use zerobased.Base.Dict
use zerobased.Controlplane.{Claim, Release}
use zerobased.Daemon.Server.{ApiServer, ClaimRecord, init, new_record, next_generation, claim_host}
use zerobased.Daemon.Handlers.{set_record, begin_release, abort_release, finish_release}

-- The server's generation is the last that was given. It is an int64, and comes back to 0 behind 2 ^ 64.
pub record Numbered (s : ApiServer) : Type 0 where
  pub bounded :
      (host : String) (r : ClaimRecord)
      → Dict.lookup host s.claims ≡ some r
      → (1 ≤ r.generation) × (r.generation ≤ s.generation)
  pub distinct :
      (host other : String) (r q : ClaimRecord)
      → Dict.lookup host s.claims ≡ some r
      → Dict.lookup other s.claims ≡ some q
      → r.generation ≡ q.generation
      → host ≡ other

pub init-Numbered : Numbered init
init-Numbered = record {
  bounded = λ host r e. absurd (ground (arith, Dict.lookup-empty {V = ClaimRecord} host));
  distinct =
      λ host other r q e f same. absurd (ground (arith, Dict.lookup-empty {V = ClaimRecord} host));
}

-- `next` gives no generation that `s` has not given to the same host.
pub record Keeps (s next : ApiServer) : Type 0 where
  pub same : next.generation ≡ s.generation
  pub kept :
      (host : String) (r : ClaimRecord)
      → Dict.lookup host next.claims ≡ some r
      → (q : ClaimRecord) × (Dict.lookup host s.claims ≡ some q) × (q.generation ≡ r.generation)

pub Keeps-refl : (s : ApiServer) → Keeps s s
Keeps-refl s = record { same = refl; kept = λ host r e. (r, e, refl) }

pub Keeps-trans : (s next last : ApiServer) → Keeps s next → Keeps next last → Keeps s last
Keeps-trans s next last k l = record {
  same = l.same ∙ k.same;
  kept = λ host r e.
      let (q, found, eq) = l.kept host r e in
      let (p, before, eq') = k.kept host q found in (p, before, eq' ∙ eq);
}

pub Keeps-Numbered : (s next : ApiServer) → Keeps s next → Numbered s → Numbered next
Keeps-Numbered s next k n = record {
  bounded = λ host r e.
      let (q, found, eq) = k.kept host r e in ground (arith, n.bounded host q found, k.same);
  distinct = λ host other r q e f same.
      let (r', e', eq) = k.kept host r e in
      let (q', f', eq') = k.kept other q f in
      n.distinct host other r' q' e' f' (eq ∙ same ∙ sym eq');
}

pub set_record-Keeps :
    (host : String) (r q : ClaimRecord) (s : ApiServer)
    → Dict.lookup host s.claims ≡ some q
    → q.generation ≡ r.generation
    → Keeps s (set_record host r s)
set_record-Keeps host r q s e same = record {
  same = refl;
  kept = λ k p found.
      let looked = Dict.lookup-insert k host r s.claims in
      elim (Bool-cases (host == k)) [
        | inl here ↦ (q, ground arith, ground arith)
        | inr there ↦ (p, ground arith, refl)
      ];
}

erase-Keeps :
    (host : String) (s : ApiServer) → Keeps s (record s { claims = Dict.erase host s.claims })
erase-Keeps host s = record {
  same = refl;
  kept = λ k p found. (p, ground (arith, Dict.lookup-erase k host s.claims), refl);
}

pub begin_release-Keeps : (l : Release) (s : ApiServer) → Keeps s (begin_release l s).1
unfolding begin_release
begin_release-Keeps l s = elim (Option-cases (Dict.lookup l.host s.claims)) [
  | inl e ↦ rw (e, begin_release) (Keeps-refl s)
  | inr (r, e) ↦
      ground
        (arith, Keeps-refl s, set_record-Keeps l.host (record r { releasing = true }) r s e refl)
]

pub abort_release-Keeps : (l : Release) (s : ApiServer) → Keeps s (abort_release l s)
unfolding abort_release
abort_release-Keeps l s = elim (Option-cases (Dict.lookup l.host s.claims)) [
  | inl e ↦ rw (e, abort_release) (Keeps-refl s)
  | inr (r, e) ↦
      ground
        (arith, Keeps-refl s, set_record-Keeps l.host (record r { releasing = false }) r s e refl)
]

pub finish_release-Keeps : (l : Release) (s : ApiServer) → Keeps s (finish_release l s)
unfolding finish_release
finish_release-Keeps l s = ground (arith, Keeps-refl s, erase-Keeps l.host s)

-- The server when a claim has been given the next generation.
abbrev pub granted : Claim → String → ApiServer → ApiServer
granted claim token s = record {
  claims = Dict.insert claim.host (new_record claim token (next_generation s)) s.claims;
  generation = next_generation s;
}

pub claim_host-steps :
    (claim : Claim) (token : String) (s : ApiServer)
    → ((claim_host claim token s).1 ≡ s)
      ⊎ ((Dict.lookup claim.host s.claims ≡ none)
          × ((claim_host claim token s).1 ≡ granted claim token s))
unfolding claim_host
claim_host-steps claim token s = ground arith

pub next_generation_small :
    (s : ApiServer) → s.generation + 1 < 2 ^ 64 → next_generation s ≡ s.generation + 1
next_generation_small s few = omega arith

pub granted-Numbered :
    (claim : Claim) (token : String) (s : ApiServer)
    → s.generation + 1 < 2 ^ 64
    → Numbered s
    → Numbered (granted claim token s)
granted-Numbered claim token s few n =
    let r = new_record claim token (next_generation s) in
    let counted = next_generation_small s few in
    let looked = λ (k : String). Dict.lookup-insert k claim.host r s.claims in
    record {
      bounded = λ host q e. elim (Bool-cases (claim.host == host)) [
        | inl here ↦ ground (arith, looked host)
        | inr there ↦ ground (arith, looked host, n.bounded host q)
      ];
      distinct = λ host other q p e f same. elim (Bool-cases (claim.host == host)) [
        | inl here ↦ elim (Bool-cases (claim.host == other)) [
          | inl too ↦ ground arith
          | inr there ↦ ground (arith, looked host, looked other, n.bounded other p)
        ]
        | inr there ↦ elim (Bool-cases (claim.host == other)) [
          | inl here ↦ ground (arith, looked host, looked other, n.bounded host q)
          | inr too ↦
              n.distinct host other q p (ground (arith, looked host)) (ground (arith, looked other))
                same
        ]
      ];
    }
