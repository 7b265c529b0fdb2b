-- ===== src/Broker/Complete.antt =====
-- `completeAuthenticated`, `getEvidence` and `dpopReplayEntries` of packages/broker/src/broker.ts.
use warden_md.Common.{
  eqb, if◌then◌else◌, length, all, includes, ok, gets, throw_if, ◌>>=◌, ◌>>◌, ℕ, String, Bool,
  false, not, ◌&&◌, Option, List, ◌==◌,
}
use warden_md.Common.Map.{Map}
use warden_md.Broker.Errors.{invalid_credential, wrong_audience, dpop_proof_invalid}
use warden_md.Broker.Types.{agent, Grant, CapabilityClaims, EvidenceRecord, DpopProof}
use warden_md.Broker.Store.{evidence_for}
use warden_md.Broker.Crypto.{is_text}
use warden_md.Broker.Crypto.Dpop.{purge}
use warden_md.Broker.Core.{Deps, M, now, load_grant, check_dpop, verify_credential}
use warden_md.Broker.Finalize.{complete}

unfoldable pub same_scope : List String → List String → Bool
same_scope left right =
    if not (eqb (length left) (length right)) then false else all (includes right) left

unfoldable pub claims_match : CapabilityClaims → Grant → Bool
unfolding same_scope
claims_match claims grant =
    claims.sub == grant.subject_id
    && claims.action == grant.action
    && is_text claims.jkt grant.dpop_thumbprint
    && same_scope claims.scope grant.granted_scope

module _ (d : Deps) where
  -- Every guard before the grant is closed.
  unfoldable pub check_complete : String → String → DpopProof → M (Unit {0})
  check_complete grant_id credential proof = do
    claims ← verify_credential d credential false
    throw_if (not (claims.grant_id == grant_id)) invalid_credential
    grant ← load_grant d grant_id
    throw_if (not (claims.aud == grant.audience)) wrong_audience
    throw_if (not (claims_match claims grant)) invalid_credential
    throw_if (not (d.to_upper_case proof.method == "POST")) dpop_proof_invalid
    check_dpop d proof grant.dpop_thumbprint

  unfoldable pub complete_authenticated : String → String → DpopProof → M EvidenceRecord
  complete_authenticated grant_id credential proof = do
    check_complete grant_id credential proof
    complete d grant_id agent

  unfoldable pub dpop_replay_entries : M (Map ℕ)
  dpop_replay_entries = do
    at ← now d
    λ s. let active = purge at s.used_dpop_jtis in (ok active, record s { used_dpop_jtis = active })

abbrev pub get_evidence : String → M (Option EvidenceRecord)
get_evidence grant_id = gets (λ s. evidence_for grant_id s.store)
