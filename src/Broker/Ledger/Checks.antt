-- ===== src/Broker/Ledger/Checks.antt =====
-- The guards of the operations, and what they do after their writes, leave the ledger alone.
use warden_md.Common.{Moves, String, List}
use warden_md.Broker.Types.{
  PolicyDecision, allow, require_approval, GrantProposal, Grant, DpopProof,
}
use warden_md.Broker.Core.{Deps}
use warden_md.Broker.Exchange.{
  approval_reference_for, authorize, draft_grant, prepare_exchange, announce,
}
use warden_md.Broker.Approve.{check_approve, announce_approval}
use warden_md.Broker.Consume.{ConsumeInput, check_consume}
use warden_md.Broker.Complete.{check_complete}
use warden_md.Broker.Ledger.{
  SameLedger, quiet_rules, assert_not_expired-Quiet, load_grant-Quiet, verify_credential-Quiet,
  mint-Quiet,
}

module _ (d : Deps) where
  ruleset step_rules =
      (quiet_rules, assert_not_expired-Quiet, load_grant-Quiet, verify_credential-Quiet, mint-Quiet)

  approval_reference_for-Quiet :
      (decision : PolicyDecision) → Moves SameLedger (approval_reference_for d decision)
  unfolding approval_reference_for
  approval_reference_for-Quiet require_approval = search step_rules
  approval_reference_for-Quiet _ = search step_rules

  pub authorize-Quiet : (proposal : GrantProposal) → Moves SameLedger (authorize d proposal)
  unfolding authorize
  authorize-Quiet proposal = search step_rules depth 20

  pub draft_grant-Quiet :
      (proposal : GrantProposal) (allowed_scope : List String) (decision : PolicyDecision)
      → Moves SameLedger (draft_grant d proposal allowed_scope decision)
  unfolding draft_grant
  draft_grant-Quiet proposal allowed_scope decision =
      search (step_rules, approval_reference_for-Quiet) depth 15

  pub prepare_exchange-Quiet :
      (proposal : GrantProposal) → Moves SameLedger (prepare_exchange d proposal)
  unfolding prepare_exchange
  prepare_exchange-Quiet proposal =
      search (quiet_rules, authorize-Quiet, draft_grant-Quiet) depth 15

  pub announce-Quiet :
      (grant : Grant) (decision : PolicyDecision) → Moves SameLedger (announce d grant decision)
  unfolding announce
  announce-Quiet grant allow = search step_rules depth 10
  announce-Quiet grant _ = search step_rules depth 10

  pub check_approve-Quiet : (k : String) → Moves SameLedger (check_approve d k)
  unfolding check_approve
  check_approve-Quiet k = search step_rules depth 15

  pub announce_approval-Quiet : (grant : Grant) → Moves SameLedger (announce_approval d grant)
  unfolding announce_approval
  announce_approval-Quiet grant = search step_rules depth 10

  pub check_consume-Quiet : (input : ConsumeInput) → Moves SameLedger (check_consume d input)
  unfolding check_consume
  check_consume-Quiet input = search step_rules depth 15

  pub check_complete-Quiet :
      (k credential : String) (proof : DpopProof)
      → Moves SameLedger (check_complete d k credential proof)
  unfolding check_complete
  check_complete-Quiet k credential proof = search step_rules depth 20
