-- ===== src/Broker/Consume.antt =====
-- `Broker.consume` of packages/broker/src/broker.ts.
use warden_md.Common.{
  if◌then◌else◌, append, Result, ok, err, pure, lift, ◌>>=◌, ◌>>◌, ℕ, String, true, not, ◌||◌,
  Option, none, some, ◌==◌,
}
use warden_md.Broker.Errors.{
  BrokerErrorCode, action_not_authorized, grant_already_consumed, grant_not_approved,
  wrong_audience, dpop_proof_invalid,
}
use warden_md.Broker.Types.{
  approved, consumed, revoked, Grant, CapabilityClaims, AuditType, DpopProof, ConsumeResult,
  same_status,
}
use warden_md.Broker.Store.{put_grant}
use warden_md.Broker.Core.{
  Url, Deps, M, set_store, now, audit, assert_not_expired, load_grant, check_dpop,
  verify_credential,
}

pub record ConsumeInput : Type 0 where
  pub credential : String
  pub proof : DpopProof
  pub audience : String

module _ (d : Deps) where
  -- The `try` block: the action that the proof is for.
  unfoldable pub action_at : Option Url → Option Url → String → Result BrokerErrorCode String
  action_at none audience method = err dpop_proof_invalid
  action_at (some target) none method = err dpop_proof_invalid
  action_at (some target) (some audience) method =
      if not (target.origin == audience.origin)
      then err wrong_audience
      else ok (append (append (d.to_upper_case method) " ") (append target.pathname target.search))

  unfoldable pub proof_action : DpopProof → Grant → Result BrokerErrorCode String
  unfolding action_at
  proof_action proof grant =
      action_at (d.parse_url proof.url) (d.parse_url grant.audience) proof.method

  -- The guards after the clock was read and before the proof is verified.
  unfoldable pub check_use :
      ConsumeInput → CapabilityClaims → Grant → Result BrokerErrorCode (Unit {0})
  check_use input claims grant =
      if not (input.audience == grant.audience)
      then err wrong_audience
      else if not (claims.aud == grant.audience)
      then err action_not_authorized
      else elim (proof_action input.proof grant) [
        | err e ↦ err e
        | ok action ↦
            if not (action == grant.action) || not (claims.action == grant.action)
            then err action_not_authorized
            else if same_status grant.status consumed
            then err grant_already_consumed
            else if same_status grant.status revoked
            then err BrokerErrorCode.grant_revoked
            else if not (same_status grant.status approved)
            then err grant_not_approved
            else ok tt
      ]

  -- The claims of the credential and the grant that they name, every guard passed.
  unfoldable pub check_consume : ConsumeInput → M (CapabilityClaims × Grant)
  check_consume input = do
    claims ← verify_credential d input.credential true
    grant ← load_grant d claims.grant_id
    assert_not_expired d grant
    lift (check_use input claims grant)
    check_dpop d input.proof grant.dpop_thumbprint
    pure (claims, grant)

  unfoldable pub consumed_grant : Grant → ℕ → Grant
  consumed_grant grant at = record grant { status = consumed; consumed_at = some at }

  unfoldable pub commit_consume : CapabilityClaims × Grant → M ConsumeResult
  unfolding consumed_grant
  commit_consume (claims, grant) = do
    at ← now d
    set_store (put_grant claims.grant_id (consumed_grant grant at))
    audit d grant.id AuditType.grant_consumed none
    pure (record { grant = consumed_grant grant at; evidence = none })

  unfoldable pub consume : ConsumeInput → M ConsumeResult
  consume input = do checked ← check_consume input; commit_consume checked
