-- ===== src/Broker/Approve.antt =====
-- `Broker.approve` of packages/broker/src/broker.ts.
use warden_md.Common.{ok, pure, throw_if, ◌>>=◌, ◌>>◌, ℕ, String, Bool, not, none, some, [], ◌∷◌}
use warden_md.Broker.Errors.{grant_not_approved, policy_blocked, token_already_exchanged}
use warden_md.Broker.Types.{
  proposed, approved, denied, Grant, AuditType, text, ExchangeResult, same_status,
}
use warden_md.Broker.Store.{put_grant, reserve_subject_token}
use warden_md.Broker.Core.{Deps, M, set_store, now, audit, assert_not_expired, load_grant, mint}

module _ (d : Deps) where
  -- The guards before the subject token is reserved.
  unfoldable pub check_approve : String → M Grant
  check_approve grant_id = do
    grant ← load_grant d grant_id
    assert_not_expired d grant
    throw_if (same_status grant.status denied) policy_blocked
    throw_if (not (same_status grant.status proposed)) grant_not_approved
    pure grant

  unfoldable pub reserve : Grant → M Bool
  reserve grant s =
      let (reserved, store) = reserve_subject_token grant.subject_token_id grant.id s.store in
      (ok reserved, record s { store = store })

  unfoldable pub approved_grant : Grant → String → ℕ → Grant
  approved_grant grant approver at = record grant {
    status = approved;
    approver = some approver;
    issued_at = some at;
  }

  -- The reservation and the writes to the grant.
  unfoldable pub commit_approve : String → String → Grant → M Grant
  unfolding approved_grant reserve
  commit_approve grant_id approver grant = do
    reserved ← reserve grant
    throw_if (not reserved) token_already_exchanged
    at ← now d
    set_store (put_grant grant_id (approved_grant grant approver at))
    pure (approved_grant grant approver at)

  unfoldable pub announce_approval : Grant → M ExchangeResult
  announce_approval grant = do
    audit d grant.id AuditType.grant_approved (some (("approver", text "approved") ∷ []))
    credential ← mint d grant
    pure (record { grant = grant; approval_reference = none; credential = some credential })

  unfoldable pub approve : String → String → M ExchangeResult
  approve grant_id approver = do
    grant ← check_approve grant_id
    changed ← commit_approve grant_id approver grant
    announce_approval changed
