-- ===== src/Broker/Errors.antt =====
-- packages/broker/src/errors.ts: the codes that a `BrokerError` carries, and their HTTP statuses.
use warden_md.Common.{ℕ}

pub data BrokerErrorCode : Type 0 where
  action_not_authorized approval_required grant_already_consumed grant_expired : BrokerErrorCode
  grant_not_found grant_not_approved grant_revoked invalid_credential : BrokerErrorCode
  invalid_request operator_authorization_required policy_blocked : BrokerErrorCode
  scope_not_authorized token_already_exchanged wrong_audience : BrokerErrorCode
  wrong_dpop_key dpop_proof_invalid : BrokerErrorCode

unfoldable pub status_by_code : BrokerErrorCode → ℕ
status_by_code action_not_authorized = 403
status_by_code approval_required = 403
status_by_code grant_already_consumed = 409
status_by_code grant_expired = 401
status_by_code grant_not_found = 404
status_by_code grant_not_approved = 403
status_by_code grant_revoked = 401
status_by_code invalid_credential = 401
status_by_code invalid_request = 400
status_by_code operator_authorization_required = 403
status_by_code policy_blocked = 403
status_by_code scope_not_authorized = 403
status_by_code token_already_exchanged = 409
status_by_code wrong_audience = 403
status_by_code wrong_dpop_key = 401
status_by_code dpop_proof_invalid = 401
