-- ===== src/Service/Claim/Operations.antt =====
-- packages/service/src/claim.ts: the operations of `ClaimCeremony`. What follows the read of a claim
-- is a definition of its own (`*_found`): between the read and the write other requests may run.
use warden_md.Common.{
  ltb, leb, if◌then◌else◌, is_some, append, pure, throw, require, throw_if, ◌>>=◌, ◌>>◌, ℕ, suc,
  ◌+◌, ◌*◌, String, Bool, false, not, ◌||◌, Option, none, some, List,
}
use warden_md.Service.Types.{
  ClaimStatus, pending, user_verified, approved, denied, expired, same_claim_status, ClaimRecord,
  StartedClaim, PollResult, poll_approved, poll_pending,
}
use warden_md.Service.Errors.{
  access_denied, expired_token, invalid_grant, slow_down, temporarily_unavailable,
}
use warden_md.Service.Code.{code_from_identifier}
use warden_md.Service.Claim.{
  ClaimDeps, C, find_by_user_code_hash, find_by_device_code_hash, create_claim, transition,
  require_claim, claim_now, next_identifier, take_allowance, expire_if_needed,
}

-- `decision: "approved" | "denied"`
pub data Decision : Type 0 where
  decide_approved : Decision
  decide_denied : Decision

abbrev pub status_of : Decision → ClaimStatus
status_of decide_approved = approved
status_of decide_denied = denied

-- `current.lastPollAt !== undefined && now - current.lastPollAt < current.intervalSeconds * 1000`,
-- the difference being an integer that may be negative.
unfoldable pub polls_too_fast : ClaimRecord → ℕ → Bool
polls_too_fast claim at = elim claim.last_poll_at [
  | none ↦ false
  | some last ↦ ltb at (last + claim.interval_seconds * 1000)
]

abbrev pub slowed : ClaimRecord → ClaimRecord
slowed claim = record claim { interval_seconds = claim.interval_seconds + 5 }

module _ (d : ClaimDeps) where
  unfoldable pub new_claim :
      String → String → String → String → List String → Option String → ℕ → ClaimRecord
  new_claim id identity_id user_code device_code scopes resource at = record {
    id = id;
    identity_id = identity_id;
    user_code_hash = d.sha256 user_code;
    device_code_hash = d.sha256 device_code;
    status = pending;
    scopes = scopes;
    resource = resource;
    created_at = at;
    expires_at = at + d.options.expires_in_seconds * 1000;
    interval_seconds = d.options.initial_interval_seconds;
    last_poll_at = none;
    verification_attempts = 0;
    user_code_used_at = none;
    grant_used_at = none;
    version = 1;
  }

  unfoldable pub start : String → List String → Option String → String → C StartedClaim
  unfolding code_from_identifier new_claim
  start identity_id scopes resource rate_limit_key = do
    at ← claim_now d
    allowed ←
        take_allowance d (append "claim-start:" rate_limit_key) d.options.max_starts_per_window
          d.options.start_window_seconds at
    throw_if (not allowed) temporarily_unavailable
    device_code ← next_identifier d "device"
    user ← next_identifier d "user"
    id ← next_identifier d "claim"
    let user_code = code_from_identifier d.to_upper_case user
    let claim = new_claim id identity_id user_code device_code scopes resource at
    create_claim claim
    pure (record { claim = claim; device_code = device_code; user_code = user_code })

  unfoldable pub verify_current : ClaimRecord → C ClaimRecord
  verify_current current = do
    throw_if (not (same_claim_status current.status pending) || is_some current.user_code_used_at)
        invalid_grant
    at ← claim_now d
    if leb d.options.max_verification_attempts current.verification_attempts
        then (do
          transition current (λ c. record c { status = denied; user_code_used_at = some at })
          throw access_denied)
        else transition current (λ c. record c {
          status = user_verified;
          user_code_used_at = some at;
          verification_attempts = suc current.verification_attempts;
        })

  unfoldable pub verify_found : ClaimRecord → C ClaimRecord
  verify_found claim = expire_if_needed d claim >>= verify_current

  unfoldable pub verify_user_code : String → String → C ClaimRecord
  verify_user_code user_code rate_limit_key = do
    at ← claim_now d
    allowed ←
        take_allowance d (append "claim-verify:" rate_limit_key) d.options.max_verification_attempts
          d.options.verification_window_seconds at
    throw_if (not allowed) access_denied
    found ← find_by_user_code_hash (d.sha256 user_code)
    claim ← require found invalid_grant
    verify_found claim

  unfoldable pub decide_current : Decision → ClaimRecord → C ClaimRecord
  decide_current decision current = do
    throw_if (not (same_claim_status current.status user_verified)) invalid_grant
    transition current (λ c. record c { status = status_of decision })

  unfoldable pub decide_found : Decision → ClaimRecord → C ClaimRecord
  decide_found decision claim = expire_if_needed d claim >>= decide_current decision

  unfoldable pub decide : String → Decision → C ClaimRecord
  decide claim_id decision = do claim ← require_claim claim_id; decide_found decision claim

  -- The write of a poll at a time, and its answer.
  unfoldable pub poll_at : ClaimRecord → ℕ → C PollResult
  poll_at current at =
      if polls_too_fast current at
      then (do
        claim ← transition current slowed
        throw_if (same_claim_status claim.status expired) expired_token
        throw slow_down)
      else do
        polled ← transition current (λ c. record c { last_poll_at = some at })
        if same_claim_status polled.status approved
            then pure (poll_approved polled)
            else pure poll_pending

  unfoldable pub poll_current : ClaimRecord → C PollResult
  poll_current current = do
    throw_if (same_claim_status current.status expired) expired_token
    throw_if (same_claim_status current.status denied) access_denied
    at ← claim_now d
    poll_at current at

  unfoldable pub poll_found : ClaimRecord → C PollResult
  poll_found claim = expire_if_needed d claim >>= poll_current

  unfoldable pub poll : String → C PollResult
  poll device_code = do
    found ← find_by_device_code_hash (d.sha256 device_code)
    claim ← require found invalid_grant
    poll_found claim

  unfoldable pub consume_current : ClaimRecord → C ClaimRecord
  consume_current current = do
    throw_if (same_claim_status current.status expired) expired_token
    throw_if (not (same_claim_status current.status approved) || is_some current.grant_used_at)
        invalid_grant
    at ← claim_now d
    transition current (λ c. record c { grant_used_at = some at })

  unfoldable pub consume_found : ClaimRecord → C ClaimRecord
  consume_found claim = expire_if_needed d claim >>= consume_current

  unfoldable pub consume_approved_claim : String → C ClaimRecord
  consume_approved_claim claim_id = do claim ← require_claim claim_id; consume_found claim
