-- ===== src/Service/Agent/Claims.antt =====
-- packages/service/src/service.ts: the methods over the claim ceremony.
use warden_md.Common.{
  if◌then◌else◌, truthy, get_or, append, pure, require, throw_if, ◌>>=◌, ◌>>◌, ℕ, String, not,
  Option, none, some,
}
use warden_md.Service.Errors.{invalid_scope, invalid_target}
use warden_md.Service.Types.{ClaimRecord, StartedClaim, PollResult, poll_approved, poll_pending}
use warden_md.Service.Claim.Operations
use warden_md.Service.Claim.Operations.{Decision, verify_user_code, poll}
use warden_md.Service.Json.{Json, integer, string, object, end, field}
use warden_md.Service.Jose.{sign_jwt}
use warden_md.Service.Agent.{
  AgentDeps, S, in_ceremony, given, integer_seconds, scopes_within, requested_scopes, agent_now,
  configured_resource, resource_matches, require_active_identity, token_endpoint,
}

pub record StartClaimRequest : Type 0 where
  pub identity_id : String
  pub scope : Option String
  pub resource : Option String
  pub rate_limit_key : String

-- The answer to a poll, with the grant that an approved claim gives.
pub data PollAnswer : Type 0 where
  still_pending : PollAnswer
  granted : ClaimRecord → String → PollAnswer

module _ (d : AgentDeps) where
  -- `request.resource ? this.configuredResource(request.resource) : fallback`
  unfoldable pub chosen_resource : Option String → String → Option String
  unfolding configured_resource
  chosen_resource resource fallback = elim (given resource) [
    | none ↦ if truthy fallback then some fallback else none
    | some text ↦ configured_resource d text
  ]

  unfoldable pub start_claim : StartClaimRequest → S StartedClaim
  unfolding chosen_resource resource_matches scopes_within
  start_claim request = do
    identity ← require_active_identity d request.identity_id
    let scopes = requested_scopes request.scope identity.scopes
    throw_if (not (scopes_within scopes identity.scopes)) invalid_scope
    resource ←
        require (chosen_resource request.resource (get_or identity.resource d.default_resource))
          invalid_target
    throw_if (not (resource_matches d identity resource)) invalid_target
    in_ceremony (Operations.start d.claim identity.id scopes (some resource) request.rate_limit_key)

  unfoldable pub verify_claim_code : String → Option String → S ClaimRecord
  verify_claim_code user_code rate_limit_key =
      in_ceremony (verify_user_code d.claim user_code (get_or rate_limit_key "unknown"))

  unfoldable pub decide_claim : String → Decision → S ClaimRecord
  decide_claim claim_id decision = in_ceremony (Operations.decide d.claim claim_id decision)

  abbrev pub claim_grant_json : ClaimRecord → ℕ → Json
  claim_grant_json claim now = object (
      field "iss" (string d.issuer) (
        field "sub" (string claim.identity_id) (
          field "aud" (string (token_endpoint d)) (
            field "iat" (integer now) (
              field "exp" (integer (integer_seconds claim.expires_at)) (
                field "jti" (string (append "claim-grant:" claim.id)) (
                  field "purpose" (string "claim_grant") (
                    field "claim_id" (string claim.id)
                      (field "identity_id" (string claim.identity_id) end)))))))))

  unfoldable pub answer_poll : PollResult → S PollAnswer
  unfolding agent_now sign_jwt
  answer_poll poll_pending = pure still_pending
  answer_poll (poll_approved claim) = do
    at ← agent_now d
    pure (granted claim (sign_jwt d.jose d.key_id (claim_grant_json claim (integer_seconds at))))

  unfoldable pub poll_claim : String → S PollAnswer
  unfolding answer_poll
  poll_claim device_code = do result ← in_ceremony (poll d.claim device_code); answer_poll result
