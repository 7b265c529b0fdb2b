-- ===== src/Service/Agent/Tokens.antt =====
-- packages/service/src/service.ts: `validateAccessToken`, `revoke` and `issueIdentityAssertion`.
pub mod Validity
pub mod Later
pub mod Revocation
use warden_md.Common.{
  leb, if◌then◌else◌, truthy, is_some, get_or, split_from, split, Result, ok, err, pure, throw,
  require, gets, throw_if, ◌>>=◌, ◌>>◌, ℕ, ◌+◌, String, Bool, true, false, not, ◌&&◌, ◌||◌, Option,
  none, some, List, [], ◌∷◌, ◌==◌,
}
use warden_md.Service.Errors.{OauthErrorCode, invalid_grant, invalid_target, invalid_token}
use warden_md.Service.Types.{
  identity_assertion, ServiceIdentity, IssuedToken, EventSubscriber, delivery_pending,
}
use warden_md.Service.Store.{
  find_token_by_id, revoke_token, list_subscribers, create_event, create_delivery,
}
use warden_md.Service.Encoding.{split_scope}
use warden_md.Service.Json.{
  Json, null, integer, string, array, object, nil, cons, Fields, end, field, property, string_of,
  optional_text,
}
use warden_md.Service.Jose.{JwtClaims, VerifiedJwt, sign_jwt}
use warden_md.Service.Agent.{
  AgentDeps, Agent, S, in_store, write_store, given, integer_seconds, same_scopes, agent_now,
  agent_identifier, configured_resource, require_active_identity, own_keys, verify_jwt,
}
use warden_md.Service.Agent.Exchange.{join_spaces, is_type, is_option}

-- `catch { throw new OAuthError(code); }`
abbrev pub rethrow_as :
    {A : Type 0} → OauthErrorCode → Result OauthErrorCode A → Result OauthErrorCode A
rethrow_as code (ok a) = ok a
rethrow_as code (err e) = err code

abbrev pub catch_as : {A : Type 0} → OauthErrorCode → S A → S A
catch_as code m s = let (result, s') = m s in (rethrow_as code result, s')

-- `catch { return undefined; }`
abbrev pub success_of : {A : Type 0} → Result OauthErrorCode A → Option A
success_of (ok a) = some a
success_of (err e) = none

abbrev pub attempt : {A : Type 0} → S A → S (Option A)
attempt m s = let (result, s') = m s in (ok (success_of result), s')

-- What a verified token and the stored one must share.
unfoldable pub differs_from_stored : IssuedToken → JwtClaims → String → Bool
differs_from_stored stored claims resource =
    not (stored.resource == resource)
    || not (stored.subject == claims.sub)
    || not (is_option (optional_text (property "identity_id" claims.all_claims)) stored.identity_id)
    || not (
        same_scopes stored.scopes
          (split_scope (optional_text (property "scope" claims.all_claims))))

-- The claims of a token of the service's own.
pub record OwnToken : Type 0 where
  pub jti : String
  pub sub : String
  pub aud : String

-- `audienceFromPayload`
unfoldable pub audience_from_payload : Option Json → Option String
audience_from_payload (some (string s)) = some s
audience_from_payload (some (array (cons (string s) nil))) = some s
audience_from_payload _ = none

-- The second of three parts, if it is not empty.
unfoldable pub payload_part : List String → Option String
payload_part (header ∷ payload ∷ signature ∷ []) = if truthy payload then some payload else none
payload_part _ = none

-- `payload.aud` and `payload.iss`, which a value that is no object does not have; reading them from
-- `null` throws a `TypeError`.
abbrev pub members_of : Json → Fields
members_of (object fields) = fields
members_of _ = end

abbrev pub is_null : Option Json → Bool
is_null (some null) = true
is_null _ = false

pub data TypeFault : Type 0 where
  reads_null : TypeFault

module _ (d : AgentDeps) where
  -- The tests on the stored token, the clock being read only for one that is there and not revoked.
  unfoldable pub check_stored : Option IssuedToken → JwtClaims → String → S IssuedToken
  unfolding agent_now
  check_stored none claims resource = throw invalid_token
  check_stored (some stored) claims resource = do
    throw_if (is_some stored.revoked_at) invalid_token
    at ← agent_now d
    throw_if (leb stored.expires_at at || differs_from_stored stored claims resource) invalid_token
    pure stored

  unfoldable pub validate_access_token : String → Option String → S IssuedToken
  unfolding check_stored
  validate_access_token token expected_resource = do
    resource ←
        require (configured_resource d (get_or expected_resource d.default_resource)) invalid_target
    verified ←
        catch_as invalid_token (
          verify_jwt d (own_keys d) (record { issuer = d.issuer; audience = resource }) false token)
    stored ← gets (λ s. find_token_by_id verified.claims.jti s.store)
    check_stored stored verified.claims resource

  unfoldable pub payload_of : String → Option Json
  unfolding payload_part split_from
  payload_of token = elim (payload_part (split b'.' token)) [
    | none ↦ none
    | some payload ↦ d.jose.decode_json payload
  ]

  -- The resource that a token claims as its audience, if it claims this service as its issuer.
  unfoldable pub own_resource : Fields → Option String
  unfolding audience_from_payload
  own_resource fields = elim (audience_from_payload (property "aud" fields)) [
    | none ↦ none
    | some audience ↦
        if truthy audience && is_option (string_of (property "iss" fields)) d.issuer
        then configured_resource d audience
        else none
  ]

  abbrev pub own_token : String → Option VerifiedJwt → Option OwnToken
  own_token resource none = none
  own_token resource (some verified) =
      some (record { jti = verified.claims.jti; sub = verified.claims.sub; aud = resource })

  unfoldable pub verify_own_token_for_revocation : String → Fields → S (Option OwnToken)
  unfolding own_resource
  verify_own_token_for_revocation token fields = elim (own_resource fields) [
    | none ↦ pure none
    | some resource ↦ do
      verified ← attempt (
          verify_jwt d (own_keys d) (record { issuer = d.issuer; audience = resource }) false token)
      pure (own_token resource verified)
  ]

  unfoldable pub open_deliveries_for : String → ℕ → List EventSubscriber → S (Unit {0})
  unfolding agent_identifier
  open_deliveries_for event_id at [] = pure tt
  open_deliveries_for event_id at (subscriber ∷ subscribers) = do
    id ← agent_identifier d "delivery"
    write_store (
        create_delivery (record {
          id = id;
          event_id = event_id;
          subscriber_id = subscriber.id;
          status = delivery_pending;
          attempts = 0;
          next_attempt_at = at;
          last_attempt_at = none;
          receipt = none;
        }))
    open_deliveries_for event_id at subscribers

  unfoldable pub announce_revocation : IssuedToken → S (Unit {0})
  unfolding agent_identifier agent_now open_deliveries_for
  announce_revocation stored = do
    id ← agent_identifier d "event"
    at ← agent_now d
    created ← in_store (
        create_event
          (record { id = id; token_id = stored.id; subject = stored.subject; occurred_at = at }))
    if not created then pure tt else do
      subscribers ← gets (λ s. list_subscribers s.store)
      open_deliveries_for id at subscribers

  abbrev pub is_of : OwnToken → IssuedToken → Bool
  is_of claims stored = stored.subject == claims.sub && stored.resource == claims.aud

  unfoldable pub announce_found : OwnToken → Option IssuedToken → S (Unit {0})
  unfolding announce_revocation
  announce_found claims none = pure tt
  announce_found claims (some stored) =
      if is_of claims stored then announce_revocation stored else pure tt

  unfoldable pub revoke_own : OwnToken → S (Unit {0})
  unfolding agent_now announce_found
  revoke_own claims = do
    at ← agent_now d
    revoked ← in_store (revoke_token claims.jti at)
    if not revoked then pure tt else do
      stored ← gets (λ s. find_token_by_id claims.jti s.store)
      announce_found claims stored

  abbrev pub revoke_if : Option OwnToken → S (Unit {0})
  revoke_if none = pure tt
  revoke_if (some claims) = revoke_own claims

  unfoldable pub revoke_fields : String → Fields → S (Unit {0})
  unfolding verify_own_token_for_revocation
  revoke_fields token fields = do
    claims ← verify_own_token_for_revocation token fields
    revoke_if claims

  -- `revoke` throws no `OAuthError`: it returns, or reads a member of `null`.
  unfoldable pub revoke : String → Agent → Result TypeFault (Unit {0}) × Agent
  unfolding payload_of
  revoke token s = elim (payload_of token) [
    | none ↦ (ok tt, s)
    | some value ↦
        if is_null (some value)
        then (err reads_null, s)
        else (ok tt, (revoke_fields token (members_of value) s).1)
  ]

  abbrev pub assertion_json : ServiceIdentity → String → String → String → ℕ → String → Json
  assertion_json identity subject client_id audience now jti = object (
      field "iss" (string d.issuer) (
        field "sub" (string subject) (
          field "aud" (string audience) (
            field "iat" (integer now) (
              field "exp" (integer (now + d.token_expires_in_seconds)) (
                field "jti" (string jti) (
                  field "scope" (string (join_spaces identity.scopes)) (
                    field "identity_id" (string identity.id)
                      (field "client_id" (string client_id) end)))))))))

  unfoldable pub issue_identity_assertion : String → String → S String
  unfolding agent_now agent_identifier sign_jwt
  issue_identity_assertion identity_id audience = do
    identity ← require_active_identity d identity_id
    throw_if (not (is_type identity.type identity_assertion)) invalid_grant
    subject ← require (given identity.subject) invalid_grant
    client_id ← require (given identity.client_id) invalid_grant
    at ← agent_now d
    id ← agent_identifier d "assertion"
    pure (
        sign_jwt d.jose d.key_id
          (assertion_json identity subject client_id audience (integer_seconds at) id))
