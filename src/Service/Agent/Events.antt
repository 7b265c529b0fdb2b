-- ===== src/Service/Agent/Events.antt =====
-- packages/service/src/service.ts: security events: `subscribe`, `deliverDueEvents` and
-- `receiveSecurityEvent`.
pub mod Delivery
pub mod Replay
use warden_md.Common.Map
use Prim.Native.Nat.{min}
use Prim.Native.String
use warden_md.Common.{
  leb, if◌then◌else◌, truthy, append, pure, require, gets, throw_if, ◌>>=◌, ◌>>◌, ℕ, suc, ◌+◌, ◌*◌,
  ◌^◌, String, Bool, false, not, ◌||◌, Option, none, some, List, [], ◌∷◌, ◌==◌,
}
use warden_md.Service.Errors.{invalid_grant, invalid_request}
use warden_md.Service.Types.{
  RevocationEvent, EventSubscriber, delivery_pending, delivered, failed, EventDelivery,
}
use warden_md.Service.Store.{
  mark_if_unused, create_subscriber, find_event_by_id, list_due_deliveries, find_subscriber,
  save_delivery,
}
use warden_md.Service.Json.{Json, integer, string, object, end, field, property, has_property}
use warden_md.Service.Jose.{VerifiedJwt, sign_jwt}
use warden_md.Service.Agent.{
  ServiceUrl, AgentDeps, S, in_store, write_store, integer_seconds, agent_now, agent_identifier,
  verify_jwt, event_endpoint,
}
use warden_md.Service.Agent.Register.{authenticate}

abbrev pub token_revoked_event : String
token_revoked_event = "https://schemas.openid.net/secevent/risc/token-revoked"

-- What a `fetch` that does not throw answers: `response.ok` and the header "x-request-id".
pub record FetchResponse : Type 0 where
  pub ok_status : Bool
  pub request_id : Option String

-- The fetcher at a number of clock readings: the address, the key that makes repeats harmless, and
-- the body; `none` where it throws.
abbrev pub DeliveryFetch : Type 0
DeliveryFetch = ℕ → String → String → String → Option FetchResponse

abbrev pub receipt_of : Option FetchResponse → Option String
receipt_of none = none
receipt_of (some response) = elim response.request_id [
  | none ↦ none
  | some id ↦ some (String.slice id 0 128)
]

abbrev pub succeeded : Option FetchResponse → Bool
succeeded none = false
succeeded (some response) = response.ok_status

-- The record of a delivery after an attempt.
unfoldable pub after_attempt : EventDelivery → ℕ → Option FetchResponse → EventDelivery
after_attempt delivery now response =
    if succeeded response
    then record delivery {
      status = delivered;
      attempts = suc delivery.attempts;
      last_attempt_at = some now;
      receipt = receipt_of response;
    }
    else if leb 5 (suc delivery.attempts)
    then record delivery {
      status = failed;
      attempts = suc delivery.attempts;
      last_attempt_at = some now;
    }
    else record delivery {
      status = delivery_pending;
      attempts = suc delivery.attempts;
      last_attempt_at = some now;
      next_attempt_at = now + min 300 (2 ^ suc delivery.attempts) * 1000;
    }

abbrev pub orphaned : EventDelivery → ℕ → EventDelivery
orphaned delivery now = record delivery { status = failed; last_attempt_at = some now }

module _ (d : AgentDeps) where
  abbrev pub bad_subscriber_url : ServiceUrl → Bool
  bad_subscriber_url parsed =
      not (parsed.protocol == "https:") || truthy parsed.username || truthy parsed.password

  unfoldable pub subscribe : String → Option String → S EventSubscriber
  unfolding authenticate agent_now agent_identifier
  subscribe url service_token = do
    authenticated ← authenticate d service_token
    parsed ← require (d.parse_url url) invalid_request
    throw_if (bad_subscriber_url parsed) invalid_request
    id ← agent_identifier d "subscriber"
    at ← agent_now d
    let subscriber : EventSubscriber = record {
      id = id;
      url = parsed.href;
      created_at = at;
      disabled_at = none;
    }
    write_store (create_subscriber subscriber)
    pure subscriber

  abbrev pub security_event_json : RevocationEvent → EventSubscriber → String → ℕ → Json
  security_event_json event subscriber delivery_id delivered_at = object (
      field "iss" (string d.issuer) (
        field "aud" (string subscriber.url) (
          field "sub" (string event.subject) (
            field "jti" (string delivery_id) (
              field "iat" (integer (integer_seconds delivered_at)) (
                field "exp" (integer (integer_seconds delivered_at + 300)) (
                  field "events" (object (field token_revoked_event (object end) end))
                    (field "sid" (string event.token_id) end))))))))

  unfoldable pub sign_security_event : RevocationEvent → EventSubscriber → String → ℕ → String
  unfolding sign_jwt
  sign_security_event event subscriber delivery_id delivered_at =
      sign_jwt d.jose d.key_id (security_event_json event subscriber delivery_id delivered_at)

  -- What one round of the loop makes of a delivery.
  unfoldable pub attempt_delivery :
      DeliveryFetch
      → ℕ
      → ℕ
      → EventDelivery
      → Option EventSubscriber
      → Option RevocationEvent
      → EventDelivery
  unfolding after_attempt
  attempt_delivery fetcher ticks now delivery none event = orphaned delivery now
  attempt_delivery fetcher ticks now delivery (some subscriber) none = orphaned delivery now
  attempt_delivery fetcher ticks now delivery (some subscriber) (some event) =
      after_attempt delivery now (
        fetcher ticks subscriber.url delivery.id
          (sign_security_event event subscriber delivery.id now))

  unfoldable pub deliver_each : DeliveryFetch → ℕ → List EventDelivery → S (List EventDelivery)
  deliver_each fetcher now [] = pure []
  deliver_each fetcher now (delivery ∷ due) = do
    ticks ← gets (λ s. s.ceremony.ticks)
    subscriber ← gets (λ s. find_subscriber delivery.subscriber_id s.store)
    event ← gets (λ s. find_event_by_id delivery.event_id s.store)
    let next = attempt_delivery fetcher ticks now delivery subscriber event
    write_store (save_delivery next)
    completed ← deliver_each fetcher now due
    pure (next ∷ completed)

  unfoldable pub deliver_due_events : DeliveryFetch → ℕ → S (List EventDelivery)
  unfolding agent_now deliver_each
  deliver_due_events fetcher limit = do
    now ← agent_now d
    due ← gets (λ s. list_due_deliveries now limit s.store)
    deliver_each fetcher now due

  -- `set:${iss}:${jti}`
  abbrev pub set_key : VerifiedJwt → String
  set_key verified = append "set:" (append verified.claims.iss (append ":" verified.claims.jti))

  -- What follows the verification.
  unfoldable pub receive_verified : VerifiedJwt → S (Unit {0})
  unfolding agent_now
  receive_verified verified = do
    throw_if (not (has_property token_revoked_event (property "events" verified.claims.all_claims)))
        invalid_request
    at ← agent_now d
    unused ← in_store (
        mark_if_unused (record { id = set_key verified; expires_at = verified.claims.exp * 1000 })
          at)
    throw_if (not unused) invalid_grant

  unfoldable pub receive_security_event : String → S (Unit {0})
  receive_security_event token = do
    verified ←
        verify_jwt d d.verification_keys
          (record { issuer = d.trusted_assertion_issuer; audience = event_endpoint d }) false token
    receive_verified verified
