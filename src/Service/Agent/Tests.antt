-- ===== src/Service/Agent/Tests.antt =====
-- The theorems about `AgentAuthService` and the comparison of secrets at concrete inputs.
use warden_md.Service.Agent.{Agent}
use warden_md.Common.Map.{Map}
use warden_md.Service.Claim.Follows.{Grows-refl}
use warden_md.Service.Agent.Exchange.Single.{IsKeyed, claim_exchanged_once}
use warden_md.Service.Agent.Exchange.{TokenExchangeResult, exchange_token}
use warden_md.Common.{
  Bool-cases, is_ok, ℕ, ◌*◌, ◌≤◌, String, ◌≡◌, refl, subst, ◌↔◌, inl, inr, true, false, none, some,
  List, [], ◌∷◌, ◌==◌, eq_iff,
}
use warden_md.Common.Map
use warden_md.Service.Errors.{invalid_scope, code_text}
use warden_md.Service.Types.{
  ClaimRecord, anonymous, ServiceIdentity, accepted, rejected, delivery_pending, EventDelivery,
}
use warden_md.Service.Encoding.{constant_time_equal}
use warden_md.Service.Encoding.Compare.{constant_time_equal_iff}
use warden_md.Service.Jose.{single}
use warden_md.Service.Jose.Verify.{OpenedJwt}
use warden_md.Service.Agent.Register.{attempt_of, register_identity}
use warden_md.Service.Agent.Register.Bounds.{IsBounded}
use warden_md.Service.Agent.Register.Attempts.{
  register_identity-IsBounded, register_identity-rejected,
}
use warden_md.Service.Agent.Exchange.Issued.{IsIssued, exchange_token-IsIssued}
use warden_md.Service.Agent.Tokens.{OwnToken, members_of, validate_access_token, revoke}
use warden_md.Service.Agent.Tokens.Validity.{IsAccepted, validate_access_token-IsAccepted}
use warden_md.Service.Agent.Tokens.Later.{same_tokens}
use warden_md.Service.Agent.Tokens.Revocation.{revoked_stays_refused}
use warden_md.Service.Agent.Events.{receive_security_event}
use warden_md.Service.Agent.Events.Replay.{event_received_once}
use warden_md.Service.Agent.Example.{
  service_machine, decode_part, agent_deps, valid_token, agent_at, registration_of,
  exchange_request, grant_request, approved_claim, agent_with_claim,
}

constant_time_equal_iff_example :
    (constant_time_equal (1 ∷ 2 ∷ []) (1 ∷ 3 ∷ []) ≡ true)
    ↔ (◌≡◌ {A = List ℕ} (1 ∷ 2 ∷ []) (1 ∷ 3 ∷ []))
constant_time_equal_iff_example = constant_time_equal_iff (1 ∷ 2 ∷ []) (1 ∷ 3 ∷ [])

abbrev registered : ServiceIdentity
registered = record {
  id = "identity-1";
  type = anonymous;
  scopes = "read" ∷ [];
  resource = some "https://r";
  client_id = none;
  subject = none;
  created_at = 1000000;
  expires_at = some 1060000;
  revoked_at = none;
}

register_identity-IsBounded_example :
    IsBounded agent_deps anonymous 1000000 registered
    × ((register_identity agent_deps (registration_of "read") (agent_at 0)).1.store.identities
        ≡ Map.set "identity-1" registered (agent_at 0).store.identities)
    × ((register_identity agent_deps
          (registration_of "read")
          (agent_at 0)).1.store.identity_attempts
        ≡ Map.set "identity-attempt:identity-1"
            (attempt_of agent_deps
              (registration_of "read")
              1000000
              "identity-attempt:identity-1"
              (some registered)
              accepted
              none)
            [])
unfolding service_machine
register_identity-IsBounded_example =
    register_identity-IsBounded agent_deps (registration_of "read") (agent_at 0) refl

register_identity-rejected_example :
    ((register_identity agent_deps (registration_of "admin") (agent_at 0)).1.store.identities
      ≡ (agent_at 0).store.identities)
    × (id : String) × ((register_identity agent_deps
          (registration_of "admin")
          (agent_at 0)).1.store.identity_attempts
        ≡ Map.set id
            (attempt_of agent_deps
              (registration_of "admin")
              1000000
              id
              none
              rejected
              (some (code_text invalid_scope)))
            [])
unfolding service_machine
register_identity-rejected_example =
    register_identity-rejected agent_deps (registration_of "admin") (agent_at 0) refl

abbrev exchanged : TokenExchangeResult
exchanged = record {
  access_token = "e.e.s";
  expires_in = 300;
  scope = "read";
  resource = "https://r";
}

exchange_token-IsIssued_example :
    IsIssued agent_deps exchange_request
      (agent_at 0)
      (exchange_token agent_deps exchange_request (agent_at 0)).1
      exchanged
unfolding service_machine
exchange_token-IsIssued_example =
    exchange_token-IsIssued agent_deps exchange_request (agent_at 0) refl

one_claim-IsKeyed :
    (claim : ClaimRecord) (ticks drawn : ℕ)
    → IsKeyed
        (record { claims = (claim.id, claim) ∷ []; buckets = []; ticks = ticks; drawn = drawn })
unfolding Map.get
one_claim-IsKeyed claim ticks drawn k found h = elim (Bool-cases (claim.id == k)) [
  | inl same ↦
      let one : claim ≡ found = cc (rw same at h) in
      subst (λ (x : ClaimRecord). x.id ≡ k) one ((eq_iff claim.id k).0 same)
  | inr apart ↦ absurd (cc (rw apart at h))
]

abbrev claim_exchanged : Agent
claim_exchanged = (exchange_token agent_deps grant_request agent_with_claim).1

claim_exchanged_once_example :
    is_ok (exchange_token agent_deps grant_request claim_exchanged).0 ≡ false
unfolding service_machine
claim_exchanged_once_example =
    claim_exchanged_once agent_deps grant_request grant_request "h.g.s" agent_with_claim
      claim_exchanged refl refl refl refl (one_claim-IsKeyed approved_claim 0 0)
      (one_claim-IsKeyed (record approved_claim { grant_used_at = some 1000000; version = 4 }) 4 1)
      refl (Grows-refl claim_exchanged.ceremony)

validate_access_token-IsAccepted_example :
    IsAccepted agent_deps (agent_at 0) "h.p.s" none valid_token
    × ((validate_access_token agent_deps "h.p.s" none (agent_at 0)).1.store ≡ (agent_at 0).store)
unfolding service_machine
validate_access_token-IsAccepted_example =
    validate_access_token-IsAccepted agent_deps "h.p.s" none (agent_at 0) refl

abbrev own_token_claims : OwnToken
own_token_claims = record { jti = "j"; sub = "s"; aud = "https://r" }

revoked_stays_refused_example :
    is_ok
      (validate_access_token agent_deps "h.p.s" none (revoke agent_deps "h.p.s" (agent_at 0)).1).0
    ≡ false
unfolding service_machine
revoked_stays_refused_example =
    revoked_stays_refused agent_deps "h.p.s" (members_of (decode_part "p")) (agent_at 0)
      (revoke agent_deps "h.p.s" (agent_at 0)).1 none {claims = own_token_claims} refl refl
      (same_tokens (revoke agent_deps "h.p.s" (agent_at 0)).1.store refl)

abbrev opened_event : OpenedJwt
opened_event = record {
  header = record { kid = "k"; typ = false };
  claims = record {
    iss = "https://as";
    sub = "s";
    aud = single "https://as/agent/event/notify";
    exp = 2000;
    iat = 0;
    jti = "j";
    nbf = none;
    all_claims = members_of (decode_part "q");
  };
  message = "h.q";
  signature = "s";
}

event_received_once_example : 2000 * 1000 ≤ 3000000
unfolding service_machine
event_received_once_example =
    event_received_once agent_deps "h.q.s" opened_event (agent_at 0)
      (receive_security_event agent_deps "h.q.s" (agent_at 0)).1 refl refl refl refl

abbrev fresh_delivery : EventDelivery
fresh_delivery = record {
  id = "d";
  event_id = "e";
  subscriber_id = "x";
  status = delivery_pending;
  attempts = 0;
  next_attempt_at = 0;
  last_attempt_at = none;
  receipt = none;
}

abbrev delivering : Agent
delivering = record (agent_at 0) {
  store = record (agent_at 0).store { deliveries = ("d", fresh_delivery) ∷ [] };
}
