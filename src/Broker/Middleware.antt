-- ===== src/Broker/Middleware.antt =====
-- packages/broker/src/middleware.ts: the guards that a protected resource puts before its handler.
pub mod Node
pub mod Once
pub mod Agree
mod Tests
use Prim.Native.Char.{code}
use Prim.Native.String
use Prim.Native.String.{[], ◌∷◌}
use warden_md.Common.{
  eqb, if◌then◌else◌, truthy, Result, ok, err, Exec, ℕ, String, Bool, true, false, Option, none,
  some, [], ◌∷◌, ◌==◌,
}
use warden_md.Broker.Errors.{
  BrokerErrorCode, action_not_authorized, approval_required, grant_already_consumed, grant_expired,
  grant_not_found, grant_not_approved, invalid_credential, invalid_request,
  operator_authorization_required, policy_blocked, scope_not_authorized, token_already_exchanged,
  wrong_audience, wrong_dpop_key, dpop_proof_invalid, status_by_code,
}
use warden_md.Broker.Types.{DpopProof, ConsumeResult}
use warden_md.Broker.Core.{Url, Deps, Broker}
use warden_md.Broker.Consume.{ConsumeInput, consume}

-- What an awaited call throws: a `BrokerError` or something else.
pub data Fault : Type 0 where
  broker_fault : BrokerErrorCode → Fault
  other_fault : Fault

-- `CapabilityConsumer`: its state is the broker's.
abbrev pub Consumer : Type 0
Consumer = ConsumeInput → Exec Fault Broker ConsumeResult

-- `MiddlewareOptions`. `verifier` says what it throws over a credential, if anything, at the reading
-- of `now`; what awaited code answers may depend on how many readings of the broker's clock came
-- before. `on_evidence` says whether it returns.
pub record MiddlewareOptions : Type 0 where
  pub broker : Option Deps
  pub consumer : Option Consumer
  pub verifier : Option (String → ℕ → Option Fault)
  pub audience : String
  pub now : ℕ → ℕ
  pub on_evidence : Option (ConsumeResult → Bool)

-- What becomes of a request: an error response with a code and a status, a call of what is protected
-- with what it is given, or an exception that the caller sees.
pub data Outcome (A : Type 0) : Type 0 where
  refused : String → ℕ → Outcome A
  handed : A → Outcome A
  thrown : Outcome A

-- What `createWorkersHandler` reads of a `Request`.
pub record ResourceRequest : Type 0 where
  pub method : String
  pub url : String
  pub authorization : Option String
  pub dpop : Option String

abbrev pub code_text : BrokerErrorCode → String
code_text action_not_authorized = "action_not_authorized"
code_text approval_required = "approval_required"
code_text grant_already_consumed = "grant_already_consumed"
code_text grant_expired = "grant_expired"
code_text grant_not_found = "grant_not_found"
code_text grant_not_approved = "grant_not_approved"
code_text BrokerErrorCode.grant_revoked = "grant_revoked"
code_text invalid_credential = "invalid_credential"
code_text invalid_request = "invalid_request"
code_text operator_authorization_required = "operator_authorization_required"
code_text policy_blocked = "policy_blocked"
code_text scope_not_authorized = "scope_not_authorized"
code_text token_already_exchanged = "token_already_exchanged"
code_text wrong_audience = "wrong_audience"
code_text wrong_dpop_key = "wrong_dpop_key"
code_text dpop_proof_invalid = "dpop_proof_invalid"

-- `credentialError`
abbrev pub credential_error : {A : Type 0} → Fault → Outcome A
credential_error (broker_fault e) = refused (code_text e) (status_by_code e)
credential_error other_fault = refused "invalid_credential" 401

-- `operationError`
abbrev pub operation_error : {A : Type 0} → Fault → Outcome A
operation_error (broker_fault e) = refused (code_text e) (status_by_code e)
operation_error other_fault = refused "temporarily_unavailable" 503

-- The broker as the consumer: every error of `consume` is a `BrokerError`.
abbrev pub as_fault : {A : Type 0} → Result BrokerErrorCode A → Result Fault A
as_fault (ok a) = ok a
as_fault (err e) = err (broker_fault e)

abbrev pub local_consumer : Deps → Consumer
local_consumer d input s = let (result, s') = consume d input s in (as_fault result, s')

-- `configuredConsumer`, with `none` where it throws.
unfoldable pub configured_consumer : MiddlewareOptions → Option Consumer
configured_consumer options = elim options.broker [
  | some d ↦ elim options.consumer [ some c ↦ none | none ↦ some (local_consumer d) ]
  | none ↦ options.consumer
]

-- What follows a prefix, where the text starts with it.
unfoldable pub after_prefix : String → String → Option String
after_prefix [] input = some input
after_prefix (p ∷ prefix) [] = none
after_prefix (p ∷ prefix) (c ∷ input) =
    let rest = after_prefix prefix input in if eqb (code p) (code c) then rest else none

-- The credential and the proof, where both headers are fit.
unfoldable pub bearer_of : Option String → Option String → Option (String × String)
unfolding after_prefix
bearer_of none dpop = none
bearer_of (some authorization) none = none
bearer_of (some authorization) (some dpop) = elim (after_prefix "Bearer " authorization) [
  | none ↦ none
  | some credential ↦ if truthy dpop then some (credential, dpop) else none
]

-- `options.verifier?.verify(credential, now(options))`
unfoldable pub preverify : MiddlewareOptions → String → Broker → Option Fault
preverify options credential s = elim options.verifier [
  | none ↦ none
  | some verify ↦ verify credential (options.now s.ticks)
]

abbrev pub evidence_taken : MiddlewareOptions → ConsumeResult → Bool
evidence_taken options used = elim options.on_evidence [ none ↦ true | some f ↦ f used ]

-- What the handler of `createWorkersHandler` makes of the answer of the consumer.
abbrev pub settle : MiddlewareOptions → Result Fault ConsumeResult → Outcome ConsumeResult
settle options (err e) = operation_error e
settle options (ok used) =
    if evidence_taken options used then handed used else refused "temporarily_unavailable" 503

-- The handler of `createWorkersHandler` once the request is for the audience: preverification, the
-- consume, and the report of the evidence.
unfoldable pub use_credential :
    MiddlewareOptions → Consumer → String → DpopProof → Broker → Outcome ConsumeResult × Broker
use_credential options consumer credential proof s = elim (preverify options credential s) [
  | some e ↦ (credential_error e, s)
  | none ↦
      let (result, s') =
        consumer (record { credential = credential; proof = proof; audience = options.audience })
          s in
      (settle options result, s')
]

-- `target.origin !== new URL(options.audience).origin`, with `none` where a URL does not parse.
unfoldable pub same_origin : Option Url → Option Url → Option Bool
same_origin none audience = none
same_origin (some target) none = none
same_origin (some target) (some audience) = some (target.origin == audience.origin)

module _ (parse_url : String → Option Url) (options : MiddlewareOptions) (consumer : Consumer) where
  -- The handler that `createWorkersHandler` returns.
  unfoldable pub workers_handler : ResourceRequest → Broker → Outcome ConsumeResult × Broker
  workers_handler request s = elim (bearer_of request.authorization request.dpop) [
    | none ↦ (refused "invalid_credential" 401, s)
    | some (credential, dpop) ↦
        elim (same_origin (parse_url request.url) (parse_url options.audience)) [
          | none ↦ (thrown, s)
          | some false ↦ (refused "wrong_audience" 403, s)
          | some true ↦
              use_credential options consumer credential
                (record { token = dpop; method = request.method; url = request.url }) s
        ]
  ]

abbrev pub with_consumer : {A : Type 0} → MiddlewareOptions → (Consumer → A) → Option A
with_consumer options f = elim (configured_consumer options) [
  | none ↦ none
  | some consumer ↦ some (f consumer)
]

-- `createWorkersHandler`, with `none` where it throws.
unfoldable pub create_workers_handler :
    (String → Option Url)
    → MiddlewareOptions
    → Option (ResourceRequest → Broker → Outcome ConsumeResult × Broker)
create_workers_handler parse_url options = with_consumer options (workers_handler parse_url options)
