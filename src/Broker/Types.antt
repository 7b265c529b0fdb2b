-- ===== src/Broker/Types.antt =====
-- packages/broker/src/types.ts: the broker's data. An optional field is an `Option`, times are
-- milliseconds, and the closed string unions are data types.
use warden_md.Common.{ℕ, String, Bool, true, false, Option, List}

pub data GrantStatus : Type 0 where
  proposed approved consumed revoked expired denied : GrantStatus

pub data PolicyDecision : Type 0 where
  allow require_approval block : PolicyDecision

pub record GrantProposal : Type 0 where
  pub agent_id : String
  pub subject_id : String
  pub subject_token_id : String
  pub resource : String
  pub action : String
  pub requested_scope : List String
  pub dpop_thumbprint : String
  pub expires_in_seconds : Option ℕ
  pub idempotency_key : Option String

pub record VerifiedAuthority : Type 0 where
  pub agent_id : String
  pub subject_id : String
  pub subject_token_id : String
  pub registration_scopes : List String
  pub subject_scopes : List String
  pub resources : List String

-- The argument of `AuthorityResolver.resolve`.
pub record AuthorityQuery : Type 0 where
  pub agent_id : String
  pub subject_id : String
  pub subject_token_id : String

pub data CompletionSource : Type 0 where
  agent resource ttl operator : CompletionSource

pub record Grant : Type 0 where
  pub id : String
  pub status : GrantStatus
  pub agent_id : String
  pub subject_id : String
  pub subject_token_id : String
  pub action : String
  pub audience : String
  pub requested_scope : List String
  pub granted_scope : List String
  pub dpop_thumbprint : String
  pub policy_decision : PolicyDecision
  pub approver : Option String
  pub approval_reference : Option String
  pub issued_at : Option ℕ
  pub expires_at : ℕ
  pub consumed_at : Option ℕ
  pub completed_at : Option ℕ
  pub completion_source : Option CompletionSource
  pub evidence_id : Option String

-- `cnf.jkt` is `jkt`, which may be missing in a token that is being read; so may `exp` as a finite
-- number. `use` is a number there.
pub record CapabilityClaims : Type 0 where
  pub iss : String
  pub jti : String
  pub grant_id : String
  pub sub : String
  pub aud : String
  pub action : String
  pub scope : List String
  pub jkt : Option String
  pub use_count : ℕ
  pub iat : ℕ
  pub exp : Option ℕ

pub data AuditType : Type 0 where
  grant_proposed grant_approved grant_denied grant_consumed : AuditType
  grant_completed grant_expired grant_revoked revocation_delivery : AuditType

pub data DetailValue : Type 0 where
  text : String → DetailValue
  number : ℕ → DetailValue
  flag : Bool → DetailValue

abbrev pub Detail : Type 0
Detail = List (String × DetailValue)

pub record AuditEvent : Type 0 where
  pub id : String
  pub grant_id : String
  pub type : AuditType
  pub at : ℕ
  pub detail : Option Detail

pub data DeliveryStatus : Type 0 where
  pending delivered failed : DeliveryStatus

pub record RevocationDelivery : Type 0 where
  pub id : String
  pub grant_id : String
  pub target : String
  pub status : DeliveryStatus
  pub attempts : ℕ
  pub last_attempt_at : Option ℕ
  pub next_attempt_at : Option ℕ
  pub receipt : Option String

pub record EvidenceRecord : Type 0 where
  pub id : String
  pub grant_id : String
  pub created_at : ℕ
  pub timeline : List AuditEvent
  pub approver : Option String
  pub completion_source : CompletionSource
  pub revocation_deliveries : List RevocationDelivery
  pub retention_until : ℕ

pub record TimeWindow : Type 0 where
  pub start_hour_inclusive : ℕ
  pub end_hour_exclusive : ℕ

pub record RuleMatch : Type 0 where
  pub agent_id : Option String
  pub resource : Option String
  pub action : Option String
  pub scope : Option (List String)
  pub time_window : Option TimeWindow

pub record PolicyRule : Type 0 where
  pub id : String
  pub decision : PolicyDecision
  pub match : Option RuleMatch

pub record PolicyDocument : Type 0 where
  pub default : PolicyDecision
  pub rules : List PolicyRule

pub record DpopProof : Type 0 where
  pub token : String
  pub method : String
  pub url : String

pub record ExchangeResult : Type 0 where
  pub grant : Grant
  pub approval_reference : Option String
  pub credential : Option String

-- The one caller of `consume` never fills in `evidence`.
pub record ConsumeResult : Type 0 where
  pub grant : Grant
  pub evidence : Option EvidenceRecord

-- `===` on the closed unions.
abbrev pub same_status : GrantStatus → GrantStatus → Bool
same_status proposed proposed = true
same_status approved approved = true
same_status consumed consumed = true
same_status revoked revoked = true
same_status expired expired = true
same_status denied denied = true
same_status _ _ = false

abbrev pub is_delivered : DeliveryStatus → Bool
is_delivered delivered = true
is_delivered _ = false
