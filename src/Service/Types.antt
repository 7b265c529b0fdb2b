-- ===== src/Service/Types.antt =====
-- packages/service/src/types.ts: the records of the claim ceremony.
use warden_md.Common.{ℕ, String, Bool, true, false, Option, List}

pub data ClaimStatus : Type 0 where
  pending : ClaimStatus
  user_verified : ClaimStatus
  approved : ClaimStatus
  denied : ClaimStatus
  expired : ClaimStatus

abbrev pub same_claim_status : ClaimStatus → ClaimStatus → Bool
same_claim_status pending pending = true
same_claim_status user_verified user_verified = true
same_claim_status approved approved = true
same_claim_status denied denied = true
same_claim_status expired expired = true
same_claim_status _ _ = false

pub record ClaimRecord : Type 0 where
  pub id : String
  pub identity_id : String
  pub user_code_hash : String
  pub device_code_hash : String
  pub status : ClaimStatus
  pub scopes : List String
  pub resource : Option String
  pub created_at : ℕ
  pub expires_at : ℕ
  pub interval_seconds : ℕ
  pub last_poll_at : Option ℕ
  pub verification_attempts : ℕ
  pub user_code_used_at : Option ℕ
  pub grant_used_at : Option ℕ
  pub version : ℕ

pub record StartedClaim : Type 0 where
  pub claim : ClaimRecord
  pub device_code : String
  pub user_code : String

pub data PollResult : Type 0 where
  poll_approved : ClaimRecord → PollResult
  poll_pending : PollResult

pub record ClaimOptions : Type 0 where
  pub expires_in_seconds : ℕ
  pub initial_interval_seconds : ℕ
  pub max_verification_attempts : ℕ
  pub verification_window_seconds : ℕ
  pub max_starts_per_window : ℕ
  pub start_window_seconds : ℕ

pub data IdentityType : Type 0 where
  anonymous : IdentityType
  service_auth : IdentityType
  identity_assertion : IdentityType

pub record ServiceIdentity : Type 0 where
  pub id : String
  pub type : IdentityType
  pub scopes : List String
  pub resource : Option String
  pub client_id : Option String
  pub subject : Option String
  pub created_at : ℕ
  pub expires_at : Option ℕ
  pub revoked_at : Option ℕ

pub record IssuedToken : Type 0 where
  pub id : String
  pub identity_id : String
  pub subject : String
  pub scopes : List String
  pub resource : String
  pub issued_at : ℕ
  pub expires_at : ℕ
  pub revoked_at : Option ℕ

pub data AttemptOutcome : Type 0 where
  accepted : AttemptOutcome
  rejected : AttemptOutcome

pub record IdentityAttempt : Type 0 where
  pub id : String
  pub identity_type : IdentityType
  pub client_id : Option String
  pub subject : Option String
  pub outcome : AttemptOutcome
  pub error_code : Option String
  pub occurred_at : ℕ

pub record RevocationEvent : Type 0 where
  pub id : String
  pub token_id : String
  pub subject : String
  pub occurred_at : ℕ

pub record EventSubscriber : Type 0 where
  pub id : String
  pub url : String
  pub created_at : ℕ
  pub disabled_at : Option ℕ

pub data EventDeliveryStatus : Type 0 where
  delivery_pending : EventDeliveryStatus
  delivered : EventDeliveryStatus
  failed : EventDeliveryStatus

abbrev pub is_pending : EventDeliveryStatus → Bool
is_pending delivery_pending = true
is_pending _ = false

pub record EventDelivery : Type 0 where
  pub id : String
  pub event_id : String
  pub subscriber_id : String
  pub status : EventDeliveryStatus
  pub attempts : ℕ
  pub next_attempt_at : ℕ
  pub last_attempt_at : Option ℕ
  pub receipt : Option String

pub record ReplayRecord : Type 0 where
  pub id : String
  pub expires_at : ℕ
