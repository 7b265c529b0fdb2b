-- ===== src/Broker/Store.antt =====
-- packages/broker/src/store.ts: `InMemoryBrokerStore`, its maps and its methods. The copies that the
-- methods make protect the maps from later writes to shared objects; values here are not shared.
-- The body of each `withLock` call is one transition of the store.
pub mod Snapshot
use warden_md.Common.{
  if◌then◌else◌, truthy, get_or, ℕ, suc, String, Bool, true, false, not, ◌&&◌, Option, none, some,
  List, [], ◌∷◌, ◌++◌, ◌==◌,
}
use warden_md.Common.Map
use warden_md.Common.Map.{Map}
use warden_md.Broker.Types.{
  Grant, AuditEvent, DeliveryStatus, pending, RevocationDelivery, EvidenceRecord,
}

pub record Store : Type 0 where
  pub grants : Map Grant
  pub audits : Map (List AuditEvent)
  pub evidence : Map EvidenceRecord
  pub idempotency : Map String
  pub subject_token_grant : Map String
  pub deliveries : Map (List RevocationDelivery)

abbrev pub empty_store : Store
empty_store = record {
  grants = [];
  audits = [];
  evidence = [];
  idempotency = [];
  subject_token_grant = [];
  deliveries = [];
}

pub record ExchangeCreation : Type 0 where
  pub grant : Grant
  pub created : Bool
  pub subject_token_reserved : Bool

-- `id ? table.get(id) : undefined`
abbrev pub get_by : {V : Type 0} → Option String → Map V → Option V
get_by none table = none
get_by (some id) table = if truthy id then Map.get id table else none

-- `existing && existing !== grantId`
unfoldable pub held_by_other : Option String → String → Bool
held_by_other none grant_id = false
held_by_other (some existing) grant_id = truthy existing && not (existing == grant_id)

unfoldable pub get_grant : String → Store → Option Grant
get_grant id store = Map.get id store.grants

unfoldable pub idempotent_grant : Option String → Store → Option Grant
idempotent_grant none store = none
idempotent_grant (some key) store =
    if truthy key then get_by (Map.get key store.idempotency) store.grants else none

unfoldable pub find_by_idempotency_key : String → Store → Option Grant
find_by_idempotency_key key store = get_by (Map.get key store.idempotency) store.grants

unfoldable pub record_key : Option String → String → Map String → Map String
record_key none id table = table
record_key (some key) id table = if truthy key then Map.set key id table else table

unfoldable pub insert_grant : Grant → Option String → Bool → Store → Store
unfolding record_key
insert_grant grant idempotency_key reserve store = record store {
  grants = Map.set grant.id grant store.grants;
  idempotency = record_key idempotency_key grant.id store.idempotency;
  subject_token_grant =
      if reserve
      then Map.set grant.subject_token_id grant.id store.subject_token_grant
      else store.subject_token_grant;
}

unfoldable pub create_new : Grant → Option String → Bool → Store → ExchangeCreation × Store
create_new grant idempotency_key reserve store =
    if reserve && held_by_other (Map.get grant.subject_token_id store.subject_token_grant) grant.id
    then (record { grant = grant; created = false; subject_token_reserved = false }, store)
    else (
      record { grant = grant; created = true; subject_token_reserved = true },
      insert_grant grant idempotency_key reserve store,
    )

unfoldable pub create_unless :
    Option Grant → Grant → Option String → Bool → Store → ExchangeCreation × Store
create_unless (some existing) grant idempotency_key reserve store =
    (record { grant = existing; created = false; subject_token_reserved = true }, store)
create_unless none grant idempotency_key reserve store =
    create_new grant idempotency_key reserve store

unfoldable pub create_exchange_grant :
    Grant → Option String → Bool → Store → ExchangeCreation × Store
unfolding create_unless
create_exchange_grant grant idempotency_key reserve store =
    create_unless (idempotent_grant idempotency_key store) grant idempotency_key reserve store

unfoldable pub list_grants : Store → List Grant
list_grants store = Map.values store.grants

-- A write to the grant object that `mutateGrant` hands to its callback.
unfoldable pub put_grant : String → Grant → Store → Store
put_grant grant_id grant store = record store { grants = Map.set grant_id grant store.grants }

unfoldable pub reserve_subject_token : String → String → Store → Bool × Store
reserve_subject_token subject_token_id grant_id store =
    if held_by_other (Map.get subject_token_id store.subject_token_grant) grant_id
    then (false, store)
    else (
      true,
      record store {
        subject_token_grant = Map.set subject_token_id grant_id store.subject_token_grant;
      },
    )

unfoldable pub audit_for : String → Store → List AuditEvent
audit_for grant_id store = get_or (Map.get grant_id store.audits) []

unfoldable pub append_audit : AuditEvent → Store → Store
unfolding audit_for
append_audit event store = record store {
  audits = Map.set event.grant_id (audit_for event.grant_id store ++ event ∷ []) store.audits;
}

unfoldable pub set_evidence : EvidenceRecord → Store → Store
set_evidence evidence store = record store {
  evidence = Map.set evidence.grant_id evidence store.evidence;
}

unfoldable pub evidence_for : String → Store → Option EvidenceRecord
evidence_for grant_id store = Map.get grant_id store.evidence

unfoldable pub deliveries_for : String → Store → List RevocationDelivery
deliveries_for grant_id store = get_or (Map.get grant_id store.deliveries) []

unfoldable pub new_delivery : String → String → String → RevocationDelivery
new_delivery grant_id id target = record {
  id = id;
  grant_id = grant_id;
  target = target;
  status = pending;
  attempts = 0;
  last_attempt_at = none;
  next_attempt_at = none;
  receipt = none;
}

-- `ids` yields the identifiers that `randomId` draws, the `n`-th first.
unfoldable pub new_deliveries : String → (ℕ → String) → ℕ → List String → List RevocationDelivery
new_deliveries grant_id ids n [] = []
new_deliveries grant_id ids n (target ∷ targets) =
    new_delivery grant_id (ids n) target ∷ new_deliveries grant_id ids (suc n) targets

unfoldable pub add_deliveries :
    String → (ℕ → String) → ℕ → List String → Store → List RevocationDelivery × Store
unfolding new_deliveries new_delivery
add_deliveries grant_id ids n targets store =
    let records = new_deliveries grant_id ids n targets in
    (records, record store { deliveries = Map.set grant_id records store.deliveries })

-- The patches that the broker passes; a missing property leaves the old value.
pub record DeliveryPatch : Type 0 where
  pub status : DeliveryStatus
  pub attempts : ℕ
  pub last_attempt_at : ℕ
  pub next_attempt_at : Option ℕ
  pub receipt : Option String

abbrev pub or_else : {A : Type 0} → Option A → Option A → Option A
or_else none old = old
or_else (some a) old = some a

-- `Object.assign(record, patch)`
unfoldable pub assign : RevocationDelivery → DeliveryPatch → RevocationDelivery
assign delivery patch = record delivery {
  status = patch.status;
  attempts = patch.attempts;
  last_attempt_at = some patch.last_attempt_at;
  next_attempt_at = or_else patch.next_attempt_at delivery.next_attempt_at;
  receipt = or_else patch.receipt delivery.receipt;
}

unfoldable pub assign_first :
    String → DeliveryPatch → List RevocationDelivery → List RevocationDelivery
assign_first id patch [] = []
assign_first id patch (delivery ∷ rest) =
    if delivery.id == id
    then assign delivery patch ∷ rest
    else delivery ∷ assign_first id patch rest

unfoldable pub refresh_evidence_deliveries : String → Store → Store
unfolding deliveries_for
refresh_evidence_deliveries grant_id store = elim (Map.get grant_id store.evidence) [
  | none ↦ store
  | some evidence ↦ record store {
    evidence =
        Map.set grant_id (record evidence { revocation_deliveries = deliveries_for grant_id store })
          store.evidence;
  }
]

unfoldable pub assign_deliveries :
    String → DeliveryPatch → Option (List RevocationDelivery) → String → Store → Store
assign_deliveries id patch none grant_id store = store
assign_deliveries id patch (some records) grant_id store = record store {
  deliveries = Map.set grant_id (assign_first id patch records) store.deliveries;
}

unfoldable pub update_delivery : String → String → DeliveryPatch → Store → Store
unfolding assign_deliveries refresh_evidence_deliveries
update_delivery grant_id delivery_id patch store =
    refresh_evidence_deliveries grant_id
      (assign_deliveries delivery_id patch (Map.get grant_id store.deliveries) grant_id store)
