-- ===== src/Broker/Finalize.antt =====
-- `finalize`, `deliver` and the operations of packages/broker/src/broker.ts that close a grant or
-- retry what closing it left undelivered.
use Prim.Native.Nat.{min}
use warden_md.Common.{
  leb, if◌then◌else◌, is_some, get_or, length, ok, pure, gets, throw_if, ◌>>=◌, ◌>>◌, ℕ, ◌+◌, ◌*◌,
  ◌^◌, String, Bool, true, false, Option, none, some, List, [], ◌∷◌,
}
use warden_md.Broker.Errors.{grant_not_approved}
use warden_md.Broker.Types.{
  GrantStatus, proposed, approved, consumed, revoked, expired, denied, CompletionSource, agent,
  resource, ttl, operator, Grant, AuditType, revocation_delivery, text, number, flag, delivered,
  failed, RevocationDelivery, EvidenceRecord, same_status, is_delivered,
}
use warden_md.Broker.Store.{
  list_grants, put_grant, audit_for, set_evidence, evidence_for, deliveries_for, add_deliveries,
  DeliveryPatch, update_delivery,
}
use warden_md.Broker.Core.{
  DeliverInput, Deps, M, prefixed, set_store, now, random_id, audit, load_grant,
}

pub data FinalStatus : Type 0 where
  as_revoked as_expired : FinalStatus

abbrev pub status_of : FinalStatus → GrantStatus
status_of as_revoked = revoked
status_of as_expired = expired

abbrev pub source_name : CompletionSource → String
source_name agent = "agent"
source_name resource = "resource"
source_name ttl = "ttl"
source_name operator = "operator"

unfoldable pub event_type : FinalStatus → CompletionSource → AuditType
event_type as_expired _ = AuditType.grant_expired
event_type as_revoked agent = AuditType.grant_completed
event_type as_revoked _ = AuditType.grant_revoked

-- `Math.min(2 ** attempts * 1000, 60_000)`
unfoldable pub backoff_ms : ℕ → ℕ
backoff_ms attempts = min (2 ^ attempts * 1000) 60000

unfoldable pub delivered_patch : ℕ → ℕ → String → DeliveryPatch
delivered_patch attempts at receipt = record {
  status = delivered;
  attempts = attempts;
  last_attempt_at = at;
  next_attempt_at = none;
  receipt = some receipt;
}

unfoldable pub failed_patch : ℕ → ℕ → DeliveryPatch
failed_patch attempts at = record {
  status = failed;
  attempts = attempts;
  last_attempt_at = at;
  next_attempt_at = some (at + backoff_ms attempts);
  receipt = none;
}

-- The transport's answer; `none` where there is no transport, or it throws.
unfoldable pub attempt :
    Option (ℕ → DeliverInput → Option String) → ℕ → DeliverInput → Option String
attempt none ticks input = none
attempt (some transport) ticks input = transport ticks input

unfoldable pub patch_of : Option String → ℕ → ℕ → DeliveryPatch
unfolding delivered_patch failed_patch
patch_of none attempts at = failed_patch attempts at
patch_of (some receipt) attempts at = delivered_patch attempts at receipt

module _ (d : Deps) where
  unfoldable pub deliver : String → RevocationDelivery → M (Unit {0})
  unfolding attempt
  deliver grant_id delivery = do
    at ← now d
    let attempts = delivery.attempts + 1
    receipt ← gets λ s.
        attempt d.revocation_transport s.ticks
          (record { grant_id = grant_id; target = delivery.target; event_id = delivery.id })
    set_store (update_delivery grant_id delivery.id (patch_of receipt attempts at))
    audit d grant_id revocation_delivery
        (some (("delivered", flag (is_some receipt)) ∷ ("attempts", number attempts) ∷ []))

  unfoldable pub deliver_pending : String → List RevocationDelivery → M (Unit {0})
  deliver_pending grant_id [] = pure tt
  deliver_pending grant_id (delivery ∷ rest) =
      let later = deliver_pending grant_id rest in
      if is_delivered delivery.status then later else deliver grant_id delivery >> later

  -- The deliveries of a grant, each with an identifier of its own.
  unfoldable pub open_deliveries : String → M (List RevocationDelivery)
  open_deliveries grant_id s =
      let (records, store) =
        add_deliveries grant_id (λ n. prefixed "delivery" (d.random_uuid n)) s.drawn
          d.revocation_targets s.store in
      (ok records, record s { store = store; drawn = s.drawn + length d.revocation_targets })

  unfoldable pub closed_grant : Grant → FinalStatus → CompletionSource → ℕ → Grant
  closed_grant grant final_status source at = record grant {
    status = status_of final_status;
    completed_at = some at;
    completion_source = some source;
  }

  unfoldable pub with_evidence : Grant → String → Grant
  with_evidence grant id = record grant { evidence_id = some id }

  -- The callback of `mutateGrant` where there is no evidence yet and the grant was not denied.
  unfoldable pub close_grant : String → CompletionSource → FinalStatus → Grant → M EvidenceRecord
  unfolding closed_grant with_evidence event_type
  close_grant grant_id source final_status grant = do
    at ← now d
    set_store (put_grant grant_id (closed_grant grant final_status source at))
    audit d grant.id (event_type final_status source)
        (some (("source", text (source_name source)) ∷ []))
    deliveries ← open_deliveries grant.id
    id ← random_id d "evidence"
    created_at ← now d
    timeline ← gets (λ s. audit_for grant.id s.store)
    kept_from ← now d
    let evidence : EvidenceRecord = record {
      id = id;
      grant_id = grant.id;
      created_at = created_at;
      timeline = timeline;
      approver = grant.approver;
      completion_source = source;
      revocation_deliveries = deliveries;
      retention_until = kept_from + d.retention_ms;
    }
    set_store (put_grant grant_id (with_evidence (closed_grant grant final_status source at) id))
    set_store (set_evidence evidence)
    pure evidence

  unfoldable pub prepare_evidence :
      String → CompletionSource → FinalStatus → Grant → M EvidenceRecord
  prepare_evidence grant_id source final_status grant = do
    existing ← gets (λ s. evidence_for grant.id s.store)
    elim existing [
      | some evidence ↦ pure evidence
      | none ↦
          throw_if (same_status grant.status denied) grant_not_approved
          >> close_grant grant_id source final_status grant
    ]

  unfoldable pub finalize : String → CompletionSource → FinalStatus → M EvidenceRecord
  finalize grant_id source final_status = do
    grant ← load_grant d grant_id
    prepared ← prepare_evidence grant_id source final_status grant
    deliveries ← gets (λ s. deliveries_for grant_id s.store)
    deliver_pending grant_id deliveries
    gets (λ s. get_or (evidence_for grant_id s.store) prepared)

  abbrev pub complete : String → CompletionSource → M EvidenceRecord
  complete grant_id source = finalize grant_id source as_revoked

  abbrev pub revoke : String → CompletionSource → M EvidenceRecord
  revoke grant_id source = finalize grant_id source as_revoked

  abbrev pub expire : String → M EvidenceRecord
  expire grant_id = finalize grant_id ttl as_expired

  unfoldable pub is_open : GrantStatus → Bool
  is_open proposed = true
  is_open approved = true
  is_open consumed = true
  is_open _ = false

  unfoldable pub passed : ℕ → M Bool
  passed expires_at = do at ← now d; pure (leb expires_at at)

  -- The clock is read only for a grant whose status is one of the three.
  unfoldable pub is_due : Grant → M Bool
  unfolding is_open passed
  is_due grant = if is_open grant.status then passed grant.expires_at else pure false

  unfoldable pub expire_then : M (List EvidenceRecord) → Grant → M (List EvidenceRecord)
  expire_then later grant = do
    evidence ← expire grant.id
    expired_later ← later
    pure (evidence ∷ expired_later)

  unfoldable pub expire_each : List Grant → M (List EvidenceRecord)
  unfolding is_due expire_then
  expire_each [] = pure []
  expire_each (grant ∷ rest) =
      let later = expire_each rest in
      is_due grant >>= λ due. if due then expire_then later grant else later

  unfoldable pub expire_due : M (List EvidenceRecord)
  unfolding expire_each
  expire_due = do grants ← gets (λ s. list_grants s.store); expire_each grants

  unfoldable pub needs_attempt : RevocationDelivery → M Bool
  unfolding passed
  needs_attempt delivery =
      if is_delivered delivery.status then pure false else elim delivery.next_attempt_at [
        | none ↦ pure true
        | some next_attempt_at ↦ passed next_attempt_at
      ]

  unfoldable pub due_deliveries : List RevocationDelivery → M (List RevocationDelivery)
  unfolding needs_attempt
  due_deliveries [] = pure []
  due_deliveries (delivery ∷ rest) = do
    due ← needs_attempt delivery
    later ← due_deliveries rest
    pure (if due then delivery ∷ later else later)

  unfoldable pub deliver_each : String → List RevocationDelivery → M (Unit {0})
  deliver_each grant_id [] = pure tt
  deliver_each grant_id (delivery ∷ rest) = deliver grant_id delivery >> deliver_each grant_id rest

  unfoldable pub retry_each : List Grant → M (Unit {0})
  unfolding due_deliveries deliver_each
  retry_each [] = pure tt
  retry_each (grant ∷ rest) = do
    deliveries ← gets (λ s. deliveries_for grant.id s.store)
    due ← due_deliveries deliveries
    deliver_each grant.id due
    retry_each rest

  unfoldable pub retry_revocations : M (Unit {0})
  unfolding retry_each
  retry_revocations = do grants ← gets (λ s. list_grants s.store); retry_each grants
