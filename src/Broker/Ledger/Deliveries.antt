-- ===== src/Broker/Ledger/Deliveries.antt =====
-- Delivering revocations leaves the ledger alone: evidence is refreshed, never made or dropped.
use warden_md.Common.{
  Option-cases, is_some, gets, Moves, ℕ, String, ◌≡◌, refl, ap, ◌∙◌, inl, inr, Option, none, some,
  List, [], ◌∷◌, arith, eq_iff,
}
use warden_md.Common.Map
use warden_md.Common.Map.{Map, get-set}
use warden_md.Broker.Errors.{BrokerErrorCode}
use warden_md.Broker.Types.{Grant, RevocationDelivery, is_delivered}
use warden_md.Broker.Store.{
  Store, list_grants, deliveries_for, DeliveryPatch, refresh_evidence_deliveries, assign_deliveries,
  update_delivery,
}
use warden_md.Broker.Core.{Deps, Broker, set_store}
use warden_md.Broker.Finalize.{
  deliver, deliver_pending, passed, needs_attempt, due_deliveries, deliver_each, retry_each,
  retry_revocations,
}
use warden_md.Broker.Ledger.{SameLedger, Quiet-pure, Quiet-gets, Quiet-bind, Quiet-if, quiet_rules}

evidence-assign_deliveries :
    (id : String) (patch : DeliveryPatch) (records : Option (List RevocationDelivery))
    (grant_id : String) (store : Store)
    → (assign_deliveries id patch records grant_id store).evidence ≡ store.evidence
unfolding update_delivery
evidence-assign_deliveries id patch none grant_id store = refl
evidence-assign_deliveries id patch (some records) grant_id store = refl

ledger-assign_deliveries :
    (id : String) (patch : DeliveryPatch) (records : Option (List RevocationDelivery))
    (grant_id : String) (store : Store)
    → ((assign_deliveries id patch records grant_id store).grants ≡ store.grants)
      × ((assign_deliveries id patch records grant_id store).subject_token_grant
          ≡ store.subject_token_grant)
unfolding update_delivery
ledger-assign_deliveries id patch none grant_id store = (refl, refl)
ledger-assign_deliveries id patch (some records) grant_id store = (refl, refl)

has_evidence-refresh :
    (grant_id : String) (store : Store) (k : String)
    → is_some (Map.get k (refresh_evidence_deliveries grant_id store).evidence)
      ≡ is_some (Map.get k store.evidence)
unfolding refresh_evidence_deliveries
has_evidence-refresh grant_id store k = elim (Option-cases (Map.get grant_id store.evidence)) [
  | inl e ↦ rw (e, refresh_evidence_deliveries) refl
  | inr (record_of, e) ↦
      rw (e, refresh_evidence_deliveries) (simp get-set (ground (arith, eq_iff grant_id k)))
]

ledger-refresh :
    (grant_id : String) (store : Store)
    → ((refresh_evidence_deliveries grant_id store).grants ≡ store.grants)
      × ((refresh_evidence_deliveries grant_id store).subject_token_grant
          ≡ store.subject_token_grant)
unfolding refresh_evidence_deliveries
ledger-refresh grant_id store = elim (Option-cases (Map.get grant_id store.evidence)) [
  | inl e ↦ rw (e, refresh_evidence_deliveries) (refl, refl)
  | inr (record_of, e) ↦ rw (e, refresh_evidence_deliveries) (refl, refl)
]

module _ (grant_id id : String) (patch : DeliveryPatch) (store : Store) where
  has_evidence-update_delivery :
      (k : String)
      → is_some (Map.get k (update_delivery grant_id id patch store).evidence)
        ≡ is_some (Map.get k store.evidence)
  unfolding update_delivery
  has_evidence-update_delivery k =
      let records = Map.get grant_id store.deliveries in
      has_evidence-refresh grant_id (assign_deliveries id patch records grant_id store) k
      ∙ ap (λ m. is_some (Map.get k m)) (evidence-assign_deliveries id patch records grant_id store)

  ledger-update_delivery :
      ((update_delivery grant_id id patch store).grants ≡ store.grants)
      × ((update_delivery grant_id id patch store).subject_token_grant ≡ store.subject_token_grant)
  unfolding update_delivery
  ledger-update_delivery =
      let records = Map.get grant_id store.deliveries in
      let (grants, holders) =
        ledger-refresh grant_id (assign_deliveries id patch records grant_id store) in
      let (grants', holders') = ledger-assign_deliveries id patch records grant_id store in
      (grants ∙ grants', holders ∙ holders')

module _ (d : Deps) where
  update-Quiet :
      (k id : String) (patch : DeliveryPatch)
      → Moves {E = BrokerErrorCode} {S = Broker} SameLedger (set_store (update_delivery k id patch))
  update-Quiet k id patch = record {
    at = λ s.
        let (grants, holders) = ledger-update_delivery k id patch s.store in
        record {
          grants = grants;
          holders = holders;
          evidence = has_evidence-update_delivery k id patch s.store;
          drawn = omega arith;
        };
  }

  pub deliver-Quiet :
      (k : String) (delivery : RevocationDelivery) → Moves SameLedger (deliver d k delivery)
  unfolding deliver
  deliver-Quiet k delivery = search (quiet_rules, update-Quiet) depth 15

  pub deliver_pending-Quiet :
      (k : String) (records : List RevocationDelivery)
      → Moves SameLedger (deliver_pending d k records)
  unfolding deliver_pending
  deliver_pending-Quiet k [] = Quiet-pure tt
  deliver_pending-Quiet k (delivery ∷ rest) =
      let later = deliver_pending-Quiet k rest in
      Quiet-if (is_delivered delivery.status) _ _ later
        (Quiet-bind (deliver d k delivery) _ (deliver-Quiet k delivery) (λ _. later))

  passed-Quiet : (expires_at : ℕ) → Moves SameLedger (passed d expires_at)
  unfolding passed
  passed-Quiet expires_at = search quiet_rules

  needs_attempt-Quiet :
      (delivery : RevocationDelivery) → Moves SameLedger (needs_attempt d delivery)
  unfolding needs_attempt
  needs_attempt-Quiet delivery = elim (Option-cases delivery.next_attempt_at) [
    | inl e ↦ rw e (search quiet_rules)
    | inr (at, e) ↦ rw e (search (quiet_rules, passed-Quiet))
  ]

  due_deliveries-Quiet :
      (records : List RevocationDelivery) → Moves SameLedger (due_deliveries d records)
  unfolding due_deliveries
  due_deliveries-Quiet [] = Quiet-pure []
  due_deliveries-Quiet (delivery ∷ rest) =
      let later = due_deliveries-Quiet rest in
      Quiet-bind (needs_attempt d delivery) _ (needs_attempt-Quiet delivery)
        λ due. Quiet-bind (due_deliveries d rest) _ later (λ more. Quiet-pure _)

  deliver_each-Quiet :
      (k : String) (records : List RevocationDelivery) → Moves SameLedger (deliver_each d k records)
  unfolding deliver_each
  deliver_each-Quiet k [] = Quiet-pure tt
  deliver_each-Quiet k (delivery ∷ rest) =
      let later = deliver_each-Quiet k rest in
      Quiet-bind (deliver d k delivery) _ (deliver-Quiet k delivery) (λ _. later)

  retry_each-Quiet : (grants : List Grant) → Moves SameLedger (retry_each d grants)
  unfolding retry_each
  retry_each-Quiet [] = Quiet-pure tt
  retry_each-Quiet (grant ∷ rest) =
      let later = retry_each-Quiet rest in
      Quiet-bind (gets (λ s. deliveries_for grant.id s.store)) _ (Quiet-gets _) λ records.
        Quiet-bind (due_deliveries d records) _ (due_deliveries-Quiet records) λ due.
          Quiet-bind (deliver_each d grant.id due) _ (deliver_each-Quiet grant.id due) (λ _. later)

  pub retry_revocations-Quiet : Moves SameLedger (retry_revocations d)
  unfolding retry_revocations
  retry_revocations-Quiet =
      Quiet-bind (gets (λ s. list_grants s.store)) _ (Quiet-gets _)
        (λ grants. retry_each-Quiet grants)
