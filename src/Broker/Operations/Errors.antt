-- ===== src/Broker/Operations/Errors.antt =====
-- An operation that throws has changed no grant, no reservation and no evidence.
use warden_md.Broker.Exchange.{
  Settled, settled, is_allow, prepare_exchange, policy_detail, announce, store_exchange,
  after_store, settle_exchange, exchange,
}
use warden_md.Common.{
  Bool-cases, Option-cases, Result, ok, err, pure, ◌>>=◌, is_ok, bind-eq-err, is_ok-bind, String,
  ◌≡◌, refl, ◌∙◌, inl, inr, true, false, ◌&&◌, Option, none, some, [], ◌∷◌, arith,
}
use warden_md.Common.Map
use warden_md.Common.Map.{Map}
use warden_md.Broker.Errors.{BrokerErrorCode}
use warden_md.Broker.Types.{
  PolicyDecision, allow, require_approval, block, GrantProposal, Grant, CapabilityClaims, AuditType,
  text, Detail, ExchangeResult,
}
use warden_md.Broker.Store.{
  ExchangeCreation, held_by_other, idempotent_grant, create_new, create_exchange_grant,
  reserve_subject_token,
}
use warden_md.Broker.Core.{Deps, Broker, now, random_id, audit, mint}
use warden_md.Broker.Approve.{check_approve, reserve, commit_approve, announce_approval, approve}
use warden_md.Broker.Consume.{ConsumeInput, check_consume, commit_consume, consume}
use warden_md.Broker.Ledger.{SameLedger, SameLedger-refl, SameLedger-trans}
use warden_md.Broker.Ledger.Checks.{
  prepare_exchange-Quiet, check_approve-Quiet, check_consume-Quiet,
}

module _ (d : Deps) where
  consume-err :
      (input : ConsumeInput) (s : Broker) {e : BrokerErrorCode}
      → (consume d input s).0 ≡ err e
      → SameLedger s (consume d input s).1
  unfolding consume
  consume-err input s h = elim (bind-eq-err (check_consume d input) (commit_consume d) s h) [
    | inl (thrown, same) ↦ rw same ((check_consume-Quiet d input).at s)
    | inr (checked, e, thrown, same) ↦ absurd (never checked (check_consume d input s).1 thrown)
  ]
    where
      never :
          (checked : CapabilityClaims × Grant) (t : Broker) {e : BrokerErrorCode}
          → (commit_consume d checked t).0 ≡ err e
          → ⊥
      never (claims, g) t thrown = unfold commit_consume now audit random_id in cc thrown

  commit_approve-err :
      (k approver : String) (g : Grant) (t : Broker) {e : BrokerErrorCode}
      → (commit_approve d k approver g t).0 ≡ err e
      → SameLedger t (commit_approve d k approver g t).1
  unfolding commit_approve reserve reserve_subject_token now
  commit_approve-err k approver g t thrown =
      elim (Bool-cases
        (held_by_other (Map.get g.subject_token_id t.store.subject_token_grant) g.id)) [
          | inl held ↦ rw held (SameLedger-refl t)
          | inr free ↦ absurd (cc (rw free at thrown))
        ]

  mint-ok : (g : Grant) (t : Broker) → is_ok (mint d g t).0 ≡ true
  unfolding mint now random_id
  mint-ok g t = ground arith

  -- The end of every announcement that hands out a credential.
  audit-mint-ok :
      (g : Grant) (type : AuditType) (detail : Option Detail) (f : String → ExchangeResult)
      (t : Broker)
      → is_ok
          ((audit d g.id type detail >>= λ _. mint d g >>= λ credential. pure (f credential)) t).0
        ≡ true
  unfolding audit now random_id
  audit-mint-ok g type detail f t =
      is_ok-bind (audit d g.id type detail) (λ _. mint d g >>= λ credential. pure (f credential)) t
        refl
        λ done u.
          is_ok-bind (mint d g) (λ credential. pure (f credential)) u (mint-ok g u)
            λ credential v. refl

  announce_approval-ok : (g : Grant) (t : Broker) → is_ok (announce_approval d g t).0 ≡ true
  unfolding announce_approval
  announce_approval-ok g t =
      audit-mint-ok g AuditType.grant_approved (some (("approver", text "approved") ∷ []))
        (λ credential. record {
          grant = g;
          approval_reference = none;
          credential = some credential;
        })
        t

  approve-err :
      (k approver : String) (s : Broker) {e : BrokerErrorCode}
      → (approve d k approver s).0 ≡ err e
      → SameLedger s (approve d k approver s).1
  unfolding approve
  approve-err k approver s h = elim (bind-eq-err (check_approve d k) _ s h) [
    | inl (thrown, same) ↦ rw same ((check_approve-Quiet d k).at s)
    | inr (g, e, thrown, same) ↦ rw same (
        let t = (check_approve d k s).1 in
        elim (bind-eq-err (commit_approve d k approver g) (announce_approval d) t thrown) [
          | inl (refused, unchanged) ↦ rw unchanged (
              SameLedger-trans s t _ ((check_approve-Quiet d k).at s)
                (commit_approve-err k approver g t refused))
          | inr (changed, p, late, unchanged) ↦
              absurd (cc (late, announce_approval-ok changed (commit_approve d k approver g t).1))
        ])
  ]

  announce-ok :
      (g : Grant) (decision : PolicyDecision) (t : Broker)
      → is_ok (announce d g decision t).0 ≡ true
  unfolding announce audit now random_id
  announce-ok g allow t =
      audit-mint-ok g AuditType.grant_approved (policy_detail d allow)
        (λ credential. record {
          grant = g;
          approval_reference = none;
          credential = some credential;
        })
        t
  announce-ok g block t = refl
  announce-ok g require_approval t = refl

  -- A refused creation leaves the store as it is.
  store_exchange-refused :
      (g : Grant) (key : Option String) (decision : PolicyDecision) (t : Broker)
      {creation : ExchangeCreation}
      → (store_exchange d (settled g key decision) t).0 ≡ ok creation
      → creation.subject_token_reserved ≡ false
      → (store_exchange d (settled g key decision) t).1 ≡ t
  unfolding store_exchange create_exchange_grant create_new
  store_exchange-refused g key decision t h refused =
      elim (Option-cases (idempotent_grant key t.store)) [
        | inr (existing, e) ↦ rw e refl
        | inl e ↦
            elim (Bool-cases (
              is_allow decision
              && held_by_other (Map.get g.subject_token_id t.store.subject_token_grant) g.id)) [
                | inl held ↦ rw (e, held) refl
                | inr free ↦ absurd (ground (arith, e, free, h, refused))
              ]
      ]

  not_ok :
      {A : Type 0} (r : Result BrokerErrorCode A) {e : BrokerErrorCode}
      → r ≡ err e
      → is_ok r ≡ true
      → ⊥
  not_ok (ok a) h p = cc
  not_ok (err e) h p = cc

  after_store-err :
      (g : Grant) (decision : PolicyDecision) (creation : ExchangeCreation) (t : Broker)
      {e : BrokerErrorCode}
      → (after_store d g decision creation t).0 ≡ err e
      → (creation.subject_token_reserved ≡ false) × ((after_store d g decision creation t).1 ≡ t)
  unfolding after_store audit now random_id
  after_store-err g decision creation t {e} thrown =
      elim (Bool-cases creation.subject_token_reserved) [
        | inr refused ↦ rw refused (refl, refl)
        | inl reserved ↦ elim (Bool-cases creation.created) [
          | inr old ↦ absurd (cc (rw (reserved, old) at thrown))
          | inl created ↦ absurd (
              not_ok _ thrown (
                rw (reserved, created)
                  (announce-ok g decision
                    (audit d g.id AuditType.grant_proposed (policy_detail d decision) t).1)))
        ]
      ]

  settle_exchange-err :
      (prepared : Settled) (t : Broker) {e : BrokerErrorCode}
      → (settle_exchange d prepared t).0 ≡ err e
      → (settle_exchange d prepared t).1 ≡ t
  unfolding settle_exchange
  settle_exchange-err (settled g key decision) t thrown =
      elim (bind-eq-err (store_exchange d (settled g key decision)) (after_store d g decision) t
        thrown) [
          | inl (never, same) ↦ absurd (unfold store_exchange in cc never)
          | inr (creation, p, late, same) ↦
              let facts =
                after_store-err g decision creation (store_exchange d (settled g key decision) t).1
                  late in
              same ∙ facts.1 ∙ store_exchange-refused g key decision t p facts.0
        ]

  exchange-err :
      (proposal : GrantProposal) (s : Broker) {e : BrokerErrorCode}
      → (exchange d proposal s).0 ≡ err e
      → SameLedger s (exchange d proposal s).1
  unfolding exchange
  exchange-err proposal s h =
      elim (bind-eq-err (prepare_exchange d proposal) (settle_exchange d) s h) [
        | inl (thrown, same) ↦ rw same ((prepare_exchange-Quiet d proposal).at s)
        | inr (prepared, p, late, same) ↦
            rw (same, settle_exchange-err prepared (prepare_exchange d proposal s).1 late)
              ((prepare_exchange-Quiet d proposal).at s)
      ]

  -- `exchange`, `approve` and `consume` either return or leave every grant, every reservation of a
  -- subject token and the presence of evidence as they were.
  pub error_changes_nothing :
      (proposal : GrantProposal) (k approver : String) (input : ConsumeInput) (s : Broker)
      (e : BrokerErrorCode)
      → ((exchange d proposal s).0 ≡ err e → SameLedger s (exchange d proposal s).1)
        × ((approve d k approver s).0 ≡ err e → SameLedger s (approve d k approver s).1)
        × ((consume d input s).0 ≡ err e → SameLedger s (consume d input s).1)
  error_changes_nothing proposal k approver input s e =
      (exchange-err proposal s, approve-err k approver s, consume-err input s)
