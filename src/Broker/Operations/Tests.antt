-- ===== src/Broker/Operations/Tests.antt =====
-- The theorems about single operations and the replay table of packages/broker at concrete inputs.
use warden_md.Common.Map
use warden_md.Broker.Operations.Consume.{MayConsume, consumed_now, consume_iff}
use warden_md.Broker.Operations.Drafts.{IsAuthorized}
use warden_md.Broker.Operations.Exchange.{exchange-IsAuthorized}
use warden_md.Broker.Operations.Errors.{error_changes_nothing}
use warden_md.Broker.Example.{machine, tally, deps, proposal_for, use_of}
use warden_md.Broker.Run.{do_exchange, start, run}
use warden_md.Common.{ok, err, ◌≡◌, refl, ◌↔◌, ◌⊎◌, none, some, [], ◌∷◌, arith}
use warden_md.Broker.Errors.{grant_not_found, dpop_proof_invalid}
use warden_md.Broker.Types.{
  approved, consumed, PolicyDecision, allow, Grant, CapabilityClaims, ConsumeResult,
}
use warden_md.Broker.Store.{idempotent_grant}
use warden_md.Broker.Crypto.Dpop.{purge, admit_jti}
use warden_md.Broker.Crypto.Replay.{admit_all, replayed_proof_refused}
use warden_md.Broker.Core.{Broker}
use warden_md.Broker.Consume.{consume}
use warden_md.Broker.Exchange.{
  initial_status, is_allow, idempotency_key_of, new_grant, prepare_exchange, exchange,
}
use warden_md.Broker.Approve.{approve}
use warden_md.Broker.Ledger.{SameLedger}

abbrev issued : Broker
issued = run deps (do_exchange (proposal_for "t") ∷ []) start

abbrev consumed_result : ConsumeResult
consumed_result = record {
  grant = record {
    id = "grant_";
    status = consumed;
    agent_id = "a";
    subject_id = "s";
    subject_token_id = "t";
    action = "GET /";
    audience = "https://r";
    requested_scope = "read" ∷ [];
    granted_scope = "read" ∷ [];
    dpop_thumbprint = "thumb";
    policy_decision = allow;
    approver = some "policy";
    approval_reference = none;
    issued_at = some 1000000;
    expires_at = 1300000;
    consumed_at = some 1000000;
    completed_at = none;
    completion_source = none;
    evidence_id = none;
  };
  evidence = none;
}

consume_result : (consume deps (use_of "p" "j") issued).0 ≡ ok consumed_result
unfolding machine tally
consume_result = refl

consume_iff_example : ((consume deps (use_of "p" "j") issued).0 ≡ ok consumed_result) ↔ (
    (claims : CapabilityClaims) × (g : Grant) × MayConsume deps (use_of "p" "j") issued claims g
    × (consumed_result ≡ record { grant = consumed_now deps g issued; evidence = none }))
consume_iff_example = consume_iff deps (use_of "p" "j") issued consumed_result

error_changes_nothing_example :
    ((exchange deps (proposal_for "t") start).0 ≡ err grant_not_found
      → SameLedger start (exchange deps (proposal_for "t") start).1)
    × ((approve deps "none" "ops" start).0 ≡ err grant_not_found
        → SameLedger start (approve deps "none" "ops" start).1)
    × ((consume deps (use_of "p" "j") start).0 ≡ err grant_not_found
        → SameLedger start (consume deps (use_of "p" "j") start).1)
error_changes_nothing_example =
    error_changes_nothing deps (proposal_for "t") "none" "ops" (use_of "p" "j") start
      grant_not_found

abbrev issued_grant : Grant
issued_grant = record consumed_result.grant { status = approved; consumed_at = none }

exchange-IsAuthorized_example :
    (g : Grant) × (decision : PolicyDecision) × IsAuthorized deps start
      (proposal_for "t")
      g
      decision
    × ((issued_grant ≡ g)
        ⊎ (idempotent_grant
              (idempotency_key_of deps (proposal_for "t"))
              (prepare_exchange deps (proposal_for "t") start).1.store
            ≡ some issued_grant))
unfolding machine tally new_grant initial_status is_allow
exchange-IsAuthorized_example =
    exchange-IsAuthorized deps (proposal_for "t") start
      {r = record { grant = issued_grant; approval_reference = none; credential = some "h.p.s" }}
      refl

replayed_proof_refused_example :
    (admit_jti "p" 200000 (admit_all (("q", 100) ∷ ("p", 300) ∷ []) (admit_jti "p" 5 []).1)).0
    ≡ err dpop_proof_invalid
unfolding admit_jti purge Map.get
replayed_proof_refused_example =
    replayed_proof_refused "p" 5 200000 (("q", 100) ∷ ("p", 300) ∷ []) [] refl
      (omega arith, (omega arith, tt)) (omega arith)
