-- ===== src/Broker/Run/Tests.antt =====
-- The theorems about runs of packages/broker at concrete inputs.
use warden_md.Broker.Finalize.{as_revoked}
use warden_md.Broker.Invariant.{is_closed, is_active, has_evidence, Evolves}
use warden_md.Common.{is_some, is_ok, ℕ, String, ◌≡◌, refl, ◌≢◌, true, some, List, [], ◌∷◌}
use warden_md.Broker.Store.Snapshot.{snapshot, from_snapshot, from_snapshot-snapshot}
use warden_md.Broker.Types.{revoked, operator}
use warden_md.Broker.Core.{Broker}
use warden_md.Broker.Consume.{consume}
use warden_md.Broker.Run.{
  Operation, do_exchange, do_consume, do_finalize, do_expire_due, do_retry, start, run,
}
use warden_md.Broker.Run.Safety.{
  run-IsWellFormed, single_use, closed_unusable, one_grant_per_subject_token, closed_iff_evidence,
  run-Evolves,
}
use warden_md.Broker.Example.{machine, tally, tally-IsDistinct, deps, proposal_for, use_of}

abbrev issued_state : Broker
issued_state = run deps (do_exchange (proposal_for "t") ∷ []) start

first_use : is_ok (consume deps (use_of "p" "j") issued_state).0 ≡ true
unfolding machine tally
first_use = refl

abbrev between : List Operation
between = do_retry ∷ do_exchange (proposal_for "u") ∷ do_expire_due ∷ []

second_use :
    is_ok
      (consume deps
        (use_of "q" "k")
        (run deps between (consume deps (use_of "p" "j") issued_state).1)).0
    ≡ true
unfolding machine tally
second_use = refl

single_use_example : ◌≢◌ {A = String} "grant_iiiii" "grant_"
unfolding machine tally
single_use_example =
    single_use deps tally-IsDistinct between issued_state
      (run-IsWellFormed deps tally-IsDistinct (do_exchange (proposal_for "t") ∷ []))
      (use_of "p" "j") (use_of "q" "k") refl refl

-- The first grant revoked, then the second exchanged and consumed.
abbrev history : List Operation
history =
    do_exchange (proposal_for "t")
    ∷ do_consume (use_of "p" "j")
    ∷ do_exchange (proposal_for "u")
    ∷ do_finalize "grant_" operator as_revoked
    ∷ []

abbrev revoked_state : Broker
revoked_state = run deps history start

closed_unusable_example : ◌≢◌ {A = String} "grant_iiiii" "grant_"
unfolding machine tally
closed_unusable_example =
    closed_unusable deps tally-IsDistinct (do_retry ∷ []) revoked_state "grant_" _
      (run-IsWellFormed deps tally-IsDistinct history) refl refl (use_of "q" "k") refl

one_grant_per_subject_token_example : ◌≡◌ {A = String} "grant_" "grant_"
unfolding machine tally
one_grant_per_subject_token_example =
    one_grant_per_subject_token deps tally-IsDistinct
      (do_exchange (proposal_for "t") ∷ do_exchange (proposal_for "t") ∷ []) "grant_" "grant_" _ _
      refl refl refl refl refl

closed_iff_evidence_example :
    (is_closed revoked ≡ has_evidence "grant_" revoked_state)
    × (is_active revoked ≡ true → is_some {A = ℕ} (some 1000000) ≡ true)
unfolding machine tally
closed_iff_evidence_example = closed_iff_evidence deps tally-IsDistinct history "grant_" _ refl

run-Evolves_example : Evolves issued_state (run deps between issued_state)
run-Evolves_example =
    run-Evolves deps tally-IsDistinct between issued_state
      (run-IsWellFormed deps tally-IsDistinct (do_exchange (proposal_for "t") ∷ []))

-- The store of the revoked state, through a snapshot.
from_snapshot-snapshot_example :
    from_snapshot (some (snapshot revoked_state.store)) ≡ some revoked_state.store
unfolding machine tally
from_snapshot-snapshot_example = from_snapshot-snapshot revoked_state.store (record {
  grants = (refl, (refl, tt));
  grant_ids = (refl, (refl, tt));
  audits = (refl, (refl, tt));
  evidence = (refl, tt);
  evidence_ids = (refl, tt);
  idempotency = tt;
  subject_token_grant = (refl, (refl, tt));
  deliveries = (refl, tt);
})
