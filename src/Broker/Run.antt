-- ===== src/Broker/Run.antt =====
-- Sequences of the broker's operations. The callbacks of `mutateGrant` run under the lock of their
-- grant, and the other writes to the store are synchronous, so an operation is one step here.
pub mod Safety
pub mod Tests
use warden_md.Common.{
  leb, if◌then◌else◌, Moves, Keeps, Keeps-bind, String, refl, true, false, List, [], ◌∷◌, arith,
}
use warden_md.Common.Map
use warden_md.Common.Map.{Map}
use warden_md.Broker.Types.{GrantProposal, CompletionSource, agent, ttl, Grant, DpopProof}
use warden_md.Broker.Store.{empty_store, list_grants}
use warden_md.Broker.Core.{Deps, Broker, now}
use warden_md.Broker.Exchange.{exchange}
use warden_md.Broker.Approve.{approve}
use warden_md.Broker.Consume.{ConsumeInput, consume}
use warden_md.Broker.Finalize.{
  FinalStatus, as_revoked, as_expired, finalize, complete, expire, is_open, is_due, expire_then,
  expire_each, expire_due, retry_revocations,
}
use warden_md.Broker.Complete.{check_complete, complete_authenticated, dpop_replay_entries}
use warden_md.Broker.Ledger.{SameLedger, Quiet-pure, Quiet-bind, Quiet-if, now-Quiet}
use warden_md.Broker.Ledger.Checks.{check_complete-Quiet}
use warden_md.Broker.Ledger.Deliveries.{retry_revocations-Quiet}
use warden_md.Broker.Invariant.{IsWellFormed, Good}
use warden_md.Broker.Invariant.Writes.{Quiet-Keeps}
use warden_md.Broker.Invariant.Approve.{approve-Keeps}
use warden_md.Broker.Invariant.Consume.{consume-Keeps}
use warden_md.Broker.Invariant.Finalize.{finalize-Keeps}
use warden_md.Broker.Invariant.Exchange.{IsDistinct, exchange-Keeps}

pub data Operation : Type 0 where
  do_exchange : GrantProposal → Operation
  do_approve : String → String → Operation
  do_consume : ConsumeInput → Operation
  -- `complete`, `revoke` and `expire`
  do_finalize : String → CompletionSource → FinalStatus → Operation
  do_complete : String → String → DpopProof → Operation
  do_expire_due : Operation
  do_retry : Operation
  do_replay_entries : Operation

-- A broker with nothing in its store.
abbrev pub start : Broker
start = record { store = empty_store; used_dpop_jtis = []; ticks = 0; drawn = 0 }

module _ (d : Deps) where
  -- The state that an operation leaves, whether it returns or throws.
  unfoldable pub step : Operation → Broker → Broker
  step (do_exchange proposal) s = (exchange d proposal s).1
  step (do_approve k approver) s = (approve d k approver s).1
  step (do_consume input) s = (consume d input s).1
  step (do_finalize k cause f) s = (finalize d k cause f s).1
  step (do_complete k credential proof) s = (complete_authenticated d k credential proof s).1
  step do_expire_due s = (expire_due d s).1
  step do_retry s = (retry_revocations d s).1
  step do_replay_entries s = (dpop_replay_entries d s).1

  unfoldable pub run : List Operation → Broker → Broker
  run [] s = s
  run (op ∷ ops) s = run ops (step op s)

  is_due-Quiet : (g : Grant) → Moves SameLedger (is_due d g)
  unfolding is_due
  is_due-Quiet g =
      Quiet-if (is_open d g.status) _ _
        (Quiet-bind (now d) _ (now-Quiet d) (λ at. Quiet-pure (leb g.expires_at at)))
        (Quiet-pure false)

  dpop_replay_entries-Quiet : Moves SameLedger (dpop_replay_entries d)
  unfolding dpop_replay_entries now
  dpop_replay_entries-Quiet = record {
    at = λ s. record { grants = refl; holders = refl; evidence = λ k. refl; drawn = omega arith };
  }

  expire_each-Keeps : (s0 : Broker) (grants : List Grant) → Keeps (Good d s0) (expire_each d grants)
  unfolding expire_each
  expire_each-Keeps s0 [] = record { at = λ s h. h }
  expire_each-Keeps s0 (g ∷ rest) =
      let later = expire_each-Keeps s0 rest in
      Keeps-bind (Good d s0) (is_due d g) _ (Quiet-Keeps d s0 _ (is_due-Quiet g)) λ due.
        elim due
          as (λ b.
            Keeps (Good d s0)
              (if b then expire_then d (expire_each d rest) g else expire_each d rest)) [
                | true ↦
                    Keeps-bind (Good d s0) (expire d g.id) _
                      (finalize-Keeps d s0 g.id ttl as_expired)
                      λ evidence.
                        Keeps-bind (Good d s0) (expire_each d rest) _ later
                          (λ more. record { at = λ s h. h })
                | false ↦ later
              ]

  step-Good :
      IsDistinct d.random_uuid
      → (s0 : Broker) (op : Operation) (s : Broker) → Good d s0 s
      → Good d s0 (step op s)
  unfolding step
  step-Good distinct s0 (do_exchange proposal) s h = (exchange-Keeps d s0 distinct proposal).at s h
  step-Good distinct s0 (do_approve k approver) s h = (approve-Keeps d s0 k approver).at s h
  step-Good distinct s0 (do_consume input) s h = (consume-Keeps d s0 input).at s h
  step-Good distinct s0 (do_finalize k cause f) s h = (finalize-Keeps d s0 k cause f).at s h
  step-Good distinct s0 (do_complete k credential proof) s h =
      unfold complete_authenticated in
      (Keeps-bind (Good d s0) (check_complete d k credential proof) (λ _. complete d k agent)
          (Quiet-Keeps d s0 _ (check_complete-Quiet d k credential proof))
          (λ _. finalize-Keeps d s0 k agent as_revoked)).at
        s h
  step-Good distinct s0 do_expire_due s h =
      unfold expire_due in (expire_each-Keeps s0 (list_grants s.store)).at s h
  step-Good distinct s0 do_retry s h = (Quiet-Keeps d s0 _ (retry_revocations-Quiet d)).at s h
  step-Good distinct s0 do_replay_entries s h =
      (Quiet-Keeps d s0 _ dpop_replay_entries-Quiet).at s h

  pub run-Good :
      IsDistinct d.random_uuid
      → (ops : List Operation) (s0 s : Broker) → Good d s0 s
      → Good d s0 (run ops s)
  unfolding run
  run-Good distinct [] s0 s h = h
  run-Good distinct (op ∷ ops) s0 s h =
      run-Good distinct ops s0 (step op s) (step-Good distinct s0 op s h)

  pub start-IsWellFormed : IsWellFormed d start
  unfolding Map.get
  start-IsWellFormed = record {
    keyed = λ k g e. cc;
    named = λ k g e. cc;
    issued = λ k g e a. cc;
    holds = λ k g e a. cc;
    closed = λ k g e. cc;
    no_orphan = λ k e. refl;
    unused = λ n h. refl;
  }
