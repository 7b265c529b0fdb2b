-- ===== src/Broker/Operations/Exchange.antt =====
-- The grant that `Broker.exchange` returns.
use warden_md.Common.{
  Bool-cases, Option-cases, ok, pure, bind-eq-ok, String, ◌≡◌, ap, ◌∙◌, subst, ◌⊎◌, inl, inr, ◌&&◌,
  Option, none, some,
}
use warden_md.Common.Map
use warden_md.Broker.Types.{
  PolicyDecision, allow, require_approval, block, GrantProposal, Grant, ExchangeResult,
}
use warden_md.Broker.Store.{held_by_other, idempotent_grant, create_new, create_exchange_grant}
use warden_md.Broker.Core.{Deps, Broker, now, random_id, audit, mint}
use warden_md.Broker.Exchange.{
  Settled, settled, is_allow, idempotency_key_of, prepare_exchange, as_exchange_result, announce,
  store_exchange, after_store, settle_exchange, exchange,
}
use warden_md.Broker.Operations.Drafts.{
  IsAuthorized, prepare_exchange-key, prepare_exchange-IsAuthorized,
}

module _ (d : Deps) where
  announce-eq-ok :
      (g : Grant) (decision : PolicyDecision) (t : Broker) {r : ExchangeResult}
      → (announce d g decision t).0 ≡ ok r
      → r.grant ≡ g
  unfolding announce audit now random_id
  announce-eq-ok g allow t h =
      let (credential, first, rest) =
        bind-eq-ok (mint d g)
          (λ credential.
            pure (record { grant = g; approval_reference = none; credential = some credential }))
          _ h in
      cc rest
  announce-eq-ok g block t h = cc h
  announce-eq-ok g require_approval t h = cc h

  settle_exchange-eq-ok :
      (g : Grant) (key : Option String) (decision : PolicyDecision) (t : Broker)
      {r : ExchangeResult}
      → (settle_exchange d (settled g key decision) t).0 ≡ ok r
      → (r.grant ≡ g) ⊎ (idempotent_grant key t.store ≡ some r.grant)
  unfolding settle_exchange store_exchange after_store create_exchange_grant create_new
      as_exchange_result audit now random_id
  settle_exchange-eq-ok g key decision t {r} h =
      elim (Option-cases (idempotent_grant key t.store)) [
        | inr (existing, found) ↦ inr (found ∙ ap some (cc (rw found at h)))
        | inl none_yet ↦
            elim (Bool-cases (
              is_allow decision
              && held_by_other (Map.get g.subject_token_id t.store.subject_token_grant) g.id)) [
                | inl held ↦ absurd (cc (rw (none_yet, held) at h))
                | inr free ↦ inl (announce-eq-ok g decision _ (rw (none_yet, free) at h))
              ]
      ]

  -- A grant that `exchange` returns is within the authority that was resolved for the proposal's
  -- agent, subject and token, or was stored before under the proposal's idempotency key: for one of
  -- the authority's resources, with exactly the scopes that were asked for, all of them allowed to
  -- the registration and to the subject, with the status of the decision that the policy gives for
  -- the proposal, and for the requested time or the configured maximum, at least one second and at
  -- most that maximum, from the clock reading after the policy's.
  pub exchange-IsAuthorized :
      (proposal : GrantProposal) (s : Broker) {r : ExchangeResult}
      → (exchange d proposal s).0 ≡ ok r
      → (g : Grant) × (decision : PolicyDecision) × IsAuthorized d s proposal g decision
        × ((r.grant ≡ g)
            ⊎ (idempotent_grant
                  (idempotency_key_of d proposal)
                  (prepare_exchange d proposal s).1.store
                ≡ some r.grant))
  unfolding exchange
  exchange-IsAuthorized proposal s {r} h =
      let (prepared, first, rest) =
        bind-eq-ok (prepare_exchange d proposal) (settle_exchange d) s h in
      of prepared first rest
    where
      of :
          (prepared : Settled)
          → (prepare_exchange d proposal s).0 ≡ ok prepared
          → (settle_exchange d prepared (prepare_exchange d proposal s).1).0 ≡ ok r
          → (g : Grant) × (decision : PolicyDecision) × IsAuthorized d s proposal g decision
            × ((r.grant ≡ g)
                ⊎ (idempotent_grant
                      (idempotency_key_of d proposal)
                      (prepare_exchange d proposal s).1.store
                    ≡ some r.grant))
      of (settled g key decision) first rest = (
        g,
        decision,
        prepare_exchange-IsAuthorized d proposal s first,
        subst
            (λ k.
              (r.grant ≡ g)
              ⊎ (idempotent_grant k (prepare_exchange d proposal s).1.store ≡ some r.grant))
            (prepare_exchange-key d proposal s first)
            (settle_exchange-eq-ok g key decision (prepare_exchange d proposal s).1 rest),
      )
