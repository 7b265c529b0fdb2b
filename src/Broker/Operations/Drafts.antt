-- ===== src/Broker/Operations/Drafts.antt =====
-- The grant that `Broker.exchange` prepares: what it may be used for.
use warden_md.Common.{
  ltb, leb, eqb, Bool-cases, Option-cases, get_or, length, includes, All, filter-eq_of_length, ok,
  ◌>>=◌, bind-eq-ok, Result-cases, ℕ, suc, ◌+◌, ◌*◌, ◌≤◌, String, ◌≡◌, refl, sym, ap, ◌∙◌, subst,
  inl, inr, true, ◌||◌, Option, none, some, List, arith,
}
use warden_md.Broker.Policy
use warden_md.Broker.Types.{
  PolicyDecision, allow, require_approval, block, GrantProposal, VerifiedAuthority, AuthorityQuery,
  Grant,
}
use warden_md.Broker.Core.{Deps, Broker, prefixed, now, random_id, resolve_authority, decide}
use warden_md.Broker.Exchange.Checks.{
  may_have, allowed_scope_of, assert_proposal, requested_ttl_seconds,
}
use warden_md.Broker.Exchange.{
  settled, initial_status, approval_reference_for, idempotency_key_of, authorize, new_grant,
  draft_grant, prepare_exchange,
}

-- The grant is for one of the resources that the authority names, with exactly the scopes that were
-- asked for, all of which both the registration and the subject have; its status is the one of the
-- decision that the policy gives for the proposal; it expires the requested number of seconds, or the
-- configured maximum, after the clock reading that follows the policy's, which is at least one second
-- and at most the maximum.
pub record IsAuthorized (d : Deps) (s : Broker) (proposal : GrantProposal) (g : Grant)
    (decision : PolicyDecision) : Type 0 where
  pub authority : VerifiedAuthority
  pub answered :
      d.authority s.ticks (record {
        agent_id = proposal.agent_id;
        subject_id = proposal.subject_id;
        subject_token_id = proposal.subject_token_id;
      })
      ≡ some authority
  pub resource_allowed : includes authority.resources g.audience ≡ true
  pub asked : g.granted_scope ≡ proposal.requested_scope
  pub scopes_allowed : All (λ scope. may_have authority scope ≡ true) g.granted_scope
  pub ruled : (Policy.decide d.policy proposal d.clock s.ticks).0.decision ≡ decision
  pub decided : g.status ≡ initial_status decision
  pub ttl_seconds : ℕ
  pub requested : get_or proposal.expires_in_seconds d.max_ttl_seconds ≡ ttl_seconds
  pub expiry :
      g.expires_at
      ≡ d.clock (Policy.decide d.policy proposal d.clock s.ticks).1 + ttl_seconds * 1000
  pub lasts : 1 ≤ ttl_seconds
  pub bounded : ttl_seconds ≤ d.max_ttl_seconds

module _ (d : Deps) (proposal : GrantProposal) where
  abbrev query : AuthorityQuery
  query = record {
    agent_id = proposal.agent_id;
    subject_id = proposal.subject_id;
    subject_token_id = proposal.subject_token_id;
  }

  authorize-eq-ok :
      (s : Broker) {scope : List String}
      → (authorize d proposal s).0 ≡ ok scope
      → (authority : VerifiedAuthority) × (d.authority s.ticks query ≡ some authority)
        × (includes authority.resources proposal.resource ≡ true)
        × (scope ≡ allowed_scope_of authority proposal.requested_scope)
        × ((authorize d proposal s).1 ≡ s)
        × (length (allowed_scope_of authority proposal.requested_scope)
            ≡ length proposal.requested_scope)
  unfolding authorize resolve_authority
  authorize-eq-ok s {scope} h = elim (Result-cases (assert_proposal d proposal)) [
    | inr (e, bad) ↦ absurd (cc (rw bad at h))
    | inl (u, fine) ↦ elim (Option-cases (d.authority s.ticks query)) [
      | inl unknown ↦ absurd (cc (rw (fine, unknown) at h))
      | inr (authority, found) ↦
          elim (Bool-cases (includes authority.resources proposal.resource)) [
            | inr elsewhere ↦ absurd (cc (rw (fine, found, elsewhere) at h))
            | inl covered ↦
                elim (Bool-cases (
                  eqb (length (allowed_scope_of authority proposal.requested_scope))
                    (length proposal.requested_scope))) [
                      | inr fewer ↦ absurd (cc (rw (fine, found, covered, fewer) at h))
                      | inl all_of_them ↦ (
                        authority,
                        found,
                        covered,
                        sym (cc (rw (fine, found, covered, all_of_them) at h)),
                        rw (authorize, fine, found, covered, all_of_them) refl,
                        ground (arith, all_of_them),
                      )
                    ]
          ]
    ]
  ]

  requested_ttl_seconds-eq-ok :
      {ttl_seconds : ℕ}
      → requested_ttl_seconds d proposal ≡ ok ttl_seconds
      → (get_or proposal.expires_in_seconds d.max_ttl_seconds ≡ ttl_seconds)
        × (1 ≤ ttl_seconds)
        × (ttl_seconds ≤ d.max_ttl_seconds)
  unfolding requested_ttl_seconds
  requested_ttl_seconds-eq-ok {ttl_seconds} h =
      elim (Bool-cases (
        leb (get_or proposal.expires_in_seconds d.max_ttl_seconds) 0
        || ltb d.max_ttl_seconds (get_or proposal.expires_in_seconds d.max_ttl_seconds))) [
          | inl out ↦ absurd (cc (rw out at h))
          | inr within ↦
              let one : get_or proposal.expires_in_seconds d.max_ttl_seconds ≡ ttl_seconds =
                cc (rw within at h) in
              (one, ground (arith, within, one), ground (arith, within, one))
        ]

  reference-ok :
      (decision : PolicyDecision) (t : Broker)
      → (reference : Option String) × ((approval_reference_for d decision t).0 ≡ ok reference)
  unfolding approval_reference_for random_id
  reference-ok allow t = (none, refl)
  reference-ok block t = (none, refl)
  reference-ok require_approval t = (_, refl)

  draft_grant-eq-ok :
      (scope : List String) (decision : PolicyDecision) (t : Broker) {g : Grant}
      {key : Option String} {decision' : PolicyDecision}
      → (draft_grant d proposal scope decision t).0 ≡ ok (settled g key decision')
      → (decision ≡ decision')
        × (key ≡ idempotency_key_of d proposal)
        × (id : String) × (reference : Option String) × (ttl_seconds : ℕ) × (requested_ttl_seconds d
              proposal
            ≡ ok ttl_seconds)
        × (g ≡ new_grant d proposal scope decision (d.clock t.ticks) id reference ttl_seconds)
  unfolding draft_grant now random_id
  draft_grant-eq-ok scope decision t h =
      let u : Broker = record t { ticks = suc t.ticks; drawn = suc t.drawn } in
      let (reference, e) = reference-ok decision u in
      elim (Result-cases (requested_ttl_seconds d proposal)) [
        | inr (x, bad) ↦ absurd (cc (rw (e, bad) at h))
        | inl (ttl_seconds, fine) ↦
            let made = rw (e, fine) at h in
            (
              cc made,
              sym (cc made),
              prefixed "grant" (d.random_uuid t.drawn),
              reference,
              ttl_seconds,
              fine,
              sym (cc made),
            )
      ]

  pub prepare_exchange-key :
      (s : Broker) {g : Grant} {key : Option String} {decision : PolicyDecision}
      → (prepare_exchange d proposal s).0 ≡ ok (settled g key decision)
      → key ≡ idempotency_key_of d proposal
  unfolding prepare_exchange
  prepare_exchange-key s {g} {key} {decision} h =
      let (scope, first, rest) =
        bind-eq-ok (authorize d proposal)
          (λ scope. decide d proposal >>= draft_grant d proposal scope) s h in
      let (chosen, second, last) =
        bind-eq-ok (decide d proposal) (draft_grant d proposal scope) (authorize d proposal s).1
          rest in
      (draft_grant-eq-ok scope chosen (decide d proposal (authorize d proposal s).1).1 last).1

  decide-eq-ok :
      (s : Broker) {decision : PolicyDecision}
      → (decide d proposal s).0 ≡ ok decision
      → ((Policy.decide d.policy proposal d.clock s.ticks).0.decision ≡ decision)
        × ((decide d proposal s).1.ticks ≡ (Policy.decide d.policy proposal d.clock s.ticks).1)
  unfolding decide
  decide-eq-ok s h = (cc h, refl)

  -- A grant that `exchange` prepares, before it is stored, is within the authority that was resolved
  -- for its agent, subject and token.
  pub prepare_exchange-IsAuthorized :
      (s : Broker) {g : Grant} {key : Option String} {decision : PolicyDecision}
      → (prepare_exchange d proposal s).0 ≡ ok (settled g key decision)
      → IsAuthorized d s proposal g decision
  unfolding prepare_exchange new_grant allowed_scope_of
  prepare_exchange-IsAuthorized s {g} {key} {decision} h =
      let (scope, first, rest) =
        bind-eq-ok (authorize d proposal)
          (λ scope. decide d proposal >>= draft_grant d proposal scope) s h in
      let (chosen, second, last) =
        bind-eq-ok (decide d proposal) (draft_grant d proposal scope) (authorize d proposal s).1
          rest in
      let (authority, answered, covered, filtered, still, complete) = authorize-eq-ok s first in
      let (ruled, ticks) =
        decide-eq-ok s (subst (λ t. (decide d proposal t).0 ≡ ok chosen) still second) in
      let read : (decide d proposal (authorize d proposal s).1).1.ticks
          ≡ (Policy.decide d.policy proposal d.clock s.ticks).1 =
        ap (λ t. (decide d proposal t).1.ticks) still ∙ ticks in
      let (same, _, id, reference, ttl_seconds, fine, made) =
        draft_grant-eq-ok scope chosen (decide d proposal (authorize d proposal s).1).1 last in
      let (all_of_it, passed) =
        filter-eq_of_length (may_have authority) proposal.requested_scope complete in
      let asked = filtered ∙ all_of_it in
      let bounds = requested_ttl_seconds-eq-ok fine in
      record {
        authority = authority;
        answered = answered;
        resource_allowed = rw made covered;
        asked = rw made asked;
        scopes_allowed = rw (made, asked) passed;
        decided = rw (made, same) refl;
        ruled = ruled ∙ same;
        ttl_seconds = ttl_seconds;
        requested = bounds.0;
        expiry = rw (made, read) refl;
        lasts = bounds.1;
        bounded = bounds.2;
      }
