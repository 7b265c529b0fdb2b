-- ===== src/Broker/Exchange.antt =====
-- `Broker.exchange` of packages/broker/src/broker.ts, with the checks of a proposal.
pub mod Checks
use warden_md.Common.{
  eqb, if◌then◌else◌, truthy, length, includes, append, ok, pure, lift, require, throw_if, ◌>>=◌,
  ◌>>◌, ℕ, ◌+◌, ◌*◌, String, Bool, true, false, not, Option, none, some, List, [], ◌∷◌,
}
use warden_md.Broker.Errors.{
  invalid_credential, scope_not_authorized, token_already_exchanged, wrong_audience,
}
use warden_md.Broker.Types.{
  GrantStatus, proposed, approved, denied, PolicyDecision, allow, require_approval, block,
  GrantProposal, Grant, grant_proposed, grant_approved, grant_denied, text, Detail, ExchangeResult,
}
use warden_md.Broker.Store.{ExchangeCreation, create_exchange_grant}
use warden_md.Broker.Core.{Deps, M, now, random_id, audit, resolve_authority, decide, mint}
use warden_md.Broker.Exchange.Checks.{allowed_scope_of, assert_proposal, requested_ttl_seconds}

pub data Settled : Type 0 where
  settled : Grant → Option String → PolicyDecision → Settled

unfoldable pub initial_status : PolicyDecision → GrantStatus
initial_status block = denied
initial_status allow = approved
initial_status require_approval = proposed

unfoldable pub is_allow : PolicyDecision → Bool
is_allow allow = true
is_allow _ = false

abbrev pub policy_name : PolicyDecision → String
policy_name allow = "allow"
policy_name require_approval = "require-approval"
policy_name block = "block"

module _ (d : Deps) where
  unfoldable pub approval_reference_for : PolicyDecision → M (Option String)
  approval_reference_for require_approval = do id ← random_id d "approval"; pure (some id)
  approval_reference_for _ = pure none

  unfoldable pub idempotency_key_of : GrantProposal → Option String
  idempotency_key_of proposal = elim proposal.idempotency_key [
    | none ↦ none
    | some key ↦ if truthy key then some (append (append proposal.agent_id ":") key) else none
  ]

  -- The authority's answer, and the scopes of the proposal that it allows: all of them, or an error.
  unfoldable pub authorize : GrantProposal → M (List String)
  authorize proposal = do
    lift (assert_proposal d proposal)
    found ← resolve_authority d (record {
      agent_id = proposal.agent_id;
      subject_id = proposal.subject_id;
      subject_token_id = proposal.subject_token_id;
    })
    authority ← require found invalid_credential
    throw_if (not (includes authority.resources proposal.resource)) wrong_audience
    let allowed_scope = allowed_scope_of authority proposal.requested_scope
    throw_if (not (eqb (length allowed_scope) (length proposal.requested_scope)))
        scope_not_authorized
    pure allowed_scope

  unfoldable pub new_grant :
      GrantProposal → List String → PolicyDecision → ℕ → String → Option String → ℕ → Grant
  new_grant proposal allowed_scope decision at id approval_reference ttl_seconds = record {
    id = id;
    status = initial_status decision;
    agent_id = proposal.agent_id;
    subject_id = proposal.subject_id;
    subject_token_id = proposal.subject_token_id;
    action = proposal.action;
    audience = proposal.resource;
    requested_scope = proposal.requested_scope;
    granted_scope = allowed_scope;
    dpop_thumbprint = proposal.dpop_thumbprint;
    policy_decision = decision;
    approver = if is_allow decision then some "policy" else none;
    approval_reference = approval_reference;
    issued_at = if is_allow decision then some at else none;
    expires_at = at + ttl_seconds * 1000;
    consumed_at = none;
    completed_at = none;
    completion_source = none;
    evidence_id = none;
  }

  -- The grant object, its fields computed in the order of the source.
  unfoldable pub draft_grant : GrantProposal → List String → PolicyDecision → M Settled
  unfolding new_grant initial_status is_allow idempotency_key_of
  draft_grant proposal allowed_scope decision = do
    at ← now d
    id ← random_id d "grant"
    approval_reference ← approval_reference_for decision
    ttl_seconds ← lift (requested_ttl_seconds d proposal)
    pure (
        settled (new_grant proposal allowed_scope decision at id approval_reference ttl_seconds)
          (idempotency_key_of proposal) decision)

  -- Everything before the store is touched: the grant to store, and the key to store it under.
  unfoldable pub prepare_exchange : GrantProposal → M Settled
  prepare_exchange proposal = do
    allowed_scope ← authorize proposal
    decision ← decide d proposal
    draft_grant proposal allowed_scope decision

  unfoldable pub as_exchange_result : Grant → ExchangeResult
  as_exchange_result grant = record {
    grant = grant;
    approval_reference = grant.approval_reference;
    credential = none;
  }

  abbrev pub policy_detail : PolicyDecision → Option Detail
  policy_detail decision = some (("policy", text (policy_name decision)) ∷ [])

  -- The audit trail and the result of a grant that was created.
  unfoldable pub announce : Grant → PolicyDecision → M ExchangeResult
  announce grant block = do
    audit d grant.id grant_denied (policy_detail block)
    pure (record { grant = grant; approval_reference = none; credential = none })
  announce grant allow = do
    audit d grant.id grant_approved (policy_detail allow)
    credential ← mint d grant
    pure (record { grant = grant; approval_reference = none; credential = some credential })
  announce grant require_approval =
      pure
        (record { grant = grant; approval_reference = grant.approval_reference; credential = none })

  -- `this.store.createExchangeGrant(...)`
  unfoldable pub store_exchange : Settled → M ExchangeCreation
  unfolding is_allow
  store_exchange (settled grant key decision) s =
      let (creation, store) = create_exchange_grant grant key (is_allow decision) s.store in
      (ok creation, record s { store = store })

  unfoldable pub after_store : Grant → PolicyDecision → ExchangeCreation → M ExchangeResult
  after_store grant decision creation = do
    throw_if (not creation.subject_token_reserved) token_already_exchanged
    if not creation.created
        then pure (as_exchange_result creation.grant)
        else do audit d grant.id grant_proposed (policy_detail decision); announce grant decision

  unfoldable pub settle_exchange : Settled → M ExchangeResult
  settle_exchange (settled grant key decision) =
      store_exchange (settled grant key decision) >>= after_store grant decision

  unfoldable pub exchange : GrantProposal → M ExchangeResult
  unfolding prepare_exchange settle_exchange
  exchange proposal = do prepared ← prepare_exchange proposal; settle_exchange prepared
