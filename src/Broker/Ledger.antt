-- ===== src/Broker/Ledger.antt =====
-- The part of the broker's state that the invariant is about, as a relation between states.
pub mod Checks
pub mod Deliveries
use warden_md.Common.{
  if◌then◌else◌, Option-cases, is_some, Result, pure, throw, lift, require, gets, throw_if, ◌>>=◌,
  Moves, Moves-pure, Moves-throw, Moves-lift, Moves-gets, Moves-require, Moves-bind, Moves-if,
  Moves-throw_if, ℕ, ◌≤◌, String, ◌≡◌, refl, ◌∙◌, inl, inr, Bool, Option, arith,
}
use warden_md.Common.Map
use warden_md.Broker.Errors.{BrokerErrorCode}
use warden_md.Broker.Types.{GrantProposal, AuthorityQuery, Grant, AuditType, Detail, DpopProof}
use warden_md.Broker.Store.{append_audit}
use warden_md.Broker.Core.{
  Deps, Broker, M, now, random_id, audit, assert_not_expired, resolve_authority, decide, load_grant,
  check_dpop, verify_credential, mint,
}
use warden_md.Broker.Crypto.Dpop.{verify_dpop_proof}

-- Grants and reservations are the same, evidence is there for the same grants, and identifiers were
-- only drawn.
pub record SameLedger (s t : Broker) : Type 0 where
  pub grants : t.store.grants ≡ s.store.grants
  pub holders : t.store.subject_token_grant ≡ s.store.subject_token_grant
  pub evidence :
      (k : String) → is_some (Map.get k t.store.evidence) ≡ is_some (Map.get k s.store.evidence)
  pub drawn : s.drawn ≤ t.drawn

pub SameLedger-refl : (s : Broker) → SameLedger s s
SameLedger-refl s = record {
  grants = refl;
  holders = refl;
  evidence = λ k. refl;
  drawn = omega arith;
}

pub SameLedger-trans : (s t u : Broker) → SameLedger s t → SameLedger t u → SameLedger s u
SameLedger-trans s t u p q = record {
  grants = q.grants ∙ p.grants;
  holders = q.holders ∙ p.holders;
  evidence = λ k. q.evidence k ∙ p.evidence k;
  drawn = omega (arith, p.drawn, q.drawn);
}

abbrev pub Quiet : {A : Type 0} → M A → Type 0
Quiet m = Moves SameLedger m

pub Quiet-pure : {A : Type 0} (a : A) → Moves {E = BrokerErrorCode} SameLedger (pure a)
Quiet-pure = Moves-pure SameLedger SameLedger-refl SameLedger-trans

pub Quiet-throw : {A : Type 0} (e : BrokerErrorCode) → Moves {A = A} SameLedger (throw e)
Quiet-throw = Moves-throw SameLedger SameLedger-refl SameLedger-trans

pub Quiet-lift : {A : Type 0} (r : Result BrokerErrorCode A) → Moves SameLedger (lift r)
Quiet-lift = Moves-lift SameLedger SameLedger-refl SameLedger-trans

pub Quiet-gets : {A : Type 0} (f : Broker → A) → Moves {E = BrokerErrorCode} SameLedger (gets f)
Quiet-gets = Moves-gets SameLedger SameLedger-refl SameLedger-trans

pub Quiet-require :
    {A : Type 0} (o : Option A) (e : BrokerErrorCode) → Moves SameLedger (require o e)
Quiet-require = Moves-require SameLedger SameLedger-refl SameLedger-trans

pub Quiet-throw_if : (b : Bool) (e : BrokerErrorCode) → Moves SameLedger (throw_if b e)
Quiet-throw_if = Moves-throw_if SameLedger SameLedger-refl

pub Quiet-bind :
    {A B : Type 0} (m : M A) (f : A → M B)
    → Moves SameLedger m
    → ((a : A) → Moves SameLedger (f a))
    → Moves SameLedger (m >>= f)
Quiet-bind = Moves-bind SameLedger SameLedger-refl SameLedger-trans

pub Quiet-if :
    {A : Type 0} (b : Bool) (m n : M A)
    → Moves SameLedger m
    → Moves SameLedger n
    → Moves SameLedger (if b then m else n)
Quiet-if = Moves-if SameLedger SameLedger-refl SameLedger-trans

module _ (d : Deps) where
  pub now-Quiet : Moves SameLedger (now d)
  unfolding now
  now-Quiet = record {
    at = λ s. record { grants = refl; holders = refl; evidence = λ k. refl; drawn = omega arith };
  }

  pub random_id-Quiet : (prefix : String) → Moves SameLedger (random_id d prefix)
  unfolding random_id
  random_id-Quiet prefix = record {
    at = λ s. record { grants = refl; holders = refl; evidence = λ k. refl; drawn = omega arith };
  }

  pub audit-Quiet :
      (grant_id : String) (type : AuditType) (detail : Option Detail)
      → Moves SameLedger (audit d grant_id type detail)
  unfolding audit random_id now append_audit
  audit-Quiet grant_id type detail = record {
    at = λ s. record { grants = refl; holders = refl; evidence = λ k. refl; drawn = omega arith };
  }

  pub resolve_authority-Quiet :
      (query : AuthorityQuery) → Moves SameLedger (resolve_authority d query)
  unfolding resolve_authority
  resolve_authority-Quiet query = record { at = SameLedger-refl }

  pub decide-Quiet : (proposal : GrantProposal) → Moves SameLedger (decide d proposal)
  unfolding decide
  decide-Quiet proposal = record {
    at = λ s. record { grants = refl; holders = refl; evidence = λ k. refl; drawn = omega arith };
  }

  check_seen-Quiet :
      (proof : DpopProof) (thumbprint : String) (at : ℕ)
      → Moves {E = BrokerErrorCode} {S = Broker} SameLedger (λ s.
        let (result, seen) =
          verify_dpop_proof d.crypto d.to_upper_case proof thumbprint at s.used_dpop_jtis in
        (result, record s { used_dpop_jtis = seen }))
  check_seen-Quiet proof thumbprint at = record {
    at = λ s. record { grants = refl; holders = refl; evidence = λ k. refl; drawn = omega arith };
  }

  pub check_dpop-Quiet :
      (proof : DpopProof) (thumbprint : String) → Moves SameLedger (check_dpop d proof thumbprint)
  unfolding check_dpop
  check_dpop-Quiet proof thumbprint =
      Quiet-bind (now d) _ now-Quiet (λ at. check_seen-Quiet proof thumbprint at)

  pub ruleset quiet_rules = (
    Quiet-pure, Quiet-throw, Quiet-lift, Quiet-gets, Quiet-require, Quiet-throw_if, Quiet-bind,
    Quiet-if, now-Quiet, random_id-Quiet, audit-Quiet, resolve_authority-Quiet, decide-Quiet,
    check_dpop-Quiet,
  )

  pub assert_not_expired-Quiet : (grant : Grant) → Moves SameLedger (assert_not_expired d grant)
  unfolding assert_not_expired
  assert_not_expired-Quiet grant = search quiet_rules

  pub load_grant-Quiet : (k : String) → Moves SameLedger (load_grant d k)
  unfolding load_grant
  load_grant-Quiet k = search quiet_rules

  pub verify_credential-Quiet :
      (credential : String) (allow_expired : Bool)
      → Moves SameLedger (verify_credential d credential allow_expired)
  unfolding verify_credential
  verify_credential-Quiet credential allow_expired = search quiet_rules

  pub mint-Quiet : (grant : Grant) → Moves SameLedger (mint d grant)
  unfolding mint
  mint-Quiet grant = elim (Option-cases grant.issued_at) [
    | inl e ↦ rw e (search quiet_rules)
    | inr (at, e) ↦ rw e (search quiet_rules)
  ]
