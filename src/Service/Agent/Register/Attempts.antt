-- ===== src/Service/Agent/Register/Attempts.antt =====
-- packages/service/src/service.ts: what `registerIdentity` leaves in the store, whether it returns
-- or throws.
use warden_md.Common.Map.{Map}
use warden_md.Common.{
  get_or, append, Result, ok, err, throw_if, continue, ◌>>=◌, ◌>>◌, ℕ, String, ◌≡◌, refl, ap, ◌∙◌,
  subst, Bool, true, false, not, none, some, arith,
}
use warden_md.Service.Claim.{claim_now, next_identifier}
use warden_md.Common.Map
use warden_md.Service.Errors.{OauthErrorCode, invalid_scope, code_text}
use warden_md.Service.Types.{IdentityType, ServiceIdentity, accepted, rejected}
use warden_md.Service.Store.{ServiceStore, create_identity, create_identity_attempt}
use warden_md.Service.Encoding.{split_scope}
use warden_md.Service.Agent.{AgentDeps, Agent, S, scopes_within, agent_now, agent_identifier}
use warden_md.Service.Agent.Quiet.{Same, Same-refl, Same-trans, Quiet}
use warden_md.Service.Agent.Register.{
  RegistrationRequest, resource_or_throw, register_by_type, try_register, attempt_of,
  record_rejected, record_accepted, settle_registration, register_identity,
}
use warden_md.Service.Agent.Register.Bounds.{
  IsBounded, resource_or_throw-Configured, register_by_type-IsBounded,
}

module _ (d : AgentDeps) (type : IdentityType) (at : ℕ) where
  -- The end of the `try`: the identity is bounded and is all that was stored, or nothing was.
  Settles : Agent → Result OauthErrorCode ServiceIdentity → Agent → Type 0
  Settles s (ok identity) t =
      IsBounded d type at identity
      × (t.store ≡ create_identity identity (record s.store { replays = t.store.replays }))
  Settles s (err code) t = Same s t

  record Runs (m : S ServiceIdentity) : Type 0 where
    run : (s : Agent) → Settles s (m s).0 (m s).1

  Settles-Same :
      (s s' t : Agent) (r : Result OauthErrorCode ServiceIdentity)
      → Same s s'
      → Settles s' r t
      → Settles s r t
  unfolding Settles create_identity
  Settles-Same s s' t (ok identity) p (bounded, stored) = (
    bounded,
    stored
        ∙ ap
            (λ (x : ServiceStore).
              create_identity identity (record x { replays = t.store.replays }))
            p.store,
  )
  Settles-Same s s' t (err code) p q = Same-trans s s' t p q

  Runs-bind :
      {A : Type 0} (m : S A) (f : A → S ServiceIdentity) (P : A → Type 0)
      → ((s0 : Agent) → Quiet s0 P m)
      → ((a : A) → P a → Runs (f a))
      → Runs (m >>= f)
  unfolding Settles
  Runs-bind {A} m f P p q = record { run = λ s. go s (m s).0 refl }
    where
      go :
          (s : Agent) (r : Result OauthErrorCode A)
          → (m s).0 ≡ r
          → Settles s (continue r f (m s).1).0 (continue r f (m s).1).1
      go s (ok a) e =
          Settles-Same s (m s).1 _ _ ((p s).moves s (Same-refl s))
            ((q a ((p s).at s a (Same-refl s) e)).run (m s).1)
      go s (err x) e = (p s).moves s (Same-refl s)

  Runs-guard :
      (b : Bool) (e : OauthErrorCode) (n : S ServiceIdentity)
      → (b ≡ false → Runs n)
      → Runs (throw_if b e >> n)
  unfolding Settles
  Runs-guard true e n q = record { run = λ s. Same-refl s }
  Runs-guard false e n q = record { run = λ s. (q refl).run s }

module _ (d : AgentDeps) where
  try_register-Runs :
      (request : RegistrationRequest) (at : ℕ)
      → Runs d request.identity_type at (try_register d request at)
  unfolding try_register Settles create_identity
  try_register-Runs request at =
      let type = request.identity_type in
      let explicit = split_scope request.scope in
      Runs-guard d type at (not (scopes_within explicit d.supported_scopes)) invalid_scope _
        λ within.
          Runs-bind d type at (resource_or_throw d request.resource) _ _
            (λ s. resource_or_throw-Configured d request.resource)
            λ requested p.
              Runs-bind d type at
                (register_by_type d type request at explicit requested
                  (get_or requested d.default_resource))
                _ _
                (λ s.
                  register_by_type-IsBounded d type request at explicit requested
                    (ground (arith, within)) p)
                λ identity bounded. record { run = λ s. (bounded, refl) }

  -- A registration that returns gives an identity of the requested type that is not revoked, whose
  -- scopes are among the supported ones, whose resource is the default or a protected one, and which
  -- was created at the reading of the clock and expires the configured time later if it is anonymous,
  -- and never otherwise. It stores this identity under its id, changes no other identity, and records
  -- one accepted attempt.
  pub register_identity-IsBounded :
      (request : RegistrationRequest) (s : Agent) {identity : ServiceIdentity}
      → (register_identity d request s).0 ≡ ok identity
      → IsBounded d request.identity_type (d.claim.clock s.ceremony.ticks) identity
        × ((register_identity d request s).1.store.identities
            ≡ Map.set identity.id identity s.store.identities)
        × ((register_identity d request s).1.store.identity_attempts
            ≡ Map.set
                (append "identity-attempt:" identity.id)
                (attempt_of d request
                  (d.claim.clock s.ceremony.ticks)
                  (append "identity-attempt:" identity.id)
                  (some identity)
                  accepted
                  none)
                s.store.identity_attempts)
  unfolding register_identity agent_now claim_now settle_registration record_accepted
      record_rejected create_identity create_identity_attempt Settles
  register_identity-IsBounded request s {identity} h =
      go (try_register d request at started).0 (try_register d request at started).1
        ((try_register-Runs request at).run started) h
    where
      at : ℕ
      at = d.claim.clock s.ceremony.ticks

      started : Agent
      started = (agent_now d s).1

      go :
          (r : Result OauthErrorCode ServiceIdentity) (t : Agent)
          → Settles d request.identity_type at started r t
          → (settle_registration d request at r t).0 ≡ ok identity
          → IsBounded d request.identity_type at identity
            × ((settle_registration d request at r t).1.store.identities
                ≡ Map.set identity.id identity s.store.identities)
            × ((settle_registration d request at r t).1.store.identity_attempts
                ≡ Map.set
                    (append "identity-attempt:" identity.id)
                    (attempt_of d request at
                      (append "identity-attempt:" identity.id)
                      (some identity)
                      accepted
                      none)
                    s.store.identity_attempts)
      go (ok i) t (bounded, stored) done =
          let same : i ≡ identity = cc done in
          subst
            (λ x.
              IsBounded d request.identity_type at x
              × (t.store.identities ≡ Map.set x.id x s.store.identities)
              × (Map.set (append "identity-attempt:" i.id)
                    (attempt_of d request at (append "identity-attempt:" i.id) (some i) accepted
                      none)
                    t.store.identity_attempts
                  ≡ Map.set (append "identity-attempt:" x.id)
                      (attempt_of d request at (append "identity-attempt:" x.id) (some x) accepted
                        none)
                      s.store.identity_attempts))
            same
            (
              bounded,
              ap (λ (x : ServiceStore). x.identities) stored,
              rw (ap (λ (x : ServiceStore). x.identity_attempts) stored) refl,
            )
      go (err x) t kept done = absurd (cc done)

  -- A registration that throws stores no identity and changes none, and still records one attempt:
  -- rejected, for the requested type, with the code of the error that the caller gets.
  pub register_identity-rejected :
      (request : RegistrationRequest) (s : Agent) {code : OauthErrorCode}
      → (register_identity d request s).0 ≡ err code
      → ((register_identity d request s).1.store.identities ≡ s.store.identities)
        × (id : String) × ((register_identity d request s).1.store.identity_attempts
            ≡ Map.set id
                (attempt_of d request
                  (d.claim.clock s.ceremony.ticks)
                  id
                  none
                  rejected
                  (some (code_text code)))
                s.store.identity_attempts)
  unfolding register_identity agent_now claim_now settle_registration record_accepted
      record_rejected create_identity_attempt agent_identifier next_identifier Settles
  register_identity-rejected request s {code} h =
      go (try_register d request at started).0 (try_register d request at started).1
        ((try_register-Runs request at).run started) h
    where
      at : ℕ
      at = d.claim.clock s.ceremony.ticks

      started : Agent
      started = (agent_now d s).1

      go :
          (r : Result OauthErrorCode ServiceIdentity) (t : Agent)
          → Settles d request.identity_type at started r t
          → (settle_registration d request at r t).0 ≡ err code
          → ((settle_registration d request at r t).1.store.identities ≡ s.store.identities)
            × (id : String) × ((settle_registration d request at r t).1.store.identity_attempts
                ≡ Map.set id
                    (attempt_of d request at id none rejected (some (code_text code)))
                    s.store.identity_attempts)
      go (ok i) t settled thrown = absurd (cc thrown)
      go (err x) t kept thrown =
          let same : x ≡ code = cc thrown in
          (
            ap (λ (y : ServiceStore). y.identities) kept.store,
            d.claim.next t.ceremony.drawn "identity-attempt",
            rw (same, ap (λ (y : ServiceStore). y.identity_attempts) kept.store) refl,
          )
