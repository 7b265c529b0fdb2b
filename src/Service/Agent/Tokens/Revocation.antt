-- ===== src/Service/Agent/Tokens/Revocation.antt =====
-- packages/service/src/service.ts: what `revoke` does to a token, for `validateAccessToken`.
use warden_md.Common.{
  Bool-cases, Option-cases, is_some, Result, ok, pure, gets, ◌>>=◌, is_ok, Moves, Moves-bind,
  Moves-if, Result-cases, bind-run, ℕ, String, ◌≡◌, refl, sym, ap, ◌∙◌, subst, inl, inr, Bool, true,
  false, not, Option, none, some, List, [], ◌∷◌, eq_refl,
}
use warden_md.Service.Agent.Tokens.{
  success_of, OwnToken, validate_access_token, payload_of, own_resource, own_token,
  verify_own_token_for_revocation, open_deliveries_for, announce_revocation, is_of, announce_found,
  revoke_own, revoke_if, revoke_fields, revoke,
}
use warden_md.Service.Errors.{OauthErrorCode}
use warden_md.Service.Jose.{JwtClaims}
use warden_md.Service.Json.{object, Fields}
use warden_md.Service.Jose.Verify.{Expected, OpenedJwt, decode_jwt}
use warden_md.Service.Agent.Quiet.{Same-refl, Quiet-verify}
use warden_md.Service.Agent.Tokens.Later.{LaterTokens, later-IsDead}
use warden_md.Service.Agent.Tokens.Validity.{validate_access_token-IsAccepted}
use warden_md.Common.Map.{Map, get-set}
use warden_md.Common.Map
use warden_md.Service.Types.{IssuedToken, RevocationEvent, EventSubscriber, delivery_pending}
use warden_md.Service.Store.{
  ServiceStore, find_token_by_id, revoke_found, revoke_token, list_subscribers, create_event,
  create_delivery,
}
use warden_md.Service.Claim.{C, claim_now, next_identifier}
use warden_md.Service.Agent.{
  AgentDeps, Agent, S, in_ceremony, in_store, write_store, agent_now, agent_identifier, own_keys,
  verify_jwt,
}

-- The tokens are the same.
record KeepsTokens (s t : Agent) : Type 0 where
  tokens : t.store.tokens ≡ s.store.tokens

KeepsTokens-refl : (s : Agent) → KeepsTokens s s
KeepsTokens-refl s = record { tokens = refl }

KeepsTokens-trans : (s t u : Agent) → KeepsTokens s t → KeepsTokens t u → KeepsTokens s u
KeepsTokens-trans s t u p q = record { tokens = q.tokens ∙ p.tokens }

abbrev Lasting : {A : Type 0} → S A → Type 0
Lasting m = Moves KeepsTokens m

Lasting-bind :
    {A B : Type 0} (m : S A) (f : A → S B)
    → Lasting m
    → ((a : A) → Lasting (f a))
    → Lasting (m >>= f)
Lasting-bind = Moves-bind KeepsTokens KeepsTokens-refl KeepsTokens-trans

Lasting-ceremony : {A : Type 0} (m : C A) → Lasting (in_ceremony m)
Lasting-ceremony m = record { at = λ s. record { tokens = refl } }

Lasting-pure : {A : Type 0} (a : A) → Lasting (pure a)
Lasting-pure a = record { at = KeepsTokens-refl }

module _ (d : AgentDeps) where
  open_deliveries_for-Lasting :
      (event_id : String) (at : ℕ) (subscribers : List EventSubscriber)
      → Lasting (open_deliveries_for d event_id at subscribers)
  unfolding open_deliveries_for agent_identifier create_delivery
  open_deliveries_for-Lasting event_id at [] = Lasting-pure tt
  open_deliveries_for-Lasting event_id at (subscriber ∷ subscribers) =
      Lasting-bind (agent_identifier d "delivery") _
        (Lasting-ceremony (next_identifier d.claim "delivery"))
        λ id.
          Lasting-bind
            (write_store (
              create_delivery (record {
                id = id;
                event_id = event_id;
                subscriber_id = subscriber.id;
                status = delivery_pending;
                attempts = 0;
                next_attempt_at = at;
                last_attempt_at = none;
                receipt = none;
              })))
            _ (record { at = λ s. record { tokens = refl } })
            λ _. open_deliveries_for-Lasting event_id at subscribers

  create_event-Lasting : (event : RevocationEvent) → Lasting (in_store (create_event event))
  unfolding create_event
  create_event-Lasting event = record {
    at = λ s. elim (Bool-cases (Map.has event.token_id s.store.event_id_by_token)) [
      | inl known ↦ rw known (record { tokens = refl })
      | inr new ↦ rw new (record { tokens = refl })
    ];
  }

  announce_revocation-Lasting : (stored : IssuedToken) → Lasting (announce_revocation d stored)
  unfolding announce_revocation agent_identifier agent_now
  announce_revocation-Lasting stored =
      Lasting-bind (agent_identifier d "event") _
        (Lasting-ceremony (next_identifier d.claim "event"))
        λ id. Lasting-bind (agent_now d) _ (Lasting-ceremony (claim_now d.claim)) λ at.
          let event : RevocationEvent = record {
            id = id;
            token_id = stored.id;
            subject = stored.subject;
            occurred_at = at;
          } in
          Lasting-bind (in_store (create_event event)) _ (create_event-Lasting event) λ created.
            Moves-if KeepsTokens KeepsTokens-refl KeepsTokens-trans (not created) (pure tt) _
              (Lasting-pure tt)
              (Lasting-bind (gets (λ s. list_subscribers s.store)) _
                (record { at = KeepsTokens-refl })
                λ subscribers. open_deliveries_for-Lasting id at subscribers)

  announce_found-Lasting :
      (claims : OwnToken) (o : Option IssuedToken) → Lasting (announce_found d claims o)
  unfolding announce_found
  announce_found-Lasting claims none = Lasting-pure tt
  announce_found-Lasting claims (some stored) =
      Moves-if KeepsTokens KeepsTokens-refl KeepsTokens-trans (is_of d claims stored)
        (announce_revocation d stored) (pure tt) (announce_revocation-Lasting stored)
        (Lasting-pure tt)

-- After a revocation no token under the identifier is unrevoked.
revoke_token-lem :
    (id : String) (at : ℕ) (store : ServiceStore) (found : IssuedToken)
    → find_token_by_id id (revoke_token id at store).1 ≡ some found
    → is_some found.revoked_at ≡ true
unfolding revoke_token revoke_found find_token_by_id
revoke_token-lem id at store found h = elim (Option-cases (Map.get id store.tokens)) [
  | inl absent ↦ absurd (cc (rw absent at h, absent))
  | inr (token, there) ↦ elim (Bool-cases (is_some token.revoked_at)) [
    | inl before ↦
        let same : token ≡ found = cc (rw (there, before) at h, there) in
        subst (λ (x : IssuedToken). is_some x.revoked_at ≡ true) same before
    | inr fresh ↦
        let revoked : IssuedToken = record token { revoked_at = some at } in
        let same : revoked ≡ found =
          cc (rw (there, fresh) at h, get-set id id revoked store.tokens, eq_refl id) in
        subst (λ (x : IssuedToken). is_some x.revoked_at ≡ true) same refl
  ]
]

module _ (d : AgentDeps) where
  revoke_own-lem :
      (claims : OwnToken) (s : Agent) (found : IssuedToken)
      → find_token_by_id claims.jti (revoke_own d claims s).1.store ≡ some found
      → is_some found.revoked_at ≡ true
  unfolding revoke_own agent_now claim_now find_token_by_id
  revoke_own-lem claims s found h =
      revoke_token-lem claims.jti at s.store found
        (sym (ap (λ (m : Map IssuedToken). Map.get claims.jti m) kept.tokens) ∙ h)
    where
      at : ℕ
      at = d.claim.clock s.ceremony.ticks

      done : Bool × ServiceStore
      done = revoke_token claims.jti at s.store

      middle : Agent
      middle = record (agent_now d s).1 { store = done.1 }

      kept : KeepsTokens middle (revoke_own d claims s).1
      kept =
          (Moves-if KeepsTokens KeepsTokens-refl KeepsTokens-trans (not done.0) (pure tt) _
              (Lasting-pure tt)
              (Lasting-bind (gets (λ s. find_token_by_id claims.jti s.store)) _
                (record { at = KeepsTokens-refl })
                λ stored. announce_found-Lasting d claims stored)).at
            middle

  -- The claims that a revocation acts on are those of the token.
  own_claims-lem :
      (token : String) (fields : Fields) (s : Agent) {claims : OwnToken}
      → (verify_own_token_for_revocation d token fields s).0 ≡ ok (some claims)
      → (opened : OpenedJwt) × (decode_jwt d.jose token ≡ some opened)
        × (claims.jti ≡ opened.claims.jti)
  unfolding verify_own_token_for_revocation
  own_claims-lem token fields s {claims} h = elim (Option-cases (own_resource d fields)) [
    | inl other ↦ absurd (cc (rw (verify_own_token_for_revocation, other) at h))
    | inr (resource, own) ↦ of resource (rw (verify_own_token_for_revocation, own) at h)
  ]
    where
      of :
          (resource : String)
          → ◌≡◌ {A = Result OauthErrorCode (Option OwnToken)}
              (ok (
                own_token d resource (
                  success_of
                    (verify_jwt d
                      (own_keys d)
                      (record { issuer = d.issuer; audience = resource })
                      false
                      token
                      s).0)))
              (ok (some claims))
          → (opened : OpenedJwt) × (decode_jwt d.jose token ≡ some opened)
            × (claims.jti ≡ opened.claims.jti)
      of resource g =
          let expected : Expected = record { issuer = d.issuer; audience = resource } in
          let run = verify_jwt d (own_keys d) expected false token s in
          elim (Result-cases run.0) [
            | inr (code, thrown) ↦ absurd (cc (rw thrown at g))
            | inl (jwt, good) ↦
                let v =
                  (Quiet-verify d {s0 = s} (own_keys d) expected false token).at s jwt (Same-refl s)
                    good in
                let same : jwt.claims.jti ≡ claims.jti = cc (rw good at g) in
                (v.opened, v.decoded, sym same ∙ ap (λ (c : JwtClaims). c.jti) v.claims)
          ]

  -- Once `revoke` was called with a token that verifies as the service's own, the token is never
  -- accepted again: for no resource and whatever the clock says, after any further tokens were issued
  -- or revoked, as long as none is issued under the same identifier.
  pub revoked_stays_refused :
      (token : String) (fields : Fields) (s t : Agent) (expected : Option String)
      {claims : OwnToken}
      → payload_of d token ≡ some (object fields)
      → (verify_own_token_for_revocation d token fields s).0 ≡ ok (some claims)
      → LaterTokens claims.jti (revoke d token s).1.store t.store
      → is_ok (validate_access_token d token expected t).0 ≡ false
  unfolding revoke revoke_fields find_token_by_id
  revoked_stays_refused token fields s t expected {claims} payload own later =
      elim (Result-cases (validate_access_token d token expected t).0) [
        | inr (code, thrown) ↦ rw thrown refl
        | inl (stored, good) ↦
            let (a, unchanged) = validate_access_token-IsAccepted d token expected t good in
            let (opened, decoded, jti) = own_claims-lem token fields s own in
            let one : a.verified.opened ≡ opened = cc (a.verified.decoded, decoded) in
            let id : a.jwt.claims.jti ≡ claims.jti =
              ap (λ (c : JwtClaims). c.jti) a.verified.claims
              ∙ ap (λ (o : OpenedJwt). o.claims.jti) one
              ∙ sym jti in
            let checked = (verify_own_token_for_revocation d token fields s).1 in
            let left : (revoke d token s).1.store.tokens
                ≡ (revoke_own d claims checked).1.store.tokens =
              rw (revoke, payload)
                (ap (λ (r : Result OauthErrorCode (Unit {0}) × Agent). r.1.store.tokens)
                  (bind-run (verify_own_token_for_revocation d token fields) (revoke_if d) s
                    own)) in
            let used =
              later-IsDead later
                (λ x g.
                  revoke_own-lem claims checked x
                    (ap (λ (m : Map IssuedToken). Map.get claims.jti m) (sym left) ∙ g))
                stored (ap (λ k. Map.get k t.store.tokens) (sym id) ∙ a.found) in
            absurd (cc (used, a.unrevoked))
      ]
