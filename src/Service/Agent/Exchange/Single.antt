-- ===== src/Service/Agent/Exchange/Single.antt =====
-- packages/service/src/service.ts: `exchangeToken` with a claim grant, and the claim ceremony.
use warden_md.Service.Store.{first}
use warden_md.Common.{
  Result, ok, ◌>>=◌, is_ok, bind-eq-ok, Result-cases, bind-run, String, ◌≡◌, refl, sym, ap, ◌∙◌,
  inl, inr, true, false, some, ◌==◌,
}
use warden_md.Service.Errors.{OauthErrorCode}
use warden_md.Service.Types.{ClaimRecord}
use warden_md.Service.Agent.Exchange.{
  TokenExchangeRequest, TokenExchangeResult, ExchangeAuthorization, claim_grant_type,
  claim_authorization, identity_for_exchange, narrow, issue_token, exchange_token,
}
use warden_md.Service.Agent.Exchange.Consumption.{
  Consumed, Consumed-then, verify_grant, after_verify, verified-Consumed,
}
use warden_md.Service.Agent.Exchange.Once.{Keeping-bind, narrow-Keeping, issue_token-Keeping}
use warden_md.Service.Claim.Consumption.{consumed_once}
use warden_md.Service.Claim.Follows.{Follows-refl, Grows, Grows-trans, Known-read}
use warden_md.Common.Map
use warden_md.Common.Map.{Map}
use warden_md.Service.Claim.{Ceremony}
use warden_md.Service.Claim.Operations.{consume_found}
use warden_md.Service.Json.{property, string_of}
use warden_md.Service.Jose.Verify.{OpenedJwt}
use warden_md.Service.Agent.{AgentDeps, Agent, S, given}

-- Claims are stored under their identifiers.
abbrev pub IsKeyed : Ceremony → Type 0
IsKeyed c = (k : String) (claim : ClaimRecord) → Map.get k c.claims ≡ some claim → claim.id ≡ k

module _ (d : AgentDeps) where
  abbrev issue_for : TokenExchangeRequest → ExchangeAuthorization → S TokenExchangeResult
  issue_for request a = narrow d request a >>= λ n. issue_token d a.identity n.0 n.1

  exchange_token-Consumed :
      (request : TokenExchangeRequest) (grant : String) (s : Agent) {result : TokenExchangeResult}
      → (request.grant_type == claim_grant_type) ≡ true
      → given request.claim_grant ≡ some grant
      → (exchange_token d request s).0 ≡ ok result
      → Consumed d grant s (exchange_token d request s).1
  unfolding exchange_token identity_for_exchange claim_authorization
  exchange_token-Consumed request grant s {result} kind text h =
      let (a, first, rest) =
        bind-eq-ok (verify_grant d grant >>= after_verify d) (issue_for request) s
          (rw (kind, text) at h) in
      let c = (verified-Consumed d grant s first).0 in
      let s1 = ((verify_grant d grant >>= after_verify d) s).1 in
      Consumed-then d grant s s1 _ c (
        rw (kind, text)
          (ap (λ (r : Result OauthErrorCode TokenExchangeResult × Agent). r.1.ceremony.claims)
              (bind-run (verify_grant d grant >>= after_verify d) (issue_for request) s first)
            ∙ ((Keeping-bind (narrow d request a) (λ n. issue_token d a.identity n.0 n.1)
                  (narrow-Keeping d request a) (λ n. issue_token-Keeping d a.identity n.0 n.1)).at
                s1).claims))

  Grows-same : (s t : Ceremony) → t.claims ≡ s.claims → Grows s t
  Grows-same s t e = record { claims = λ k old h. (old, rw e h, Follows-refl old) }

  -- A claim grant is exchanged once: after an exchange of it has succeeded, every exchange of the same
  -- grant fails, at any state in which the claims are those that were left or later ones. Claims are
  -- stored under their identifiers.
  pub claim_exchanged_once :
      (request other : TokenExchangeRequest) (grant : String) (s t : Agent)
      {result : TokenExchangeResult}
      → (request.grant_type == claim_grant_type) ≡ true
      → given request.claim_grant ≡ some grant
      → (other.grant_type == claim_grant_type) ≡ true
      → given other.claim_grant ≡ some grant
      → IsKeyed s.ceremony
      → IsKeyed t.ceremony
      → (exchange_token d request s).0 ≡ ok result
      → Grows (exchange_token d request s).1.ceremony t.ceremony
      → is_ok (exchange_token d other t).0 ≡ false
  claim_exchanged_once request other grant s t kind text kind' text' keyed keyed' done grows =
      elim (Result-cases (exchange_token d other t).0) [
        | inr (code, thrown) ↦ rw thrown refl
        | inl (again, good) ↦
            let a = exchange_token-Consumed request grant s kind text done in
            let b = exchange_token-Consumed other grant t kind' text' good in
            let one : a.named.opened ≡ b.named.opened = cc (a.named.decoded, b.named.decoded) in
            let two : some a.id ≡ some b.id =
              sym a.named.names
              ∙ ap (λ (o : OpenedJwt). string_of (property "claim_id" o.claims.all_claims)) one
              ∙ b.named.names in
            let same : a.id ≡ b.id = cc two in
            let ida : a.claim.id ≡ a.id = keyed a.id a.claim (rw (sym a.before) a.found) in
            let idb : b.claim.id ≡ b.id = keyed' b.id b.claim (rw (sym b.before) b.found) in
            let final = (exchange_token d request s).1.ceremony in
            let left = (consume_found d.claim a.claim a.at).1 in
            let refused =
              consumed_once d.claim a.claim b.claim a.at b.at
                (Known-read a.claim a.at (rw ida a.found)) a.granted
                (Grows-trans left final b.at (Grows-same left final a.after)
                  (Grows-trans final t.ceremony b.at grows (Grows-same t.ceremony b.at b.before)))
                (Known-read b.claim b.at (rw idb b.found)) (idb ∙ sym same ∙ sym ida) in
            absurd (cc (refused, b.granted))
      ]
