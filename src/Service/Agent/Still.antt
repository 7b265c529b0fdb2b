-- ===== src/Service/Agent/Still.antt =====
-- packages/service/src/service.ts: what leaves the store as it is.
use warden_md.Common.{
  pure, require, gets, throw_if, ◌>>=◌, ◌>>◌, Moves, Moves-require, Moves-bind, Moves-throw_if, ℕ,
  String, ◌≡◌, refl, ◌∙◌, Bool, false, not, Option,
}
use warden_md.Service.Errors.{OauthErrorCode, invalid_grant}
use warden_md.Service.Jose.Verify.{Expected, decode_jwt, is_expected, is_current, is_signed}
use warden_md.Service.Agent.{
  AgentDeps, Agent, S, integer_seconds, agent_now, mark_replay, verify_jwt,
}

-- The store is the same.
pub record Still (s t : Agent) : Type 0 where
  pub store : t.store ≡ s.store

pub Still-refl : (s : Agent) → Still s s
Still-refl s = record { store = refl }

pub Still-trans : (s t u : Agent) → Still s t → Still t u → Still s u
Still-trans s t u p q = record { store = q.store ∙ p.store }

pub Still-bind :
    {A B : Type 0} (m : S A) (f : A → S B)
    → Moves Still m
    → ((a : A) → Moves Still (f a))
    → Moves Still (m >>= f)
Still-bind = Moves-bind Still Still-refl Still-trans

pub Still-need : {A : Type 0} (o : Option A) (e : OauthErrorCode) → Moves Still (require o e)
Still-need = Moves-require Still Still-refl Still-trans

pub Still-guard :
    {A : Type 0} (b : Bool) (e : OauthErrorCode) (n : S A)
    → Moves Still n
    → Moves Still (throw_if b e >> n)
Still-guard b e n p =
    Still-bind (throw_if b e) (λ _. n) (Moves-throw_if Still Still-refl b e) (λ _. p)

module _ (d : AgentDeps) where
  pub verify-Still :
      (resolve : ℕ → String → String → Option ℕ) (expected : Expected) (token : String)
      → Moves Still (verify_jwt d resolve expected false token)
  unfolding verify_jwt mark_replay agent_now
  verify-Still resolve expected token =
      Still-bind _ _ (Still-need (decode_jwt d.jose token) invalid_grant) λ opened.
        Still-guard (not (is_expected expected opened.claims)) invalid_grant _ (
          Still-bind (agent_now d) _ (record { at = λ s. record { store = refl } })
            λ at.
              Still-guard (not (is_current (integer_seconds at) opened.claims)) invalid_grant _ (
                let find : Agent → Option ℕ =
                  λ s. resolve s.ceremony.ticks opened.claims.iss opened.header.kid in
                Still-bind (gets find) _ (record { at = Still-refl })
                  λ found. Still-bind _ _ (Still-need found invalid_grant) λ key.
                    Still-guard (not (is_signed d.jose key opened)) invalid_grant _ (
                      Still-bind (mark_replay d false opened.claims)
                        (λ _. pure (record { header = opened.header; claims = opened.claims }))
                        (record { at = Still-refl }) (λ _. record { at = Still-refl }))))
