-- ===== src/Service/Agent/Tokens/Later.antt =====
-- packages/service/src/repository.ts: what later writes of tokens do to one that is revoked.
use warden_md.Common.{
  Bool-cases, Option-cases, is_some, ℕ, String, ◌≡◌, refl, sym, ap, ◌∙◌, subst, ◌≢◌, inl, inr, true,
  some, ◌==◌, eq_iff,
}
use warden_md.Common.Map
use warden_md.Common.Map.{Map, get-set}
use warden_md.Service.Types.{IssuedToken}
use warden_md.Service.Store.{ServiceStore, create_token, revoke_found, revoke_token}

-- Stores after a store whose tokens differ from it by the writes that a `ServiceStore` has for them:
-- further tokens are created, under other identifiers than `k`, and tokens are revoked.
pub data LaterTokens (k : String) (s : ServiceStore) : ServiceStore → Type 0 where
  same_tokens : (u : ServiceStore) → u.tokens ≡ s.tokens → LaterTokens k s u
  created :
      (t u : ServiceStore) (token : IssuedToken)
      → LaterTokens k s t
      → token.id ≢ k
      → u.tokens ≡ (create_token token t).tokens
      → LaterTokens k s u
  revoked :
      (t u : ServiceStore) (id : String) (at : ℕ)
      → LaterTokens k s t
      → u.tokens ≡ (revoke_token id at t).1.tokens
      → LaterTokens k s u

-- No token under the identifier is unrevoked.
abbrev pub IsDead : String → ServiceStore → Type 0
IsDead k s = (x : IssuedToken) → Map.get k s.tokens ≡ some x → is_some x.revoked_at ≡ true

revoke_token-IsDead :
    (k id : String) (at : ℕ) (t : ServiceStore) → IsDead k t → IsDead k (revoke_token id at t).1
unfolding revoke_token revoke_found
revoke_token-IsDead k id at t dead x h = elim (Option-cases (Map.get id t.tokens)) [
  | inl absent ↦ dead x (rw absent at h)
  | inr (token, there) ↦ elim (Bool-cases (is_some token.revoked_at)) [
    | inl before ↦ dead x (rw (there, before) at h)
    | inr fresh ↦
        let late : IssuedToken = record token { revoked_at = some at } in
        elim (Bool-cases (id == k)) [
          | inl same ↦
              let one : late ≡ x = cc (rw (there, fresh) at h, get-set id k late t.tokens, same) in
              subst (λ (y : IssuedToken). is_some y.revoked_at ≡ true) one refl
          | inr apart ↦ dead x (cc (rw (there, fresh) at h, get-set id k late t.tokens, apart))
        ]
  ]
]

create_token-IsDead :
    (k : String) (token : IssuedToken) (t : ServiceStore)
    → token.id ≢ k
    → IsDead k t
    → IsDead k (create_token token t)
unfolding create_token
create_token-IsDead k token t other dead x h = elim (Bool-cases (token.id == k)) [
  | inl same ↦ absurd (other ((eq_iff token.id k).0 same))
  | inr apart ↦ dead x (cc (h, get-set token.id k token t.tokens, apart))
]

pub later-IsDead : {k : String} {s u : ServiceStore} → LaterTokens k s u → IsDead k s → IsDead k u
later-IsDead {k} (same_tokens u e) dead x h =
    dead x (ap (λ (m : Map IssuedToken). Map.get k m) (sym e) ∙ h)
later-IsDead {k} (created t u token later other e) dead x h =
    create_token-IsDead k token t other (later-IsDead later dead) x
      (ap (λ (m : Map IssuedToken). Map.get k m) (sym e) ∙ h)
later-IsDead {k} (revoked t u id at later e) dead x h =
    revoke_token-IsDead k id at t (later-IsDead later dead) x
      (ap (λ (m : Map IssuedToken). Map.get k m) (sym e) ∙ h)
