-- ===== src/Service/Agent.antt =====
-- packages/service/src/service.ts: `AgentAuthService`, its configuration, its state and the methods
-- that the others call. The service and its `ClaimCeremony` share one clock, one generator of
-- identifiers and one rate limiter.
pub mod Setup
pub mod Example
mod Tests
pub mod Scopes
pub mod Quiet
pub mod Still
pub mod Register
pub mod Claims
pub mod Exchange
pub mod Tokens
pub mod Events
use Prim.Native.String
use Prim.Native.String.{[], ◌∷◌}
use Prim.Native.Char.{code}
use warden_md.Common.{
  leb, eqb, if◌then◌else◌, truthy, is_some, length, all, includes, append, ok, Exec, pure, require,
  gets, throw_if, ◌>>=◌, ◌>>◌, ℕ, ◌*◌, ◌/◌, String, Bool, true, false, not, ◌&&◌, ◌||◌, Option,
  none, some, List, [], ◌∷◌, ◌==◌,
}
use warden_md.Common.Map
use warden_md.Service.Errors.{OauthErrorCode, invalid_grant}
use warden_md.Service.Types.{ServiceIdentity}
use warden_md.Service.Store.{ServiceStore, find_identity_by_id, mark_if_unused}
use warden_md.Service.Claim.{ClaimDeps, Ceremony, C, claim_now, next_identifier}
use warden_md.Service.Encoding.{split_scope}
use warden_md.Service.Jose.{JoseDeps, JwtClaims, VerifiedJwt}
use warden_md.Service.Jose.Keys.{StaticVerificationKeys, resolve_static}
use warden_md.Service.Jose.Verify.{Expected, decode_jwt, is_expected, is_current, is_signed}

-- What `new URL(text)` gives, with `none` where it throws; `href` is `toString()`.
pub record ServiceUrl : Type 0 where
  pub protocol : String
  pub hostname : String
  pub username : String
  pub password : String
  pub search : String
  pub hash : String
  pub href : String

pub record ServiceAuthResult : Type 0 where
  pub subject : String
  pub client_id : Option String
  pub scopes : Option (List String)
  pub resource : Option String

pub record AnonymousOptions : Type 0 where
  pub expires_in_seconds : ℕ
  pub max_registrations_per_window : ℕ
  pub registration_window_seconds : ℕ

-- The fields of the object and the platform. What an awaited service answers may depend on how many
-- clock readings came before.
pub record AgentDeps : Type 0 where
  pub claim : ClaimDeps
  pub jose : JoseDeps
  pub parse_url : String → Option ServiceUrl
  pub authenticator : Option (ℕ → String → Option ServiceAuthResult)
  pub verification_keys : ℕ → String → String → Option ℕ
  pub own_verification_keys : StaticVerificationKeys
  pub key_id : String
  pub issuer : String
  pub supported_scopes : List String
  pub default_resource : String
  pub protected_resources : List String
  pub trusted_assertion_issuer : String
  pub anonymous_options : AnonymousOptions
  pub token_expires_in_seconds : ℕ

pub record Agent : Type 0 where
  pub store : ServiceStore
  pub ceremony : Ceremony

abbrev pub S : Type 0 → Type 0
S A = Exec OauthErrorCode Agent A

-- A step of the claim ceremony, and a step of the store.
abbrev pub in_ceremony : {A : Type 0} → C A → S A
in_ceremony m s =
    let (result, ceremony) = m s.ceremony in (result, record s { ceremony = ceremony })

abbrev pub in_store : {A : Type 0} → (ServiceStore → A × ServiceStore) → S A
in_store f s = let (a, store) = f s.store in (ok a, record s { store = store })

abbrev pub write_store : (ServiceStore → ServiceStore) → S (Unit {0})
write_store f s = (ok tt, record s { store = f s.store })

-- The text of an optional parameter, if it is truthy.
abbrev pub given : Option String → Option String
given none = none
given (some s) = if truthy s then some s else none

abbrev pub first_of : {A : Type 0} → Option A → Option A → Option A
first_of none other = other
first_of (some a) other = some a

-- `value.replace(/\/+$/u, "")`
unfoldable pub without_trailing_slash : String → String
without_trailing_slash [] = ""
without_trailing_slash (c ∷ s) =
    let rest = without_trailing_slash s in
    if eqb (code c) b'/' && not (truthy rest) then "" else c ∷ rest

abbrev pub integer_seconds : ℕ → ℕ
integer_seconds milliseconds = milliseconds / 1000

unfoldable pub scopes_within : List String → List String → Bool
scopes_within requested allowed = all (λ scope. includes allowed scope) requested

unfoldable pub same_scopes : List String → List String → Bool
same_scopes left right =
    eqb (length left) (length right) && all (λ scope. includes right scope) left

abbrev pub or_fallback : List String → List String → List String
or_fallback [] fallback = fallback
or_fallback parsed fallback = parsed

unfoldable pub requested_scopes : Option String → List String → List String
unfolding split_scope
requested_scopes scope fallback = or_fallback (split_scope scope) fallback

unfoldable pub bad_resource_url : ServiceUrl → Bool
bad_resource_url parsed =
    (not (parsed.protocol == "https:")
      && not (parsed.protocol == "http:" && parsed.hostname == "localhost"))
    || truthy parsed.username
    || truthy parsed.password
    || truthy parsed.search
    || truthy parsed.hash

unfoldable pub normalize_resource : (String → Option ServiceUrl) → String → Option String
unfolding bad_resource_url without_trailing_slash
normalize_resource parse_url value = elim (parse_url value) [
  | none ↦ none
  | some parsed ↦
      if bad_resource_url parsed then none else some (without_trailing_slash parsed.href)
]

module _ (d : AgentDeps) where
  unfoldable pub agent_now : S ℕ
  unfolding claim_now
  agent_now = in_ceremony (claim_now d.claim)

  unfoldable pub agent_identifier : String → S String
  unfolding next_identifier
  agent_identifier prefix = in_ceremony (next_identifier d.claim prefix)

  -- `normalized && this.protectedResources.has(normalized) ? normalized : undefined`
  unfoldable pub configured_resource : String → Option String
  unfolding normalize_resource
  configured_resource resource = elim (normalize_resource d.parse_url resource) [
    | none ↦ none
    | some normalized ↦
        if truthy normalized && includes d.protected_resources normalized
        then some normalized
        else none
  ]

  abbrev pub resource_agrees : Option String → Option String → Bool
  resource_agrees registered none = false
  resource_agrees none (some configured) = true
  resource_agrees (some registered) (some configured) = registered == configured

  unfoldable pub resource_matches : ServiceIdentity → String → Bool
  unfolding configured_resource
  resource_matches identity resource =
      resource_agrees identity.resource (configured_resource resource)

  unfoldable pub has_expired : Option ℕ → S Bool
  has_expired none = pure false
  has_expired (some expires_at) = do at ← agent_now; pure (leb expires_at at)

  -- `!identity || identity.revokedAt !== undefined || (expiresAt !== undefined && expiresAt <= now())`
  unfoldable pub require_active_identity : String → S ServiceIdentity
  unfolding has_expired
  require_active_identity id = do
    found ← gets (λ s. find_identity_by_id id s.store)
    identity ← require found invalid_grant
    throw_if (is_some identity.revoked_at) invalid_grant
    late ← has_expired identity.expires_at
    throw_if late invalid_grant
    pure identity

  abbrev pub own_keys : ℕ → String → String → Option ℕ
  own_keys ticks issuer kid = resolve_static d.own_verification_keys issuer kid

  -- `markIfUnused` under `${iss}:${jti}`, where there is a replay repository.
  unfoldable pub mark_replay : Bool → JwtClaims → S (Unit {0})
  mark_replay false claims = pure tt
  mark_replay true claims = do
    at ← agent_now
    unused ← in_store (
        mark_if_unused
          (record {
            id = append claims.iss (append ":" claims.jti);
            expires_at = claims.exp * 1000;
          })
          at)
    throw_if (not unused) invalid_grant

  unfoldable pub verify_jwt :
      (ℕ → String → String → Option ℕ) → Expected → Bool → String → S VerifiedJwt
  unfolding mark_replay
  verify_jwt resolve expected replay token = do
    opened ← require (decode_jwt d.jose token) invalid_grant
    throw_if (not (is_expected expected opened.claims)) invalid_grant
    at ← agent_now
    throw_if (not (is_current (integer_seconds at) opened.claims)) invalid_grant
    found ← gets (λ s. resolve s.ceremony.ticks opened.claims.iss opened.header.kid)
    key ← require found invalid_grant
    throw_if (not (is_signed d.jose key opened)) invalid_grant
    mark_replay replay opened.claims
    pure (record { header = opened.header; claims = opened.claims })

  -- `${this.issuer}${path}`
  unfoldable pub endpoint : String → String
  endpoint path = append d.issuer path

  abbrev pub identity_endpoint : String
  identity_endpoint = endpoint "/agent/identity"

  abbrev pub token_endpoint : String
  token_endpoint = endpoint "/oauth2/token"

  abbrev pub event_endpoint : String
  event_endpoint = endpoint "/agent/event/notify"
