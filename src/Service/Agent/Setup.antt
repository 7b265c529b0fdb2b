-- ===== src/Service/Agent/Setup.antt =====
-- packages/service/src/service.ts: `AgentAuthService.create`, `SharedSecretServiceAuthenticator` and
-- the two metadata documents.
use warden_md.Common.{
  eqb, if◌then◌else◌, truthy, is_some, get_or, any, codes, Result, ok, err, ℕ, String, Bool, true,
  false, not, ◌&&◌, ◌||◌, Option, none, some, List, [], ◌∷◌,
}
use warden_md.Service.Encoding.{distinct, constant_time_equal}
use warden_md.Service.Json.{Json, string, array, object, Items, nil, cons, end, field}
use warden_md.Service.Jose.Keys.{
  PublicJwk, SigningKey, StaticVerificationKeys, create_static_verification_keys,
}
use warden_md.Service.Agent.{
  ServiceUrl, ServiceAuthResult, AnonymousOptions, AgentDeps, without_trailing_slash,
  normalize_resource, endpoint,
}

-- `constantTimeEqual(token, this.secret) ? this.result : undefined`, with the bytes that `utf8` gives.
unfoldable pub shared_secret_authenticate :
    (String → List ℕ) → String → ServiceAuthResult → String → Option ServiceAuthResult
shared_secret_authenticate utf8 secret result token =
    if constant_time_equal (utf8 token) (utf8 secret) then some result else none

-- `text.startsWith(prefix)`
unfoldable pub starts_with : List ℕ → List ℕ → Bool
starts_with [] text = true
starts_with (p ∷ prefix) [] = false
starts_with (p ∷ prefix) (c ∷ text) = let rest = starts_with prefix text in eqb p c && rest

unfoldable pub is_issuer : String → Bool
unfolding starts_with
is_issuer issuer =
    starts_with (codes "https://") (codes issuer)
    || starts_with (codes "http://localhost") (codes issuer)

-- `ServiceOptions`, with the platform and the dependencies of the service in `platform`.
pub record ServiceOptions : Type 0 where
  pub issuer : String
  pub supported_scopes : List String
  pub default_resource : String
  pub protected_resources : Option (List String)
  pub signing_key : SigningKey
  pub retired_signing_keys : Option (List PublicJwk)
  pub trusted_assertion_issuer : String
  pub anonymous_options : AnonymousOptions
  pub token_expires_in_seconds : ℕ

pub data SetupError : Type 0 where
  issuer_not_allowed : SetupError
  no_supported_scope : SetupError
  default_resource_not_allowed : SetupError
  protected_resource_not_allowed : SetupError
  retired_key_not_public : SetupError
  keys_not_trusted : SetupError

-- `resources.map(...)`, `none` where one of them throws.
unfoldable pub normalize_all : (String → Option ServiceUrl) → List String → Option (List String)
normalize_all parse_url [] = some []
normalize_all parse_url (resource ∷ rest) = elim (normalize_resource parse_url resource) [
  | none ↦ none
  | some normalized ↦
      if truthy normalized
      then elim (normalize_all parse_url rest) [
        | none ↦ none
        | some more ↦ some (normalized ∷ more)
      ]
      else none
]

abbrev pub is_private : PublicJwk → Bool
is_private key = is_some key.d

-- What `create` works out, or the error that it throws.
pub record Settings : Type 0 where
  pub issuer : String
  pub default_resource : String
  pub protected_resources : List String
  pub own_verification_keys : StaticVerificationKeys

module _ (parse_url : String → Option ServiceUrl) (import_key : PublicJwk → Option ℕ) where
  abbrev pub or_error : {A : Type 0} → Option A → SetupError → Result SetupError A
  or_error none e = err e
  or_error (some a) e = ok a

  unfoldable pub resources_of : String → Option (List String) → Result SetupError (List String)
  unfolding normalize_all
  resources_of default_resource protected_resources =
      elim (normalize_all parse_url (default_resource ∷ get_or protected_resources [])) [
        | none ↦ err protected_resource_not_allowed
        | some normalized ↦ ok (distinct normalized)
      ]

  abbrev pub settings_with :
      String
      → String
      → Result SetupError (List String)
      → Bool
      → Option StaticVerificationKeys
      → Result SetupError Settings
  settings_with issuer default_resource (err e) retired_private keys = err e
  settings_with issuer default_resource (ok resources) true keys = err retired_key_not_public
  settings_with issuer default_resource (ok resources) false none = err keys_not_trusted
  settings_with issuer default_resource (ok resources) false (some keys) = ok (record {
    issuer = issuer;
    default_resource = default_resource;
    protected_resources = resources;
    own_verification_keys = keys;
  })

  abbrev pub settings_for : ServiceOptions → String → Option String → Result SetupError Settings
  settings_for options issuer none = err default_resource_not_allowed
  settings_for options issuer (some default_resource) =
      let retired = get_or options.retired_signing_keys [] in
      if not (truthy default_resource)
      then err default_resource_not_allowed
      else settings_with issuer default_resource
          (resources_of default_resource options.protected_resources) (any is_private retired)
          (create_static_verification_keys import_key issuer options.signing_key retired)

  abbrev pub is_none_given : List String → Bool
  is_none_given [] = true
  is_none_given _ = false

  unfoldable pub create_settings : ServiceOptions → Result SetupError Settings
  unfolding is_issuer without_trailing_slash normalize_resource
  create_settings options =
      let issuer = without_trailing_slash options.issuer in
      if not (is_issuer issuer)
      then err issuer_not_allowed
      else if is_none_given options.supported_scopes
      then err no_supported_scope
      else settings_for options issuer (normalize_resource parse_url options.default_resource)

-- `authorization_servers: [...]` and the like.
unfoldable pub texts : List String → Items
texts [] = nil
texts (s ∷ rest) = cons (string s) (texts rest)

module _ (d : AgentDeps) where
  unfoldable pub protected_resource_metadata : Json
  unfolding endpoint texts
  protected_resource_metadata = object (
      field "resource" (string d.default_resource) (
        field "authorization_servers" (array (texts (d.issuer ∷ []))) (
          field "bearer_methods_supported" (array (texts ("header" ∷ []))) (
            field "scopes_supported" (array (texts d.supported_scopes))
              (field "resource_documentation" (string (endpoint d "/auth.md")) end)))))
