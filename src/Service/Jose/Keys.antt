-- ===== src/Service/Jose/Keys.antt =====
-- packages/service/src/jose.ts: the keys that a service trusts, and the ones that it publishes.
use warden_md.Common.{
  if◌then◌else◌, truthy, includes, ℕ, String, Bool, false, not, ◌||◌, Option, none, some, List, [],
  ◌∷◌, map, ◌==◌,
}
use warden_md.Common.Map
use warden_md.Common.Map.{Map}

-- The members of a JWK that the code reads.
pub record PublicJwk : Type 0 where
  pub kty : Option String
  pub crv : Option String
  pub x : Option String
  pub y : Option String
  pub d : Option String
  pub kid : Option String
  pub use_for : Option String
  pub alg : Option String

pub record SigningKey : Type 0 where
  pub kid : String
  pub private_key : ℕ
  pub public_jwk : PublicJwk

abbrev pub is_exactly : String → Option String → Bool
is_exactly expected none = false
is_exactly expected (some s) = s == expected

abbrev pub has_text : Option String → Bool
has_text none = false
has_text (some s) = truthy s

-- `import_key` is `crypto.subtle.importKey` for an ES256 public key, `none` where it rejects.
unfoldable pub import_es256_verification_key : (PublicJwk → Option ℕ) → PublicJwk → Option ℕ
import_es256_verification_key import_key jwk =
    if not (is_exactly "EC" jwk.kty)
      || not (is_exactly "P-256" jwk.crv)
      || not (has_text jwk.x)
      || not (has_text jwk.y)
    then none
    else import_key jwk

-- What every object inherits: `keys[kid]` is truthy for these names on a fresh object.
abbrev pub inherited : List String
inherited =
    "constructor" ∷ "hasOwnProperty" ∷ "isPrototypeOf" ∷ "propertyIsEnumerable" ∷ "toLocaleString"
    ∷ "toString" ∷ "valueOf" ∷ "__proto__" ∷ "__defineGetter__" ∷ "__defineSetter__"
    ∷ "__lookupGetter__" ∷ "__lookupSetter__" ∷ []

abbrev pub add_key : Map ℕ → String → Option ℕ → Option (Map ℕ)
add_key keys kid none = none
add_key keys kid (some key) = some (Map.set kid key keys)

-- One round of the loop, `none` where it throws.
unfoldable pub trust_key :
    (PublicJwk → Option ℕ) → Map ℕ → PublicJwk → Option String → Option (Map ℕ)
unfolding import_es256_verification_key
trust_key import_key keys jwk none = none
trust_key import_key keys jwk (some kid) =
    if not (truthy kid) || includes inherited kid || Map.has kid keys
    then none
    else add_key keys kid (import_es256_verification_key import_key jwk)

unfoldable pub trust_keys : (PublicJwk → Option ℕ) → List PublicJwk → Map ℕ → Option (Map ℕ)
unfolding trust_key
trust_keys import_key [] keys = some keys
trust_keys import_key (jwk ∷ rest) keys = elim (trust_key import_key keys jwk jwk.kid) [
  | none ↦ none
  | some more ↦ trust_keys import_key rest more
]

pub record StaticVerificationKeys : Type 0 where
  pub issuer : String
  pub keys : Map ℕ

unfoldable pub resolve_static : StaticVerificationKeys → String → String → Option ℕ
resolve_static trusted issuer kid =
    if issuer == trusted.issuer then Map.get kid trusted.keys else none

unfoldable pub create_verification_keys_from_jwks :
    (PublicJwk → Option ℕ) → String → List PublicJwk → Option StaticVerificationKeys
unfolding trust_keys
create_verification_keys_from_jwks import_key issuer jwks = elim (trust_keys import_key jwks []) [
  | none ↦ none
  | some keys ↦ some (record { issuer = issuer; keys = keys })
]

unfoldable pub create_static_verification_keys :
    (PublicJwk → Option ℕ) → String → SigningKey → List PublicJwk → Option StaticVerificationKeys
unfolding create_verification_keys_from_jwks
create_static_verification_keys import_key issuer signing_key retired_keys =
    create_verification_keys_from_jwks import_key issuer (signing_key.public_jwk ∷ retired_keys)

-- `const { d: _privatePart, ...value } = jwk`
unfoldable pub public_jwk : PublicJwk → PublicJwk
public_jwk jwk = record jwk { d = none }

unfoldable pub jwks : SigningKey → List PublicJwk → List PublicJwk
unfolding public_jwk
jwks signing_key retired_keys =
    record signing_key.public_jwk {
      d = none;
      kid = some signing_key.kid;
      use_for = some "sig";
      alg = some "ES256";
    }
    ∷ map public_jwk retired_keys
