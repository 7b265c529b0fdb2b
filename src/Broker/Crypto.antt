-- ===== src/Broker/Crypto.antt =====
-- packages/broker/src/crypto.ts: capability tokens and DPoP proofs. WebCrypto, base64url with
-- `JSON.parse` and the hash of a key are parameters; every test on what they return is here.
pub mod Capability
pub mod Dpop
pub mod Replay
use warden_md.Common.{
  if◌then◌else◌, truthy, append, ℕ, String, Bool, false, ◌&&◌, Option, none, some, List, [], ◌∷◌,
  ◌==◌,
}
use warden_md.Broker.Types.{CapabilityClaims}

pub record Jwk : Type 0 where
  pub kty : Option String
  pub crv : Option String
  pub x : Option String
  pub y : Option String

pub record JwtHeader : Type 0 where
  pub alg : String
  pub kid : Option String
  pub typ : String
  pub jwk : Option Jwk

-- A field is `none` when it is missing or has another JSON type than the declared one.
pub record DpopPayload : Type 0 where
  pub htm : Option String
  pub htu : Option String
  pub iat : Option ℕ
  pub jti : Option String

-- What the platform provides. `none` stands for a call that throws.
pub record WebCrypto : Type 0 where
  pub encode_header : JwtHeader → String
  pub encode_claims : CapabilityClaims → String
  pub decode_header : String → Option JwtHeader
  pub decode_claims : String → Option CapabilityClaims
  pub decode_payload : String → Option DpopPayload
  pub decode_signature : String → Option (List ℕ)
  -- The encoded signature of a text by the broker's private key, and the check by its public key.
  pub sign_text : String → String
  pub verify_text : List ℕ → String → Option Bool
  -- base64url of SHA-256 of the canonical JSON of crv, kty, x and y.
  pub digest_jwk : String → String → String → String → String
  -- `importKey` and `verify` with a key that a proof carries.
  pub verify_with : Jwk → List ℕ → String → Option Bool

-- `token.split(".")` into exactly three parts, none of them empty.
unfoldable pub three_parts : List String → Option (String × String × String)
three_parts (header ∷ payload ∷ signature ∷ []) =
    if truthy header && truthy payload && truthy signature
    then some (header, payload, signature)
    else none
three_parts _ = none

-- The text that a token's signature is over.
abbrev pub unsigned_text : String → String → String
unsigned_text header payload = append (append header ".") payload

-- `o !== s` for a value that may be missing.
abbrev pub is_text : Option String → String → Bool
is_text none s = false
is_text (some t) s = t == s

abbrev pub has_text : Option String → Bool
has_text none = false
has_text (some t) = truthy t
