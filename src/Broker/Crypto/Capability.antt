-- ===== src/Broker/Crypto/Capability.antt =====
-- `Es256CapabilitySigner` of packages/broker/src/crypto.ts: signing and verifying a capability.
use warden_md.Common.{
  leb, eqb, if◌then◌else◌, split, append, Result, ok, err, ℕ, ◌*◌, String, Bool, true, false, not,
  ◌&&◌, ◌||◌, Option, none, some, List, ◌==◌,
}
use warden_md.Broker.Types.{CapabilityClaims}
use warden_md.Broker.Errors.{BrokerErrorCode, invalid_credential}
use warden_md.Broker.Crypto.{JwtHeader, WebCrypto, three_parts, unsigned_text, is_text, has_text}

pub record ParsedCapabilityToken : Type 0 where
  pub header : JwtHeader
  pub claims : CapabilityClaims
  pub signature : List ℕ
  pub unsigned : String

-- `!Number.isFinite(exp) || exp <= 0 || (!allowExpired && exp * 1000 <= now)`
unfoldable pub bad_exp : Option ℕ → ℕ → Bool → Bool
bad_exp none now allow_expired = true
bad_exp (some exp) now allow_expired = leb exp 0 || (not allow_expired && leb (exp * 1000) now)

unfoldable pub validate_capability_claims :
    CapabilityClaims → ℕ → Bool → Result BrokerErrorCode CapabilityClaims
unfolding bad_exp
validate_capability_claims claims now allow_expired =
    if bad_exp claims.exp now allow_expired
      || not (eqb claims.use_count 1)
      || not (has_text claims.jkt)
    then err invalid_credential
    else ok claims

unfoldable pub verify_capability_signature : Option Bool → Result BrokerErrorCode (Unit {0})
verify_capability_signature none = err invalid_credential
verify_capability_signature (some false) = err invalid_credential
verify_capability_signature (some true) = ok tt

module _ (c : WebCrypto) where
  unfoldable pub decode_parts :
      (String × String × String) → Result BrokerErrorCode ParsedCapabilityToken
  decode_parts (header_encoded, payload_encoded, signature_encoded) =
      elim (c.decode_header header_encoded) [
        | none ↦ err invalid_credential
        | some header ↦ elim (c.decode_claims payload_encoded) [
          | none ↦ err invalid_credential
          | some claims ↦ elim (c.decode_signature signature_encoded) [
            | none ↦ err invalid_credential
            | some signature ↦
                if not (header.alg == "ES256") || not (header.typ == "JWT")
                then err invalid_credential
                else ok (record {
                  header = header;
                  claims = claims;
                  signature = signature;
                  unsigned = unsigned_text header_encoded payload_encoded;
                })
          ]
        ]
      ]

  unfoldable pub parse_capability_token : String → Result BrokerErrorCode ParsedCapabilityToken
  unfolding decode_parts three_parts
  parse_capability_token token = elim (three_parts (split b'.' token)) [
    | none ↦ err invalid_credential
    | some parts ↦ decode_parts parts
  ]

  unfoldable pub verify_parsed :
      String → ℕ → Bool → ParsedCapabilityToken → Result BrokerErrorCode CapabilityClaims
  unfolding verify_capability_signature
  verify_parsed key_id now allow_expired parsed =
      if not (is_text parsed.header.kid key_id)
      then err invalid_credential
      else elim (verify_capability_signature (c.verify_text parsed.signature parsed.unsigned)) [
        | err e ↦ err e
        | ok _ ↦ validate_capability_claims parsed.claims now allow_expired
      ]

  -- `Es256CapabilitySigner.verify`
  unfoldable pub verify : String → String → ℕ → Bool → Result BrokerErrorCode CapabilityClaims
  unfolding verify_parsed parse_capability_token
  verify key_id token now allow_expired = elim (parse_capability_token token) [
    | err e ↦ err e
    | ok parsed ↦ verify_parsed key_id now allow_expired parsed
  ]

  -- `Es256CapabilitySigner.sign`
  unfoldable pub sign : String → CapabilityClaims → String
  sign key_id claims =
      let header : JwtHeader = record {
        alg = "ES256";
        kid = some key_id;
        typ = "JWT";
        jwk = none;
      } in
      let unsigned = unsigned_text (c.encode_header header) (c.encode_claims claims) in
      append (append unsigned ".") (c.sign_text unsigned)
