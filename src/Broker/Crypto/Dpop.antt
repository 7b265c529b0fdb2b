-- ===== src/Broker/Crypto/Dpop.antt =====
-- `verifyDpopProof` and `jwkThumbprint` of packages/broker/src/crypto.ts.
use warden_md.Common.{
  ltb, leb, if◌then◌else◌, get_or, split, Result, ok, err, ℕ, ◌+◌, ◌-◌, ◌*◌, String, Bool, true,
  false, not, ◌||◌, Option, none, some, [], ◌∷◌, ◌==◌,
}
use warden_md.Common.Map
use warden_md.Common.Map.{Map}
use warden_md.Broker.Types.{DpopProof}
use warden_md.Broker.Errors.{BrokerErrorCode, wrong_dpop_key, dpop_proof_invalid}
use warden_md.Broker.Crypto.{
  Jwk, JwtHeader, DpopPayload, WebCrypto, three_parts, unsigned_text, is_text, has_text,
}

abbrev pub dpop_window_ms : ℕ
dpop_window_ms = 300000

-- `Math.abs(a - b)`
abbrev pub abs_diff : ℕ → ℕ → ℕ
abs_diff a b = (a - b) + (b - a)

unfoldable pub bad_iat : Option ℕ → ℕ → Bool
bad_iat none now = true
bad_iat (some iat) now = ltb dpop_window_ms (abs_diff now (iat * 1000))

-- Deleting from the map while it is iterated removes exactly the entries that are over.
unfoldable pub purge : ℕ → Map ℕ → Map ℕ
purge now [] = []
purge now ((jti, expires_at) ∷ seen) =
    let rest = purge now seen in if leb expires_at now then rest else (jti, expires_at) ∷ rest

-- The end of `verifyDpopProof`, which reads and writes the replay table.
unfoldable pub admit_jti : String → ℕ → Map ℕ → Result BrokerErrorCode (Unit {0}) × Map ℕ
admit_jti jti now seen =
    let active = purge now seen in
    if Map.has jti active
    then (err dpop_proof_invalid, active)
    else (ok tt, Map.set jti (now + dpop_window_ms) active)

unfoldable pub signature_check : Option Bool → String → Result BrokerErrorCode String
signature_check none jti = err dpop_proof_invalid
signature_check (some false) jti = err dpop_proof_invalid
signature_check (some true) jti = ok jti

module _ (c : WebCrypto) (to_upper_case : String → String) where
  unfoldable pub jwk_thumbprint : Jwk → Option String
  jwk_thumbprint jwk =
      if not (has_text jwk.kty)
        || not (has_text jwk.crv)
        || not (has_text jwk.x)
        || not (has_text jwk.y)
      then none
      else some
          (c.digest_jwk (get_or jwk.crv "") (get_or jwk.kty "") (get_or jwk.x "") (get_or jwk.y ""))

  unfoldable pub key_check : Jwk → String → String → String → String → Result BrokerErrorCode String
  unfolding signature_check jwk_thumbprint
  key_check jwk expected_thumbprint unsigned signature_encoded jti = elim (jwk_thumbprint jwk) [
    | none ↦ err dpop_proof_invalid
    | some thumbprint ↦
        if not (thumbprint == expected_thumbprint)
        then err wrong_dpop_key
        else elim (c.decode_signature signature_encoded) [
          | none ↦ err dpop_proof_invalid
          | some signature ↦ signature_check (c.verify_with jwk signature unsigned) jti
        ]
  ]

  unfoldable pub claims_check :
      JwtHeader
      → DpopPayload
      → DpopProof
      → ℕ
      → (Jwk → String → Result BrokerErrorCode String)
      → Result BrokerErrorCode String
  unfolding bad_iat
  claims_check header payload proof now next = elim header.jwk [
    | none ↦ err dpop_proof_invalid
    | some jwk ↦
        if not (header.alg == "ES256")
          || not (header.typ == "JWT")
          || bad_iat payload.iat now
          || not (has_text payload.jti)
          || not (is_text payload.htm (to_upper_case proof.method))
          || not (is_text payload.htu proof.url)
        then err dpop_proof_invalid
        else next jwk (get_or payload.jti "")
  ]

  unfoldable pub decode_proof :
      DpopProof → String → ℕ → (String × String × String) → Result BrokerErrorCode String
  unfolding claims_check key_check
  decode_proof proof expected_thumbprint now (header_encoded, payload_encoded, signature_encoded) =
      elim (c.decode_header header_encoded) [
        | none ↦ err dpop_proof_invalid
        | some header ↦ elim (c.decode_payload payload_encoded) [
          | none ↦ err dpop_proof_invalid
          | some payload ↦ claims_check header payload proof now λ jwk jti.
              key_check jwk expected_thumbprint (unsigned_text header_encoded payload_encoded)
                signature_encoded jti
        ]
      ]

  -- Everything before the replay table: the proof's `jti`, or the error.
  unfoldable pub check_proof : DpopProof → String → ℕ → Result BrokerErrorCode String
  unfolding decode_proof three_parts
  check_proof proof expected_thumbprint now = elim (three_parts (split b'.' proof.token)) [
    | none ↦ err dpop_proof_invalid
    | some parts ↦ decode_proof proof expected_thumbprint now parts
  ]

  unfoldable pub verify_dpop_proof :
      DpopProof → String → ℕ → Map ℕ → Result BrokerErrorCode (Unit {0}) × Map ℕ
  verify_dpop_proof proof expected_thumbprint now seen =
      elim (check_proof proof expected_thumbprint now) [
        | err e ↦ (err e, seen)
        | ok jti ↦ admit_jti jti now seen
      ]
