-- ===== src/Service/Jose/Verify.antt =====
-- packages/service/src/jose.ts: the parts of `verifyJwt` between its awaits. Every failure is the
-- error `invalid_grant`.
use warden_md.Common.{
  ltb, leb, get_or, split_from, split, ℕ, ◌+◌, String, Bool, false, ◌&&◌, Option, none, some, ◌==◌,
}
use warden_md.Service.Jose.{
  JoseDeps, JwtHeader, JwtClaims, audience_contains, ◌>>=?◌, parse_header, parse_claims,
  decode_signature, parts_of, message_of,
}

-- What verification needs to know: the issuer and the audience that it expects.
pub record Expected : Type 0 where
  pub issuer : String
  pub audience : String

pub record OpenedJwt : Type 0 where
  pub header : JwtHeader
  pub claims : JwtClaims
  pub message : String
  pub signature : String

unfoldable pub decode_jwt : JoseDeps → String → Option OpenedJwt
unfolding parts_of split_from parse_header parse_claims
decode_jwt d token = parts_of (split b'.' token) >>=? λ parts.
    d.decode_json parts.0 >>=? λ header_value. parse_header header_value >>=? λ header.
    d.decode_json parts.1 >>=? λ claims_value. parse_claims claims_value >>=? λ claims.
    some (record {
      header = header;
      claims = claims;
      message = message_of parts.0 parts.1;
      signature = parts.2;
    })

unfoldable pub is_expected : Expected → JwtClaims → Bool
unfolding audience_contains
is_expected expected claims =
    claims.iss == expected.issuer && audience_contains claims.aud expected.audience

-- `claims.exp > now && claims.iat <= now + 60 && (claims.nbf ?? 0) <= now`, in seconds
unfoldable pub is_current : ℕ → JwtClaims → Bool
is_current now claims =
    ltb now claims.exp && leb claims.iat (now + 60) && leb (get_or claims.nbf 0) now

unfoldable pub is_signed : JoseDeps → ℕ → OpenedJwt → Bool
unfolding decode_signature
is_signed d key opened = elim (decode_signature d opened.signature) [
  | none ↦ false
  | some signature ↦ d.verify_text key signature opened.message
]
