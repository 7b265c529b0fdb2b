-- ===== src/Service/Jose.antt =====
-- packages/service/src/jose.ts: signing and verifying ES256 tokens, and the keys.
pub mod Verify
pub mod Keys
use Prim.Native.Char.{Char, code}
use Prim.Native.String
use Prim.Native.String.{[], ◌∷◌}
use warden_md.Common.{
  leb, eqb, if◌then◌else◌, truthy, all, includes, append, codes, ℕ, zero, suc, ◌-◌, ◌%◌, String,
  Bool, true, false, not, ◌&&◌, ◌||◌, Option, none, some, List, [], ◌∷◌, ◌==◌,
}
use warden_md.Service.Json.{
  Json, string, array, object, nil, cons, Fields, end, field, property, fields_of, optional_text,
  integer_of, strings_of,
}

-- WebCrypto, base64url and JSON. A `CryptoKey` is a number. `encode_json` is `encodeJson` and
-- `decode_json` is `decodeJson`, with `none` where it throws; `sign_text` is the signature of the
-- service's own key in base64url; `atob` gives the bytes of standard base64.
pub record JoseDeps : Type 0 where
  pub encode_json : Json → String
  pub decode_json : String → Option Json
  pub sign_text : String → String
  pub verify_text : ℕ → List ℕ → String → Bool
  pub atob : String → Option (List ℕ)

pub record JwtHeader : Type 0 where
  pub kid : String
  pub typ : Bool

pub data Audience : Type 0 where
  single : String → Audience
  several : List String → Audience

-- The named claims, and all of them for `claims[name]`.
pub record JwtClaims : Type 0 where
  pub iss : String
  pub sub : String
  pub aud : Audience
  pub exp : ℕ
  pub iat : ℕ
  pub jti : String
  pub nbf : Option ℕ
  pub all_claims : Fields

pub record VerifiedJwt : Type 0 where
  pub header : JwtHeader
  pub claims : JwtClaims

-- `isAudience(value)`
unfoldable pub audience_of : Option Json → Option Audience
unfolding strings_of
audience_of (some (string s)) = some (single s)
audience_of (some (array nil)) = none
audience_of (some (array (cons first rest))) = elim (strings_of (cons first rest)) [
  | none ↦ none
  | some texts ↦ some (several texts)
]
audience_of _ = none

unfoldable pub audience_contains : Audience → String → Bool
audience_contains (single audience) expected = audience == expected
audience_contains (several audiences) expected = includes audiences expected

-- `typ` is absent or "JWT"
abbrev pub typ_of : Option Json → Option Bool
typ_of none = some false
typ_of (some (string s)) = if s == "JWT" then some true else none
typ_of _ = none

abbrev pub is_text : String → Option Json → Bool
is_text expected (some (string s)) = s == expected
is_text expected _ = false

-- `do` over what may be missing
module _ {A B : Type 0} where
  infixl 10 ◌>>=?◌
  abbrev pub ◌>>=?◌ : Option A → (A → Option B) → Option B
  none >>=? f = none
  some a >>=? f = f a

unfoldable pub parse_header : Json → Option JwtHeader
unfolding optional_text
parse_header value = fields_of value >>=? λ fields.
    if not (is_text "ES256" (property "alg" fields))
    then none
    else optional_text (property "kid" fields) >>=? λ kid.
        typ_of (property "typ" fields) >>=? λ typ. some (record { kid = kid; typ = typ })

-- `nbf` is absent or an integer
abbrev pub nbf_of : Option Json → Option (Option ℕ)
nbf_of none = some none
nbf_of value = integer_of value >>=? λ nbf. some (some nbf)

unfoldable pub parse_claims : Json → Option JwtClaims
unfolding optional_text audience_of
parse_claims value = fields_of value >>=? λ fields.
    optional_text (property "iss" fields) >>=? λ iss.
    optional_text (property "sub" fields) >>=? λ sub.
    audience_of (property "aud" fields) >>=? λ aud. integer_of (property "exp" fields) >>=? λ exp.
    integer_of (property "iat" fields) >>=? λ iat. optional_text (property "jti" fields) >>=? λ jti.
    nbf_of (property "nbf" fields) >>=? λ nbf. some (record {
      iss = iss;
      sub = sub;
      aud = aud;
      exp = exp;
      iat = iat;
      jti = jti;
      nbf = nbf;
      all_claims = fields;
    })

-- `[A-Za-z0-9_-]`
abbrev pub is_base64url : ℕ → Bool
is_base64url c =
    (leb b'A' c && leb c b'Z')
    || (leb b'a' c && leb c b'z')
    || (leb b'0' c && leb c b'9')
    || eqb c b'_'
    || eqb c b'-'

-- `.replaceAll("-", "+").replaceAll("_", "/")`
abbrev pub standard_character : Char → Char
standard_character c = if eqb (code c) b'-' then "+" else if eqb (code c) b'_' then "/" else c

unfoldable pub standard_alphabet : String → String
standard_alphabet [] = ""
standard_alphabet (c ∷ s) = standard_character c ∷ standard_alphabet s

-- `"=".repeat((4 - (n % 4)) % 4)`
abbrev pub equals_signs : ℕ → String
equals_signs zero = ""
equals_signs (suc n) = append "=" (equals_signs n)

unfoldable pub decode_signature : JoseDeps → String → Option (List ℕ)
unfolding standard_alphabet
decode_signature d encoded =
    if not (truthy encoded) || not (all is_base64url (codes encoded))
    then none
    else let normalized = standard_alphabet encoded in
      d.atob (append normalized (equals_signs ((4 - String.count normalized % 4) % 4)))

-- The three parts of a token, none of them empty.
unfoldable pub parts_of : List String → Option (String × String × String)
parts_of (header ∷ claims ∷ signature ∷ []) =
    if truthy header && truthy claims && truthy signature
    then some (header, claims, signature)
    else none
parts_of _ = none

abbrev pub message_of : String → String → String
message_of header claims = append header (append "." claims)

abbrev pub header_json : String → Json
header_json kid =
    object
      (field "alg" (string "ES256") (field "kid" (string kid) (field "typ" (string "JWT") end)))

unfoldable pub sign_jwt : JoseDeps → String → Json → String
sign_jwt d kid claims =
    let message = message_of (d.encode_json (header_json kid)) (d.encode_json claims) in
    append message (append "." (d.sign_text message))
