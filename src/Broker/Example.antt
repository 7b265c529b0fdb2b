-- ===== src/Broker/Example.antt =====
-- A concrete broker: a platform, a policy and requests, for tests of packages/broker.
use warden_md.Common.{
  if◌then◌else◌, split_from, append, ℕ, zero, suc, String, refl, sym, ap, true, none, some, [], ◌∷◌,
  ◌==◌,
}
use warden_md.Common.Map
use warden_md.Common.Map.{Map}
use warden_md.Broker.Types.{allow, GrantProposal, VerifiedAuthority, CapabilityClaims}
use warden_md.Broker.Store.{
  held_by_other, get_grant, idempotent_grant, insert_grant, create_new, create_exchange_grant,
  list_grants, put_grant, audit_for, append_audit, set_evidence, evidence_for, deliveries_for,
  add_deliveries, assign, assign_first, refresh_evidence_deliveries, update_delivery,
}
use warden_md.Broker.Core.{
  Url, Deps, prefixed, now, random_id, audit, assert_not_expired, resolve_authority, decide,
  load_grant, check_dpop, verify_credential, mint,
}
use warden_md.Broker.Exchange.{
  approval_reference_for, authorize, new_grant, draft_grant, prepare_exchange, as_exchange_result,
  announce, store_exchange, after_store, settle_exchange, exchange,
}
use warden_md.Broker.Exchange.Checks.{allowed_scope_of, assert_proposal, requested_ttl_seconds}
use warden_md.Broker.Approve.{check_approve, commit_approve, announce_approval, approve}
use warden_md.Broker.Consume.{
  ConsumeInput, proof_action, check_use, check_consume, consumed_grant, commit_consume, consume,
}
use warden_md.Broker.Finalize.{
  backoff_ms, patch_of, deliver, deliver_pending, open_deliveries, closed_grant, with_evidence,
  close_grant, prepare_evidence, finalize, expire_due, retry_revocations,
}
use warden_md.Broker.Complete.{
  claims_match, check_complete, complete_authenticated, dpop_replay_entries,
}
use warden_md.Broker.Crypto.{JwtHeader, WebCrypto}
use warden_md.Broker.Crypto.Dpop.{purge, admit_jti, jwk_thumbprint, check_proof, verify_dpop_proof}
use warden_md.Broker.Invariant.Exchange.{IsDistinct}
use warden_md.Broker.Run.{step, run}
use warden_md.Broker.Policy
use text.Mathlib.TextLemmas.{tail-eq_of_cons-eq, nil≢cons}
use warden_md.Broker.Policy.{matches, find_rule}
use warden_md.Broker.Crypto.Capability.{validate_capability_claims, verify, sign}

-- Everything that a run computes with.
unfoldable pub machine : Unit {0}
unfolding exchange prepare_exchange authorize draft_grant new_grant settle_exchange store_exchange
    after_store announce assert_proposal requested_ttl_seconds allowed_scope_of
    approval_reference_for create_exchange_grant create_new idempotent_grant insert_grant
    held_by_other as_exchange_result approve check_approve commit_approve announce_approval consume
    check_consume commit_consume check_use proof_action consumed_grant finalize prepare_evidence
    close_grant closed_grant with_evidence open_deliveries add_deliveries deliver deliver_pending
    update_delivery assign_first assign patch_of backoff_ms refresh_evidence_deliveries expire_due
    retry_revocations complete_authenticated check_complete claims_match dpop_replay_entries now
    random_id audit assert_not_expired resolve_authority decide load_grant check_dpop
    verify_credential mint prefixed sign verify validate_capability_claims check_proof
    verify_dpop_proof admit_jti purge jwk_thumbprint get_grant put_grant append_audit audit_for
    set_evidence evidence_for deliveries_for list_grants matches find_rule Policy.decide split_from
    Map.get Map.set Map.delete step run
machine = tt

-- Texts of one character, as many as the number says: no two agree.
unfoldable pub tally : ℕ → String
tally zero = ""
tally (suc n) = String.◌∷◌ "i" (tally n)

pub tally-IsDistinct : IsDistinct tally
unfolding tally
tally-IsDistinct zero zero e = refl
tally-IsDistinct zero (suc n) e = absurd (nil≢cons e)
tally-IsDistinct (suc m) zero e = absurd (nil≢cons (sym e))
tally-IsDistinct (suc m) (suc n) e = ap suc (tally-IsDistinct m n (tail-eq_of_cons-eq e))

abbrev pub resource_url : Url
resource_url = record {
  protocol = "https:";
  origin = "https://r";
  pathname = "/";
  search = "";
  hash = "";
}

abbrev pub header : JwtHeader
header = record {
  alg = "ES256";
  kid = some "kid";
  typ = "JWT";
  jwk = some (record { kty = some "EC"; crv = some "P-256"; x = some "x"; y = some "y" });
}

abbrev pub claims_for : String → CapabilityClaims
claims_for id = record {
  iss = "i";
  jti = "c";
  grant_id = id;
  sub = "s";
  aud = "https://r";
  action = "GET /";
  scope = "read" ∷ [];
  jkt = some "thumb";
  use_count = 1;
  iat = 0;
  exp = some 2000;
}

-- "p" names the grant of the first draw, any other payload that of the sixth.
abbrev pub platform : WebCrypto
platform = record {
  encode_header = λ h. "h";
  encode_claims = λ c. "p";
  decode_header = λ t. some header;
  decode_claims = λ t. some (claims_for (if t == "p" then "grant_" else "grant_iiiii"));
  decode_payload = λ t. some (record {
    htm = some (if t == "post" then "POST" else "GET");
    htu = some "https://r/";
    iat = some 1000;
    jti = some t;
  });
  decode_signature = λ t. some [];
  sign_text = λ t. "s";
  verify_text = λ b t. some true;
  digest_jwk = λ crv kty x y. "thumb";
  verify_with = λ k b t. some true;
}

abbrev pub granted : VerifiedAuthority
granted = record {
  agent_id = "a";
  subject_id = "s";
  subject_token_id = "t";
  registration_scopes = "read" ∷ "write" ∷ [];
  subject_scopes = "read" ∷ [];
  resources = "https://r" ∷ [];
}

abbrev pub deps : Deps
deps = record {
  clock = λ n. 1000000;
  random_uuid = tally;
  parse_url = λ t. some resource_url;
  to_upper_case = λ t. t;
  crypto = platform;
  key_id = "kid";
  authority = λ n q. some granted;
  policy = record { default = allow; rules = [] };
  issuer = "https://warden.local";
  revocation_targets = "https://x" ∷ [];
  revocation_transport = none;
  retention_ms = 1000;
  max_ttl_seconds = 300;
}

abbrev pub proposal_for : String → GrantProposal
proposal_for token = record {
  agent_id = "a";
  subject_id = "s";
  subject_token_id = token;
  resource = "https://r";
  action = "GET /";
  requested_scope = "read" ∷ [];
  dpop_thumbprint = "thumb";
  expires_in_seconds = none;
  idempotency_key = none;
}

abbrev pub use_of : String → String → ConsumeInput
use_of payload jti = record {
  credential = append (append "h." payload) ".s";
  proof = record { token = append (append "h." jti) ".s"; method = "GET"; url = "https://r/" };
  audience = "https://r";
}
