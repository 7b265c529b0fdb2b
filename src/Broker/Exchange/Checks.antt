-- ===== src/Broker/Exchange/Checks.antt =====
-- `assertProposal`, `requestedTtlSeconds` and the scope filter of packages/broker/src/broker.ts.
use warden_md.Common.{
  ltb, leb, eqb, if◌then◌else◌, truthy, get_or, any, filter, includes, codes, is_upper, is_space,
  Result, ok, err, ℕ, String, Bool, true, false, not, ◌&&◌, ◌||◌, Option, none, some, List, [], ◌∷◌,
  ◌==◌,
}
use warden_md.Broker.Errors.{BrokerErrorCode, invalid_request}
use warden_md.Broker.Types.{GrantProposal, VerifiedAuthority}
use warden_md.Broker.Core.{Url, Deps}

-- `[^\s]*$`
abbrev pub no_spaces : List ℕ → Bool
no_spaces [] = true
no_spaces (c ∷ cs) = not (is_space c) && no_spaces cs

-- ` \/[^\s]*$`, after at least one letter
abbrev pub path_part : List ℕ → Bool
path_part (space ∷ slash ∷ rest) = eqb space 32 && eqb slash b'/' && no_spaces rest
path_part _ = false

unfoldable pub after_method : List ℕ → Bool
after_method [] = false
after_method (c ∷ cs) =
    let rest = after_method cs in if is_upper c then rest else path_part (c ∷ cs)

-- `/^([A-Z]+) \/[^\s]*$/u.test(action)`
unfoldable pub is_action : List ℕ → Bool
unfolding after_method
is_action [] = false
is_action (c ∷ cs) = is_upper c && after_method cs

unfoldable pub is_empty_list : List String → Bool
is_empty_list [] = true
is_empty_list _ = false

unfoldable pub bad_fields : GrantProposal → Bool
unfolding is_empty_list
bad_fields proposal =
    not (truthy proposal.agent_id)
    || not (truthy proposal.subject_id)
    || not (truthy proposal.subject_token_id)
    || not (truthy proposal.resource)
    || not (truthy proposal.action)
    || not (truthy proposal.dpop_thumbprint)
    || is_empty_list proposal.requested_scope
    || any (λ scope. not (truthy scope)) proposal.requested_scope

unfoldable pub bad_resource : Option Url → Bool
bad_resource none = true
bad_resource (some url) =
    not (url.protocol == "https:")
    || not (url.pathname == "/")
    || truthy url.search
    || truthy url.hash

-- `authority.registrationScopes.includes(scope) && authority.subjectScopes.includes(scope)`
abbrev pub may_have : VerifiedAuthority → String → Bool
may_have authority scope =
    includes authority.registration_scopes scope && includes authority.subject_scopes scope

unfoldable pub allowed_scope_of : VerifiedAuthority → List String → List String
allowed_scope_of authority requested_scope = filter (may_have authority) requested_scope

module _ (d : Deps) where
  unfoldable pub assert_proposal : GrantProposal → Result BrokerErrorCode (Unit {0})
  unfolding bad_resource bad_fields is_action
  assert_proposal proposal =
      if bad_fields proposal
        || not (is_action (codes proposal.action))
        || bad_resource (d.parse_url proposal.resource)
      then err invalid_request
      else ok tt

  unfoldable pub requested_ttl_seconds : GrantProposal → Result BrokerErrorCode ℕ
  requested_ttl_seconds proposal =
      let ttl_seconds = get_or proposal.expires_in_seconds d.max_ttl_seconds in
      if leb ttl_seconds 0 || ltb d.max_ttl_seconds ttl_seconds
      then err invalid_request
      else ok ttl_seconds
