-- ===== src/Broker/Authority.antt =====
-- packages/broker/src/authority.ts: resolvers of a proposal's authority.
use warden_md.Common.{if◌then◌else◌, not, Option, none, some, List, [], ◌∷◌, ◌==◌}
use warden_md.Common.Map
use warden_md.Common.Map.{Map}
use warden_md.Broker.Types.{VerifiedAuthority, AuthorityQuery}

-- The constructor of `StaticAuthorityResolver`: a later entry replaces an earlier one.
unfoldable pub by_subject_token :
    Map VerifiedAuthority → List VerifiedAuthority → Map VerifiedAuthority
by_subject_token table [] = table
by_subject_token table (entry ∷ entries) =
    by_subject_token (Map.set entry.subject_token_id entry table) entries

authorized : Option VerifiedAuthority → AuthorityQuery → Option VerifiedAuthority
authorized none input = none
authorized (some authority) input =
    if not (authority.agent_id == input.agent_id)
    then none
    else if not (authority.subject_id == input.subject_id)
    then none
    else some authority

unfoldable pub resolve : Map VerifiedAuthority → AuthorityQuery → Option VerifiedAuthority
unfolding authorized
resolve table input = authorized (Map.get input.subject_token_id table) input

-- `RejectingAuthorityResolver`
unfoldable pub resolve_nothing : AuthorityQuery → Option VerifiedAuthority
resolve_nothing input = none
