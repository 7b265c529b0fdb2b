-- ===== src/Broker/Policy.antt =====
-- packages/broker/src/policy.ts: the first rule that matches a proposal decides it.
-- The clock is a stream of readings, and each call of `now` takes the next one.
use warden_md.Common.{
  ltb, leb, eqb, if◌then◌else◌, truthy, length, any, includes, ℕ, suc, ◌/◌, ◌%◌, String, Bool, true,
  false, not, ◌&&◌, ◌||◌, Option, none, some, List, [], ◌∷◌, ◌==◌,
}
use warden_md.Broker.Types.{
  PolicyDecision, GrantProposal, TimeWindow, RuleMatch, PolicyRule, PolicyDocument,
}

-- `new Date(ms).getUTCHours()`
unfoldable pub utc_hours : ℕ → ℕ
utc_hours ms = ms / 3600000 % 24

-- `new Set(xs)`, in insertion order
unfoldable pub new_set : List String → List String → List String
new_set seen [] = []
new_set seen (x ∷ xs) =
    let fresh = new_set (x ∷ seen) xs in
    let again = new_set seen xs in if includes seen x then again else x ∷ fresh

-- `expected.size !== requested.size || [...expected].some((scope) => !requested.has(scope))`
unfoldable pub scope_differs : List String → List String → Bool
scope_differs scope requested_scope =
    let expected = new_set [] scope in
    let requested = new_set [] requested_scope in
    not (eqb (length expected) (length requested)) || any (λ s. not (includes requested s)) expected

unfoldable pub in_window : TimeWindow → ℕ → Bool
in_window w hour =
    let spans_midnight = ltb w.end_hour_exclusive w.start_hour_inclusive in
    if spans_midnight
    then leb w.start_hour_inclusive hour || ltb hour w.end_hour_exclusive
    else leb w.start_hour_inclusive hour && ltb hour w.end_hour_exclusive

-- `expected && expected !== actual`
unfoldable pub differs : Option String → String → Bool
differs none actual = false
differs (some expected) actual = truthy expected && not (expected == actual)

unfoldable pub scope_rejected : Option (List String) → List String → Bool
scope_rejected none requested = false
scope_rejected (some scope) requested = scope_differs scope requested

unfoldable pub window_check : Option TimeWindow → (ℕ → ℕ) → ℕ → Bool × ℕ
window_check none clock ticks = (true, ticks)
window_check (some w) clock ticks = (in_window w (utc_hours (clock ticks)), suc ticks)

unfoldable pub match_check : Option RuleMatch → GrantProposal → (ℕ → ℕ) → ℕ → Bool × ℕ
unfolding window_check scope_rejected
match_check none proposal clock ticks = (true, ticks)
match_check (some match) proposal clock ticks =
    if differs match.agent_id proposal.agent_id
    then (false, ticks)
    else if differs match.resource proposal.resource
    then (false, ticks)
    else if differs match.action proposal.action
    then (false, ticks)
    else if scope_rejected match.scope proposal.requested_scope
    then (false, ticks)
    else window_check match.time_window clock ticks

unfoldable pub matches : PolicyRule → GrantProposal → (ℕ → ℕ) → ℕ → Bool × ℕ
unfolding match_check
matches rule proposal clock ticks = match_check rule.match proposal clock ticks

-- `rules.find((candidate) => this.matches(candidate, proposal))`
unfoldable pub find_rule : List PolicyRule → GrantProposal → (ℕ → ℕ) → ℕ → Option PolicyRule × ℕ
find_rule [] proposal clock ticks = (none, ticks)
find_rule (rule ∷ rules) proposal clock ticks =
    let (hit, ticks') = matches rule proposal clock ticks in
    let rest = find_rule rules proposal clock ticks' in if hit then (some rule, ticks') else rest

pub record PolicyMatch : Type 0 where
  pub decision : PolicyDecision
  pub rule_id : Option String

unfoldable pub decision_of : PolicyDocument → Option PolicyRule → PolicyMatch
decision_of document none = record { decision = document.default; rule_id = none }
decision_of document (some rule) = record { decision = rule.decision; rule_id = some rule.id }

unfoldable pub decide : PolicyDocument → GrantProposal → (ℕ → ℕ) → ℕ → PolicyMatch × ℕ
unfolding find_rule decision_of
decide document proposal clock ticks =
    let (rule, ticks') = find_rule document.rules proposal clock ticks in
    (decision_of document rule, ticks')
