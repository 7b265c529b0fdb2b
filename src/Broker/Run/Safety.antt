-- ===== src/Broker/Run/Safety.antt =====
-- What holds of every grant, whatever operations run.
use warden_md.Broker.Invariant.Consume.{consume-Keeps}
use warden_md.Common.Map.{get-set}
use warden_md.Broker.Store.{put_grant, append_audit}
use warden_md.Broker.Invariant.Guards.{check_use-eq-ok, check_consume-eq-ok}
use warden_md.Broker.Invariant.Exchange.{IsDistinct}
use warden_md.Broker.Run.{Operation, start, run, run-Good, start-IsWellFormed}
use warden_md.Common.{
  is_some, ok, bind-eq-ok, String, ◌≡◌, refl, ap, ◌∙◌, ◌≢◌, true, false, ◌||◌, some, List, arith,
  eq_iff,
}
use warden_md.Broker.Types.{
  approved, consumed, denied, Grant, CapabilityClaims, ConsumeResult, same_status,
}
use warden_md.Broker.Core.{Deps, Broker, now, random_id, audit}
use warden_md.Broker.Consume.{ConsumeInput, check_consume, consumed_grant, commit_consume, consume}
use warden_md.Broker.Invariant.{
  is_closed, is_active, may_become, grant_at, holder_of, has_evidence, IsWellFormed, Evolves,
  Evolves-refl,
}

module _ (d : Deps) where
  commit_consume_effect :
      (claims : CapabilityClaims) (g : Grant) (s : Broker) {r : ConsumeResult}
      → (commit_consume d (claims, g) s).0 ≡ ok r
      → (r.grant.id ≡ g.id)
        × (grant_at claims.grant_id (commit_consume d (claims, g) s).1 ≡ some r.grant)
        × (r.grant.status ≡ consumed)
  unfolding commit_consume now put_grant consumed_grant audit random_id append_audit
  commit_consume_effect claims g s h = (
    ground arith,
    rw get-set (ground (arith, eq_iff claims.grant_id claims.grant_id)),
    ground arith,
  )

  -- A success consumes a grant that was approved, and writes it.
  pub consume_effect :
      (input : ConsumeInput) (s : Broker) {r : ConsumeResult}
      → IsWellFormed d s
      → (consume d input s).0 ≡ ok r
      → (g : Grant) × (grant_at r.grant.id s ≡ some g)
        × (g.status ≡ approved)
        × (grant_at r.grant.id (consume d input s).1 ≡ some r.grant)
        × (r.grant.status ≡ consumed)
  unfolding consume
  consume_effect input s {r} formed h =
      let (checked, passed_checks, done) =
        bind-eq-ok (check_consume d input) (commit_consume d) s h in
      go checked passed_checks done
    where
      go :
          (checked : CapabilityClaims × Grant)
          → (check_consume d input s).0 ≡ ok checked
          → (commit_consume d checked (check_consume d input s).1).0 ≡ ok r
          → (g : Grant) × (grant_at r.grant.id s ≡ some g)
            × (g.status ≡ approved)
            × (grant_at r.grant.id (consume d input s).1 ≡ some r.grant)
            × (r.grant.status ≡ consumed)
      go (claims, g) e done =
          let facts = check_consume-eq-ok d input s e in
          let was = (check_use-eq-ok d input claims g facts.3).0 in
          let effect = commit_consume_effect claims g (check_consume d input s).1 done in
          let same = effect.0 ∙ formed.keyed claims.grant_id g facts.1 in
          let after = (commit_consume d (claims, g) (check_consume d input s).1).1 in
          (
            g,
            ap (λ j. grant_at j s) same ∙ facts.1,
            was,
            rw e (ap (λ j. grant_at j after) same ∙ effect.1),
            effect.2,
          )

  -- A grant whose status cannot become "approved" again is not consumed, whatever runs before.
  spent_unusable :
      IsDistinct d.random_uuid
      → (ops : List Operation) (s : Broker) (k : String) (g : Grant) → IsWellFormed d s
      → grant_at k s ≡ some g
      → may_become g.status approved ≡ false
      → (input : ConsumeInput) {r : ConsumeResult} → (consume d input (run d ops s)).0 ≡ ok r
      → r.grant.id ≢ k
  spent_unusable distinct ops s k g formed found spent input h same =
      let good =
        run-Good d distinct ops s s (record { formed = formed; evolved = Evolves-refl s }) in
      let (late, at_late, dev) = good.evolved.later k g found in
      let used = consume_effect input (run d ops s) good.formed h in
      let agree = ap (λ j. grant_at j (run d ops s)) same in
      let one : late ≡ used.0 = cc (at_late, used.1, agree) in
      cc (dev.status_moved, spent, used.2, ap (λ (x : Grant). x.status) one)

  pub run-IsWellFormed :
      IsDistinct d.random_uuid → (ops : List Operation) → IsWellFormed d (run d ops start)
  run-IsWellFormed distinct ops =
      (run-Good d distinct ops start start
        (record { formed = start-IsWellFormed d; evolved = Evolves-refl start })).formed

  -- After a successful consume, whatever operations run next, no consume of the same grant succeeds:
  -- from a well-formed state, if no two draws of `randomUUID` agree, two consumes that succeed with
  -- any operations between them are of different grants.
  pub single_use :
      IsDistinct d.random_uuid
      → (ops : List Operation) (s : Broker) → IsWellFormed d s
      → (first second : ConsumeInput) {r q : ConsumeResult} → (consume d first s).0 ≡ ok r
      → (consume d second (run d ops (consume d first s).1)).0 ≡ ok q
      → q.grant.id ≢ r.grant.id
  single_use distinct ops s formed first second {r} h k =
      let used = consume_effect first s formed h in
      let good =
        (consume-Keeps d s first).at s (record { formed = formed; evolved = Evolves-refl s }) in
      spent_unusable distinct ops (consume d first s).1 r.grant.id r.grant good.formed used.3
        (rw used.4 refl) second k

  -- Once a grant is revoked, expired or denied, it is never consumed, whatever operations run: from a
  -- well-formed state, if no two draws of `randomUUID` agree.
  pub closed_unusable :
      IsDistinct d.random_uuid
      → (ops : List Operation) (s : Broker) (k : String) (g : Grant) → IsWellFormed d s
      → grant_at k s ≡ some g
      → (is_closed g.status || same_status g.status denied) ≡ true
      → (input : ConsumeInput) {r : ConsumeResult} → (consume d input (run d ops s)).0 ≡ ok r
      → r.grant.id ≢ k
  closed_unusable distinct ops s k g formed found shut input h =
      spent_unusable distinct ops s k g formed found (ground (arith, shut)) input h

  -- From an empty broker, whatever operations run, two grants that were ever issued for one subject
  -- token are one grant, if no two draws of `randomUUID` agree.
  pub one_grant_per_subject_token :
      IsDistinct d.random_uuid
      → (ops : List Operation) (j k : String) (g h : Grant) → grant_at j (run d ops start) ≡ some g
      → grant_at k (run d ops start) ≡ some h
      → is_some g.issued_at ≡ true
      → is_some h.issued_at ≡ true
      → g.subject_token_id ≡ h.subject_token_id
      → j ≡ k
  one_grant_per_subject_token distinct ops j k g h at_j at_k issued_g issued_h same =
      let formed = run-IsWellFormed distinct ops in
      cc (
        formed.holds j g at_j issued_g,
        formed.holds k h at_k issued_h,
        ap (λ token. holder_of token (run d ops start)) same,
      )

  -- From an empty broker, whatever operations run, exactly the grants that are revoked or expired have
  -- evidence, and an approved or consumed grant was issued, if no two draws of `randomUUID` agree.
  pub closed_iff_evidence :
      IsDistinct d.random_uuid
      → (ops : List Operation) (k : String) (g : Grant) → grant_at k (run d ops start) ≡ some g
      → (is_closed g.status ≡ has_evidence k (run d ops start))
        × (is_active g.status ≡ true → is_some g.issued_at ≡ true)
  closed_iff_evidence distinct ops k g at_k =
      let formed = run-IsWellFormed distinct ops in (formed.closed k g at_k, formed.issued k g at_k)

  -- Whatever operations run from a well-formed state, every grant is still there, with the terms that
  -- it was created with (agent, subject, token, action, audience, scopes, key, policy, expiry), and its
  -- status has moved along the allowed transitions only, if no two draws of `randomUUID` agree.
  pub run-Evolves :
      IsDistinct d.random_uuid
      → (ops : List Operation) (s : Broker) → IsWellFormed d s
      → Evolves s (run d ops s)
  run-Evolves distinct ops s formed =
      (run-Good d distinct ops s s (record { formed = formed; evolved = Evolves-refl s })).evolved
