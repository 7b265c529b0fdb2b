-- ===== src/Service/Agent/Events/Replay.antt =====
-- packages/service/src/service.ts: a security event that arrives twice.
use warden_md.Service.Errors.{OauthErrorCode}
use warden_md.Service.Agent.Quiet.{Same-refl, Quiet-verify}
use warden_md.Common.{
  ltb, Bool-cases, append, Result, ok, bind-eq-ok, bind-run, ℕ, ◌*◌, ◌≤◌, String, ◌≡◌, refl, ap,
  ◌∙◌, inl, inr, false, not, some, arith, eq_refl,
}
use warden_md.Common.Map
use warden_md.Common.Map.{Map, get-set}
use warden_md.Service.Store.{ServiceStore, still_used, mark_if_unused}
use warden_md.Service.Claim.{claim_now}
use warden_md.Service.Jose.{JwtClaims, VerifiedJwt}
use warden_md.Service.Json.{property, has_property}
use warden_md.Service.Jose.Verify.{Expected, OpenedJwt, decode_jwt}
use warden_md.Service.Agent.Still.{verify-Still}
use warden_md.Service.Agent.{AgentDeps, Agent, S, agent_now, verify_jwt, event_endpoint}
use warden_md.Service.Agent.Events.{
  token_revoked_event, set_key, receive_verified, receive_security_event,
}

module _ (d : AgentDeps) where
  abbrev pub key_of : OpenedJwt → String
  key_of opened = append "set:" (append opened.claims.iss (append ":" opened.claims.jti))

  -- An event that is received was not marked, and is marked with its expiry.
  receive_verified-lem :
      (v : VerifiedJwt) (u : Agent)
      → (receive_verified d v u).0 ≡ ok tt
      → (still_used (Map.get (set_key d v) u.store.replays) (d.claim.clock u.ceremony.ticks)
          ≡ false)
        × ((receive_verified d v u).1.store.replays
            ≡ Map.set (set_key d v) (v.claims.exp * 1000) u.store.replays)
  unfolding receive_verified agent_now claim_now mark_if_unused
  receive_verified-lem v u h =
      elim (Bool-cases
        (not (has_property token_revoked_event (property "events" v.claims.all_claims)))) [
          | inl other ↦ absurd (cc (rw other at h))
          | inr event ↦
              elim (Bool-cases (
                still_used (Map.get (set_key d v) u.store.replays)
                  (d.claim.clock u.ceremony.ticks))) [
                    | inl used ↦ absurd (cc (rw (event, used) at h))
                    | inr free ↦ (free, rw (event, free) refl)
                  ]
        ]

  -- A security event is received once: if the same token is received again at a state in which its
  -- own mark is still what the first receipt left, whatever other marks there are, then its expiry has
  -- come by the reading of the clock that follows its verification.
  pub event_received_once :
      (token : String) (opened : OpenedJwt) (s t : Agent)
      → decode_jwt d.jose token ≡ some opened
      → (receive_security_event d token s).0 ≡ ok tt
      → Map.get (key_of opened) t.store.replays
        ≡ Map.get (key_of opened) (receive_security_event d token s).1.store.replays
      → (receive_security_event d token t).0 ≡ ok tt
      → opened.claims.exp * 1000
        ≤ d.claim.clock
            (verify_jwt d d.verification_keys
              (record { issuer = d.trusted_assertion_issuer; audience = event_endpoint d })
              false
              token
              t).1.ceremony.ticks
  unfolding receive_security_event still_used
  event_received_once token opened s t decoded once kept again =
      let (v, good, rest) = bind-eq-ok verify (receive_verified d) s once in
      let (w, good', rest') = bind-eq-ok verify (receive_verified d) t again in
      let a =
        (Quiet-verify d {s0 = s} d.verification_keys expected false token).at s v (Same-refl s)
          good in
      let b =
        (Quiet-verify d {s0 = t} d.verification_keys expected false token).at t w (Same-refl t)
          good' in
      let one : a.opened ≡ opened = cc (a.decoded, decoded) in
      let two : b.opened ≡ opened = cc (b.decoded, decoded) in
      let vs : v.claims ≡ opened.claims = a.claims ∙ ap (λ (o : OpenedJwt). o.claims) one in
      let ws : w.claims ≡ opened.claims = b.claims ∙ ap (λ (o : OpenedJwt). o.claims) two in
      let (_, marked) = receive_verified-lem v (verify s).1 rest in
      let (free, _) = receive_verified-lem w (verify t).1 rest' in
      let left : (receive_security_event d token s).1.store.replays
          ≡ Map.set (key_of opened) (opened.claims.exp * 1000) (verify s).1.store.replays =
        ap (λ (r : Result OauthErrorCode (Unit {0}) × Agent). r.1.store.replays)
          (bind-run verify (receive_verified d) s good)
        ∙ marked
        ∙ ap
            (λ (c : JwtClaims).
              Map.set (append "set:" (append c.iss (append ":" c.jti))) (c.exp * 1000)
                (verify s).1.store.replays)
            vs in
      let found : Map.get (set_key d w) (verify t).1.store.replays
          ≡ some (opened.claims.exp * 1000) =
        ap
          (λ (c : JwtClaims).
            Map.get (append "set:" (append c.iss (append ":" c.jti))) (verify t).1.store.replays)
          ws
        ∙ ap (λ (x : ServiceStore). Map.get (key_of opened) x.replays)
            ((verify-Still d d.verification_keys expected token).at t).store
        ∙ kept
        ∙ ap (λ (m : Map ℕ). Map.get (key_of opened) m) left
        ∙ rw
            (
              get-set (key_of opened) (key_of opened) (opened.claims.exp * 1000)
                  (verify s).1.store.replays,
              eq_refl (key_of opened),
            )
            refl in
      late (opened.claims.exp * 1000) (d.claim.clock (verify t).1.ceremony.ticks) (rw found at free)
    where
      expected : Expected
      expected = record { issuer = d.trusted_assertion_issuer; audience = event_endpoint d }

      verify : S VerifiedJwt
      verify = verify_jwt d d.verification_keys expected false token

      late : (expiry now : ℕ) → ltb now expiry ≡ false → expiry ≤ now
      late expiry now h = ground (arith, h)
