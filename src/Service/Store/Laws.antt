-- ===== src/Service/Store/Laws.antt =====
-- What the methods of the service's store promise.
use warden_md.Common.{
  leb, Bool-cases, Option-cases, truthy, is_some, ℕ, String, ◌≡◌, refl, ◌∙◌, ◌≢◌, inl, inr, true,
  false, some, arith, eq_iff, eq_refl,
}
use warden_md.Common.Map
use warden_md.Common.Map.{Map, get-set}
use warden_md.Service.Types.{RevocationEvent, ReplayRecord}
use warden_md.Service.Store.{
  ServiceStore, revoke_found, revoke_token, still_used, mark_if_unused, create_event, event_of,
  find_event_by_token_id,
}

-- A replay identifier that was marked is refused exactly until its expiry, and no mark of another
-- identifier changes that.
pub marked_once :
    (replay again other : ReplayRecord) (now later between : ℕ) (store : ServiceStore)
    → (mark_if_unused replay now store).0 ≡ true
    → again.id ≡ replay.id
    → other.id ≢ replay.id
    → (mark_if_unused again later
        (mark_if_unused other between (mark_if_unused replay now store).1).1).0
      ≡ leb replay.expires_at later
unfolding mark_if_unused still_used
marked_once replay again other now later between store marked same apart =
    elim (Bool-cases (still_used (Map.get replay.id store.replays) now)) [
      | inl used ↦ absurd (cc (rw used at marked))
      | inr free ↦
          let table = Map.set replay.id replay.expires_at store.replays in
          elim (Bool-cases (still_used (Map.get other.id table) between)) [
            | inl used ↦
                rw (free, used)
                  (answer table (
                    get-set replay.id replay.id replay.expires_at store.replays
                    ∙ rw (eq_refl replay.id) refl))
            | inr open_slot ↦
                rw (free, open_slot)
                  (answer (Map.set other.id other.expires_at table) (
                    ground (
                      arith,
                      apart,
                      eq_refl replay.id,
                      eq_iff other.id replay.id,
                      get-set other.id replay.id other.expires_at table,
                      get-set replay.id replay.id replay.expires_at store.replays,
                    )))
          ]
    ]
  where
    answer :
        (table : Map ℕ)
        → Map.get replay.id table ≡ some replay.expires_at
        → (mark_if_unused again later (record store { replays = table })).0
          ≡ leb replay.expires_at later
    answer table found = rw (same, found) (ground arith)

-- A revocation that succeeds is the only one of its token, and keeps its time: every later one,
-- whenever it comes, is refused and changes nothing.
pub revoked_once :
    (id : String) (at later : ℕ) (store : ServiceStore)
    → (revoke_token id at store).0 ≡ true
    → revoke_token id later (revoke_token id at store).1 ≡ (false, (revoke_token id at store).1)
unfolding revoke_token revoke_found
revoked_once id at later store done = elim (Option-cases (Map.get id store.tokens)) [
  | inl absent ↦ absurd (cc (rw absent at done))
  | inr (token, found) ↦ elim (Bool-cases (is_some token.revoked_at)) [
    | inl before ↦ absurd (cc (rw (found, before) at done))
    | inr fresh ↦
        rw
          (
            found,
            fresh,
            get-set id id (record token { revoked_at = some at }) store.tokens,
            eq_refl id,
          )
          refl
  ]
]

-- One token has at most one revocation event, and that is the one that is found by the token: after
-- a creation that succeeds, the event is found, and another event of the token is refused.
pub one_event_per_token :
    (event other : RevocationEvent) (store : ServiceStore)
    → (create_event event store).0 ≡ true
    → other.token_id ≡ event.token_id
    → truthy event.id ≡ true
    → (find_event_by_token_id event.token_id (create_event event store).1 ≡ some event)
      × (create_event other (create_event event store).1 ≡ (false, (create_event event store).1))
unfolding create_event find_event_by_token_id event_of
one_event_per_token event other store created same named =
    elim (Bool-cases (Map.has event.token_id store.event_id_by_token)) [
      | inl before ↦ absurd (cc (rw before at created))
      | inr fresh ↦ (
        rw
            (
              fresh,
              get-set event.token_id event.token_id event.id store.event_id_by_token,
              eq_refl event.token_id,
              named,
              get-set event.id event.id event store.events_by_id,
              eq_refl event.id,
            )
            refl,
        rw
            (
              fresh,
              same,
              get-set event.token_id event.token_id event.id store.event_id_by_token,
              eq_refl event.token_id,
            )
            refl,
      )
    ]
