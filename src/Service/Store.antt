-- ===== src/Service/Store.antt =====
-- packages/service/src/repository.ts: `InMemoryServiceStore`, but for its claims, which are part of
-- the claim ceremony. Copies of values are the values.
pub mod Laws
pub mod Due
use warden_md.Common.{
  ltb, leb, if◌then◌else◌, truthy, is_some, find, filter, ℕ, zero, suc, String, Bool, true, false,
  not, ◌&&◌, Option, none, some, List, [], ◌∷◌, map, ◌==◌,
}
use warden_md.Common.Map
use warden_md.Common.Map.{Map}
use warden_md.Service.Types.{
  ServiceIdentity, IssuedToken, IdentityAttempt, RevocationEvent, EventSubscriber, is_pending,
  EventDelivery, ReplayRecord,
}

pub record ServiceStore : Type 0 where
  pub identities : Map ServiceIdentity
  pub identity_attempts : Map IdentityAttempt
  pub tokens : Map IssuedToken
  pub replays : Map ℕ
  pub subscribers : Map EventSubscriber
  pub events_by_id : Map RevocationEvent
  pub event_id_by_token : Map String
  pub deliveries : Map EventDelivery

-- `.sort((left, right) => left.key - right.key)`: the sort of the language is stable.
module _ {A : Type 0} (key : A → ℕ) where
  unfoldable pub insert_by : A → List A → List A
  insert_by a [] = a ∷ []
  insert_by a (b ∷ rest) =
      let later = insert_by a rest in if leb (key a) (key b) then a ∷ b ∷ rest else b ∷ later

  unfoldable pub sort_by : List A → List A
  unfolding insert_by
  sort_by [] = []
  sort_by (a ∷ rest) = insert_by a (sort_by rest)

-- `.slice(0, limit)`
unfoldable pub slice_to : {A : Type 0} → ℕ → List A → List A
slice_to zero rest = []
slice_to (suc n) [] = []
slice_to (suc n) (a ∷ rest) = a ∷ slice_to n rest

unfoldable pub create_identity : ServiceIdentity → ServiceStore → ServiceStore
create_identity identity store = record store {
  identities = Map.set identity.id identity store.identities;
}

unfoldable pub find_identity_by_id : String → ServiceStore → Option ServiceIdentity
find_identity_by_id id store = Map.get id store.identities

abbrev pub has_subject : String → Option String → Bool
has_subject subject none = false
has_subject subject (some found) = found == subject

unfoldable pub find_identity_by_subject : String → ServiceStore → Option ServiceIdentity
find_identity_by_subject subject store =
    find (λ candidate. has_subject subject candidate.subject) (Map.values store.identities)

unfoldable pub save_identity : ServiceIdentity → ServiceStore → ServiceStore
save_identity identity store = record store {
  identities = Map.set identity.id identity store.identities;
}

unfoldable pub create_identity_attempt : IdentityAttempt → ServiceStore → ServiceStore
create_identity_attempt attempt store = record store {
  identity_attempts = Map.set attempt.id attempt store.identity_attempts;
}

unfoldable pub list_identity_attempts : ServiceStore → List IdentityAttempt
list_identity_attempts store =
    sort_by (λ attempt. attempt.occurred_at) (Map.values store.identity_attempts)

unfoldable pub create_token : IssuedToken → ServiceStore → ServiceStore
create_token token store = record store { tokens = Map.set token.id token store.tokens }

unfoldable pub find_token_by_id : String → ServiceStore → Option IssuedToken
find_token_by_id id store = Map.get id store.tokens

unfoldable pub revoke_found : Option IssuedToken → String → ℕ → ServiceStore → Bool × ServiceStore
revoke_found none id at store = (false, store)
revoke_found (some token) id at store = if is_some token.revoked_at then (false, store) else (
  true,
  record store { tokens = Map.set id (record token { revoked_at = some at }) store.tokens },
)

unfoldable pub revoke_token : String → ℕ → ServiceStore → Bool × ServiceStore
unfolding revoke_found
revoke_token id at store = revoke_found (Map.get id store.tokens) id at store

-- `existingExpiry !== undefined && existingExpiry > now`
unfoldable pub still_used : Option ℕ → ℕ → Bool
still_used none now = false
still_used (some existing_expiry) now = ltb now existing_expiry

unfoldable pub mark_if_unused : ReplayRecord → ℕ → ServiceStore → Bool × ServiceStore
unfolding still_used
mark_if_unused replay now store =
    if still_used (Map.get replay.id store.replays) now
    then (false, store)
    else (true, record store { replays = Map.set replay.id replay.expires_at store.replays })

unfoldable pub create_subscriber : EventSubscriber → ServiceStore → ServiceStore
create_subscriber subscriber store = record store {
  subscribers = Map.set subscriber.id subscriber store.subscribers;
}

unfoldable pub list_subscribers : ServiceStore → List EventSubscriber
list_subscribers store =
    filter (λ subscriber. not (is_some subscriber.disabled_at)) (Map.values store.subscribers)

unfoldable pub create_event : RevocationEvent → ServiceStore → Bool × ServiceStore
create_event event store =
    if Map.has event.token_id store.event_id_by_token then (false, store) else (
      true,
      record store {
        events_by_id = Map.set event.id event store.events_by_id;
        event_id_by_token = Map.set event.token_id event.id store.event_id_by_token;
      },
    )

unfoldable pub find_event_by_id : String → ServiceStore → Option RevocationEvent
find_event_by_id id store = Map.get id store.events_by_id

-- `eventId ? this.eventsById.get(eventId) : undefined`
unfoldable pub event_of : Option String → ServiceStore → Option RevocationEvent
event_of none store = none
event_of (some id) store = if truthy id then Map.get id store.events_by_id else none

unfoldable pub find_event_by_token_id : String → ServiceStore → Option RevocationEvent
unfolding event_of
find_event_by_token_id token_id store = event_of (Map.get token_id store.event_id_by_token) store

unfoldable pub create_delivery : EventDelivery → ServiceStore → ServiceStore
create_delivery delivery store = record store {
  deliveries = Map.set delivery.id delivery store.deliveries;
}

abbrev pub is_due : ℕ → EventDelivery → Bool
is_due now delivery = is_pending delivery.status && leb delivery.next_attempt_at now

unfoldable pub list_due_deliveries : ℕ → ℕ → ServiceStore → List EventDelivery
unfolding sort_by slice_to
list_due_deliveries now limit store = slice_to limit (
    sort_by (λ delivery. delivery.next_attempt_at)
      (filter (is_due now) (Map.values store.deliveries)))

abbrev pub first : {A : Type 0} → List A → Option A
first [] = none
first (a ∷ rest) = some a

unfoldable pub next_pending_delivery_at : ServiceStore → Option ℕ
unfolding sort_by
next_pending_delivery_at store = first (
    sort_by (λ at. at)
      (map (λ delivery. delivery.next_attempt_at)
        (filter (λ delivery. is_pending delivery.status) (Map.values store.deliveries))))

unfoldable pub find_subscriber : String → ServiceStore → Option EventSubscriber
find_subscriber id store = Map.get id store.subscribers

unfoldable pub save_delivery : EventDelivery → ServiceStore → ServiceStore
save_delivery delivery store = record store {
  deliveries = Map.set delivery.id delivery store.deliveries;
}
