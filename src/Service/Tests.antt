-- ===== src/Service/Tests.antt =====
-- The theorems about the rate limiter and the store of packages/service at concrete inputs.
use warden_md.Common.{
  length, All, ℕ, ◌≤◌, String, ◌≡◌, refl, ◌≢◌, true, false, none, some, [], ◌∷◌, arith, eq_iff,
}
use warden_md.Common.Map
use warden_md.Service.Types.{
  IssuedToken, RevocationEvent, delivery_pending, EventDelivery, ReplayRecord,
}
use warden_md.Service.Store.{
  ServiceStore, insert_by, sort_by, slice_to, revoke_found, revoke_token, still_used,
  mark_if_unused, create_event, find_event_by_token_id, is_due, list_due_deliveries,
}
use warden_md.Service.Store.Laws.{marked_once, revoked_once, one_event_per_token}
use warden_md.Service.Store.Due.{IsSorted, list_due_deliveries-IsSorted}
use warden_md.Service.RateLimit.{Bucket, opens_window, take}
use warden_md.Service.RateLimit.Window.{takes, window_bound}

abbrev bucket : Map.Map Bucket
bucket = ("ip", record { started_at = 1000; count = 2 }) ∷ []

window_bound_example : (takes "ip" 3 1 (1000 ∷ 1500 ∷ 1999 ∷ []) bucket).0 ≡ 1
unfolding takes take opens_window Map.get Map.set
window_bound_example =
    window_bound "ip" 3 1 1000 2 (1000 ∷ 1500 ∷ 1999 ∷ []) bucket (omega arith) (omega arith) refl
      (omega arith, (omega arith, (omega arith, tt)))

abbrev event_of_token : String → RevocationEvent
event_of_token id = record { id = id; token_id = "token"; subject = "s"; occurred_at = 5 }

abbrev delivery_at : String → ℕ → EventDelivery
delivery_at id at = record {
  id = id;
  event_id = "event";
  subscriber_id = "subscriber";
  status = delivery_pending;
  attempts = 0;
  next_attempt_at = at;
  last_attempt_at = none;
  receipt = none;
}

abbrev issued_token : IssuedToken
issued_token = record {
  id = "token";
  identity_id = "identity";
  subject = "s";
  scopes = "read" ∷ [];
  resource = "https://r";
  issued_at = 1;
  expires_at = 9000;
  revoked_at = none;
}

abbrev filled : ServiceStore
filled = record {
  identities = [];
  identity_attempts = [];
  tokens = ("token", issued_token) ∷ [];
  replays = [];
  subscribers = [];
  events_by_id = [];
  event_id_by_token = [];
  deliveries =
      ("a", delivery_at "a" 30) ∷ ("b", delivery_at "b" 10) ∷ ("c", delivery_at "c" 90) ∷ [];
}

abbrev replay_of : String → ReplayRecord
replay_of id = record { id = id; expires_at = 100 }

marked_once_example :
    (mark_if_unused
      (replay_of "x")
      50
      (mark_if_unused (replay_of "y") 2 (mark_if_unused (replay_of "x") 1 filled).1).1).0
    ≡ false
unfolding mark_if_unused still_used Map.get Map.set
marked_once_example =
    marked_once (replay_of "x") (replay_of "x") (replay_of "y") 1 50 2 filled refl refl apart
  where
    apart : ◌≢◌ {A = String} "y" "x"
    apart e = cc ((eq_iff "y" "x").1 e)

revoked_once_example :
    revoke_token "token" 8 (revoke_token "token" 7 filled).1
    ≡ (false, (revoke_token "token" 7 filled).1)
unfolding revoke_token revoke_found Map.get
revoked_once_example = revoked_once "token" 7 8 filled refl

one_event_per_token_example :
    (find_event_by_token_id "token" (create_event (event_of_token "e") filled).1
      ≡ some (event_of_token "e"))
    × (create_event (event_of_token "f") (create_event (event_of_token "e") filled).1
        ≡ (false, (create_event (event_of_token "e") filled).1))
unfolding create_event Map.get
one_event_per_token_example =
    one_event_per_token (event_of_token "e") (event_of_token "f") filled refl refl refl

due_order : list_due_deliveries 50 5 filled ≡ delivery_at "b" 10 ∷ delivery_at "a" 30 ∷ []
unfolding list_due_deliveries sort_by insert_by slice_to
due_order = refl

list_due_deliveries-IsSorted_example :
    IsSorted (λ delivery. delivery.next_attempt_at) (list_due_deliveries 50 1 filled)
    × (length (list_due_deliveries 50 1 filled) ≤ 1)
    × All (λ delivery. is_due 50 delivery ≡ true) (list_due_deliveries 50 1 filled)
list_due_deliveries-IsSorted_example = list_due_deliveries-IsSorted 50 1 filled
