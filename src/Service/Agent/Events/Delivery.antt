-- ===== src/Service/Agent/Events/Delivery.antt =====
-- How long a security event is tried: what a round of `deliverDueEvents` makes of the deliveries.
use warden_md.Common.{ℕ, suc, ◌+◌, ◌≤◌, ◌≡◌, ◌⊎◌, true, false, List, [], ◌∷◌}
use warden_md.Service.Types.{is_pending, EventDelivery}
use warden_md.Service.Agent.{Agent}
use warden_md.Common.Map
use warden_md.Common.Map.{Map}

-- No longer pending, after at most five attempts.
abbrev pub Settled : EventDelivery → Type 0
Settled delivery = (is_pending delivery.status ≡ false) × (delivery.attempts ≤ 5)

-- Still pending, with one attempt more, and to be tried again between 2 and 16 seconds later.
abbrev pub Retried : ℕ → ℕ → EventDelivery → Type 0
Retried attempts now delivery =
    (is_pending delivery.status ≡ true)
    × (delivery.attempts ≡ suc attempts)
    × (delivery.attempts ≤ 4)
    × (now + 2000 ≤ delivery.next_attempt_at)
    × (delivery.next_attempt_at ≤ now + 16000)

-- What holds of every stored delivery.
abbrev pub IsCounted : EventDelivery → Type 0
IsCounted delivery =
    (delivery.attempts ≤ 5) × (is_pending delivery.status ≡ true → delivery.attempts ≤ 4)

-- What a round makes of a delivery that it picks.
abbrev pub Attempted : ℕ → EventDelivery → EventDelivery → Type 0
Attempted now before after =
    (is_pending before.status ≡ true)
    × (before.attempts ≤ 4)
    × (after.id ≡ before.id)
    × (Settled after ⊎ Retried before.attempts now after)

-- The two lists are as long, and `R` relates their members in turn.
abbrev pub Pairwise :
    (EventDelivery → EventDelivery → Type 0) → List EventDelivery → List EventDelivery → Type 0
Pairwise R [] [] = Unit {0}
Pairwise R (x ∷ xs) (y ∷ ys) = R x y × Pairwise R xs ys
Pairwise R _ _ = ⊥
