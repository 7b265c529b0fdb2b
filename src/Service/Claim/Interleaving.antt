-- ===== src/Service/Claim/Interleaving.antt =====
-- Requests to the claim ceremony that overlap: a request reads a claim, and acts on what it has read
-- after any number of steps of other requests.
pub mod Safety
pub mod Tests
use warden_md.Common.{ℕ, String, ◌≡◌, ◌⊎◌, Option, some, List, [], ◌∷◌}
use warden_md.Common.Map
use warden_md.Common.Map.{Map}
use warden_md.Service.Types.{ClaimRecord}
use warden_md.Service.Claim.{ClaimDeps, Ceremony, C, take_allowance}
use warden_md.Service.Claim.Operations.{
  Decision, start, verify_found, decide_found, poll_found, consume_found,
}

-- The ceremony, and the records that requests in flight have read.
pub record World : Type 0 where
  pub ceremony : Ceremony
  pub read : List ClaimRecord

-- Whether a record was read.
abbrev pub Held : ClaimRecord → List ClaimRecord → Type 0
Held c [] = ⊥
Held c (newest ∷ earlier) = (newest ≡ c) ⊎ Held c earlier

abbrev pub after : {A : Type 0} → C A → World → World
after m w = record w { ceremony = (m w.ceremony).1 }

abbrev pub hold : ClaimRecord → World → World
hold c w = record w { read = c ∷ w.read }

module _ (d : ClaimDeps) where
  -- One step of one request. A read gives what is stored under the identifier of the claim.
  pub data Step : World → World → Type 0 where
    starts :
        (w : World) (identity : String) (scopes : List String) (resource : Option String)
        (key : String)
        → Step w (after (start d identity scopes resource key) w)
    limits :
        (w : World) (key : String) (limit window_seconds now : ℕ)
        → Step w (after (take_allowance d key limit window_seconds now) w)
    reads :
        (w : World) (c : ClaimRecord) → Map.get c.id w.ceremony.claims ≡ some c → Step w (hold c w)
    verifies : (w : World) (c : ClaimRecord) → Held c w.read → Step w (after (verify_found d c) w)
    decides :
        (w : World) (c : ClaimRecord) (decision : Decision)
        → Held c w.read
        → Step w (after (decide_found d decision c) w)
    polls : (w : World) (c : ClaimRecord) → Held c w.read → Step w (after (poll_found d c) w)
    consumes : (w : World) (c : ClaimRecord) → Held c w.read → Step w (after (consume_found d c) w)

  pub data Steps : World → World → Type 0 where
    here : (w : World) → Steps w w
    then : (u v w : World) → Step u v → Steps v w → Steps u w
