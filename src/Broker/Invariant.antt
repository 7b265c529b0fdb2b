-- ===== src/Broker/Invariant.antt =====
-- What holds of the broker's grants at all times, and how a grant may develop.
pub mod Writes
pub mod Updates
pub mod Creation
pub mod Guards
pub mod Approve
pub mod Consume
pub mod Finalize
pub mod Exchange
use warden_md.Common.{
  truthy, is_some, ℕ, ◌≤◌, String, ◌≡◌, refl, ◌∙◌, Bool, true, false, Option, none, some, arith,
}
use warden_md.Common.Map
use warden_md.Broker.Types.{
  GrantStatus, proposed, approved, consumed, revoked, expired, denied, Grant,
}
use warden_md.Broker.Core.{Deps, Broker, prefixed}

-- Statuses from which a grant never moves on.
abbrev pub is_closed : GrantStatus → Bool
is_closed revoked = true
is_closed expired = true
is_closed _ = false

abbrev pub is_active : GrantStatus → Bool
is_active approved = true
is_active consumed = true
is_active _ = false

-- The statuses that a grant with the first status may have later.
abbrev pub may_become : GrantStatus → GrantStatus → Bool
may_become proposed denied = false
may_become proposed _ = true
may_become approved proposed = false
may_become approved denied = false
may_become approved _ = true
may_become consumed consumed = true
may_become consumed revoked = true
may_become consumed expired = true
may_become consumed _ = false
may_become revoked revoked = true
may_become revoked _ = false
may_become expired expired = true
may_become expired _ = false
may_become denied denied = true
may_become denied _ = false

pub may_become_refl : (a : GrantStatus) → may_become a a ≡ true
may_become_refl a = ground arith

pub may_become_trans :
    (a b c : GrantStatus) → may_become a b ≡ true → may_become b c ≡ true → may_become a c ≡ true
may_become_trans proposed b c h k = ground arith
may_become_trans _ b c h k = ground arith

-- The part of a grant that is fixed when it is created.
abbrev pub terms : Grant → Grant
terms grant = record grant {
  status = proposed;
  approver = none;
  issued_at = none;
  consumed_at = none;
  completed_at = none;
  completion_source = none;
  evidence_id = none;
}

abbrev pub grant_at : String → Broker → Option Grant
grant_at k s = Map.get k s.store.grants

abbrev pub holder_of : String → Broker → Option String
holder_of token s = Map.get token s.store.subject_token_grant

abbrev pub has_evidence : String → Broker → Bool
has_evidence k s = is_some (Map.get k s.store.evidence)

module _ (d : Deps) where
  abbrev pub grant_name : ℕ → String
  grant_name n = prefixed "grant" (d.random_uuid n)

  pub record IsWellFormed (s : Broker) : Type 0 where
    -- A grant is stored under its own identifier, which is not empty.
    pub keyed : (k : String) (g : Grant) → grant_at k s ≡ some g → g.id ≡ k
    pub named : (k : String) (g : Grant) → grant_at k s ≡ some g → truthy k ≡ true
    -- An active grant was issued, and an issued grant holds its subject token.
    pub issued :
        (k : String) (g : Grant)
        → grant_at k s ≡ some g
        → is_active g.status ≡ true
        → is_some g.issued_at ≡ true
    pub holds :
        (k : String) (g : Grant)
        → grant_at k s ≡ some g
        → is_some g.issued_at ≡ true
        → holder_of g.subject_token_id s ≡ some k
    -- Exactly the closed grants have evidence.
    pub closed :
        (k : String) (g : Grant) → grant_at k s ≡ some g → is_closed g.status ≡ has_evidence k s
    pub no_orphan : (k : String) → grant_at k s ≡ none → has_evidence k s ≡ false
    -- Identifiers that were not drawn yet are not in use.
    pub unused : (n : ℕ) → s.drawn ≤ n → grant_at (grant_name n) s ≡ none

-- One grant later: its terms are the same and its status has moved on as it may.
pub record Develops (g h : Grant) : Type 0 where
  pub terms_kept : terms h ≡ terms g
  pub status_moved : may_become g.status h.status ≡ true

pub Develops-refl : (g : Grant) → Develops g g
Develops-refl g = record { terms_kept = refl; status_moved = may_become_refl g.status }

pub Develops-trans : (g h i : Grant) → Develops g h → Develops h i → Develops g i
Develops-trans g h i p q = record {
  terms_kept = q.terms_kept ∙ p.terms_kept;
  status_moved = may_become_trans g.status h.status i.status p.status_moved q.status_moved;
}

-- Every grant of the first state is there in the second, developed.
pub record Evolves (s t : Broker) : Type 0 where
  pub later :
      (k : String) (g : Grant)
      → grant_at k s ≡ some g
      → (h : Grant) × (grant_at k t ≡ some h) × Develops g h

pub Evolves-refl : (s : Broker) → Evolves s s
Evolves-refl s = record { later = λ k g h. (g, h, Develops-refl g) }

pub Evolves-trans : (s t u : Broker) → Evolves s t → Evolves t u → Evolves s u
Evolves-trans s t u p q = record {
  later = λ k g at.
      let (h, at_t, first) = p.later k g at in
      let (i, at_u, second) = q.later k h at_t in (i, at_u, Develops-trans g h i first second);
}

-- What each operation keeps: well-formedness, and the development since the state `s`.
pub record Good (d : Deps) (s t : Broker) : Type 0 where
  pub formed : IsWellFormed d t
  pub evolved : Evolves s t
