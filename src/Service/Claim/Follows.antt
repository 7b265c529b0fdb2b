-- ===== src/Service/Claim/Follows.antt =====
-- How a stored claim changes: versions count its writes, its terms are fixed, and a use stays.
use warden_md.Common.{is_some, ◌≤◌, String, ◌≡◌, refl, sym, ◌∙◌, true, none, some, arith}
use warden_md.Common.Map
use warden_md.Common.Map.{Map}
use warden_md.Service.Types.{ClaimRecord}
use warden_md.Service.Claim.{Ceremony}

-- The claim `next` is a later state of the claim `old`.
pub record Follows (old next : ClaimRecord) : Type 0 where
  pub later : old.version ≤ next.version
  pub same : old.version ≡ next.version → old ≡ next
  pub id : old.id ≡ next.id
  pub identity_id : old.identity_id ≡ next.identity_id
  pub scopes : old.scopes ≡ next.scopes
  pub resource : old.resource ≡ next.resource
  pub expires_at : old.expires_at ≡ next.expires_at
  pub user_code_hash : old.user_code_hash ≡ next.user_code_hash
  pub device_code_hash : old.device_code_hash ≡ next.device_code_hash
  pub used : is_some old.grant_used_at ≡ true → old.grant_used_at ≡ next.grant_used_at

pub Follows-refl : (c : ClaimRecord) → Follows c c
Follows-refl c = record {
  later = omega arith;
  same = λ _. refl;
  id = refl;
  identity_id = refl;
  scopes = refl;
  resource = refl;
  expires_at = refl;
  user_code_hash = refl;
  device_code_hash = refl;
  used = λ _. refl;
}

pub Follows-trans : (a b c : ClaimRecord) → Follows a b → Follows b c → Follows a c
Follows-trans a b c p q = record {
  later = omega (arith, p.later, q.later);
  same = λ e.
      p.same (omega (arith, p.later, q.later, e)) ∙ q.same (omega (arith, p.later, q.later, e));
  id = p.id ∙ q.id;
  identity_id = p.identity_id ∙ q.identity_id;
  scopes = p.scopes ∙ q.scopes;
  resource = p.resource ∙ q.resource;
  expires_at = p.expires_at ∙ q.expires_at;
  user_code_hash = p.user_code_hash ∙ q.user_code_hash;
  device_code_hash = p.device_code_hash ∙ q.device_code_hash;
  used = λ u. p.used u ∙ q.used (rw (sym (p.used u)) u);
}

-- Every claim of one state is there, perhaps later, in the other.
pub record Grows (s t : Ceremony) : Type 0 where
  pub claims :
      (k : String) (old : ClaimRecord)
      → Map.get k s.claims ≡ some old
      → (next : ClaimRecord) × (Map.get k t.claims ≡ some next) × Follows old next

pub Grows-refl : (s : Ceremony) → Grows s s
Grows-refl s = record { claims = λ k old h. (old, h, Follows-refl old) }

pub Grows-trans : (s t u : Ceremony) → Grows s t → Grows t u → Grows s u
Grows-trans s t u p q = record {
  claims = λ k old h.
      let (mid, e, f) = p.claims k old h in
      let (next, e', f') = q.claims k mid e in (next, e', Follows-trans old mid next f f');
}

-- The same, with no claim and no identifier added.
pub record Advances (s t : Ceremony) : Type 0 where
  pub grows : Grows s t
  pub keys : (k : String) → Map.get k s.claims ≡ none → Map.get k t.claims ≡ none
  pub drawn : t.drawn ≡ s.drawn

pub Advances-same : (s t : Ceremony) → t.claims ≡ s.claims → t.drawn ≡ s.drawn → Advances s t
Advances-same s t e n = record {
  grows = record { claims = λ k old h. (old, rw e h, Follows-refl old) };
  keys = λ k h. rw e h;
  drawn = n;
}

pub Advances-refl : (s : Ceremony) → Advances s s
Advances-refl s = Advances-same s s refl refl

pub Advances-trans : (s t u : Ceremony) → Advances s t → Advances t u → Advances s u
Advances-trans s t u p q = record {
  grows = Grows-trans s t u p.grows q.grows;
  keys = λ k h. q.keys k (p.keys k h);
  drawn = q.drawn ∙ p.drawn;
}

-- A record that some request has read: what is stored under its identifier now follows it.
pub record Known (c : ClaimRecord) (s : Ceremony) : Type 0 where
  pub stored : ClaimRecord
  pub there : Map.get c.id s.claims ≡ some stored
  pub follows : Follows c stored

pub Known-read : (c : ClaimRecord) (s : Ceremony) → Map.get c.id s.claims ≡ some c → Known c s
Known-read c s h = record { stored = c; there = h; follows = Follows-refl c }

pub Known-Grows : (c : ClaimRecord) (s t : Ceremony) → Known c s → Grows s t → Known c t
Known-Grows c s t k a =
    let (next, e, f) = a.claims c.id k.stored k.there in
    record { stored = next; there = e; follows = Follows-trans c k.stored next k.follows f }

pub Known-Advances : (c : ClaimRecord) (s t : Ceremony) → Known c s → Advances s t → Known c t
Known-Advances c s t k a = Known-Grows c s t k a.grows
