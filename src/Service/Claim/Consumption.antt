-- ===== src/Service/Claim/Consumption.antt =====
-- What a granted consumption of a claim says.
use warden_md.Common.{
  Bool-cases, is_some, ok, is_ok, bind-eq-ok, Result-cases, ℕ, ◌≡◌, refl, sym, subst, inl, inr,
  true, false, not, ◌||◌, some, arith, eq_refl,
}
use warden_md.Common.Map
use warden_md.Common.Map.{Map, get-set}
use warden_md.Service.Types.{
  ClaimStatus, pending, user_verified, approved, denied, expired, same_claim_status, ClaimRecord,
}
use warden_md.Service.Claim.{
  ClaimDeps, Ceremony, with_version, as_expired, claim_now, expire_if_needed,
}
use warden_md.Service.Claim.Operations.{consume_current, consume_found}
use warden_md.Service.Claim.Follows.{Grows, Known, Known-Advances}
use warden_md.Service.Claim.Transition.{written, transition-cases}
use warden_md.Service.Claim.Advance.{tick, Advances-tick, expire-cases}

same_approved : (a : ClaimStatus) → same_claim_status a approved ≡ true → a ≡ approved
same_approved approved h = refl
same_approved pending h = cc
same_approved user_verified h = cc
same_approved denied h = cc
same_approved expired h = cc

module _ (d : ClaimDeps) (c : ClaimRecord) where
  abbrev used_at : ℕ → ClaimRecord → ClaimRecord
  used_at at claim = record claim { grant_used_at = some at }

  -- A granted consumption found the record in the store, unused, and has stored its use.
  pub record Granted (s : Ceremony) (r : ClaimRecord) (t : Ceremony) : Type 0 where
    pub here : Map.get c.id s.claims ≡ some c
    pub unused : is_some c.grant_used_at ≡ false
    pub was_approved : c.status ≡ approved
    pub used : is_some r.grant_used_at ≡ true
    pub stored : Map.get c.id t.claims ≡ some r

  granted :
      (s : Ceremony) (at : ℕ)
      → Map.get c.id s.claims ≡ some c
      → not (same_claim_status c.status approved) || is_some c.grant_used_at ≡ false
      → Granted s (with_version c (used_at at)) (written (with_version c (used_at at)) (tick d c s))
  unfolding with_version
  granted s at here open_claim = record {
    here = here;
    unused = ground (arith, open_claim);
    was_approved = same_approved c.status (ground (arith, open_claim));
    used = refl;
    stored = rw (get-set c.id c.id (with_version c (used_at at)) s.claims, eq_refl c.id) refl;
  }

  consume_current-eq-ok :
      (s : Ceremony) {r : ClaimRecord}
      → Known c s
      → (consume_current d c s).0 ≡ ok r
      → Granted s r (consume_current d c s).1
  unfolding consume_current claim_now
  consume_current-eq-ok s {r} k h = elim (Bool-cases (same_claim_status c.status expired)) [
    | inl late ↦ absurd (cc (rw late at h))
    | inr alive ↦
        elim (Bool-cases (not (same_claim_status c.status approved) || is_some c.grant_used_at)) [
          | inl refused ↦ absurd (cc (rw (alive, refused) at h))
          | inr open_claim ↦
              elim (transition-cases c (used_at (d.clock s.ticks)) (tick d c s)
                (Known-Advances c s (tick d c s) k (Advances-tick d c s))) [
                  | inl (here, done) ↦
                      rw (alive, open_claim, done)
                        (let one : with_version c (used_at (d.clock s.ticks)) ≡ r =
                            cc (rw (alive, open_claim, done) at h) in
                          subst
                            (λ x.
                              Granted s x
                                (written (with_version c (used_at (d.clock s.ticks))) (tick d c s)))
                            one (granted s (d.clock s.ticks) here open_claim))
                  | inr (failed, same) ↦ absurd (cc (rw (alive, open_claim) at h, failed))
                ]
        ]
  ]

  pub consume-eq-ok :
      (s : Ceremony) {r : ClaimRecord}
      → Known c s
      → (consume_found d c s).0 ≡ ok r
      → Granted s r (consume_found d c s).1
  unfolding consume_found with_version
  consume-eq-ok s {r} k h = elim (expire-cases d c s) [
    | inl e ↦ rw e (again (consume_current-eq-ok (tick d c s) known (rw e at h)))
    | inr e ↦ elim (transition-cases c as_expired (tick d c s) known) [
      | inl (here, done) ↦ absurd (unfold consume_current in cc (rw (e, done) at h))
      | inr (failed, same) ↦
          let (a, first, rest) = bind-eq-ok (expire_if_needed d c) (consume_current d) s h in
          absurd (cc (e, failed, first))
    ]
  ]
    where
      known : Known c (tick d c s)
      known = Known-Advances c s (tick d c s) k (Advances-tick d c s)

      again : {t : Ceremony} → Granted (tick d c s) r t → Granted s r t
      again g = record {
        here = g.here;
        unused = g.unused;
        was_approved = g.was_approved;
        used = g.used;
        stored = g.stored;
      }

module _ (d : ClaimDeps) where
  -- A record whose claim is used by now is not consumed.
  used-refused :
      (other found : ClaimRecord) (t : Ceremony)
      → Known other t
      → Map.get other.id t.claims ≡ some found
      → is_some found.grant_used_at ≡ true
      → is_ok (consume_found d other t).0 ≡ false
  used-refused other found t k here used = elim (Result-cases (consume_found d other t).0) [
    | inl (r, e) ↦ let g = consume-eq-ok d other t k e in absurd (cc (here, used, g.here, g.unused))
    | inr (x, e) ↦ rw e refl
  ]

  -- Two requests may hold records of one claim that they read at any earlier times. If the
  -- consumption of one is granted, then the consumption of the other, at any later state of the
  -- store, is refused.
  pub consumed_once :
      (c other : ClaimRecord) (s t : Ceremony) {r : ClaimRecord}
      → Known c s
      → (consume_found d c s).0 ≡ ok r
      → Grows (consume_found d c s).1 t
      → Known other t
      → other.id ≡ c.id
      → is_ok (consume_found d other t).0 ≡ false
  consumed_once c other s t {r} k h a k' same =
      let g = consume-eq-ok d c s k h in
      let (next, here, f) = a.claims c.id r g.stored in
      used-refused other next t k' (rw same here) (rw (sym (f.used g.used)) g.used)
