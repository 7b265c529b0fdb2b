-- ===== src/Service/ClaimState/Alarm.antt =====
-- packages/service/src/repository.ts: that a stored claim always has an alarm that comes in time.
use warden_md.Service.ClaimState.Schedule.{remove_expired_claims-IsScheduled}
use warden_md.Common.{
  ltb, if◌then◌else◌, Bool-cases, Option-cases, get_or, includes, ℕ, ◌≤◌, String, ◌≡◌, refl, sym,
  ap, ◌∙◌, subst, ◌⊎◌, inl, inr, true, ◌||◌, Option, none, some, List, [], ◌∷◌, ◌++◌, arith, ◌==◌,
  eq_iff,
}
use warden_md.Common.Map
use warden_md.Common.Map.{Map, get-set}
use warden_md.Service.Types.{ClaimRecord}
use warden_md.Service.ClaimState.{
  ClaimState, is_given, earlier, is_sooner, create_durable_claim, may_swap, compare_and_set_durable,
  remove_expired_claims,
}
use warden_md.Service.ClaimState.Expiry.{IsScheduled}

includes-append :
    (xs : List String) (id k : String)
    → includes xs k || id == k ≡ true
    → includes (xs ++ id ∷ []) k ≡ true
includes-append [] id k h = ground (arith, h)
includes-append (x ∷ xs) id k h = ground (arith, h, includes-append xs id k)

append-nonempty : (xs : List String) (id : String) → xs ++ id ∷ [] ≡ [] → ⊥
append-nonempty [] id e = cc e
append-nonempty (x ∷ xs) id e = cc e

alarm-earlier :
    (alarm next : Option ℕ) (e : ℕ)
    → alarm ≡ next
    → (if is_sooner next e then some e else alarm) ≡ some (earlier next e)
alarm-earlier alarm none e same = ap some (omega arith)
alarm-earlier alarm (some n) e same = elim (Bool-cases (ltb e n)) [
  | inl sooner ↦ rw sooner (ap some (ground (arith, sooner)))
  | inr later ↦ rw later (same ∙ ap some (ground (arith, later)))
]

earlier-le : (next : Option ℕ) (n e : ℕ) → next ≡ some n → earlier next e ≤ n
earlier-le none n e h = absurd (cc h)
earlier-le (some m) n e h = let same : m ≡ n = cc h in omega (arith, same)

create_durable_claim-IsScheduled :
    (claim : ClaimRecord) (s : ClaimState) {t : ClaimState}
    → create_durable_claim claim s ≡ some t
    → IsScheduled s
    → IsScheduled t
unfolding create_durable_claim
create_durable_claim-IsScheduled claim s {t} h before =
    elim (Bool-cases (
      Map.has claim.id s.claims
      || is_given (Map.get claim.user_code_hash s.user_codes)
      || is_given (Map.get claim.device_code_hash s.device_codes))) [
        | inl taken ↦ absurd (cc (rw taken at h))
        | inr free ↦ subst IsScheduled (cc (rw free at h)) created
      ]
  where
    next : ClaimState
    next = record {
      claims = Map.set claim.id claim s.claims;
      user_codes = Map.set claim.user_code_hash claim.id s.user_codes;
      device_codes = Map.set claim.device_code_hash claim.id s.device_codes;
      active_claim_ids = some (get_or s.active_claim_ids [] ++ claim.id ∷ []);
      next_expiry = some (earlier s.next_expiry claim.expires_at);
      alarm = if is_sooner s.next_expiry claim.expires_at then some claim.expires_at else s.alarm;
    }

    which :
        (k : String) (c : ClaimRecord)
        → Map.get k next.claims ≡ some c
        → ((claim.id ≡ k) × (claim ≡ c)) ⊎ (Map.get k s.claims ≡ some c)
    which k c found =
        let at = sym (get-set claim.id k claim s.claims) ∙ found in
        elim (Bool-cases (claim.id == k)) [
          | inl same ↦ inl ((eq_iff claim.id k).0 same, cc (rw same at at))
          | inr apart ↦ inr (rw apart at at)
        ]

    created : IsScheduled next
    created = record {
      keyed = λ k c found. elim (which k c found) [
        | inl (here, same) ↦ subst (λ (x : ClaimRecord). x.id ≡ k) same here
        | inr old ↦ before.keyed k c old
      ];
      active = λ k c found.
          includes-append (get_or s.active_claim_ids []) claim.id k (elim (which k c found) [
            | inl (here, same) ↦ ground (arith, (eq_iff claim.id k).1 here)
            | inr old ↦ ground (arith, before.active k c old)
          ]);
      early = λ k c found. (
        earlier s.next_expiry claim.expires_at,
        refl,
        elim (which k c found) [
          | inl (here, same) ↦
              subst (λ (x : ClaimRecord). earlier s.next_expiry claim.expires_at ≤ x.expires_at)
                same (omega arith)
          | inr old ↦
              let (n, there, low) = before.early k c old in
              omega (arith, low, earlier-le s.next_expiry n claim.expires_at there)
        ],
      );
      alarmed = alarm-earlier s.alarm s.next_expiry claim.expires_at before.alarmed;
      idle = λ e. absurd (append-nonempty (get_or s.active_claim_ids []) claim.id e);
    }

compare_and_set_durable-IsScheduled :
    (previous next : ClaimRecord) (s : ClaimState)
    → previous.expires_at ≤ next.expires_at
    → ((stored : ClaimRecord)
        → Map.get previous.id s.claims ≡ some stored
        → stored.expires_at ≡ previous.expires_at)
    → IsScheduled s
    → IsScheduled (compare_and_set_durable previous next s).1
unfolding compare_and_set_durable may_swap
compare_and_set_durable-IsScheduled previous next s later fixed before =
    elim (Option-cases (Map.get previous.id s.claims)) [
      | inl gone ↦ rw gone before
      | inr (stored, there) ↦ elim (Bool-cases (may_swap (some stored) previous next)) [
        | inr refused ↦ rw (there, refused) before
        | inl swapped ↦
            rw (there, swapped)
              (written stored there ((eq_iff next.id previous.id).0 (ground (arith, swapped))))
      ]
    ]
  where
    written :
        (stored : ClaimRecord)
        → Map.get previous.id s.claims ≡ some stored
        → next.id ≡ previous.id
        → IsScheduled (record s { claims = Map.set next.id next s.claims })
    written stored there id =
        let which : (k : String) (c : ClaimRecord)
            → Map.get k (Map.set next.id next s.claims) ≡ some c
            → ((next.id ≡ k) × (next ≡ c)) ⊎ (Map.get k s.claims ≡ some c) =
          λ k c found.
            let at = sym (get-set next.id k next s.claims) ∙ found in
            elim (Bool-cases (next.id == k)) [
              | inl same ↦ inl ((eq_iff next.id k).0 same, cc (rw same at at))
              | inr apart ↦ inr (rw apart at at)
            ] in
        record {
          keyed = λ k c found. elim (which k c found) [
            | inl (here, same) ↦ subst (λ (x : ClaimRecord). x.id ≡ k) same here
            | inr old ↦ before.keyed k c old
          ];
          active = λ k c found. elim (which k c found) [
            | inl (here, same) ↦ before.active k stored (rw (sym here, id) there)
            | inr old ↦ before.active k c old
          ];
          early = λ k c found. elim (which k c found) [
            | inl (here, same) ↦
                let (n, first, low) = before.early previous.id stored there in
                (
                  n,
                  first,
                  subst (λ (x : ClaimRecord). n ≤ x.expires_at) same
                      (omega (arith, low, later, fixed stored there)),
                )
            | inr old ↦ before.early k c old
          ];
          alarmed = before.alarmed;
          idle = before.idle;
        }

-- The states that an object can be in: claims are created, swapped for a later record with the same
-- expiry, and removed when their time has come.
pub data Reached : ClaimState → Type 0 where
  empty : Reached (record {
    claims = [];
    user_codes = [];
    device_codes = [];
    active_claim_ids = none;
    next_expiry = none;
    alarm = none;
  })
  created :
      (claim : ClaimRecord) {s t : ClaimState}
      → Reached s
      → create_durable_claim claim s ≡ some t
      → Reached t
  swapped :
      (previous next : ClaimRecord) {s : ClaimState}
      → Reached s
      → previous.expires_at ≤ next.expires_at
      → ((stored : ClaimRecord)
          → Map.get previous.id s.claims ≡ some stored
          → stored.expires_at ≡ previous.expires_at)
      → Reached (compare_and_set_durable previous next s).1
  removed : (now : ℕ) {s : ClaimState} → Reached s → Reached (remove_expired_claims now s).1

-- In every state that is reached, each stored claim is listed as active under its identifier, and an
-- alarm is set for no later than the claim's expiry.
pub Reached-IsScheduled : {s : ClaimState} → Reached s → IsScheduled s
unfolding Map.get
Reached-IsScheduled empty = record {
  keyed = λ k c found. absurd (cc found);
  active = λ k c found. absurd (cc found);
  early = λ k c found. absurd (cc found);
  alarmed = refl;
  idle = λ e. refl;
}
Reached-IsScheduled (created claim {s} r h) =
    create_durable_claim-IsScheduled claim s h (Reached-IsScheduled r)
Reached-IsScheduled (swapped previous next {s} r later fixed) =
    compare_and_set_durable-IsScheduled previous next s later fixed (Reached-IsScheduled r)
Reached-IsScheduled (removed now {s} r) =
    (remove_expired_claims-IsScheduled now s (Reached-IsScheduled r)).0
