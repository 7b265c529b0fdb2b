-- ===== src/Service/ClaimState/Refinement.antt =====
-- packages/service/src/repository.ts: `DurableObjectClaimState` behaves as the claims of
-- `InMemoryServiceStore` do, for the calls that the claim ceremony makes.
use warden_md.Common.{
  Bool-cases, ok, String, ◌≡◌, refl, sym, ap, ◌∙◌, inl, inr, ◌||◌, Option, none, some, arith,
  eq_refl,
}
use warden_md.Common.Map.{Map}
use warden_md.Common.Map
use warden_md.Service.Types.{ClaimRecord}
use warden_md.Service.Claim.{Ceremony, find_claim_by_id, create_claim, may_replace, compare_and_set}
use warden_md.Service.Claim.Follows.{Follows, Known}
use warden_md.Service.ClaimState.{
  ClaimState, is_given, create_durable_claim, find_durable_claim, may_swap, compare_and_set_durable,
}

-- The two repositories hold the same claims.
abbrev pub Agrees : Ceremony → ClaimState → Type 0
Agrees c s = c.claims ≡ s.claims

abbrev claims_or : Map ClaimRecord → Option ClaimState → Map ClaimRecord
claims_or claims none = claims
claims_or claims (some t) = t.claims

-- A write that keeps what a claim is found by, as every transition of the ceremony does.
pub record KeepsNames (previous next : ClaimRecord) : Type 0 where
  pub id : next.id ≡ previous.id
  pub user_code_hash : next.user_code_hash ≡ previous.user_code_hash
  pub device_code_hash : next.device_code_hash ≡ previous.device_code_hash

may_swap-may_replace :
    (stored previous next : ClaimRecord)
    → KeepsNames previous next
    → Follows previous stored
    → may_swap (some stored) previous next ≡ may_replace (some stored) previous next
unfolding may_swap may_replace
may_swap-may_replace stored previous next kept follows =
    rw
      (
        kept.id,
        kept.user_code_hash,
        kept.device_code_hash,
        sym follows.user_code_hash,
        sym follows.device_code_hash,
        eq_refl previous.id,
        eq_refl previous.user_code_hash,
        eq_refl previous.device_code_hash,
      )
      (ground arith)

swap-Agrees :
    (previous next : ClaimRecord) (c : Ceremony) (s : ClaimState)
    → Agrees c s
    → Known previous c
    → KeepsNames previous next
    → ((compare_and_set previous next c).0 ≡ ok (compare_and_set_durable previous next s).0)
      × Agrees (compare_and_set previous next c).1 (compare_and_set_durable previous next s).1
unfolding compare_and_set compare_and_set_durable
swap-Agrees previous next c s same known kept =
    elim (Bool-cases (may_replace (some known.stored) previous next)) [
      | inl good ↦
          rw (known.there, good, there, test ∙ good)
            (refl, ap (λ (m : Map ClaimRecord). Map.set next.id next m) same)
      | inr bad ↦ rw (known.there, bad, there, test ∙ bad) (refl, same)
    ]
  where
    there : Map.get previous.id s.claims ≡ some known.stored
    there = ap (λ (m : Map ClaimRecord). Map.get previous.id m) (sym same) ∙ known.there

    test :
        may_swap (some known.stored) previous next ≡ may_replace (some known.stored) previous next
    test = may_swap-may_replace known.stored previous next kept known.follows

-- On repositories with the same claims, a lookup by identifier gives the same answer, a creation that
-- the object does not refuse leaves the same claims, and a `compareAndSet` of a record that was read
-- and is replaced by one with its names gives the same answer and leaves the same claims.
pub durable_claims_refine :
    (previous next claim : ClaimRecord) (id : String) (c : Ceremony) (s : ClaimState)
    → Agrees c s
    → Known previous c
    → KeepsNames previous next
    → ((find_claim_by_id id c).0 ≡ ok (find_durable_claim id s))
      × ((t : ClaimState)
          → create_durable_claim claim s ≡ some t
          → Agrees (create_claim claim c).1 t)
      × ((compare_and_set previous next c).0 ≡ ok (compare_and_set_durable previous next s).0)
      × Agrees (compare_and_set previous next c).1 (compare_and_set_durable previous next s).1
unfolding find_claim_by_id find_durable_claim create_durable_claim create_claim compare_and_set
    compare_and_set_durable
durable_claims_refine previous next claim id c s same known kept = (
  rw same refl,
  λ t h.
      elim (Bool-cases (
        Map.has claim.id s.claims
        || is_given (Map.get claim.user_code_hash s.user_codes)
        || is_given (Map.get claim.device_code_hash s.device_codes))) [
          | inl taken ↦ absurd (cc (rw taken at h))
          | inr free ↦
              ap (λ (m : Map ClaimRecord). Map.set claim.id claim m) same
              ∙ ap (claims_or s.claims) (rw free at h)
        ],
  (swap-Agrees previous next c s same known kept).0,
  (swap-Agrees previous next c s same known kept).1,
)
