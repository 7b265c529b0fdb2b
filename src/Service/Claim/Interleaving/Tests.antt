-- ===== src/Service/Claim/Interleaving/Tests.antt =====
-- Two requests that hold one record of an approved claim.
use warden_md.Common.{is_ok, ℕ, ◌≡◌, refl, inl, inr, false, none, some, List, [], ◌∷◌}
use warden_md.Common.Map
use warden_md.Broker.Example.{tally, tally-IsDistinct}
use warden_md.Service.Types.{pending, user_verified, approved, ClaimRecord}
use warden_md.Service.Code.{code_from_identifier}
use warden_md.Service.RateLimit.{opens_window, take}
use warden_md.Service.Claim.{
  ClaimDeps, default_claim_options, with_version, find_claim_by_id, create_claim, may_replace,
  compare_and_set, transition, claim_now, next_identifier, take_allowance, expire_if_needed,
}
use warden_md.Service.Claim.Operations.{
  decide_approved, new_claim, start, verify_current, verify_found, decide_current, decide_found,
  consume_current, consume_found,
}
use warden_md.Service.Claim.Follows.{Follows}
use warden_md.Service.Claim.Interleaving.{
  World, after, Step, starts, reads, verifies, decides, consumes, Steps, here, then,
}
use warden_md.Service.Claim.Interleaving.Safety.{quiet, one_grant_per_claim, claims_develop}

-- Everything that a request computes with.
unfoldable ceremony_machine : Unit {0}
unfolding start new_claim code_from_identifier verify_found verify_current decide_found
    decide_current consume_found consume_current expire_if_needed transition compare_and_set
    may_replace find_claim_by_id create_claim with_version claim_now next_identifier take_allowance
    take opens_window Map.get Map.set
ceremony_machine = tt

abbrev ceremony_deps : ClaimDeps
ceremony_deps = record {
  clock = λ n. 1000;
  next = λ n prefix. tally n;
  sha256 = λ t. t;
  to_upper_case = λ t. t;
  options = default_claim_options;
}

-- The claim after its start, after the person typed in the code, and after the approval.
abbrev first_claim : ClaimRecord
first_claim = record {
  id = "ii";
  identity_id = "identity";
  user_code_hash = "iXXX-XXXX-XXXX-XXXi";
  device_code_hash = "";
  status = pending;
  scopes = "read" ∷ [];
  resource = none;
  created_at = 1000;
  expires_at = 601000;
  interval_seconds = 5;
  last_poll_at = none;
  verification_attempts = 0;
  user_code_used_at = none;
  grant_used_at = none;
  version = 1;
}

abbrev second_claim : ClaimRecord
second_claim = record first_claim {
  status = user_verified;
  user_code_used_at = some 1000;
  verification_attempts = 1;
  version = 2;
}

abbrev third_claim : ClaimRecord
third_claim = record second_claim { status = approved; version = 3 }

abbrev world_at : ℕ → ClaimRecord → List ClaimRecord → World
world_at ticks claim read = record {
  ceremony = record {
    claims = ("ii", claim) ∷ [];
    buckets = ("claim-start:ip", record { started_at = 1000; count = 1 }) ∷ [];
    ticks = ticks;
    drawn = 3;
  };
  read = read;
}

started : Step ceremony_deps quiet (world_at 1 first_claim [])
unfolding ceremony_machine tally
started = starts quiet "identity" ("read" ∷ []) none "ip"

abbrev ready : World
ready = world_at 4 third_claim (third_claim ∷ second_claim ∷ first_claim ∷ [])

-- Everything up to the approval, and the read of the approved claim.
past :
    Steps ceremony_deps quiet
      (world_at 4 third_claim (third_claim ∷ second_claim ∷ first_claim ∷ []))
unfolding ceremony_machine tally
past = then quiet (world_at 1 first_claim []) _ started (
    then _ (world_at 1 first_claim (first_claim ∷ [])) _ (reads _ first_claim refl) (
      then _ (world_at 3 second_claim (first_claim ∷ [])) _ (verifies _ first_claim (inl refl)) (
        then _ (world_at 3 second_claim (second_claim ∷ first_claim ∷ [])) _
          (reads _ second_claim refl)
          (then _ (world_at 4 third_claim (second_claim ∷ first_claim ∷ [])) _
            (decides _ second_claim decide_approved (inl refl))
            (then _ (world_at 4 third_claim (third_claim ∷ second_claim ∷ first_claim ∷ [])) _
              (reads _ third_claim refl) (here _))))))

-- The other request still holds the record as the person left it.
one_grant_per_claim_example :
    is_ok
      (consume_found ceremony_deps second_claim
        (after (consume_found ceremony_deps third_claim) ready).ceremony).0
    ≡ false
unfolding ceremony_machine tally
one_grant_per_claim_example =
    one_grant_per_claim ceremony_deps tally-IsDistinct ready
      (after (consume_found ceremony_deps third_claim) ready) third_claim second_claim past
      (inl refl) refl (here _) (inr (inl refl)) refl

claims_develop_example :
    (next : ClaimRecord) × (Map.get "ii"
        (after (consume_found ceremony_deps third_claim) ready).ceremony.claims
      ≡ some next)
    × Follows third_claim next
unfolding ceremony_machine tally
claims_develop_example =
    claims_develop ceremony_deps tally-IsDistinct ready
      (after (consume_found ceremony_deps third_claim) ready) "ii" third_claim past
      (then _ _ _ (consumes ready third_claim (inl refl)) (here _)) refl
